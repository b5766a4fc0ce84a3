-- ===== src/Coach/Loop/Pairs.antt =====
-- A baseline and its retries, from cloudflare/public/coach-loop.js: what is stored with a summary is
-- read back, and a retry belongs to the baseline that it was made of.
use non_stop_talk.Prelude.{
  ◌≡◌, ◌≢◌, refl, ap, ◌∙◌, true, not, ◌||◌, Option, none, some, arith, inl, inr, Option-cases,
  Bool-cases,
}
use non_stop_talk.Text.{Text, same_text}
use non_stop_talk.Text.Laws.{same_text_iff, same_text_refl}
use non_stop_talk.Js.{fields_of, Js, str, Fields, field_of, keys, truthy, end, field}
use non_stop_talk.Room.{contains_text}
use non_stop_talk.Room.Packs.{codes}
use non_stop_talk.Coach.Loop.{
  Role, standalone, baseline, retry, Mode, live_cues, review_only, ok, Relationship, valid,
  opaque_id, loop_field, baseline_field, role_field, mode_field, role_of, mode_of, role_name,
  mode_name, id_value, relationship_for_summary, has_relationship_fields,
  normalize_attempt_relationship, in_loop, retried, paired, alone, is_standalone,
}

-- A summary that carries its session's id and its relationship, among other fields.
pub record Carries (summary : Js) (id : Text) (r : Relationship) : Type 0 where
  pub its_id : field_of (codes "id") (fields_of summary) ≡ str id
  pub its_loop : loop_field summary ≡ id_value r.loop_id
  pub its_baseline : baseline_field summary ≡ id_value r.baseline_id
  pub its_role : role_field summary ≡ str (role_name r.role)
  pub its_mode : mode_field summary ≡ str (mode_name r.mode)

key_there :
    (key : Text) (fields : Fields) (s : Text)
    → field_of key fields ≡ str s
    → contains_text key (keys fields) ≡ true
unfolding field_of keys
key_there key end s h = absurd (ground arith)
key_there key (field k v rest) s h = ground (arith, h, key_there key rest s)

role_of_name : (r : Role) → role_of (str (role_name r)) ≡ some r
unfolding role_of same_text
role_of_name standalone = refl
role_of_name baseline = refl
role_of_name retry = refl

mode_of_name : (m : Mode) → mode_of (str (mode_name m)) ≡ some m
unfolding mode_of same_text
mode_of_name live_cues = refl
mode_of_name review_only = refl

pub opaque_id_lem : (v : Js) (s : Text) → opaque_id v ≡ some s → opaque_id (str s) ≡ some s
unfolding opaque_id
opaque_id_lem (str t) s h = ground arith
opaque_id_lem _ s h = absurd (ground arith)

pub opaque_str : (s t : Text) → opaque_id (str s) ≡ some t → t ≡ s
unfolding opaque_id
opaque_str s t h = ground arith

-- The relationships that are well formed for a session.
abbrev Fits : Text → Role → Option Text → Option Text → Mode → Type 0
Fits id standalone none none live_cues = Unit
Fits id baseline (some loop) (some first) review_only =
    (opaque_id (str loop) ≡ some loop) × (first ≡ id)
Fits id retry (some loop) (some first) review_only =
    (opaque_id (str loop) ≡ some loop) × (opaque_id (str first) ≡ some first) × (first ≢ id)
Fits id role loop first mode = ⊥

abbrev pub IsFitting : Text → Relationship → Type 0
IsFitting id r = Fits id r.role r.loop_id r.baseline_id r.mode

fields_there :
    (summary : Js) (s : Text) → role_field summary ≡ str s → has_relationship_fields summary ≡ true
unfolding has_relationship_fields
fields_there summary s h = ground (arith, key_there (codes "attemptRole") (fields_of summary) s h)

fitting_read :
    (summary : Js) (id : Text) (role : Role) (loop first : Option Text) (mode : Mode)
    → opaque_id (str id) ≡ some id
    → Fits id role loop first mode
    → Carries summary id (record { loop_id = loop; baseline_id = first; role = role; mode = mode })
    → normalize_attempt_relationship summary
      ≡ valid (record { loop_id = loop; baseline_id = first; role = role; mode = mode })
unfolding normalize_attempt_relationship
fitting_read summary id standalone none none live_cues good fit has =
    rw
      (
        fields_there summary _ has.its_role,
        has.its_role,
        role_of_name standalone,
        has.its_mode,
        mode_of_name live_cues,
        has.its_loop,
        has.its_baseline,
      )
      refl
fitting_read summary id baseline (some loop) (some first) review_only good fit has =
    rw
      (
        fields_there summary _ has.its_role,
        has.its_role,
        role_of_name baseline,
        has.its_mode,
        mode_of_name review_only,
        has.its_loop,
        has.its_baseline,
        has.its_id,
        fit.0,
        fit.1,
        good,
      )
      (ground (arith, same_text_refl id))
fitting_read summary id retry (some loop) (some first) review_only good fit has =
    rw
      (
        fields_there summary _ has.its_role,
        has.its_role,
        role_of_name retry,
        has.its_mode,
        mode_of_name review_only,
        has.its_loop,
        has.its_baseline,
        has.its_id,
        fit.0,
        fit.1,
        good,
      )
      (ground (arith, fit.2, same_text_iff first id))
fitting_read summary id _ _ _ _ good fit has = absurd (ground (arith, fit))

retried_fits :
    (loop id : Text) (first : Option Text) (r : Relationship)
    → opaque_id (str loop) ≡ some loop
    → ((s : Text) → first ≡ some s → opaque_id (str s) ≡ some s)
    → retried loop id first ≡ ok r
    → IsFitting id r
retried_fits loop id none r good formed h = absurd (ground arith)
retried_fits loop id (some first) r good formed h =
    let same : r ≡ paired loop first retry = ground arith in
    let apart : first ≢ id = λ e. ground (arith, h, e, same_text_refl id, same_text_iff first id) in
    rw same (good, formed first refl, apart)

in_loop_fits :
    (state : Js) (id : Text) (loop : Option Text) (role : Option Role) (r : Relationship)
    → ((s : Text) → loop ≡ some s → opaque_id (str s) ≡ some s)
    → in_loop state id loop role ≡ ok r
    → IsFitting id r
in_loop_fits state id none role r formed h = absurd (ground arith)
in_loop_fits state id (some loop) (some baseline) r formed h =
    let same : r ≡ paired loop id baseline = ground arith in rw same (formed loop refl, refl)
in_loop_fits state id (some loop) (some retry) r formed h =
    retried_fits loop id (opaque_id (baseline_field state)) r (formed loop refl)
      (λ s e. opaque_id_lem (baseline_field state) s e) h
in_loop_fits state id (some loop) (some standalone) r formed h = absurd (ground arith)
in_loop_fits state id (some loop) none r formed h = absurd (ground arith)

pub stored_fits :
    (state : Js) (session : Text) (r : Relationship)
    → relationship_for_summary state (str session) ≡ ok r
    → (opaque_id (str session) ≡ some session) × IsFitting session r
unfolding relationship_for_summary
stored_fits state session r h = elim (Option-cases (opaque_id (str session))) [
  | inl bad ↦ absurd (ground (arith, bad))
  | inr (id, e) ↦
      let good : opaque_id (str session) ≡ some session = e ∙ ap some (opaque_str session id e) in
      elim (Bool-cases (not (truthy state) || is_standalone (role_of (role_field state)))) [
        | inl lone ↦ let same : r ≡ alone = ground (arith, good, lone) in (good, rw same tt)
        | inr looped ↦ (
          good,
          in_loop_fits state session (opaque_id (loop_field state)) (role_of (role_field state)) r
              (λ s f. opaque_id_lem (loop_field state) s f) (ground (arith, good, looped)),
        )
      ]
]

-- What relationshipForSummary gives a session, whatever the state it is asked for, is read back from
-- any summary that carries it, valid and unchanged.
pub relationship_read_back :
    (state : Js) (session : Text) (r : Relationship) (summary : Js)
    → relationship_for_summary state (str session) ≡ ok r
    → Carries summary session r
    → normalize_attempt_relationship summary ≡ valid r
relationship_read_back state session r summary h has =
    let (good, fit) = stored_fits state session r h in
    fitting_read summary session r.role r.loop_id r.baseline_id r.mode good fit has
