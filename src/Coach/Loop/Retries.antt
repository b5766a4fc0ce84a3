-- ===== src/Coach/Loop/Retries.antt =====
-- The retries of a baseline, from cloudflare/public/coach-loop.js.
use non_stop_talk.Prelude.{◌≡◌, ◌≢◌, refl, ap, ◌∙◌, sym, Option, none, some, arith}
use non_stop_talk.Text.{Text, same_text}
use non_stop_talk.Text.Laws.{same_text_iff, same_text_refl}
use non_stop_talk.Js.{fields_of, Js, str, field_of, truthy}
use non_stop_talk.Room.Packs.{codes}
use non_stop_talk.Coach.Loop.{
  Role, standalone, baseline, retry, Mode, review_only, ok, Relationship, Normalized, valid,
  invalid, legacy, opaque_id, loop_field, baseline_field, role_field, mode_field, role_of, mode_of,
  relationship_value, relationship_for_summary, normalize_attempt_relationship, create_retry_state,
  paired, normalize_pair, normalize_known, normalize_roles,
}

opaque_is : (v : Js) (s : Text) → opaque_id v ≡ some s → v ≡ str s
unfolding opaque_id
opaque_is (str t) s h = ap str (ground arith)
opaque_is _ s h = absurd (ground arith)

-- The loop and the session of a summary that is a valid baseline.
abbrev IsBaseline : Option Text → Option Text → Relationship → Type 0
IsBaseline loop session r =
    (l : Text) × (first : Text) × (loop ≡ some l)
    × (session ≡ some first)
    × (r ≡ paired l first baseline)

pair_lem :
    (v : Js) (mode : Mode) (loop first session : Option Text) (r : Relationship)
    → normalize_pair v baseline mode loop first session ≡ valid r
    → IsBaseline loop session r
pair_lem v review_only (some l) (some first) (some id) r h =
    (l, first, refl, ap some (ground (arith, h, same_text_iff first id)), ground (arith, h))
pair_lem v _ _ _ _ r h = absurd (ground (arith, h))

known_lem :
    (v : Js) (role : Role) (mode : Mode) (r : Relationship)
    → normalize_known v role mode ≡ valid r
    → r.role ≡ baseline
    → IsBaseline (opaque_id (loop_field v)) (opaque_id (field_of (codes "id") (fields_of v))) r
known_lem v standalone mode r h k = absurd (ground (arith, h, k))
known_lem v baseline mode r h k = pair_lem v mode _ (opaque_id (baseline_field v)) _ r h
known_lem v retry mode r h k = absurd (ground (arith, h, k))

roles_lem :
    (v : Js) (role : Option Role) (mode : Option Mode) (r : Relationship)
    → normalize_roles v role mode ≡ valid r
    → r.role ≡ baseline
    → IsBaseline (opaque_id (loop_field v)) (opaque_id (field_of (codes "id") (fields_of v))) r
roles_lem v (some role) (some mode) r h k = known_lem v role mode r h k
roles_lem v none mode r h k = absurd (ground (arith, h))
roles_lem v (some role) none r h k = absurd (ground (arith, h))

baseline_lem :
    (v : Js) (r : Relationship)
    → normalize_attempt_relationship v ≡ valid r
    → r.role ≡ baseline
    → IsBaseline (opaque_id (loop_field v)) (opaque_id (field_of (codes "id") (fields_of v))) r
unfolding normalize_attempt_relationship
baseline_lem v r h k =
    roles_lem v (role_of (role_field v)) (mode_of (mode_field v)) r (ground (arith, h)) k

-- What createRetryState makes of a summary.
made_retry :
    (summary : Js) (state : Relationship)
    → create_retry_state summary ≡ ok state
    → (l : Text) × (first : Text) × (loop_field summary ≡ str l)
      × (field_of (codes "id") (fields_of summary) ≡ str first)
      × (state ≡ paired l first retry)
unfolding create_retry_state
made_retry summary state h = go (normalize_attempt_relationship summary) refl
  where
    go :
        (n : Normalized)
        → normalize_attempt_relationship summary ≡ n
        → (l : Text) × (first : Text) × (loop_field summary ≡ str l)
          × (field_of (codes "id") (fields_of summary) ≡ str first)
          × (state ≡ paired l first retry)
    go legacy e = absurd (ground (arith, h, e))
    go (invalid x) e = absurd (ground (arith, h, e))
    go (valid r) e =
        let (l, first, at, id, same) = baseline_lem summary r e (ground (arith, h, e)) in
        let kept : state ≡ record r { role = retry; mode = review_only } = ground (arith, h, e) in
        (
          l,
          first,
          opaque_is _ l at,
          opaque_is _ first id,
          kept ∙ ap (λ (x : Relationship). record x { role = retry; mode = review_only }) same,
        )

retry_stored :
    (l first session : Text) (r : Relationship)
    → relationship_for_summary (relationship_value (paired l first retry)) (str session) ≡ ok r
    → (r ≡ paired l first retry) × (session ≢ first)
unfolding relationship_for_summary relationship_value opaque_id fields_of field_of same_text role_of
    truthy
retry_stored l first session r h =
    (ground (arith, h), λ same. ground (arith, h, same_text_refl first, same))

-- A retry that is made of a summary, and stored with a session, belongs to the summary's practice
-- loop, has the summary's session as its baseline, is review-only, and is of another session.
pub retry_belongs :
    (summary : Js) (state r : Relationship) (session : Text)
    → create_retry_state summary ≡ ok state
    → relationship_for_summary (relationship_value state) (str session) ≡ ok r
    → (l : Text) × (first : Text) × (loop_field summary ≡ str l)
      × (field_of (codes "id") (fields_of summary) ≡ str first)
      × (r
          ≡ record { loop_id = some l; baseline_id = some first; role = retry; mode = review_only })
      × (session ≢ first)
retry_belongs summary state r session h k =
    let (l, first, at, id, made) = made_retry summary state h in
    let (same, other) = retry_stored l first session r (
      ap (λ (x : Relationship). relationship_for_summary (relationship_value x) (str session))
        (sym made)
      ∙ k) in
    (l, first, at, id, same, other)
