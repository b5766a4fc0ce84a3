-- ===== src/Coach/Loop.antt =====
-- Practice loops: createPracticeLoop, createRetryState, relationshipForSummary and
-- normalizeAttemptRelationship of cloudflare/public/coach-loop.js. A state and a summary are values
-- of any kind, as they are read from storage.
pub mod Pairs
pub mod Retries
mod Tests
use non_stop_talk.Prelude.{
  ℕ, Bool, true, false, not, ◌&&◌, ◌||◌, List, [], ◌∷◌, Option, none, some, leb, ◌==◌,
  if◌then◌else◌, length,
}
use non_stop_talk.Text.{Text, same_text}
use non_stop_talk.Js.{fields_of, Js, null, str, object, Fields, end, field, field_of, keys, truthy}
use non_stop_talk.Room.{contains_text}
use non_stop_talk.Room.Packs.{codes}

pub data Role : Type 0 where
  standalone baseline retry : Role

pub data Mode : Type 0 where
  live_cues review_only : Mode

-- The TypeErrors that are thrown.
pub data Misuse : Type 0 where
  bad_loop_id bad_session_id bad_baseline_id needs_baseline points_to_itself bad_role : Misuse

pub data Outcome (A : Type 0) : Type 0 where
  ok : A → Outcome A
  throws : Misuse → Outcome A

-- Why a summary's relationship is not valid.
pub data Reason : Type 0 where
  unknown_role unknown_mode standalone_in_loop invalid_ids live_feedback invalid_session : Reason
  baseline_of_other retry_of_itself : Reason

pub record Relationship : Type 0 where
  pub loop_id : Option Text
  pub baseline_id : Option Text
  pub role : Role
  pub mode : Mode

pub data Normalized : Type 0 where
  legacy : Normalized
  valid : Relationship → Normalized
  invalid : Reason → Normalized

abbrev within : ℕ → ℕ → ℕ → Bool
within lo hi c = leb lo c && leb c hi

abbrev is_alphanumeric : ℕ → Bool
is_alphanumeric c = within 65 90 c || within 97 122 c || within 48 57 c

-- [A-Za-z0-9._:-]
abbrev is_id_character : ℕ → Bool
is_id_character c = is_alphanumeric c || c == 46 || c == 95 || c == 58 || c == 45

abbrev all_id_characters : Text → Bool
all_id_characters [] = true
all_id_characters (c ∷ s) = is_id_character c && all_id_characters s

-- /^[A-Za-z0-9][A-Za-z0-9._:-]{0,127}$/
unfoldable pub matches_opaque_id : Text → Bool
matches_opaque_id [] = false
matches_opaque_id (c ∷ s) = is_alphanumeric c && (leb (length s) 127 && all_id_characters s)

-- The value, if it is an opaque id.
unfoldable pub opaque_id : Js → Option Text
opaque_id (str s) = if matches_opaque_id s then some s else none
opaque_id _ = none

abbrev pub loop_field : Js → Js
loop_field v = field_of (codes "practiceLoopId") (fields_of v)

abbrev pub baseline_field : Js → Js
baseline_field v = field_of (codes "baselineAttemptId") (fields_of v)

abbrev pub role_field : Js → Js
role_field v = field_of (codes "attemptRole") (fields_of v)

abbrev pub mode_field : Js → Js
mode_field v = field_of (codes "feedbackMode") (fields_of v)

unfoldable pub role_of : Js → Option Role
role_of (str s) =
    if same_text s (codes "standalone")
    then some standalone
    else if same_text s (codes "baseline")
    then some baseline
    else if same_text s (codes "retry")
    then some retry
    else none
role_of _ = none

unfoldable pub mode_of : Js → Option Mode
mode_of (str s) =
    if same_text s (codes "live-cues")
    then some live_cues
    else if same_text s (codes "review-only")
    then some review_only
    else none
mode_of _ = none

abbrev pub role_name : Role → Text
role_name standalone = codes "standalone"
role_name baseline = codes "baseline"
role_name retry = codes "retry"

abbrev pub mode_name : Mode → Text
mode_name live_cues = codes "live-cues"
mode_name review_only = codes "review-only"

abbrev pub id_value : Option Text → Js
id_value none = null
id_value (some s) = str s

-- A relationship as the object that is returned and stored.
unfoldable pub relationship_value : Relationship → Js
relationship_value r = object (
    field (codes "practiceLoopId") (id_value r.loop_id) (
      field (codes "baselineAttemptId") (id_value r.baseline_id) (
        field (codes "attemptRole") (str (role_name r.role))
          (field (codes "feedbackMode") (str (mode_name r.mode)) end))))

-- What the id factory returned, as a new loop.
unfoldable pub create_practice_loop : Js → Outcome Relationship
create_practice_loop made = elim (opaque_id made) [
  | none ↦ throws bad_loop_id
  | some id ↦
      ok (record { loop_id = some id; baseline_id = none; role = baseline; mode = review_only })
]

abbrev pub alone : Relationship
alone = record { loop_id = none; baseline_id = none; role = standalone; mode = live_cues }

abbrev pub paired : Text → Text → Role → Relationship
paired loop first role = record {
  loop_id = some loop;
  baseline_id = some first;
  role = role;
  mode = review_only;
}

-- The relationship that is stored with a finished summary.
abbrev pub retried : Text → Text → Option Text → Outcome Relationship
retried loop id none = throws bad_baseline_id
retried loop id (some first) =
    if same_text first id then throws points_to_itself else ok (paired loop first retry)

abbrev pub in_loop : Js → Text → Option Text → Option Role → Outcome Relationship
in_loop state id none role = throws bad_loop_id
in_loop state id (some loop) (some baseline) = ok (paired loop id baseline)
in_loop state id (some loop) (some retry) = retried loop id (opaque_id (baseline_field state))
in_loop state id (some loop) _ = throws bad_role

abbrev pub is_standalone : Option Role → Bool
is_standalone (some standalone) = true
is_standalone _ = false

unfoldable pub relationship_for_summary : Js → Js → Outcome Relationship
relationship_for_summary state session = elim (opaque_id session) [
  | none ↦ throws bad_session_id
  | some id ↦
      if not (truthy state) || is_standalone (role_of (role_field state))
      then ok alone
      else in_loop state id (opaque_id (loop_field state)) (role_of (role_field state))
]

unfoldable pub has_relationship_fields : Js → Bool
has_relationship_fields v =
    let names = keys (fields_of v) in
    contains_text (codes "practiceLoopId") names
    || contains_text (codes "baselineAttemptId") names
    || contains_text (codes "attemptRole") names
    || contains_text (codes "feedbackMode") names

abbrev is_null : Js → Bool
is_null null = true
is_null _ = false

abbrev pub is_live : Mode → Bool
is_live live_cues = true
is_live review_only = false

abbrev pub normalize_alone : Js → Mode → Normalized
normalize_alone v mode =
    if is_null (loop_field v) && is_null (baseline_field v) && is_live mode
    then valid alone
    else invalid standalone_in_loop

abbrev pub points_right : Role → Text → Text → Normalized → Normalized
points_right standalone first id rest = rest
points_right baseline first id rest = if same_text first id then rest else invalid baseline_of_other
points_right retry first id rest = if same_text first id then invalid retry_of_itself else rest

abbrev pub normalize_pair : Js → Role → Mode → Option Text → Option Text → Option Text → Normalized
normalize_pair v role mode (some loop) (some first) session =
    if is_live mode then invalid live_feedback else elim session [
      | none ↦ invalid invalid_session
      | some id ↦ points_right role first id (valid (paired loop first role))
    ]
normalize_pair v role mode _ _ session = invalid invalid_ids

abbrev pub normalize_known : Js → Role → Mode → Normalized
normalize_known v standalone mode = normalize_alone v mode
normalize_known v role mode =
    normalize_pair v role mode (opaque_id (loop_field v)) (opaque_id (baseline_field v))
      (opaque_id (field_of (codes "id") (fields_of v)))

abbrev pub normalize_roles : Js → Option Role → Option Mode → Normalized
normalize_roles v none mode = invalid unknown_role
normalize_roles v (some role) none = invalid unknown_mode
normalize_roles v (some role) (some mode) = normalize_known v role mode

unfoldable pub normalize_attempt_relationship : Js → Normalized
normalize_attempt_relationship v =
    if has_relationship_fields v
    then normalize_roles v (role_of (role_field v)) (mode_of (mode_field v))
    else legacy

-- A new retry of a baseline's summary.
abbrev pub retry_of : Normalized → Outcome Relationship
retry_of (valid r) = elim r.role [
  | baseline ↦ ok (record r { role = retry; mode = review_only })
  | _ ↦ throws needs_baseline
]
retry_of _ = throws needs_baseline

unfoldable pub create_retry_state : Js → Outcome Relationship
create_retry_state summary = retry_of (normalize_attempt_relationship summary)
