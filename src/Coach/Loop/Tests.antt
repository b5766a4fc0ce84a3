-- ===== src/Coach/Loop/Tests.antt =====
-- A baseline and its retry, and the theorems on them.
use non_stop_talk.Prelude.{◌≡◌, ◌≢◌, refl, none, some}
use non_stop_talk.Text.{Text, same_text}
use non_stop_talk.Js.{fields_of, Js, null, str, object, Fields, end, field, field_of, truthy}
use non_stop_talk.Room.Packs.{codes}
use non_stop_talk.Coach.Loop.{
  Role, standalone, baseline, retry, live_cues, review_only, ok, throws, Relationship, valid,
  relationship_value, relationship_for_summary, normalize_attempt_relationship, create_retry_state,
  create_practice_loop, loop_field, points_to_itself,
}
use non_stop_talk.Coach.Loop.Pairs.{relationship_read_back}
use non_stop_talk.Coach.Loop.Retries.{retry_belongs}

abbrev loop : Relationship
loop = record {
  loop_id = some (codes "loop");
  baseline_id = none;
  role = baseline;
  mode = review_only;
}

abbrev first_of_loop : Relationship
first_of_loop = record loop { baseline_id = some (codes "s1") }

abbrev again_of_loop : Relationship
again_of_loop = record first_of_loop { role = retry }

abbrev summary : Js
summary = object (
    field (codes "id") (str (codes "s1")) (
      field (codes "practiceLoopId") (str (codes "loop")) (
        field (codes "baselineAttemptId") (str (codes "s1")) (
          field (codes "attemptRole") (str (codes "baseline"))
            (field (codes "feedbackMode") (str (codes "review-only")) end)))))

-- Opens what the coach computes with.
coach : Unit {0}
unfolding create_practice_loop relationship_for_summary relationship_value create_retry_state
    normalize_attempt_relationship field_of same_text truthy non_stop_talk.Coach.Loop.opaque_id
    non_stop_talk.Coach.Loop.matches_opaque_id fields_of non_stop_talk.Coach.Loop.role_of
    non_stop_talk.Coach.Loop.mode_of non_stop_talk.Coach.Loop.has_relationship_fields
    non_stop_talk.Js.keys
coach = tt

new_loop : create_practice_loop (str (codes "loop")) ≡ ok loop
unfolding coach
new_loop = refl

own_baseline :
    relationship_for_summary (relationship_value again_of_loop) (str (codes "s1"))
    ≡ throws points_to_itself
unfolding coach
own_baseline = refl

relationship_read_back_for_loop : normalize_attempt_relationship summary ≡ valid first_of_loop
unfolding coach
relationship_read_back_for_loop =
    relationship_read_back (relationship_value loop) (codes "s1") first_of_loop summary refl
      (record {
        its_id = refl;
        its_loop = refl;
        its_baseline = refl;
        its_role = refl;
        its_mode = refl;
      })

retry_belongs_example :
    (l : Text) × (first : Text) × (loop_field summary ≡ str l)
    × (field_of (codes "id") (fields_of summary) ≡ str first)
    × (again_of_loop
        ≡ record { loop_id = some l; baseline_id = some first; role = retry; mode = review_only })
    × (codes "s2" ≢ first)
unfolding coach
retry_belongs_example = retry_belongs summary again_of_loop again_of_loop (codes "s2") refl refl
