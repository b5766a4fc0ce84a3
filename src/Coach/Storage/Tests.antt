-- ===== src/Coach/Storage/Tests.antt =====
-- Tests of the model of cloudflare/public/coach-storage.js.
use non_stop_talk.Prelude.{ℕ, ◌≤◌, ◌≡◌, refl, false, [], ◌∷◌, Option, none, some, arith}
use non_stop_talk.Text.{Text, utf8_length}
use non_stop_talk.Js.{null, field_of, fields_of, keys}
use non_stop_talk.Room.Packs.{codes}
use non_stop_talk.Coach.Storage.{
  same_key, active_lifecycle, summary_with_artifact_metadata, summary_claims_artifacts,
  summary_has_artifact_metadata, text, blob, written, Artifact, Row, Summary,
  artifact_max_logical_bytes, artifact_logical_bytes, artifact_lifecycle_record, lifecycle_of,
}
use non_stop_talk.Coach.Storage.Records.{new_lifecycle, new_row_read_back}
use non_stop_talk.Coach.Storage.Reconcile.{
  expected_metadata, cleaned_count, Stores, State, value_at, put_at, artifact_details, keep,
  details_at, is_claimed, reconcile,
}
use non_stop_talk.Coach.Storage.Reconcile.Facts.{Holds, reconcile-IsAccounted}
use non_stop_talk.Coach.Storage.Sessions.{
  Error, no_error, error, Call, returned, threw, not_requested, stored, app_limit, browser_quota,
  save_session, read_artifact, is_quota_exceeded,
}
use non_stop_talk.Coach.Storage.Sessions.Bounds.{claimed_bytes, stored_sessions_fit}
use non_stop_talk.Coach.Storage.Sessions.Order.{IsUsage, read_progress_snapshot-IsUsage}
use non_stop_talk.Coach.Storage.Sessions.Snapshot.{Usage, read_progress_snapshot}
use non_stop_talk.Coach.Storage.Sessions.Reading.{IsRead, read_artifact-IsRead}
use non_stop_talk.Coach.Storage.Sessions.RoundTrip.{stored_session_is_read}

abbrev session : Text
session = codes "s1"

abbrev recording : Artifact
recording = record {
  id = text session;
  audio = blob 100 (codes "audio/webm");
  transcript = written (codes "hi");
  mime_type = null;
  may_be_partial = false;
}

abbrev too_large : Artifact
too_large = record recording { audio = blob 134217728 (codes "audio/webm") }

abbrev summary : Summary
summary = record { id = text session; artifacts = null; rest = null }

abbrev nothing : Stores
nothing = record { summaries = []; artifacts = []; lifecycle = [] }

abbrev at_time : ℕ → Call
at_time now = record { now = now; completed = now; failure = none }

abbrev quota : Error
quota = error (codes "AbortError") (error (codes "QuotaExceededError") no_error)

abbrev full : Call
full = record { now = 1000; completed = 1000; failure = some quota }

abbrev kept : Stores
kept = (save_session (at_time 1000) (at_time 1001) summary (some recording) nothing).1

abbrev or_nothing : Option (State × Stores) → State × Stores
or_nothing none =
    (record { retained = []; total_bytes = 0; overflow = false; expired = 0; cleaned = 0 }, nothing)
or_nothing (some x) = x

abbrev reconciled : State × Stores
reconciled = or_nothing (reconcile 2000 2001 kept)

abbrev row_of : Option Row → Row
row_of none = record {
  id = text session;
  retained_at = null;
  expires_at = null;
  logical_bytes = null;
  schema_version = null;
  legacy_grace = null;
}
row_of (some r) = r

store : Unit {0}
unfolding save_session artifact_lifecycle_record reconcile read_artifact same_key
    artifact_logical_bytes utf8_length is_quota_exceeded put_at active_lifecycle lifecycle_of
    summary_with_artifact_metadata summary_claims_artifacts field_of fields_of artifact_details keep
    details_at is_claimed
store = tt

stores_it :
    save_session (at_time 1000) (at_time 1001) summary (some recording) nothing
    ≡ (returned stored, kept)
unfolding store
stores_it = refl

refuses_too_large :
    (save_session (at_time 1000) (at_time 1001) summary (some too_large) nothing).0
    ≡ returned app_limit
unfolding store
refuses_too_large = refl

reconciles : reconcile 2000 2001 kept ≡ some (reconciled.0, reconciled.1)
unfolding store
reconciles = refl

keeps_it : value_at (text session) reconciled.1.artifacts ≡ some recording
unfolding store
keeps_it = refl

measures_it : artifact_logical_bytes recording ≡ some 102
unfolding store
measures_it = refl

abbrev row : Row
row = row_of (artifact_lifecycle_record recording (text session) 1000 false)

makes_row : artifact_lifecycle_record recording (text session) 1000 false ≡ some row
unfolding store
makes_row = refl

falls_back :
    (save_session full (at_time 1001) summary (some recording) nothing).0 ≡ returned browser_quota
unfolding store
falls_back = refl

without_recording :
    (save_session (at_time 1000) (at_time 1001) summary none nothing).0 ≡ returned not_requested
unfolding store
without_recording = refl

fails_twice : save_session full full summary (some recording) kept ≡ (threw quota, kept)
unfolding store
fails_twice = refl

reads_it : read_artifact (at_time 5000) session kept ≡ (returned (some recording), kept)
unfolding store
reads_it = refl

expires : (read_artifact (at_time 2592001000) session kept).0 ≡ returned none
unfolding store
expires = refl

stored_sessions_fit_example : claimed_bytes kept.lifecycle ≤ artifact_max_logical_bytes
stored_sessions_fit_example =
    stored_sessions_fit (at_time 1000) (at_time 1001) summary recording nothing kept stores_it

read_artifact-IsRead_example : IsRead (at_time 5000) (text session) kept (some recording) kept
read_artifact-IsRead_example =
    read_artifact-IsRead (at_time 5000) session kept kept (some recording) reads_it

stored_session_is_read_example :
    read_artifact (at_time 5000) session kept ≡ (returned (some recording), kept)
stored_session_is_read_example =
    stored_session_is_read (at_time 1000) (at_time 1001) (at_time 5000) summary recording session
      nothing kept refl refl (omega arith) (omega arith) (omega arith) (omega arith) stores_it

reads_row : lifecycle_of row (text session) ≡ some (new_lifecycle 1000 102 false)
reads_row = new_row_read_back recording (text session) 1000 102 false row measures_it makes_row refl

reconcile-IsAccounted_example :
    (r : Row) × (value_at (text session) reconciled.1.lifecycle ≡ some r)
    × Holds 2000 2001 kept (text session) r recording
reconcile-IsAccounted_example =
    reconcile-IsAccounted 2000 2001 kept reconciled.1 reconciled.0 (text session) recording
      reconciles keeps_it

abbrev shown : Usage
shown = record {
  logical_bytes = 102;
  artifact_count = 1;
  next_expires_at = some 2592001000;
  legacy_grace_count = 0;
  cleaned_count = 0;
  sessions = record { id = text session; lifecycle = new_lifecycle 1000 102 false } ∷ [];
}

shows_it : read_progress_snapshot (at_time 5000) kept ≡ (returned (kept.summaries, shown), kept)
unfolding store read_progress_snapshot summary_has_artifact_metadata keys expected_metadata
    cleaned_count
shows_it = refl

read_progress_snapshot-IsUsage_example :
    (kept.summaries ≡ kept.summaries) × IsUsage 5000 5000 kept kept shown
read_progress_snapshot-IsUsage_example =
    read_progress_snapshot-IsUsage (at_time 5000) kept kept kept.summaries shown shows_it
