-- ===== src/Coach/Storage/Sessions/RoundTrip.antt =====
-- A recording that cloudflare/public/coach-storage.js stored, read again.
use non_stop_talk.Prelude.{
  ℕ, ◌+◌, ◌≤◌, ◌<◌, ◌≡◌, refl, sym, Bool, true, false, [], ◌∷◌, none, some, leb, arith,
}
use non_stop_talk.Text.{Text, same_text}
use non_stop_talk.Js.{Js, max_safe_integer, field_of, fields_of}
use non_stop_talk.Coach.Storage.{
  Key, text, same_key, Artifact, Row, Audio, Transcript, no_audio, not_a_blob, blob, no_transcript,
  not_a_text, written, Summary, artifact_retention_ms, artifact_max_logical_bytes,
  artifact_logical_bytes, artifact_lifecycle_record, lifecycle_of, active_lifecycle,
  summary_with_artifact_metadata, summary_claims_artifacts, metadata_value,
  artifact_summary_metadata,
}
use non_stop_talk.Coach.Storage.Records.{same_key_refl, new_lifecycle, new_row_read_back}
use non_stop_talk.Coach.Storage.Reconcile.{Stores, value_at, put_at, State}
use non_stop_talk.Coach.Storage.Sessions.Discarding.{summary_at-put_summary}
use non_stop_talk.Coach.Storage.Sessions.Stored.{IsStored, save_session-stored}
use non_stop_talk.Coach.Storage.Sessions.{
  Call, returned, stored, has_room, readable, reading, read_artifact, transact, save_session,
}

-- A recording with a size has a blob or a transcript, so its summary claims it.
claimed :
    (s : Summary) (id : Key) (audio : Audio) (spoken : Transcript) (mime : Js) (partial : Bool)
    (bytes : ℕ)
    → artifact_logical_bytes (record {
      id = id;
      audio = audio;
      transcript = spoken;
      mime_type = mime;
      may_be_partial = partial;
    })
      ≡ some bytes
    → summary_claims_artifacts (
        summary_with_artifact_metadata s (record {
          id = id;
          audio = audio;
          transcript = spoken;
          mime_type = mime;
          may_be_partial = partial;
        }))
      ≡ true
unfolding artifact_logical_bytes summary_claims_artifacts summary_with_artifact_metadata
    metadata_value artifact_summary_metadata field_of fields_of same_text
claimed s id (blob n m) spoken mime partial bytes h = refl
claimed s id no_audio no_transcript mime partial bytes h = ground (arith, h)
claimed s id no_audio not_a_text mime partial bytes h = ground (arith, h)
claimed s id no_audio (written []) mime partial bytes h = ground (arith, h)
claimed s id no_audio (written (c ∷ cs)) mime partial bytes h = refl
claimed s id not_a_blob spoken mime partial bytes h = ground (arith, h)

made_within :
    (a : Artifact) (id : Key) (now : ℕ) (row : Row)
    → artifact_lifecycle_record a id now false ≡ some row
    → now + artifact_retention_ms ≤ max_safe_integer
unfolding artifact_lifecycle_record
made_within a id now row h = ground (arith, h)

room_within :
    (bytes : ℕ) (id : Key) (state : State)
    → has_room bytes id state ≡ true
    → leb bytes artifact_max_logical_bytes ≡ true
unfolding has_room
room_within bytes id state h = ground (arith, h)

module _ (now : ℕ) (later : Call) (summary : Summary) (a : Artifact) (s t : Stores) where
  active_again :
      (id : Key) (row : Row) (bytes at : ℕ)
      → lifecycle_of row id ≡ some (new_lifecycle now bytes false)
      → now ≤ at
      → at < now + artifact_retention_ms
      → active_lifecycle row id at ≡ some (new_lifecycle now bytes false)
  unfolding active_lifecycle
  active_again id row bytes at e from til = ground (arith, e, from, til)

  stored_is_readable :
      IsStored now (summary_with_artifact_metadata summary a) a summary.id s t
      → same_key a.id summary.id ≡ true
      → now ≤ later.now
      → later.now < now + artifact_retention_ms
      → now ≤ later.completed
      → later.completed < now + artifact_retention_ms
      → readable later summary.id t ≡ some a
  unfolding readable value_at put_at summary_with_artifact_metadata
  stored_is_readable x named from til from' til' =
      let id = summary.id in
      let full = summary_with_artifact_metadata summary a in
      let back =
        new_row_read_back a id now x.bytes false x.row x.sized x.made
          (ground (arith, room_within x.bytes id x.state x.fits)) in
      let first = active_again id x.row x.bytes later.now back from til in
      let second = active_again id x.row x.bytes later.completed back from' til' in
      let at = summary_at-put_summary full x.before.summaries in
      let claim =
        claimed summary a.id a.audio a.transcript a.mime_type a.may_be_partial x.bytes x.sized in
      rw (x.put, same_key_refl id, first, second, at, claim, x.sized, named) (ground arith)

reading-readable :
    (call : Call) (id : Key) (s : Stores) (a : Artifact)
    → readable call id s ≡ some a
    → call.now ≤ max_safe_integer
    → call.completed ≤ max_safe_integer
    → reading call id s ≡ returned (some a, s)
reading-readable call id s a h x y = ground (arith, h, x, y)

-- A recording that saveCoachingSession stored is what readCoachingArtifact gives for its session,
-- and the stores stay, at any time from the save until thirty days after it, if nothing came in
-- between and the transaction completes.
pub stored_session_is_read :
    (call again later : Call) (summary : Summary) (a : Artifact) (id : Text) (s t : Stores)
    → summary.id ≡ text id
    → later.failure ≡ none
    → call.now ≤ later.now
    → later.now < call.now + artifact_retention_ms
    → call.now ≤ later.completed
    → later.completed < call.now + artifact_retention_ms
    → save_session call again summary (some a) s ≡ (returned stored, t)
    → read_artifact later id t ≡ (returned (some a), t)
unfolding read_artifact transact
stored_session_is_read call again later summary a id s t named free from til from' til' h =
    let x = save_session-stored call again summary a s t h in
    let safe = made_within a summary.id call.now x.0.row x.0.made in
    let found = stored_is_readable call.now later summary a s t x.0 x.1 from til from' til' in
    let read =
      reading-readable later summary.id t a found (ground (arith, safe, til))
        (ground (arith, safe, til')) in
    rw (free, sym named, read) refl
