-- ===== src/Coach/Storage.antt =====
-- The records of cloudflare/public/coach-storage.js: what a browser's database keeps of a coaching
-- session, and the policy that says which recordings may stay. What is read from the database is
-- untrusted.
pub mod Reconcile
pub mod Sessions
pub mod Records
mod Tests
use non_stop_talk.Prelude.{
  ℕ, ◌+◌, ◌*◌, Bool, true, false, not, ◌&&◌, ◌||◌, List, [], ◌∷◌, Option, none, some, ltb, leb,
  ◌==◌, if◌then◌else◌, length,
}
use non_stop_talk.Prelude.Int.{pos}
use non_stop_talk.Text.{Text, same_text, is_empty, utf8_length}
use non_stop_talk.Js.{
  Js, bool, num, int, str, object, Fields, end, field, field_of, fields_of, keys, max_safe_integer,
}
use non_stop_talk.Room.{contains_text}
use non_stop_talk.Room.Packs.{codes}

-- Thirty days, in milliseconds.
abbrev pub artifact_retention_ms : ℕ
artifact_retention_ms = 30 * 24 * 60 * 60 * 1000

abbrev pub artifact_max_logical_bytes : ℕ
artifact_max_logical_bytes = 128 * 1024 * 1024

-- A primary key: a text, or another kind of key, which no record of this program has.
pub data Key : Type 0 where
  text : Text → Key
  other : ℕ → Key

unfoldable pub same_key : Key → Key → Bool
unfolding same_text
same_key (text s) (text t) = same_text s t
same_key (other m) (other n) = m == n
same_key _ _ = false

-- typeof key === "string" && key.length > 0
abbrev pub is_id : Key → Bool
is_id (text s) = not (is_empty s)
is_id (other n) = false

-- audioBlob: undefined or null, a Blob with its size and type, or another value.
pub data Audio : Type 0 where
  no_audio not_a_blob : Audio
  blob : ℕ → Text → Audio

-- transcript: undefined or null, a text, or another value.
pub data Transcript : Type 0 where
  no_transcript not_a_text : Transcript
  written : Text → Transcript

pub record Artifact : Type 0 where
  pub id : Key
  pub audio : Audio
  pub transcript : Transcript
  pub mime_type : Js
  pub may_be_partial : Bool

-- A row of the lifecycle store, as it is found.
pub record Row : Type 0 where
  pub id : Key
  pub retained_at : Js
  pub expires_at : Js
  pub logical_bytes : Js
  pub schema_version : Js
  pub legacy_grace : Js

-- A row whose fields are valid.
pub record Lifecycle : Type 0 where
  pub retained_at : ℕ
  pub expires_at : ℕ
  pub logical_bytes : ℕ
  pub legacy_grace : Bool

pub record Metadata : Type 0 where
  pub audio_stored : Bool
  pub audio_bytes : ℕ
  pub audio_mime_type : Text
  pub transcript_stored : Bool
  pub transcript_may_be_partial : Bool

-- A summary: its id, its `artifacts` field and its other fields.
pub record Summary : Type 0 where
  pub id : Key
  pub artifacts : Js
  pub rest : Js

abbrev pub empty_metadata : Metadata
empty_metadata = record {
  audio_stored = false;
  audio_bytes = 0;
  audio_mime_type = [];
  transcript_stored = false;
  transcript_may_be_partial = false;
}

abbrev is_safe : ℕ → Bool
is_safe n = leb n max_safe_integer

abbrev audio_size : Audio → Option ℕ
audio_size no_audio = some 0
audio_size not_a_blob = none
audio_size (blob n mime) = some n

abbrev has_blob : Audio → Bool
has_blob (blob n mime) = true
has_blob _ = false

abbrev transcript_text : Transcript → Option Text
transcript_text no_transcript = some []
transcript_text not_a_text = none
transcript_text (written s) = some s

abbrev sum_bytes : ℕ → ℕ → Option ℕ
sum_bytes audio transcript =
    if is_safe audio && is_safe transcript && is_safe (audio + transcript)
    then some (audio + transcript)
    else none

-- artifactLogicalBytes, of an object.
unfoldable pub artifact_logical_bytes : Artifact → Option ℕ
artifact_logical_bytes a = elim (audio_size a.audio) [
  | none ↦ none
  | some audio ↦ elim (transcript_text a.transcript) [
    | none ↦ none
    | some s ↦
        if not (has_blob a.audio) && is_empty s then none else sum_bytes audio (utf8_length s)
  ]
]

-- Number.isSafeInteger(value) && value >= 0
unfoldable pub natural : Js → Option ℕ
natural (num (int (pos n))) = if leb n max_safe_integer then some n else none
natural _ = none

abbrev boolean : Js → Option Bool
boolean (bool b) = some b
boolean _ = none

abbrev pub number : ℕ → Js
number n = num (int (pos n))

-- artifactLifecycleRecord: the row of a new recording.
unfoldable pub artifact_lifecycle_record : Artifact → Key → ℕ → Bool → Option Row
artifact_lifecycle_record a id retained_at legacy = elim (artifact_logical_bytes a) [
  | none ↦ none
  | some bytes ↦
      if is_id id && is_safe retained_at && is_safe (retained_at + artifact_retention_ms)
      then some (record {
        id = id;
        retained_at = number retained_at;
        expires_at = number (retained_at + artifact_retention_ms);
        logical_bytes = number bytes;
        schema_version = number 1;
        legacy_grace = bool legacy;
      })
      else none
]

-- The conditions of isArtifactLifecycleRecord that relate a row's numbers.
abbrev in_policy : Lifecycle → Bool
in_policy l =
    ltb l.retained_at l.expires_at
    && is_safe (l.retained_at + artifact_retention_ms)
    && leb l.expires_at (l.retained_at + artifact_retention_ms)
    && (leb l.logical_bytes artifact_max_logical_bytes || l.legacy_grace)

abbrev pub with_bytes : Option ℕ → Option ℕ → Option ℕ → Option ℕ → Option Bool → Option Lifecycle
with_bytes (some retained) (some expires) (some bytes) (some version) (some legacy) =
    let l : Lifecycle = record {
      retained_at = retained;
      expires_at = expires;
      logical_bytes = bytes;
      legacy_grace = legacy;
    } in
    if leb 1 version && in_policy l then some l else none
with_bytes _ _ _ _ _ = none

-- isArtifactLifecycleRecord: the row's numbers, if it is valid for the id that is expected.
unfoldable pub lifecycle_of : Row → Key → Option Lifecycle
unfolding natural
lifecycle_of row expected =
    let l =
      with_bytes (natural row.retained_at) (natural row.expires_at) (natural row.logical_bytes)
        (natural row.schema_version) (boolean row.legacy_grace) in
    if is_id expected && same_key row.id expected then l else none

-- isActiveArtifactLifecycleRecord
unfoldable pub active_lifecycle : Row → Key → ℕ → Option Lifecycle
active_lifecycle row expected now = elim (lifecycle_of row expected) [
  | none ↦ none
  | some l ↦ if leb l.retained_at now && ltb now l.expires_at then some l else none
]

abbrev declared_type : Js → Text → Text
declared_type (str []) found = found
declared_type (str s) found = s
declared_type _ found = found

abbrev stored_type : Js → Audio → Text
stored_type declared (blob n found) = declared_type declared found
stored_type declared _ = []

abbrev blob_size : Audio → ℕ
blob_size (blob n mime) = n
blob_size _ = 0

abbrev has_transcript : Transcript → Bool
has_transcript (written s) = not (is_empty s)
has_transcript _ = false

-- artifactSummaryMetadata
unfoldable pub artifact_summary_metadata : Artifact → Metadata
artifact_summary_metadata a = record {
  audio_stored = has_blob a.audio;
  audio_bytes = blob_size a.audio;
  audio_mime_type = stored_type a.mime_type a.audio;
  transcript_stored = has_transcript a.transcript;
  transcript_may_be_partial = has_transcript a.transcript && a.may_be_partial;
}

unfoldable pub metadata_value : Metadata → Js
metadata_value m = object (
    field (codes "audioStored") (bool m.audio_stored) (
      field (codes "audioBytes") (number m.audio_bytes) (
        field (codes "audioMimeType") (str m.audio_mime_type) (
          field (codes "transcriptStored") (bool m.transcript_stored)
            (field (codes "transcriptMayBePartial") (bool m.transcript_may_be_partial) end)))))

-- summaryWithoutArtifacts
unfoldable pub summary_without_artifacts : Summary → Summary
unfolding metadata_value
summary_without_artifacts s = record s { artifacts = metadata_value empty_metadata }

-- summaryWithArtifactMetadata
unfoldable pub summary_with_artifact_metadata : Summary → Artifact → Summary
unfolding metadata_value artifact_summary_metadata
summary_with_artifact_metadata s a = record s {
  artifacts = metadata_value (artifact_summary_metadata a);
}

abbrev is_bool : Js → Bool → Bool
is_bool (bool true) true = true
is_bool (bool false) false = true
is_bool _ b = false

abbrev is_number : Js → ℕ → Bool
is_number (num (int (pos m))) n = m == n
is_number _ n = false

abbrev is_text : Js → Text → Bool
is_text (str s) t = same_text s t
is_text _ t = false

abbrev all_in : List Text → List Text → Bool
all_in [] names = true
all_in (k ∷ ks) names = contains_text k names && all_in ks names

abbrev metadata_keys : List Text
metadata_keys =
    codes "audioStored"
    ∷ codes "audioBytes"
    ∷ codes "audioMimeType"
    ∷ codes "transcriptStored"
    ∷ codes "transcriptMayBePartial"
    ∷ []

-- summaryHasArtifactMetadata
unfoldable pub summary_has_artifact_metadata : Summary → Metadata → Bool
summary_has_artifact_metadata s m =
    let found = fields_of s.artifacts in
    length (keys found) == 5
    && all_in metadata_keys (keys found)
    && is_bool (field_of (codes "audioStored") found) m.audio_stored
    && is_number (field_of (codes "audioBytes") found) m.audio_bytes
    && is_text (field_of (codes "audioMimeType") found) m.audio_mime_type
    && is_bool (field_of (codes "transcriptStored") found) m.transcript_stored
    && is_bool (field_of (codes "transcriptMayBePartial") found) m.transcript_may_be_partial

-- summaryClaimsArtifacts
unfoldable pub summary_claims_artifacts : Summary → Bool
summary_claims_artifacts s =
    let found = fields_of s.artifacts in
    is_bool (field_of (codes "audioStored") found) true
    || is_bool (field_of (codes "transcriptStored") found) true
