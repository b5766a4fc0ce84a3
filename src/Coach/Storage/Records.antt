-- ===== src/Coach/Storage/Records.antt =====
-- The lifecycle rows that cloudflare/public/coach-storage.js makes, read back.
use non_stop_talk.Prelude.{ℕ, ◌↔◌, ◌||◌, ◌+◌, ◌≤◌, ◌≡◌, Bool, true, some, leb, arith}
use non_stop_talk.Text.Laws.{same_text_iff, same_text_refl}
use non_stop_talk.Js.{max_safe_integer}
use non_stop_talk.Coach.Storage.{
  Key, text, other, same_key, Artifact, Row, Lifecycle, artifact_retention_ms,
  artifact_max_logical_bytes, artifact_logical_bytes, artifact_lifecycle_record, natural,
  lifecycle_of,
}

pub same_key_refl : (k : Key) → same_key k k ≡ true
unfolding same_key
same_key_refl (text s) = same_text_refl s
same_key_refl (other n) = ground arith

pub same_key_iff : (j k : Key) → (same_key j k ≡ true) ↔ (j ≡ k)
unfolding same_key
same_key_iff (text s) (text t) = ground (arith, same_text_iff s t)
same_key_iff (text s) (other n) = ground arith
same_key_iff (other m) (text t) = ground arith
same_key_iff (other m) (other n) = ground arith

-- What a new row is read back as.
abbrev pub new_lifecycle : ℕ → ℕ → Bool → Lifecycle
new_lifecycle now bytes legacy = record {
  retained_at = now;
  expires_at = now + artifact_retention_ms;
  logical_bytes = bytes;
  legacy_grace = legacy;
}

pub artifact_logical_bytes-safe :
    (a : Artifact) (bytes : ℕ) → artifact_logical_bytes a ≡ some bytes → bytes ≤ max_safe_integer
unfolding artifact_logical_bytes
artifact_logical_bytes-safe a bytes h = ground arith

-- The row that artifactLifecycleRecord makes of a recording within the limit, or in legacy grace,
-- is valid for its id, with the time, the expiry thirty days later and the bytes that it was made
-- of.
pub new_row_read_back :
    (a : Artifact) (id : Key) (now bytes : ℕ) (legacy : Bool) (row : Row)
    → artifact_logical_bytes a ≡ some bytes
    → artifact_lifecycle_record a id now legacy ≡ some row
    → (leb bytes artifact_max_logical_bytes || legacy) ≡ true
    → lifecycle_of row id ≡ some (new_lifecycle now bytes legacy)
unfolding artifact_lifecycle_record lifecycle_of natural
new_row_read_back a id now bytes legacy row e made fits =
    ground (arith, same_key_refl id, artifact_logical_bytes-safe a bytes e)
