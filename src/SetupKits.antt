-- ===== src/SetupKits.antt =====
-- Setup kits: the record that a host saves, the errors and the bounds of
-- cloudflare/public/setup-kits.js.
pub mod Topics
pub mod Kits
pub mod Store
mod Tests
use non_stop_talk.Prelude.{ℕ, ◌*◌, Bool, true, false, List, if◌then◌else◌}
use non_stop_talk.Text.{Text}

-- A SetupKitError's code.
pub data Code : Type 0 where
  invalid_kit invalid_name invalid_settings invalid_topic_pack invalid_topics : Code
  topic_text_too_long topic_file_too_large topic_file_read_failed topic_too_long : Code
  too_many_topics duplicate_name kit_limit_reached storage_unavailable storage_read_failed : Code
  storage_write_failed storage_quota_exceeded storage_corrupt storage_version_unsupported : Code
  storage_limit_exceeded : Code

pub data Result {ℓ} (A : Type ℓ) : Type ℓ where
  ok : A → Result A
  fail : Code → Result A

infixl 5 ◌>>=◌
abbrev pub ◌>>=◌ {ℓ κ} : {A : Type ℓ} {B : Type κ} → Result A → (A → Result B) → Result B
ok a >>= f = f a
fail c >>= f = fail c

-- `if (!passed) fail(code);` before the rest.
abbrev pub require {ℓ} : {A : Type ℓ} → Bool → Code → Result A → Result A
require passed code rest = if passed then rest else fail code

pub record Kit : Type 0 where
  pub name : Text
  pub duration : ℕ
  pub silence : ℕ
  pub rounds : ℕ
  pub topic_pack : Text
  pub topics : List Text

abbrev pub max_count : ℕ
max_count = 25

abbrev pub max_name_code_points : ℕ
max_name_code_points = 40

abbrev pub max_topics : ℕ
max_topics = 500

abbrev pub max_topic_code_points : ℕ
max_topic_code_points = 200

abbrev pub max_topic_text_characters : ℕ
max_topic_text_characters = 20000

abbrev pub max_topic_file_bytes : ℕ
max_topic_file_bytes = 64 * 1024

abbrev pub max_storage_bytes : ℕ
max_storage_bytes = 512 * 1024
