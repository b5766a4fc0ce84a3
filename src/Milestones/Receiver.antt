-- ===== src/Milestones/Receiver.antt =====
-- The receiver of milestones, cloudflare/room-milestone-receiver.ts: four SQL statements and a read,
-- in one transaction. `none` is an exception. Times of receipts are milliseconds; the times of
-- milestones stay texts, in SQLite's order. Hashes, dates and SQLite's reals are parameters.
pub mod Tables
pub mod Receipts
pub mod Replay
use non_stop_talk.Prelude.{
  ℕ, ◌+◌, ◌*◌, Bool, true, false, not, ◌&&◌, ◌||◌, List, [], ◌∷◌, Option, none, some, ltb, leb,
  ◌==◌, if◌then◌else◌, take,
}
use non_stop_talk.Text.{Text, same_text, utf8_length}
use non_stop_talk.Milestones.{Number, whole, negative, part, Checked, valid, invalid, created}
use non_stop_talk.Milestones.Contract.{Json, Fact, Payload, is_hex_256, decode_payload}
unfoldable pub use Tables.*

infixl 5 ◌>>=◌
-- The next step, unless there was an exception.
abbrev pub ◌>>=◌ {ℓ κ} : {A : Type ℓ} {B : Type κ} → Option A → (A → Option B) → Option B
none >>= f = none
some a >>= f = f a

abbrev pub assert : Bool → Option (Unit {0})
assert true = some tt
assert false = none

pub record Delivery : Type 0 where
  pub event_id : Text
  pub payload_json : Text

pub data Outcome : Type 0 where
  applied duplicate conflict invariant : Outcome

-- The last time whose text has 24 characters.
abbrev last_time : ℕ
last_time = 253402300799999

-- receiverTimestamp
unfoldable pub is_receipt_time : ℕ → Bool
is_receipt_time now = leb (now + retention_ms) last_time

-- isSecureRoomFactHashKey
unfoldable pub is_secure_key : Text → Bool
is_secure_key key = leb 32 (utf8_length key) && leb (utf8_length key) 1024

-- classifyReceiptResults, of the changes of two statements and the row that was read.
unfoldable pub classify : ℕ → ℕ → Text → Option Receipt → Outcome
classify inserted changed hash none = invariant
classify inserted changed hash (some r) =
    if not (leb inserted 1 && leb changed 1 && is_hex_256 r.payload_hash)
    then invariant
    else if not (same_text r.payload_hash hash)
    then conflict
    else if is_unapplied r.applied_at
    then invariant
    else if inserted == 1 && changed == 1
    then applied
    else if inserted == 0 && changed == 0
    then duplicate
    else invariant

-- normalizeRoomMilestoneDeliveryV1, of an event id and what its payload is decoded to.
abbrev pub delivered : Text → Checked Payload → Option Payload
delivered id (invalid e) = none
delivered id (valid p) = if is_hex_256 id then some p else none

module _ (s : Service) where
  -- The batch.
  unfoldable pub batch :
      Text → Text → Option Text → Text → ℕ → Payload → Database → Outcome × Database
  unfolding insert_receipt write_fact write_tally apply_receipt classify
  batch id hash key expiry now p db =
      let at = p.fact.observed_at in
      let (inserted, db1) = insert_receipt id hash now db in
      let db2 = write_fact key id hash now expiry p.fact db1 in
      let db3 = write_tally s p.analytics_metric (value_of p.analytics_value) at id hash now db2 in
      let (changed, db4) = apply_receipt id hash now db3 in
      (classify inserted changed hash (read_receipt id db4), db4)

  -- hashRoomInstanceId, only with a secure key: first whether it succeeds.
  unfoldable pub key_of : Option Text → Text → Option (Option Text)
  unfolding is_secure_key
  key_of none id = some none
  key_of (some hash_key) id =
      if is_secure_key hash_key
      then (s.room_key hash_key id >>= λ key. some (some key))
      else some none

  -- receiveRoomMilestone after the checks. The CHECK on payload_hash is a test.
  unfoldable pub received :
      Option Text → Delivery → ℕ → Payload → Database → Option (Outcome × Database)
  unfolding key_of batch
  received hash_key d now p db = do
    hash ← s.payload_hash d.payload_json
    key ← key_of hash_key p.room_instance_id
    expiry ← s.fact_expiry p.fact.observed_at
    _ ← assert (is_hex_256 hash)
    some (batch d.event_id hash key expiry now p db)

  -- receiveRoomMilestone, with the key ROOM_FACT_HASH_KEY.
  unfoldable pub receive :
      Json → Option Text → Delivery → ℕ → Database → Option (Outcome × Database)
  unfolding is_receipt_time received
  receive json hash_key d now db = do
    p ← delivered d.event_id (decode_payload json d.payload_json)
    _ ← assert (is_receipt_time now)
    _ ← assert (leb 5 db.schema_version && leb db.schema_version 6)
    if db.schema_version == 6 then received hash_key d now p db else some (invariant, db)
