-- ===== src/Milestones/Receiver/Tables.antt =====
-- The tables of cloudflare/room-milestone-receiver.ts and the SQL statements on them. Each counts
-- the rows that it changes, where the receiver asks.
use non_stop_talk.Prelude.{
  ℕ, ◌+◌, ◌*◌, Bool, true, false, not, ◌&&◌, ◌||◌, List, [], ◌∷◌, Option, none, some, ltb, leb,
  ◌==◌, if◌then◌else◌, take,
}
use non_stop_talk.Text.{Text, same_text}
use non_stop_talk.Milestones.{Number, whole, negative, part, created}
use non_stop_talk.Milestones.Contract.{Fact}

-- What the receiver calls: the two hashes, the expiry of a time (`none` out of range), and the sum,
-- the least and the greatest of two numbers.
pub record Service : Type 0 where
  pub payload_hash : Text → Option Text
  pub room_key : Text → Text → Option Text
  pub fact_expiry : Text → Option Text
  pub plus : Number → Number → Number
  pub least : Number → Number → Number
  pub greatest : Number → Number → Number

-- A row of room_milestone_receipts.
pub record Receipt : Type 0 where
  pub event_id : Text
  pub payload_hash : Text
  pub received_at : ℕ
  pub applied_at : Option ℕ
  pub expires_at : ℕ

-- A row of room_facts.
pub record RoomFact : Type 0 where
  pub room_key : Text
  pub first_observed_at : Text
  pub expires_at : Text
  pub fact : Fact

-- A row of analytics_daily.
pub record Tally : Type 0 where
  pub day : Text
  pub metric : Text
  pub event_count : ℕ
  pub value_sum : Number
  pub value_min : Number
  pub value_max : Number
  pub updated_at : Text

pub record Database : Type 0 where
  pub schema_version : ℕ
  pub receipts : List Receipt
  pub room_facts : List RoomFact
  pub analytics : List Tally

-- Ninety days.
abbrev pub retention_ms : ℕ
retention_ms = 90 * 24 * 60 * 60 * 1000

unfoldable pub find_receipt : Text → List Receipt → Option Receipt
find_receipt id [] = none
find_receipt id (r ∷ rs) =
    let rest = find_receipt id rs in if same_text r.event_id id then some r else rest

abbrev pub is_unapplied : Option ℕ → Bool
is_unapplied none = true
is_unapplied (some t) = false

-- The condition that the statements have on a receipt.
unfoldable pub is_open : Text → Text → ℕ → Receipt → Bool
is_open id hash now r =
    is_unapplied r.applied_at
    && same_text r.event_id id
    && same_text r.payload_hash hash
    && r.received_at == now
    && r.expires_at == now + retention_ms
    && ltb now r.expires_at

unfoldable pub any_open : Text → Text → ℕ → List Receipt → Bool
unfolding is_open
any_open id hash now [] = false
any_open id hash now (r ∷ rs) = is_open id hash now r || any_open id hash now rs

-- RECEIPT_INSERT_SQL, when the table has no receipt of the event.
abbrev pub new_receipt : Text → Text → ℕ → Receipt
new_receipt id hash now = record {
  event_id = id;
  payload_hash = hash;
  received_at = now;
  applied_at = none;
  expires_at = now + retention_ms;
}

abbrev is_unknown : Option Receipt → Bool
is_unknown none = true
is_unknown (some r) = false

unfoldable pub insert_receipt : Text → Text → ℕ → Database → ℕ × Database
unfolding find_receipt
insert_receipt id hash now db =
    if db.schema_version == 6 && is_unknown (find_receipt id db.receipts)
    then (1, record db { receipts = new_receipt id hash now ∷ db.receipts })
    else (0, db)

-- Does a text come before another?
unfoldable pub is_before : Text → Text → Bool
is_before _ [] = false
is_before [] (c ∷ t) = true
is_before (b ∷ s) (c ∷ t) = ltb b c || (b == c && is_before s t)

-- The state version of a decoded payload is a whole number.
abbrev version_of : Number → ℕ
version_of (whole n) = n
version_of (negative n) = 0
version_of (part n k) = 0

-- The WHERE of the upsert: may the new row replace the old one?
unfoldable pub replaces : RoomFact → RoomFact → Bool
unfolding is_before
replaces new old =
    let at = new.fact.observed_at in
    let before = old.fact.observed_at in
    let not_older = leb (version_of old.fact.state_version) (version_of new.fact.state_version) in
    (is_before before at && (same_text new.fact.milestone created || not_older))
    || (same_text at before && not_older)

abbrev merge : RoomFact → RoomFact → RoomFact
merge new old =
    if same_text new.fact.milestone created
    then new
    else record new { first_observed_at = old.first_observed_at }

unfoldable pub upsert_fact : RoomFact → List RoomFact → List RoomFact
unfolding replaces
upsert_fact new [] = new ∷ []
upsert_fact new (old ∷ rest) =
    let more = upsert_fact new rest in
    if not (same_text old.room_key new.room_key)
    then old ∷ more
    else if replaces new old
    then merge new old ∷ rest
    else old ∷ rest

-- RECEIPT_GATED_ROOM_FACT_SQL. There is no room key when the key of the hash is not secure.
unfoldable pub write_fact : Option Text → Text → Text → ℕ → Text → Fact → Database → Database
unfolding any_open upsert_fact
write_fact none id hash now expiry fact db = db
write_fact (some key) id hash now expiry fact db =
    if db.schema_version == 6 && any_open id hash now db.receipts
    then record db {
      room_facts =
          upsert_fact
            (record {
              room_key = key;
              first_observed_at = fact.observed_at;
              expires_at = expiry;
              fact = fact;
            })
            db.room_facts;
    }
    else db

abbrev pub value_of : Option Number → Number
value_of none = whole 0
value_of (some n) = n

module _ (s : Service) where
  unfoldable pub tally : Text → Text → Number → Text → List Tally → List Tally
  tally day metric value at [] =
      record {
        day = day;
        metric = metric;
        event_count = 1;
        value_sum = value;
        value_min = value;
        value_max = value;
        updated_at = at;
      }
      ∷ []
  tally day metric value at (t ∷ rest) =
      let more = tally day metric value at rest in
      if same_text t.day day && same_text t.metric metric
      then record t {
        event_count = t.event_count + 1;
        value_sum = s.plus t.value_sum value;
        value_min = s.least t.value_min value;
        value_max = s.greatest t.value_max value;
        updated_at = at;
      }
        ∷ rest
      else t ∷ more

  -- RECEIPT_GATED_ANALYTICS_SQL
  unfoldable pub write_tally : Option Text → Number → Text → Text → Text → ℕ → Database → Database
  unfolding any_open tally
  write_tally none value at id hash now db = db
  write_tally (some metric) value at id hash now db =
      if db.schema_version == 6 && any_open id hash now db.receipts
      then record db { analytics = tally (take 10 at) metric value at db.analytics }
      else db

-- The rows that RECEIPT_APPLY_SQL changes, with their number.
unfoldable pub apply_receipts : Text → Text → ℕ → List Receipt → ℕ × List Receipt
unfolding is_open
apply_receipts id hash now [] = (0, [])
apply_receipts id hash now (r ∷ rs) =
    let (n, rest) = apply_receipts id hash now rs in
    let at = if ltb now r.received_at then r.received_at else now in
    if is_open id hash now r
    then (n + 1, record r { applied_at = some at } ∷ rest)
    else (n, r ∷ rest)

unfoldable pub apply_receipt : Text → Text → ℕ → Database → ℕ × Database
unfolding apply_receipts
apply_receipt id hash now db =
    let (n, rs) = apply_receipts id hash now db.receipts in
    if db.schema_version == 6 then (n, record db { receipts = rs }) else (0, db)

-- RECEIPT_READ_SQL
unfoldable pub read_receipt : Text → Database → Option Receipt
unfolding find_receipt
read_receipt id db = if db.schema_version == 6 then find_receipt id db.receipts else none
