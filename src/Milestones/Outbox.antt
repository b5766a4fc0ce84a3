-- ===== src/Milestones/Outbox.antt =====
-- The queue of milestones that are not delivered yet, cloudflare/room-milestone-outbox.ts: three
-- SQLite tables of a room. `none` is an exception, after which the surrounding transaction leaves
-- the tables as they were. The CHECKs of the tables are tests.
pub mod Rows
pub mod Bounds
use Prim.Native.Nat.{bit_xor}
use non_stop_talk.Prelude.{
  ℕ, zero, suc, ◌+◌, ◌-◌, ◌*◌, ◌/◌, ◌%◌, ◌^◌, min, max, Bool, true, false, not, ◌&&◌, ◌||◌, List,
  [], ◌∷◌, ◌++◌, Option, none, some, ltb, leb, ◌==◌, if◌then◌else◌, length, take, get_or,
}
use non_stop_talk.Text.{Text, same_text, utf8_length}
use non_stop_talk.Text.Decimal.{decimal}
use non_stop_talk.Js.{max_safe_integer}
use non_stop_talk.Room.{contains_text}
use non_stop_talk.Milestones.{
  Checked, valid, invalid, ◌>>=◌, deliverable_milestones, max_room_milestone_payload_bytes,
}
use non_stop_talk.Milestones.Contract.{Json, Fact, is_hex_256, decode_payload, encode_payload}

abbrev pub outbox_capacity : ℕ
outbox_capacity = 256

abbrev pub dead_letter_capacity : ℕ
dead_letter_capacity = 256

-- Seven days and thirty days, in milliseconds.
abbrev pub outbox_deadline_ms : ℕ
outbox_deadline_ms = 7 * 24 * 60 * 60 * 1000

abbrev pub dead_letter_retention_ms : ℕ
dead_letter_retention_ms = 30 * 24 * 60 * 60 * 1000

abbrev pub max_attempts : ℕ
max_attempts = 16

abbrev pub drop_count_max : ℕ
drop_count_max = 2147483647

abbrev pub purge_batch_max : ℕ
purge_batch_max = 256

abbrev pub retry_delays_ms : List ℕ
retry_delays_ms =
    5000
    ∷ 30000
    ∷ (2 * 60000)
    ∷ (10 * 60000)
    ∷ (60 * 60000)
    ∷ (6 * 60 * 60000)
    ∷ (24 * 60 * 60000)
    ∷ []

pub data DropReason : Type 0 where
  capacity canonicalization : DropReason

pub data RetryFailure : Type 0 where
  database_unavailable receiver_invariant local_finalization_failed : RetryFailure

pub data DeadLetterReason : Type 0 where
  conflict deadline_exceeded attempts_exhausted invalid_payload receiver_fault : DeadLetterReason

-- A row of room_milestone_outbox.
pub record Queued : Type 0 where
  pub sequence : ℕ
  pub event_id : Text
  pub payload_json : Text
  pub milestone : Text
  pub created_at : ℕ
  pub deadline_at : ℕ
  pub attempt_count : ℕ
  pub next_attempt_at : ℕ
  pub last_failure : Option RetryFailure

-- A row of room_milestone_dead_letters.
pub record DeadLetter : Type 0 where
  pub id : ℕ
  pub reason : DeadLetterReason
  pub milestone : Text
  pub attempt_count : ℕ
  pub failed_at : ℕ
  pub purge_at : ℕ

-- The row of room_milestone_meta.
pub record Metadata : Type 0 where
  pub room_instance_id : Text
  pub dropped_total : ℕ
  pub dropped_capacity : ℕ
  pub dropped_canonicalization : ℕ
  pub last_drop : Option (DropReason × ℕ)

-- The tables: the queue by its sequence, with the next numbers that AUTOINCREMENT gives.
pub record Outbox : Type 0 where
  pub metadata : Metadata
  pub queue : List Queued
  pub next_sequence : ℕ
  pub dead_letters : List DeadLetter
  pub next_id : ℕ

abbrev pub fresh_outbox : Text → Outbox
fresh_outbox id = record {
  metadata = record {
    room_instance_id = id;
    dropped_total = 0;
    dropped_capacity = 0;
    dropped_canonicalization = 0;
    last_drop = none;
  };
  queue = [];
  next_sequence = 1;
  dead_letters = [];
  next_id = 1;
}

abbrev pub is_safe : ℕ → Bool
is_safe n = leb n max_safe_integer

-- recordDrop. The counters stop at their maximum.
abbrev pub count_drop : DropReason → ℕ → ℕ → Metadata → Metadata
count_drop capacity n now m = record m {
  dropped_total = min drop_count_max (m.dropped_total + n);
  dropped_capacity = min drop_count_max (m.dropped_capacity + n);
  last_drop = some (capacity, now);
}
count_drop canonicalization n now m = record m {
  dropped_total = min drop_count_max (m.dropped_total + n);
  dropped_canonicalization = min drop_count_max (m.dropped_canonicalization + n);
  last_drop = some (canonicalization, now);
}

-- What enqueueRoomMilestones answers.
pub data Enqueued : Type 0 where
  queued : List Queued → Enqueued
  dropped : DropReason → ℕ → Enqueued

-- recordRoomMilestoneDrop
unfoldable pub record_drop : DropReason → ℕ → ℕ → Outbox → Option (Enqueued × Outbox)
record_drop reason count now o =
    if is_safe now && leb 1 count && is_safe count
    then some (
      dropped reason count,
      record o { metadata = count_drop reason (min drop_count_max count) now o.metadata },
    )
    else none

-- The payloads of facts, with their milestones, unless one is not canonical.
unfoldable pub encode_all : Json → Text → List Fact → Checked (List (Text × Text))
encode_all json id [] = valid []
encode_all json id (f ∷ fs) = do
  s ← encode_payload json id f
  p ← decode_payload json s
  rest ← encode_all json id fs
  valid ((s, p.fact.milestone) ∷ rest)

unfoldable pub has_event_id : Text → List Queued → Bool
has_event_id id [] = false
has_event_id id (q ∷ qs) = same_text q.event_id id || has_event_id id qs

abbrev pub new_row : ℕ → ℕ → Text → Text × Text → Queued
new_row sequence now id payload = record {
  sequence = sequence;
  event_id = id;
  payload_json = payload.0;
  milestone = payload.1;
  created_at = now;
  deadline_at = now + outbox_deadline_ms;
  attempt_count = 0;
  next_attempt_at = now;
  last_failure = none;
}

-- The INSERTs, with the random event id for each number. An id that is there already is refused.
unfoldable pub insert_all :
    (ℕ → Text) → ℕ → ℕ → List (Text × Text) → Outbox → Option (List Queued × Outbox)
insert_all ids n now [] o = some ([], o)
insert_all ids n now (payload ∷ rest) o =
    let row = new_row o.next_sequence now (ids n) payload in
    let next = record o { queue = o.queue ++ row ∷ []; next_sequence = o.next_sequence + 1 } in
    elim (has_event_id (ids n) o.queue
      || not (is_hex_256 (ids n))
      || not (is_safe o.next_sequence)) [
        | true ↦ none
        | false ↦ elim (insert_all ids (n + 1) now rest next) [
          | none ↦ none
          | some (rows, last) ↦ some (row ∷ rows, last)
        ]
      ]

abbrev pub answer_queued : Option (List Queued × Outbox) → Option (Enqueued × Outbox)
answer_queued none = none
answer_queued (some (rows, o)) = some (queued rows, o)

abbrev pub insert_or_drop :
    (ℕ → Text) → ℕ → ℕ → Checked (List (Text × Text)) → Outbox → Option (Enqueued × Outbox)
insert_or_drop ids now n (invalid e) o = record_drop canonicalization n now o
insert_or_drop ids now n (valid payloads) o =
    if is_safe (now + outbox_deadline_ms)
    then answer_queued (insert_all ids 0 now payloads o)
    else none

-- What readRoomMilestoneOutboxMetadata asks of the counters.
unfoldable pub is_consistent : Metadata → Bool
is_consistent m =
    leb m.dropped_capacity m.dropped_total
    && leb m.dropped_canonicalization m.dropped_total
    && leb m.dropped_total drop_count_max

-- enqueueRoomMilestones, of a list of facts.
unfoldable pub enqueue : Json → List Fact → ℕ → (ℕ → Text) → Outbox → Option (Enqueued × Outbox)
unfolding record_drop insert_all encode_all is_consistent
enqueue json facts now ids o =
    let n = length facts in
    let m = o.metadata in
    if not (is_safe now)
    then none
    else if n == 0
    then record_drop canonicalization 1 now o
    else if not (leb (length o.queue) outbox_capacity)
    then none
    else if ltb (outbox_capacity - length o.queue) n
    then record_drop capacity n now o
    else if not (is_consistent m)
    then none
    else insert_or_drop ids now n (encode_all json m.room_instance_id facts) o
