-- ===== src/Milestones/Tests.antt =====
-- Tests of the model of cloudflare/room-milestone-*.ts and of the alarm of cloudflare/worker.ts.
mod Coding
use non_stop_talk.Prelude.{
  ℕ, zero, suc, ◌+◌, ◌≤◌, ◌≡◌, refl, true, false, List, [], ◌∷◌, Option, none, some, min, leb,
  arith,
}
use non_stop_talk.Text.{Text, same_text, utf8_length}
use non_stop_talk.Room.{contains_text}
use non_stop_talk.Room.Packs.{codes}
use non_stop_talk.Milestones.{
  Number, whole, negative, part, same_number, null, text, number, other, valid, invalid,
  invalid_input, created, joined, turn_completed, game_started,
}
use non_stop_talk.Milestones.Contract.{
  Json, Fact, Payload, is_hex_256, lowercase_hex_256, enum_value, canonical_timestamp,
  integer_between, at_most, number_up_to, expected_analytics, milestone_invariants, same_metric,
  same_value, tuple, decode_fields, decode_payload, encode_payload,
}
use non_stop_talk.Milestones.Contract.Canonical.{
  IsPayload, decode_payload-IsPayload, decode_payload-encode,
}
use non_stop_talk.Milestones.Outbox.{
  Queued, DeadLetter, Outbox, fresh_outbox, database_unavailable, receiver_invariant, conflict,
  capacity, record_drop, encode_all, has_event_id, new_row, insert_all, is_consistent, enqueue,
  queued, dropped,
}
use non_stop_talk.Milestones.Outbox.Rows.{IsOutbox}
use non_stop_talk.Milestones.Outbox.Bounds.{IsEnqueued, enqueue-IsEnqueued}
use non_stop_talk.Milestones.Retries.{
  is_sound, read_head, is_expected, without, count_expected, acknowledge, fnv, retry_delay, retries,
  record_retry, dead_letter, dead_letter_with, update_expected, allows_next, purge, purge_some,
  sort_by, purges_first, first_purge, next_alarm_at,
}
use non_stop_talk.Milestones.Retries.Steps.{enqueues, fails, acknowledges, calls, call}
use non_stop_talk.Milestones.Retries.Steps.Limits.{every_sequence-IsOutbox}
use non_stop_talk.Milestones.Receiver.{
  Service, Database, Delivery, Outcome, applied, duplicate, find_receipt, is_open, any_open,
  insert_receipt, is_before, replaces, upsert_fact, write_fact, tally, write_tally, apply_receipts,
  apply_receipt, read_receipt, classify, batch, is_secure_key, key_of, is_receipt_time, received,
  receive,
}
use non_stop_talk.Milestones.Receiver.Receipts.{IsSettled}
use non_stop_talk.Milestones.Receiver.Receipts.Once.{IsReceived, receive-IsReceived}
use non_stop_talk.Milestones.Receiver.Replay.{receives, receive_again}
use non_stop_talk.Milestones.Delivery.{
  Object, awaits, loses_reply, begin_alarm, take_head, delivery_of, settle_alarm, reconcile_alarm,
  finalize_acknowledgement, finalize_retry,
}
use non_stop_talk.Milestones.Delivery.Wake.{IsAwaited, begin_alarm-IsAwaited}
use Coding.{coding, coding_reads}

abbrev repeated : ℕ → ℕ → Text
repeated zero c = []
repeated (suc n) c = c ∷ repeated n c

-- Ids of 64 characters.
abbrev room_id : Text
room_id = repeated 64 97

abbrev event_ids : ℕ → Text
event_ids n = repeated 64 (48 + n)

-- A fact of a new room.
abbrev fact : Fact
fact = record {
  milestone = created;
  observed_at = codes "2026-01-02T03:04:05.678Z";
  state_version = whole 1;
  phase = codes "setup";
  player_count = whole 1;
  online_player_count = whole 1;
  configured_rounds = whole 3;
  turn_duration_seconds = whole 60;
  topic_pack = codes "everyday";
  completed_turn_count = whole 0;
  finished_game_count = whole 0;
  total_score = whole 0;
  last_turn_spoken_seconds = whole 0;
}

abbrev payload_text : Text
payload_text = coding.stringify (tuple room_id fact (some (codes "room_created")) (some (whole 0)))

abbrev payload : Payload
payload = record {
  room_instance_id = room_id;
  fact = fact;
  analytics_metric = some (codes "room_created");
  analytics_value = some (whole 0);
}

contract : Unit {0}
unfolding is_hex_256 lowercase_hex_256 enum_value canonical_timestamp integer_between at_most
    number_up_to expected_analytics milestone_invariants same_metric same_value tuple decode_fields
    decode_payload encode_payload same_text utf8_length same_number
contract = tt

decodes : decode_payload coding payload_text ≡ valid payload
unfolding contract
decodes = refl

encodes : encode_payload coding room_id fact ≡ valid payload_text
unfolding contract
encodes = refl

-- A new room that is played already is refused.
refuses_phase :
    encode_payload coding room_id (record fact { phase = codes "playing" }) ≡ invalid invalid_input
unfolding contract
refuses_phase = refl

decode_payload-IsPayload_example :
    (utf8_length payload_text ≤ 1024)
    × (payload_text
        ≡ coding.stringify (tuple room_id fact (some (codes "room_created")) (some (whole 0))))
    × IsPayload coding payload
decode_payload-IsPayload_example = decode_payload-IsPayload coding payload_text payload decodes

decode_payload-encode_example :
    (p : Payload) × (decode_payload coding payload_text ≡ valid p)
    × (p.room_instance_id ≡ room_id)
    × (p.fact ≡ fact)
decode_payload-encode_example =
    decode_payload-encode coding room_id payload_text fact coding_reads encodes

abbrev row : ℕ → Queued
row n = new_row (n + 1) 1000 (event_ids n) (payload_text, created)

abbrev two_queued : Outbox
two_queued = record (fresh_outbox room_id) { queue = row 0 ∷ row 1 ∷ []; next_sequence = 3 }

queue : Unit {0}
unfolding contract record_drop encode_all has_event_id insert_all is_consistent enqueue
queue = tt

queues_both :
    enqueue coding (fact ∷ fact ∷ []) 1000 event_ids (fresh_outbox room_id)
    ≡ some (queued (row 0 ∷ row 1 ∷ []), two_queued)
unfolding queue
queues_both = refl

enqueue-IsEnqueued_example :
    IsEnqueued coding
      (fact ∷ fact ∷ [])
      1000
      event_ids
      (fresh_outbox room_id)
      (queued (row 0 ∷ row 1 ∷ []))
      two_queued
enqueue-IsEnqueued_example =
    enqueue-IsEnqueued coding (fact ∷ fact ∷ []) 1000 event_ids (fresh_outbox room_id) two_queued
      (queued (row 0 ∷ row 1 ∷ [])) queues_both

every_sequence-IsOutbox_example : IsOutbox (
    calls coding
      (enqueues (fact ∷ fact ∷ []) 1000 event_ids
        ∷ fails (row 0) database_unavailable 2000
        ∷ acknowledges (row 1)
        ∷ [])
      (fresh_outbox room_id))
every_sequence-IsOutbox_example =
    every_sequence-IsOutbox coding
      (enqueues (fact ∷ fact ∷ []) 1000 event_ids
        ∷ fails (row 0) database_unavailable 2000
        ∷ acknowledges (row 1)
        ∷ [])
      room_id

abbrev service : Service
service = record {
  payload_hash = λ s. some (repeated 64 98);
  room_key = λ key id. some id;
  fact_expiry = λ s. some s;
  plus = λ a b. a;
  least = λ a b. a;
  greatest = λ a b. b;
}

abbrev hash_key : Option Text
hash_key = some (repeated 32 107)

abbrev empty : Database
empty = record { schema_version = 6; receipts = []; room_facts = []; analytics = [] }

abbrev with_one : Database
with_one = record {
  schema_version = 6;
  receipts =
      record {
        event_id = event_ids 0;
        payload_hash = repeated 64 98;
        received_at = 2000;
        applied_at = some 2000;
        expires_at = 7776002000;
      }
      ∷ [];
  room_facts =
      record {
        room_key = room_id;
        first_observed_at = fact.observed_at;
        expires_at = fact.observed_at;
        fact = fact;
      }
      ∷ [];
  analytics =
      record {
        day = codes "2026-01-02";
        metric = codes "room_created";
        event_count = 1;
        value_sum = whole 0;
        value_min = whole 0;
        value_max = whole 0;
        updated_at = fact.observed_at;
      }
      ∷ [];
}

receiver : Unit {0}
unfolding contract find_receipt is_open any_open insert_receipt is_before replaces upsert_fact
    write_fact tally write_tally apply_receipts apply_receipt read_receipt classify batch
    is_secure_key key_of is_receipt_time received receive
receiver = tt

applies :
    receive service coding hash_key (delivery_of (row 0)) 2000 empty ≡ some (applied, with_one)
unfolding receiver
applies = refl

receive-IsReceived_example : IsReceived coding (delivery_of (row 0)) 2000 empty applied with_one
receive-IsReceived_example =
    receive-IsReceived service coding hash_key (delivery_of (row 0)) 2000 empty with_one applied tt
      applies

in_time : is_receipt_time 9000 ≡ true
unfolding receiver
in_time = refl

receive_again_example :
    receive service coding hash_key
      (delivery_of (row 0))
      9000
      (receives service coding hash_key ((delivery_of (row 1), 3000) ∷ []) with_one)
    ≡ some (duplicate, receives service coding hash_key ((delivery_of (row 1), 3000) ∷ []) with_one)
receive_again_example =
    receive_again service coding hash_key (delivery_of (row 0)) 2000 9000
      ((delivery_of (row 1), 3000) ∷ []) empty with_one tt applies in_time

abbrev object : Object
object = record { room = some 1500; has_outbox = true; outbox = two_queued; alarm = some 1000 }

alarm : Unit {0}
unfolding queue is_sound read_head purge purge_some sort_by purges_first first_purge next_alarm_at
    take_head begin_alarm reconcile_alarm
alarm = tt

begins :
    begin_alarm coding true 2000 object ≡ (awaits (row 0), record object { alarm = some 122000 })
unfolding alarm
begins = refl

begin_alarm-IsAwaited_example :
    IsAwaited coding 2000 (row 0) (record object { alarm = some 122000 })
begin_alarm-IsAwaited_example =
    begin_alarm-IsAwaited coding true 2000 object (record object { alarm = some 122000 }) (row 0)
      begins
