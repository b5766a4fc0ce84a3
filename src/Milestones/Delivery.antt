-- ===== src/Milestones/Delivery.antt =====
-- The alarm of a room, cloudflare/worker.ts, which delivers the first milestone of its queue to the
-- receiver: one function for what comes before the await of the receiver, and one for what comes
-- after it, so that other calls may come between. The storage of the room works.
pub mod Kept
pub mod Wake
use non_stop_talk.Prelude.{
  ℕ, ◌+◌, ◌*◌, min, max, Bool, true, false, not, ◌&&◌, List, [], ◌∷◌, Option, none, some, ltb, leb,
  ◌==◌, if◌then◌else◌,
}
use non_stop_talk.Text.{Text, same_text}
use non_stop_talk.Milestones.{Checked, valid, invalid}
use non_stop_talk.Milestones.Contract.{Json, Payload, decode_payload}
use non_stop_talk.Milestones.Outbox.{
  RetryFailure, database_unavailable, receiver_invariant, conflict, invalid_payload, Queued, Outbox,
  fresh_outbox, is_consistent,
}
use non_stop_talk.Milestones.Retries.{
  read_head, acknowledge, dead_letter, dead_letter_expired, record_retry, purge, next_alarm_at,
  earlier,
}
use non_stop_talk.Milestones.Receiver
use non_stop_talk.Milestones.Receiver.{
  Service, Database, Delivery, Outcome, applied, duplicate, invariant, delivered, receive,
}

abbrev pub room_idle_ttl_ms : ℕ
room_idle_ttl_ms = 30 * 24 * 60 * 60 * 1000

abbrev room_delete_retry_ms : ℕ
room_delete_retry_ms = 60 * 60 * 1000

abbrev alarm_min_delay_ms : ℕ
alarm_min_delay_ms = 1000

abbrev pub milestone_watchdog_ms : ℕ
milestone_watchdog_ms = 2 * 60 * 1000

-- The storage of a room: when its state was updated, if it is there, whether the tables of the
-- outbox are there, what they hold, and the alarm.
pub record Object : Type 0 where
  pub room : Option ℕ
  pub has_outbox : Bool
  pub outbox : Outbox
  pub alarm : Option ℕ

abbrev outbox_at : Object → Option ℕ
unfolding next_alarm_at
outbox_at o = if o.has_outbox then next_alarm_at o.outbox else none

abbrev alarm_for : ℕ → ℕ → Option ℕ → ℕ
alarm_for floor expires_at none = max (floor + alarm_min_delay_ms) expires_at
alarm_for floor expires_at (some at) = max (floor + alarm_min_delay_ms) (min expires_at at)

-- reconcileRoomAlarm, or deleteAlarm without a room.
unfoldable pub reconcile_alarm : ℕ → Object → Object
unfolding next_alarm_at
reconcile_alarm floor o = elim o.room [
  | none ↦ record o { alarm = none }
  | some updated_at ↦ record o {
    alarm = some (alarm_for floor (updated_at + room_idle_ttl_ms) (outbox_at o));
  }
]

-- A transaction with one operation of the outbox. An exception leaves everything as it was.
abbrev pub transacted {ℓ} : {A : Type ℓ} → ℕ → Object → Option (A × Outbox) → Object
unfolding reconcile_alarm
transacted floor o none = o
transacted floor o (some (a, outbox)) = reconcile_alarm floor (record o { outbox = outbox })

-- deleteRoomStorage. The deletion may fail.
unfoldable pub delete_storage : Bool → ℕ → Object → Object
delete_storage true now o = record o {
  room = none;
  has_outbox = false;
  outbox = fresh_outbox [];
  alarm = none;
}
delete_storage false now o = record o { alarm = some (now + room_delete_retry_ms) }

-- finalizeMilestoneAcknowledgement
unfoldable pub finalize_acknowledgement : Queued → ℕ → Object → Object
unfolding acknowledge reconcile_alarm
finalize_acknowledgement head clock o = transacted clock o (some (acknowledge head o.outbox))

-- finalizeMilestoneConflict
unfoldable pub finalize_conflict : Queued → ℕ → Object → Object
unfolding dead_letter reconcile_alarm
finalize_conflict head now o = transacted now o (dead_letter head conflict now o.outbox)

-- finalizeExpiredMilestone
unfoldable pub finalize_expired : Queued → ℕ → Object → Object
unfolding dead_letter_expired reconcile_alarm
finalize_expired head now o = transacted now o (dead_letter_expired head now o.outbox)

-- finalizeInvalidMilestone
unfoldable pub finalize_invalid : Queued → ℕ → Object → Object
unfolding dead_letter reconcile_alarm
finalize_invalid head now o = transacted now o (dead_letter head invalid_payload now o.outbox)

-- What is done after the head was read, unless that throws.
abbrev pub after_head : Option (Option Queued) → Object → Object → Object
after_head none o o' = o
after_head (some head) o o' = o'

-- finalizeMilestoneRetry, without the log.
unfoldable pub finalize_retry : Queued → RetryFailure → ℕ → Object → Object
unfolding record_retry reconcile_alarm read_head
finalize_retry head failure now o =
    after_head (read_head o.outbox) o (transacted now o (record_retry head failure now o.outbox))

-- Where the alarm is before it awaits the receiver: at its end, at an exception, or with a head.
pub data Begun : Type 0 where
  finished thrown : Begun
  awaits : Queued → Begun

abbrev pub delivery_of : Queued → Delivery
delivery_of head = record { event_id = head.event_id; payload_json = head.payload_json }

-- Is a payload the head's, and of this room?
abbrev pub is_own : Queued → Outbox → Option Payload → Bool
unfolding is_consistent
is_own head outbox none = false
is_own head outbox (some p) =
    same_text p.fact.milestone head.milestone
    && is_consistent outbox.metadata
    && same_text p.room_instance_id outbox.metadata.room_instance_id

-- The alarm once the head is read.
unfoldable pub take_head : Json → ℕ → ℕ → Option (Option Queued) → Object → Begun × Object
unfolding is_consistent finalize_expired finalize_invalid
take_head json now expires_at none o = (thrown, o)
take_head json now expires_at (some none) o = (finished, o)
take_head json now expires_at (some (some head)) o =
    let p = delivered head.event_id (decode_payload json head.payload_json) in
    let wake = min (now + milestone_watchdog_ms) (min head.deadline_at expires_at) in
    if ltb now head.next_attempt_at
    then (finished, o)
    else if leb head.deadline_at now
    then (finished, finalize_expired head now o)
    else if is_own head o.outbox p
    then (awaits head, record o { alarm = some wake })
    else (finished, finalize_invalid head now o)

-- The alarm once letters are purged, 64 at most.
abbrev pub after_purge : Json → ℕ → ℕ → Option (ℕ × Outbox) → Object → Begun × Object
unfolding take_head read_head reconcile_alarm
after_purge json now expires_at none o = (thrown, o)
after_purge json now expires_at (some (n, outbox)) o =
    let o' = transacted now o (some (n, outbox)) in
    take_head json now expires_at (read_head outbox) o'

abbrev pub begin_with : Json → Bool → ℕ → Option ℕ → Object → Begun × Object
unfolding take_head delete_storage read_head purge reconcile_alarm
begin_with json deletes now none o = (finished, delete_storage deletes now o)
begin_with json deletes now (some updated_at) o =
    let expires_at = updated_at + room_idle_ttl_ms in
    if leb expires_at now
    then (finished, delete_storage deletes now o)
    else if not o.has_outbox
    then (finished, record o { alarm = some expires_at })
    else after_purge json now expires_at (purge 64 now o.outbox) o

-- alarm up to the receiver. The alarm that rings is no longer set.
unfoldable pub begin_alarm : Json → Bool → ℕ → Object → Begun × Object
unfolding take_head delete_storage read_head purge reconcile_alarm
begin_alarm json deletes now o = begin_with json deletes now o.room (record o { alarm = none })

-- What becomes of a call of the receiver: it comes back, its reply is lost, or it is never made.
pub data Network : Type 0 where
  works loses_reply is_down : Network

pub data Reply : Type 0 where
  answered : Outcome → Reply
  failed : Reply

abbrev pub reply_over : Network → Database → Option (Outcome × Database) → Reply × Database
reply_over works db none = (failed, db)
reply_over works db (some (a, db')) = (answered a, db')
reply_over loses_reply db none = (failed, db)
reply_over loses_reply db (some (a, db')) = (failed, db')
reply_over is_down db _ = (failed, db)

-- The rest of alarm.
unfoldable pub settle_alarm : Queued → Reply → ℕ → Object → Object
unfolding finalize_acknowledgement finalize_conflict finalize_retry
settle_alarm head failed clock o = finalize_retry head database_unavailable clock o
settle_alarm head (answered applied) clock o = finalize_acknowledgement head clock o
settle_alarm head (answered duplicate) clock o = finalize_acknowledgement head clock o
settle_alarm head (answered Receiver.conflict) clock o = finalize_conflict head clock o
settle_alarm head (answered invariant) clock o = finalize_retry head receiver_invariant clock o

-- The call of the receiver with what follows, on the storage as it is then.
unfoldable pub deliver :
    Service → Json → Option Text → Network → Queued → ℕ → ℕ → Object → Database → Object × Database
unfolding receive settle_alarm
deliver s json key network head now clock o db =
    let (reply, db') = reply_over network db (receive s json key (delivery_of head) now db) in
    (settle_alarm head reply clock o, db')
