-- ===== src/Milestones/Retries.antt =====
-- What becomes of a milestone that was read from the queue, cloudflare/room-milestone-outbox.ts: it
-- is acknowledged, tried again later, or moved to the dead letters. `none` is an exception.
pub mod Steps
pub mod Rows
pub mod Leaves
pub mod Letters
pub mod Delays
use Prim.Native.Nat.{bit_xor}
use non_stop_talk.Prelude.{
  ℕ, zero, suc, ◌+◌, ◌-◌, ◌*◌, ◌/◌, ◌%◌, ◌^◌, min, max, Bool, true, false, not, ◌&&◌, ◌||◌, List,
  [], ◌∷◌, ◌++◌, Option, none, some, ltb, leb, ◌==◌, if◌then◌else◌, length, take, get_or,
}
use non_stop_talk.Text.{Text, same_text, utf8_length}
use non_stop_talk.Text.Decimal.{decimal}
use non_stop_talk.Js.{max_safe_integer}
use non_stop_talk.Room.{contains_text}
use non_stop_talk.Milestones.{
  Checked, valid, invalid, ◌>>=◌, deliverable_milestones, max_room_milestone_payload_bytes,
}
use non_stop_talk.Milestones.Contract.{Json, Fact, is_hex_256, decode_payload, encode_payload}
use non_stop_talk.Milestones.Outbox.{
  outbox_capacity, dead_letter_capacity, outbox_deadline_ms, dead_letter_retention_ms, max_attempts,
  drop_count_max, purge_batch_max, retry_delays_ms, RetryFailure, DeadLetterReason, conflict,
  deadline_exceeded, attempts_exhausted, invalid_payload, receiver_fault, Queued, DeadLetter,
  Metadata, Outbox, is_safe,
}

abbrev is_none {ℓ} : {A : Type ℓ} → Option A → Bool
is_none none = true
is_none (some a) = false

abbrev same_test : Bool → Bool → Bool
same_test true b = b
same_test false b = not b

-- outboxHeadFromRow
unfoldable pub is_sound : Queued → Bool
is_sound q =
    leb 1 q.sequence
    && is_safe q.sequence
    && is_hex_256 q.event_id
    && leb 2 (utf8_length q.payload_json)
    && leb (utf8_length q.payload_json) max_room_milestone_payload_bytes
    && contains_text q.milestone deliverable_milestones
    && is_safe q.created_at
    && is_safe q.deadline_at
    && q.deadline_at == q.created_at + outbox_deadline_ms
    && leb q.attempt_count max_attempts
    && leb q.created_at q.next_attempt_at
    && leb q.next_attempt_at q.deadline_at
    && same_test (q.attempt_count == 0) (is_none q.last_failure)

abbrev pub first_of : List Queued → Option (Option Queued)
first_of [] = some none
first_of (q ∷ rest) = if is_sound q then some (some q) else none

-- readRoomMilestoneOutboxHead: the least sequence is the first, since rows are added behind.
unfoldable pub read_head : Outbox → Option (Option Queued)
unfolding is_sound
read_head o = first_of o.queue

-- The condition of each UPDATE and DELETE on a row that was read before.
unfoldable pub is_expected : Queued → Queued → Bool
is_expected expected q =
    q.sequence == expected.sequence
    && same_text q.event_id expected.event_id
    && same_text q.payload_json expected.payload_json
    && q.attempt_count == expected.attempt_count

unfoldable pub without : Queued → List Queued → List Queued
without expected [] = []
without expected (q ∷ qs) =
    let rest = without expected qs in if is_expected expected q then rest else q ∷ rest

unfoldable pub count_expected : Queued → List Queued → ℕ
count_expected expected [] = 0
count_expected expected (q ∷ qs) =
    let rest = count_expected expected qs in if is_expected expected q then rest + 1 else rest

-- acknowledgeRoomMilestone
unfoldable pub acknowledge : Queued → Outbox → Bool × Outbox
unfolding without count_expected
acknowledge expected o =
    (count_expected expected o.queue == 1, record o { queue = without expected o.queue })

-- The order of capDeadLetters: the later failure first, then the greater id.
unfoldable pub is_newer : DeadLetter → DeadLetter → Bool
is_newer a b = ltb b.failed_at a.failed_at || (b.failed_at == a.failed_at && ltb b.id a.id)

-- Puts a letter into an order.
unfoldable pub place :
    (DeadLetter → DeadLetter → Bool) → DeadLetter → List DeadLetter → List DeadLetter
place before d [] = d ∷ []
place before d (x ∷ rest) =
    let more = place before d rest in if before x d then x ∷ more else d ∷ x ∷ rest

unfoldable pub sort_by : (DeadLetter → DeadLetter → Bool) → List DeadLetter → List DeadLetter
unfolding place
sort_by before [] = []
sort_by before (d ∷ rest) = place before d (sort_by before rest)

-- capDeadLetters. The table has no order of its own.
unfoldable pub cap_dead_letters : List DeadLetter → List DeadLetter
unfolding sort_by is_newer
cap_dead_letters letters = take dead_letter_capacity (sort_by is_newer letters)

abbrev pub letter : ℕ → DeadLetterReason → Text → ℕ → ℕ → DeadLetter
letter id reason milestone attempts failed_at = record {
  id = id;
  reason = reason;
  milestone = milestone;
  attempt_count = attempts;
  failed_at = failed_at;
  purge_at = failed_at + dead_letter_retention_ms;
}

-- deadLetterWithAttemptCount
unfoldable pub dead_letter_with :
    Queued → DeadLetterReason → ℕ → ℕ → Outbox → Option (Bool × Outbox)
unfolding acknowledge cap_dead_letters
dead_letter_with expected reason failed_at attempts o =
    let (deleted, o') = acknowledge expected o in
    if not (leb attempts max_attempts)
    then none
    else if count_expected expected o.queue == 0
    then some (false, o)
    else if is_safe (failed_at + dead_letter_retention_ms) && deleted
    then some (
      true,
      record o' {
        dead_letters =
            cap_dead_letters
              (letter o.next_id reason expected.milestone attempts failed_at ∷ o.dead_letters);
        next_id = o.next_id + 1;
      },
    )
    else none

-- deadLetterRoomMilestone
unfoldable pub dead_letter : Queued → DeadLetterReason → ℕ → Outbox → Option (Bool × Outbox)
unfolding dead_letter_with
dead_letter expected reason failed_at o =
    if is_safe failed_at
    then dead_letter_with expected reason failed_at expected.attempt_count o
    else none

-- deadLetterExpiredRoomMilestone
unfoldable pub dead_letter_expired : Queued → ℕ → Outbox → Option (Bool × Outbox)
unfolding dead_letter
dead_letter_expired expected now o =
    if not (is_safe now)
    then none
    else if leb expected.deadline_at now
    then dead_letter expected deadline_exceeded now o
    else some (false, o)

-- One round of the hash: the product of two 32-bit words, as Math.imul and `>>> 0` give it.
abbrev pub fnv_round : ℕ → ℕ → ℕ
fnv_round hash c = (bit_xor hash c * 16777619) % 2 ^ 32

unfoldable pub fnv : ℕ → Text → ℕ
fnv hash [] = hash
fnv hash (c ∷ s) = fnv (fnv_round hash c) s

abbrev pub retry_base : ℕ → ℕ
retry_base attempt = get_or retry_delays_ms (min attempt 7 - 1) 86400000

-- roomMilestoneRetryDelayMs
unfoldable pub retry_delay : Text → ℕ → Option ℕ
unfolding fnv
retry_delay id attempt =
    let hash = fnv 2166136261 (id ++ 58 ∷ decimal attempt) in
    if is_hex_256 id && leb 1 attempt && leb attempt max_attempts
    then some ((retry_base attempt * (8000 + hash % 4001)) / 10000)
    else none

pub data Retried : Type 0 where
  retries : ℕ → ℕ → Retried
  dead_lettered : DeadLetterReason → Retried
  stale : Retried

abbrev pub as_dead : DeadLetterReason → Option (Bool × Outbox) → Option (Retried × Outbox)
as_dead reason none = none
as_dead reason (some (true, o)) = some (dead_lettered reason, o)
as_dead reason (some (false, o)) = some (stale, o)

unfoldable pub update_expected : Queued → ℕ → ℕ → RetryFailure → List Queued → List Queued
update_expected expected attempts next failure [] = []
update_expected expected attempts next failure (q ∷ qs) =
    let rest = update_expected expected attempts next failure qs in
    if is_expected expected q
    then record q { attempt_count = attempts; next_attempt_at = next; last_failure = some failure }
      ∷ rest
    else q ∷ rest

-- The CHECK on next_attempt_at, of the rows that an UPDATE changes.
unfoldable pub allows_next : Queued → ℕ → List Queued → Bool
allows_next expected next [] = true
allows_next expected next (q ∷ qs) =
    (not (is_expected expected q) || (leb q.created_at next && leb next q.deadline_at))
    && allows_next expected next qs

abbrev pub schedule : Queued → RetryFailure → ℕ → Option ℕ → Outbox → Option (Retried × Outbox)
schedule expected failure failed_at none o = none
schedule expected failure failed_at (some delay) o =
    let attempts = expected.attempt_count + 1 in
    let next = min expected.deadline_at (failed_at + delay) in
    let updated = record o { queue = update_expected expected attempts next failure o.queue } in
    if is_safe (failed_at + delay) && allows_next expected next o.queue
    then some (
        if count_expected expected o.queue == 1
        then (retries attempts next, updated)
        else (stale, updated))
    else none

-- recordRoomMilestoneRetry
unfoldable pub record_retry : Queued → RetryFailure → ℕ → Outbox → Option (Retried × Outbox)
unfolding dead_letter_with dead_letter retry_delay update_expected allows_next count_expected
record_retry expected failure failed_at o =
    let attempts = expected.attempt_count + 1 in
    if not (is_safe failed_at)
    then none
    else if leb expected.deadline_at failed_at
    then as_dead deadline_exceeded (dead_letter expected deadline_exceeded failed_at o)
    else if leb max_attempts attempts
    then as_dead attempts_exhausted
        (dead_letter_with expected attempts_exhausted failed_at attempts o)
    else schedule expected failure failed_at (retry_delay expected.event_id attempts) o

unfoldable pub purges_first : DeadLetter → DeadLetter → Bool
purges_first a b = ltb a.purge_at b.purge_at || (a.purge_at == b.purge_at && ltb a.id b.id)

-- The DELETE of purgeExpiredRoomMilestoneDeadLetters, on the letters in its order.
unfoldable pub purge_some : ℕ → ℕ → List DeadLetter → ℕ × List DeadLetter
purge_some limit now [] = (0, [])
purge_some zero now letters = (0, letters)
purge_some (suc limit) now (d ∷ rest) =
    let (n, kept) = purge_some limit now rest in
    if leb d.purge_at now then (n + 1, kept) else (0, d ∷ rest)

-- purgeExpiredRoomMilestoneDeadLetters
unfoldable pub purge : ℕ → ℕ → Outbox → Option (ℕ × Outbox)
unfolding purge_some sort_by purges_first
purge limit now o =
    let (n, kept) = purge_some limit now (sort_by purges_first o.dead_letters) in
    if is_safe now && leb 1 limit && leb limit purge_batch_max
    then some (n, record o { dead_letters = kept })
    else none

abbrev pub earlier : Option ℕ → Option ℕ → Option ℕ
earlier none b = b
earlier (some a) none = some a
earlier (some a) (some b) = some (min a b)

abbrev pub due_of : List Queued → Option ℕ
due_of [] = none
due_of (q ∷ rest) = some (min q.next_attempt_at q.deadline_at)

unfoldable pub first_purge : List DeadLetter → Option ℕ
first_purge [] = none
first_purge (d ∷ rest) = earlier (some d.purge_at) (first_purge rest)

-- readNextRoomMilestoneAlarmAt
unfoldable pub next_alarm_at : Outbox → Option ℕ
unfolding first_purge
next_alarm_at o = earlier (due_of o.queue) (first_purge o.dead_letters)
