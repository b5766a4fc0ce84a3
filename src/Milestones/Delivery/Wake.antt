-- ===== src/Milestones/Delivery/Wake.antt =====
-- What is true when an alarm of cloudflare/worker.ts awaits the receiver.
use non_stop_talk.Prelude.{
  ℕ, ◌+◌, ◌≤◌, ◌<◌, ◌≡◌, refl, sym, ◌∙◌, ap, Bool, true, false, not, Option, none, some, ltb, leb,
  if◌then◌else◌, min, Bool-cases, inl, inr, arith,
}
use non_stop_talk.Milestones.Contract.{Json, decode_payload}
use non_stop_talk.Milestones.Outbox.{Queued, Outbox}
use non_stop_talk.Milestones.Retries.{read_head, purge}
use non_stop_talk.Milestones.Receiver.{delivered}
use non_stop_talk.Milestones.Delivery.Kept.{reconcile_alarm-outbox}
use non_stop_talk.Milestones.Delivery.{
  room_idle_ttl_ms, milestone_watchdog_ms, Object, transacted, awaits, is_own, take_head,
  after_purge, begin_with, begin_alarm,
}

-- The first milestone is due, before its deadline, a payload of this room, and the alarm is set.
pub record IsAwaited (json : Json) (now : ℕ) (head : Queued) (o : Object) : Type 0 where
  pub first : read_head o.outbox ≡ some (some head)
  pub due : head.next_attempt_at ≤ now
  pub before : now < head.deadline_at
  pub own :
      is_own head o.outbox (delivered head.event_id (decode_payload json head.payload_json)) ≡ true
  pub wake : ℕ
  pub set : o.alarm ≡ some wake
  pub soon : wake ≤ now + milestone_watchdog_ms
  pub in_time : wake ≤ head.deadline_at

take_head-IsAwaited :
    (json : Json) (now expires_at : ℕ) (r : Option (Option Queued)) (o o' : Object) (head : Queued)
    → read_head o.outbox ≡ r
    → take_head json now expires_at r o ≡ (awaits head, o')
    → IsAwaited json now head o'
unfolding take_head
take_head-IsAwaited json now expires_at none o o' head first h = ground (arith, h)
take_head-IsAwaited json now expires_at (some none) o o' head first h = ground (arith, h)
take_head-IsAwaited json now expires_at (some (some q)) o o' head first h =
    let p = delivered q.event_id (decode_payload json q.payload_json) in
    let wake = min (now + milestone_watchdog_ms) (min q.deadline_at expires_at) in
    elim (Bool-cases (ltb now q.next_attempt_at)) [
      | inl a ↦ ground (arith, a, h)
      | inr a ↦ elim (Bool-cases (leb q.deadline_at now)) [
        | inl b ↦ ground (arith, a, b, h)
        | inr b ↦ elim (Bool-cases (is_own q o.outbox p)) [
          | inr c ↦ ground (arith, a, b, c, h)
          | inl c ↦
              let is : (q ≡ head) × (record o { alarm = some wake } ≡ o') =
                ground (arith, a, b, c, h) in
              rw (sym is.0, sym is.1)
                (record {
                  first = first;
                  due = ground (arith, a);
                  before = ground (arith, b);
                  own = c;
                  wake = wake;
                  set = refl;
                  soon = omega arith;
                  in_time = omega arith;
                })
        ]
      ]
    ]

after_purge-IsAwaited :
    (json : Json) (now expires_at : ℕ) (r : Option (ℕ × Outbox)) (o o' : Object) (head : Queued)
    → after_purge json now expires_at r o ≡ (awaits head, o')
    → IsAwaited json now head o'
unfolding after_purge transacted
after_purge-IsAwaited json now expires_at none o o' head h = ground (arith, h)
after_purge-IsAwaited json now expires_at (some (n, outbox)) o o' head h =
    let next = transacted now o (some (n, outbox)) in
    take_head-IsAwaited json now expires_at (read_head outbox) next o' head
      (ap read_head (reconcile_alarm-outbox now (record o { outbox = outbox }))) h

if-false {ℓ} : {A : Type ℓ} (b : Bool) (x y : A) → b ≡ false → (if b then x else y) ≡ y
if-false true x y h = ground (arith, h)
if-false false x y h = refl

begin_with-IsAwaited :
    (json : Json) (deletes : Bool) (now : ℕ) (room : Option ℕ) (o o' : Object) (head : Queued)
    → begin_with json deletes now room o ≡ (awaits head, o')
    → IsAwaited json now head o'
unfolding begin_with
begin_with-IsAwaited json deletes now none o o' head h = ground (arith, h)
begin_with-IsAwaited json deletes now (some updated_at) o o' head h =
    let expires_at = updated_at + room_idle_ttl_ms in
    let tried = after_purge json now expires_at (purge 64 now o.outbox) o in
    elim (Bool-cases (leb expires_at now)) [
      | inl a ↦ ground (arith, a, h)
      | inr a ↦ elim (Bool-cases (not o.has_outbox)) [
        | inl b ↦ ground (arith, a, b, h)
        | inr b ↦
            let is : tried ≡ (awaits head, o') =
              sym (if-false (leb expires_at now) _ _ a ∙ if-false (not o.has_outbox) _ tried b)
              ∙ h in
            after_purge-IsAwaited json now expires_at (purge 64 now o.outbox) o o' head is
      ]
    ]

-- When an alarm awaits the receiver, the first milestone of the queue is due, is before its deadline
-- and has a canonical payload of this room and its own name, and an alarm is set, no later than the
-- watchdog's time and the deadline: an interruption cannot leave the queue without a wake.
pub begin_alarm-IsAwaited :
    (json : Json) (deletes : Bool) (now : ℕ) (o o' : Object) (head : Queued)
    → begin_alarm json deletes now o ≡ (awaits head, o')
    → IsAwaited json now head o'
unfolding begin_alarm
begin_alarm-IsAwaited json deletes now o o' head h =
    begin_with-IsAwaited json deletes now o.room (record o { alarm = none }) o' head h
