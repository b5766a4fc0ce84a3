-- ===== src/Milestones/Delivery/Kept.antt =====
-- No milestone is lost by an alarm, cloudflare/worker.ts with cloudflare/room-milestone-outbox.ts
-- and cloudflare/room-milestone-receiver.ts.
use non_stop_talk.Prelude.{ℕ, ◌≡◌, ◌⊎◌, refl, Bool, true, false, some, Option-cases, inl, inr}
use non_stop_talk.Text.{Text}
use non_stop_talk.Milestones.Outbox.{
  max_attempts, DeadLetterReason, deadline_exceeded, attempts_exhausted, dead_letter_retention_ms,
  Queued, Outbox, is_safe,
}
use non_stop_talk.Milestones.Outbox
use non_stop_talk.Milestones.Receiver.{
  Service, Receipt, Database, Outcome, applied, duplicate, conflict, invariant, is_unapplied,
  find_receipt,
}
use non_stop_talk.Milestones.Delivery.{Object, reconcile_alarm}
use non_stop_talk.Milestones.Retries.{without}
use non_stop_talk.Milestones.Retries.Letters.{HasLetter}

pub reconcile_alarm-outbox : (floor : ℕ) (o : Object) → (reconcile_alarm floor o).outbox ≡ o.outbox
unfolding reconcile_alarm
reconcile_alarm-outbox floor o = elim (Option-cases o.room) [
  | inl e ↦ rw e refl
  | inr (u, e) ↦ rw e refl
]

-- The event of a milestone has an applied receipt, with the hash of its payload.
pub record IsDelivered (s : Service) (head : Queued) (db : Database) : Type 0 where
  pub hash : Text
  pub hashed : s.payload_hash head.payload_json ≡ some hash
  pub receipt : Receipt
  pub found : find_receipt head.event_id db.receipts ≡ some receipt
  pub same : receipt.payload_hash ≡ hash
  pub applied : is_unapplied receipt.applied_at ≡ false

abbrev is_success : Outcome → Bool
is_success applied = true
is_success duplicate = true
is_success conflict = false
is_success invariant = false

-- What becomes of a milestone that was tried.
abbrev pub IsKept : Service → Queued → Object → Object → Database → Type 0
IsKept s head o o' db =
    (IsDelivered s head db × (o'.outbox.queue ≡ without head o.outbox.queue))
    ⊎ HasLetter head o.outbox o'.outbox
