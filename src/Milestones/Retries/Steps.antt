-- ===== src/Milestones/Retries/Steps.antt =====
-- The tables of cloudflare/room-milestone-outbox.ts through any sequence of operations.
pub mod Limits
use non_stop_talk.Prelude.{ℕ, List, [], ◌∷◌, Option, none, some}
use non_stop_talk.Text.{Text}
use non_stop_talk.Milestones.Contract.{Json, Fact}
use non_stop_talk.Milestones.Outbox.{
  DropReason, RetryFailure, DeadLetterReason, Queued, Outbox, record_drop, enqueue,
}
use non_stop_talk.Milestones.Retries.{
  acknowledge, record_retry, dead_letter, dead_letter_expired, purge,
}

-- A call, with any row that may have been read before.
pub data Call : Type 0 where
  enqueues : List Fact → ℕ → (ℕ → Text) → Call
  drops : DropReason → ℕ → ℕ → Call
  acknowledges : Queued → Call
  fails : Queued → RetryFailure → ℕ → Call
  gives_up : Queued → DeadLetterReason → ℕ → Call
  expires : Queued → ℕ → Call
  purges : ℕ → ℕ → Call

-- The tables after a call, which an exception leaves as they were.
abbrev pub committed {ℓ} : {A : Type ℓ} → Outbox → Option (A × Outbox) → Outbox
committed o none = o
committed o (some (a, o')) = o'

unfoldable pub call : Json → Call → Outbox → Outbox
unfolding record_drop enqueue acknowledge record_retry dead_letter dead_letter_expired purge
call json (enqueues facts now ids) o = committed o (enqueue json facts now ids o)
call json (drops reason count now) o = committed o (record_drop reason count now o)
call json (acknowledges q) o = (acknowledge q o).1
call json (fails q failure now) o = committed o (record_retry q failure now o)
call json (gives_up q reason now) o = committed o (dead_letter q reason now o)
call json (expires q now) o = committed o (dead_letter_expired q now o)
call json (purges limit now) o = committed o (purge limit now o)

unfoldable pub calls : Json → List Call → Outbox → Outbox
unfolding call
calls json [] o = o
calls json (c ∷ cs) o = calls json cs (call json c o)
