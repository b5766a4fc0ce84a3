-- ===== src/Milestones/Retries/Steps/Limits.antt =====
-- No operation of cloudflare/room-milestone-outbox.ts takes the tables out of their limits.
use non_stop_talk.Prelude.{◌≡◌, refl, List, [], ◌∷◌, Option, none, some, arith}
use non_stop_talk.Text.{Text}
use non_stop_talk.Milestones.Contract.{Json}
use non_stop_talk.Milestones.Outbox.{Outbox, record_drop, enqueue, is_consistent, fresh_outbox}
use non_stop_talk.Milestones.Outbox.Rows.{IsOutbox}
use non_stop_talk.Milestones.Outbox.Bounds.{enqueue-IsOutbox, record_drop-IsOutbox}
use non_stop_talk.Milestones.Retries.{dead_letter, dead_letter_expired, record_retry, purge}
use non_stop_talk.Milestones.Retries.Rows.{acknowledge-IsOutbox}
use non_stop_talk.Milestones.Retries.Leaves.{
  Leaves, dead_letter-Leaves, dead_letter_expired-Leaves, record_retry-Leaves, purge-Leaves,
}
use non_stop_talk.Milestones.Retries.Steps.{
  Call, enqueues, drops, acknowledges, fails, gives_up, expires, purges, committed, call, calls,
}

committed-IsOutbox {ℓ} :
    {A : Type ℓ} (o : Outbox) (r : Option (A × Outbox))
    → IsOutbox o
    → Leaves r
    → IsOutbox (committed o r)
committed-IsOutbox o none h k = h
committed-IsOutbox o (some (a, o')) h k = k

-- What an exception or an answer leaves, from a statement about the answers.
Leaves-from {ℓ} :
    {A : Type ℓ} (r : Option (A × Outbox))
    → ((a : A) (o : Outbox) → r ≡ some (a, o) → IsOutbox o)
    → Leaves r
Leaves-from none h = tt
Leaves-from (some (a, o)) h = h a o refl

call-IsOutbox : (json : Json) (c : Call) (o : Outbox) → IsOutbox o → IsOutbox (call json c o)
unfolding call
call-IsOutbox json (enqueues facts now ids) o h =
    committed-IsOutbox o (enqueue json facts now ids o) h
      (Leaves-from _ (λ a o' e. enqueue-IsOutbox json facts now ids o o' a e h))
call-IsOutbox json (drops reason count now) o h =
    committed-IsOutbox o (record_drop reason count now o) h
      (Leaves-from _ (λ a o' e. record_drop-IsOutbox reason count now o o' a e h))
call-IsOutbox json (acknowledges q) o h = acknowledge-IsOutbox q o h
call-IsOutbox json (fails q failure now) o h =
    committed-IsOutbox o (record_retry q failure now o) h (record_retry-Leaves q failure now o h)
call-IsOutbox json (gives_up q reason now) o h =
    committed-IsOutbox o (dead_letter q reason now o) h (dead_letter-Leaves q reason now o h)
call-IsOutbox json (expires q now) o h =
    committed-IsOutbox o (dead_letter_expired q now o) h (dead_letter_expired-Leaves q now o h)
call-IsOutbox json (purges limit now) o h =
    committed-IsOutbox o (purge limit now o) h (purge-Leaves limit now o h)

calls-IsOutbox :
    (json : Json) (cs : List Call) (o : Outbox) → IsOutbox o → IsOutbox (calls json cs o)
unfolding calls
calls-IsOutbox json [] o h = h
calls-IsOutbox json (c ∷ cs) o h = calls-IsOutbox json cs (call json c o) (call-IsOutbox json c o h)

fresh_outbox-IsOutbox : (id : Text) → IsOutbox (fresh_outbox id)
unfolding is_consistent
fresh_outbox-IsOutbox id = record {
  size = omega arith;
  ordered = tt;
  numbered = tt;
  rows = tt;
  letters = omega arith;
  counted = refl;
}

-- From a new room on, whatever calls come in whatever order, with rows read at any time: at most
-- the capacity of milestones is queued, in the order of their sequences, which are below the next
-- one; each has failed fewer times than the maximum and is due between its creation and its
-- deadline; and there are no more dead letters than their capacity.
pub every_sequence-IsOutbox :
    (json : Json) (cs : List Call) (id : Text) → IsOutbox (calls json cs (fresh_outbox id))
every_sequence-IsOutbox json cs id =
    calls-IsOutbox json cs (fresh_outbox id) (fresh_outbox-IsOutbox id)
