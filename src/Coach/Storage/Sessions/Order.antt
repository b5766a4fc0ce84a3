-- ===== src/Coach/Storage/Sessions/Order.antt =====
-- The sessions of readCoachingProgressSnapshot, of cloudflare/public/coach-storage.js, in their
-- order.
use mathlib.Core.List.{Perm}
use mathlib.Core.List.Perm
use non_stop_talk.Prelude.{
  ℕ, ◌≤◌, max, ◌≡◌, refl, sym, List, [], ◌∷◌, Option, none, some, arith, All, All-imp, Bool-cases,
  inl, inr, true, false, leb, length,
}
use non_stop_talk.Js.{max_safe_integer}
use non_stop_talk.Coach.Storage.{Key, Artifact, Summary}
use non_stop_talk.Coach.Storage.Sessions.Staying.{IsStored, reconcile-sessions}
use non_stop_talk.Coach.Storage.Reconcile.{
  Stores, Retained, State, retained_rows, retained_bytes, tally, reconcile, value_at, is_some,
  find_retained,
}
use non_stop_talk.Coach.Storage.Sessions.{Call, returned}
use non_stop_talk.Coach.Storage.Sessions.Bounds.{tally-exact}
use non_stop_talk.Coach.Storage.Sessions.Stored.{transact-returned}
use non_stop_talk.Coach.Storage.Sessions.Snapshot.{
  Usage, expires_first, insert_session, sort_sessions, usage_of, first_expiry, snapshot_after,
  read_progress_snapshot,
}

-- No session expires later than one that comes after it.
abbrev pub Rising : List Retained → Type 0
Rising [] = Unit
Rising (r ∷ rs) = All (λ x. r.lifecycle.expires_at ≤ x.lifecycle.expires_at) rs × Rising rs

insert-All :
    (n : ℕ) (r : Retained) (rs : List Retained)
    → n ≤ r.lifecycle.expires_at
    → All (λ x. n ≤ x.lifecycle.expires_at) rs
    → All (λ x. n ≤ x.lifecycle.expires_at) (insert_session r rs)
unfolding insert_session
insert-All n r [] h k = (h, tt)
insert-All n r (x ∷ rest) h k = elim (Bool-cases (expires_first x r)) [
  | inl e ↦ rw e (k.0, insert-All n r rest h k.1)
  | inr e ↦ rw e (h, k)
]

expires_first-le :
    (a b : Retained) → expires_first a b ≡ true → a.lifecycle.expires_at ≤ b.lifecycle.expires_at
unfolding expires_first
expires_first-le a b h = ground (arith, h)

expires_first-ge :
    (a b : Retained) → expires_first a b ≡ false → b.lifecycle.expires_at ≤ a.lifecycle.expires_at
unfolding expires_first
expires_first-ge a b h = ground (arith, h)

insert-Rising : (r : Retained) (rs : List Retained) → Rising rs → Rising (insert_session r rs)
unfolding insert_session
insert-Rising r [] h = (tt, tt)
insert-Rising r (x ∷ rest) h = elim (Bool-cases (expires_first x r)) [
  | inl e ↦ rw e (
    insert-All x.lifecycle.expires_at r rest (expires_first-le x r e) h.0,
    insert-Rising r rest h.1,
  )
  | inr e ↦
      let le = expires_first-ge x r e in rw e ((le, All-imp _ _ rest (λ y k. omega arith) h.0), h)
]

insert-perm : (r : Retained) (rs : List Retained) → Perm (insert_session r rs) (r ∷ rs)
unfolding insert_session
insert-perm r [] = Perm.refl _
insert-perm r (x ∷ rest) = elim (Bool-cases (expires_first x r)) [
  | inl e ↦ rw e (Perm.trans (Perm.cons x (insert-perm r rest)) (Perm.swap r x rest))
  | inr e ↦ rw e (Perm.refl _)
]

sort_sessions-sorted : (rs : List Retained) → Rising (sort_sessions rs) × Perm (sort_sessions rs) rs
unfolding sort_sessions
sort_sessions-sorted [] = (tt, Perm.refl _)
sort_sessions-sorted (r ∷ rest) =
    let (rising, same) = sort_sessions-sorted rest in
    (insert-Rising r _ rising, Perm.trans (insert-perm r _) (Perm.cons r same))

-- What the usage says of the rows that stay, and of the recordings that are stored after it.
pub record IsUsage (now effective : ℕ) (s t : Stores) (usage : Usage) : Type 0 where
  pub rising : Rising usage.sessions
  pub same : Perm usage.sessions (retained_rows now effective s s.lifecycle)
  pub bytes : usage.logical_bytes ≡ retained_bytes (retained_rows now effective s s.lifecycle)
  pub count : usage.artifact_count ≡ length usage.sessions
  pub next : usage.next_expires_at ≡ first_expiry usage.sessions
  pub stored : All (IsStored t.artifacts) usage.sessions
  pub only :
      (key : Key) (a : Artifact)
      → value_at key t.artifacts ≡ some a
      → is_some (find_retained key usage.sessions) ≡ true

usage_of-IsUsage :
    (now completed : ℕ) (s t : Stores) (state : State)
    → reconcile now completed s ≡ some (state, t)
    → state.overflow ≡ false
    → IsUsage now (max now completed) s t (usage_of state)
unfolding reconcile usage_of
usage_of-IsUsage now completed s t state h over =
    let left = reconcile-sessions now completed s t state h in
    let rs = retained_rows now (max now completed) s s.lifecycle in
    let is : (state.retained ≡ rs)
        × (state.total_bytes ≡ (tally (0, false) rs).0)
        × (state.overflow ≡ (tally (0, false) rs).1) =
      ground (arith, h) in
    let exact = tally-exact 0 false rs (ground (arith, is, over)) in
    let sorted = sort_sessions-sorted rs in
    record {
      rising = rw is.0 sorted.0;
      same = rw is.0 sorted.1;
      bytes = ground (arith, is, exact);
      count = refl;
      next = refl;
      stored = left.0;
      only = left.1;
    }

-- A progress snapshot that is returned has the summaries that are stored after it, and a usage whose
-- sessions are the rows that stay, each once, with no expiry above a later one, whose bytes are the
-- sum of theirs, whose count is theirs, and whose next expiry is the first one's. Each session has a
-- recording of its id and size stored after it, and each recording that is stored has a session.
pub read_progress_snapshot-IsUsage :
    (call : Call) (s t : Stores) (summaries : List Summary) (usage : Usage)
    → read_progress_snapshot call s ≡ (returned (summaries, usage), t)
    → (summaries ≡ t.summaries) × IsUsage call.now (max call.now call.completed) s t usage
unfolding read_progress_snapshot
read_progress_snapshot-IsUsage call s t summaries usage h =
    let body = transact-returned call.failure s _ (summaries, usage) t h in
    elim (Bool-cases (leb call.now max_safe_integer)) [
      | inl e ↦ go (reconcile call.now call.completed s) refl (ground (arith, e, body))
      | inr e ↦ ground (arith, e, body)
    ]
  where
    go :
        (r : Option (State × Stores))
        → reconcile call.now call.completed s ≡ r
        → snapshot_after r ≡ returned ((summaries, usage), t)
        → (summaries ≡ t.summaries) × IsUsage call.now (max call.now call.completed) s t usage
    go none e k = ground (arith, k)
    go (some (state, u)) e k = elim (Bool-cases state.overflow) [
      | inl over ↦ ground (arith, over, k)
      | inr over ↦
          let is : (u.summaries ≡ summaries) × (usage_of state ≡ usage) × (u ≡ t) =
            ground (arith, over, k) in
          (
            ground (arith, is),
            rw (sym is.1, sym is.2) (usage_of-IsUsage call.now call.completed s u state e over),
          )
    ]
