-- ===== src/Milestones/Retries/Rows.antt =====
-- The rows of cloudflare/room-milestone-outbox.ts that an operation removes, sorts or updates.
use non_stop_talk.Prelude.{
  ℕ, zero, suc, ◌+◌, ◌≤◌, ◌<◌, ◌≡◌, refl, Bool, true, List, [], ◌∷◌, length, length-take, All,
  Bool-cases, inl, inr, arith,
}
use non_stop_talk.Milestones.Outbox.{
  dead_letter_capacity, max_attempts, RetryFailure, Queued, DeadLetter, Outbox,
}
use non_stop_talk.Milestones.Outbox.Rows.{IsRow, IsAscending, IsOutbox}
use non_stop_talk.Milestones.Retries.{
  is_expected, without, acknowledge, is_newer, sort_by, cap_dead_letters, place, update_expected,
  allows_next, purge_some,
}

module _ (e : Queued) where
  without-All : (P : Queued → Type 0) (qs : List Queued) → All P qs → All P (without e qs)
  unfolding without
  without-All P [] h = tt
  without-All P (q ∷ qs) h = elim (Bool-cases (is_expected e q)) [
    | inl t ↦ rw t (without-All P qs h.1)
    | inr f ↦ rw f (h.0, without-All P qs h.1)
  ]

  without-IsAscending : (qs : List Queued) → IsAscending qs → IsAscending (without e qs)
  unfolding without
  without-IsAscending [] h = tt
  without-IsAscending (q ∷ qs) h = elim (Bool-cases (is_expected e q)) [
    | inl t ↦ rw t (without-IsAscending qs h.1)
    | inr f ↦ rw f (without-All _ qs h.0, without-IsAscending qs h.1)
  ]

  length-without : (qs : List Queued) → length (without e qs) ≤ length qs
  unfolding without
  length-without [] = omega arith
  length-without (q ∷ qs) = ground (arith, length-without qs)

  pub acknowledge-IsOutbox : (o : Outbox) → IsOutbox o → IsOutbox (acknowledge e o).1
  unfolding acknowledge
  acknowledge-IsOutbox o h = record {
    size = omega (arith, length-without o.queue, h.size);
    ordered = without-IsAscending o.queue h.ordered;
    numbered = without-All _ o.queue h.numbered;
    rows = without-All IsRow o.queue h.rows;
    letters = h.letters;
    counted = h.counted;
  }

length-place :
    (before : DeadLetter → DeadLetter → Bool) (d : DeadLetter) (ds : List DeadLetter)
    → length (place before d ds) ≡ length ds + 1
unfolding place
length-place before d [] = omega arith
length-place before d (x ∷ ds) = ground (arith, length-place before d ds)

pub length-sort_by :
    (before : DeadLetter → DeadLetter → Bool) (ds : List DeadLetter)
    → length (sort_by before ds) ≡ length ds
unfolding sort_by
length-sort_by before [] = refl
length-sort_by before (d ∷ ds) =
    omega (arith, length-place before d (sort_by before ds), length-sort_by before ds)

pub length-cap_dead_letters :
    (ds : List DeadLetter) → length (cap_dead_letters ds) ≤ dead_letter_capacity
unfolding cap_dead_letters
length-cap_dead_letters ds = omega (arith, length-take dead_letter_capacity (sort_by is_newer ds))

pub length-purge_some :
    (limit now : ℕ) (ds : List DeadLetter) → length (purge_some limit now ds).1 ≤ length ds
unfolding purge_some
length-purge_some zero now [] = omega arith
length-purge_some (suc limit) now [] = omega arith
length-purge_some zero now (d ∷ ds) = omega arith
length-purge_some (suc limit) now (d ∷ ds) = ground (arith, length-purge_some limit now ds)

module _ (e : Queued) (attempts next : ℕ) (failure : RetryFailure) where
  -- A statement of sequences is not touched by an update.
  pub update_expected-All :
      (P : ℕ → Type 0) (qs : List Queued)
      → All (λ q. P q.sequence) qs
      → All (λ q. P q.sequence) (update_expected e attempts next failure qs)
  unfolding update_expected
  update_expected-All P [] h = tt
  update_expected-All P (q ∷ qs) h = elim (Bool-cases (is_expected e q)) [
    | inl t ↦ rw t (h.0, update_expected-All P qs h.1)
    | inr f ↦ rw f (h.0, update_expected-All P qs h.1)
  ]

  pub update_expected-IsAscending :
      (qs : List Queued) → IsAscending qs → IsAscending (update_expected e attempts next failure qs)
  unfolding update_expected
  update_expected-IsAscending [] h = tt
  update_expected-IsAscending (q ∷ qs) h = elim (Bool-cases (is_expected e q)) [
    | inl t ↦
        rw t (update_expected-All (λ n. q.sequence < n) qs h.0, update_expected-IsAscending qs h.1)
    | inr f ↦
        rw f (update_expected-All (λ n. q.sequence < n) qs h.0, update_expected-IsAscending qs h.1)
  ]

  pub length-update_expected :
      (qs : List Queued) → length (update_expected e attempts next failure qs) ≡ length qs
  unfolding update_expected
  length-update_expected [] = refl
  length-update_expected (q ∷ qs) = ground (arith, length-update_expected qs)

  pub update_expected-IsRow :
      (qs : List Queued)
      → attempts < max_attempts
      → allows_next e next qs ≡ true
      → All IsRow qs
      → All IsRow (update_expected e attempts next failure qs)
  unfolding update_expected allows_next
  update_expected-IsRow [] a k h = tt
  update_expected-IsRow (q ∷ qs) a k h = elim (Bool-cases (is_expected e q)) [
    | inl t ↦
        let b : (q.created_at ≤ next) × (next ≤ q.deadline_at) × (allows_next e next qs ≡ true) =
          ground (arith, t, k) in
        rw t (
          record { begun = b.0; due = b.1; deadline = h.0.deadline; attempts = a },
          update_expected-IsRow qs a b.2 h.1,
        )
    | inr f ↦
        let b : allows_next e next qs ≡ true = ground (arith, f, k) in
        rw f (h.0, update_expected-IsRow qs a b h.1)
  ]
