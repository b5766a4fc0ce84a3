-- ===== src/Milestones/Retries/Letters.antt =====
-- What fails in cloudflare/room-milestone-outbox.ts stays queued or has a dead letter.
use non_stop_talk.Prelude.{
  ℕ, zero, suc, List, [], ◌∷◌, map, take, arith, ap, ◌+◌, ◌≡◌, ◌⊎◌, refl, Bool, true, false, not,
  ◌&&◌, Option, none, some, leb, ◌==◌, if◌then◌else◌, min, length, Bool-cases, inl, inr,
}
use non_stop_talk.Text.{Text}
use non_stop_talk.Milestones.Outbox.{
  DeadLetter, dead_letter_capacity, max_attempts, RetryFailure, DeadLetterReason, deadline_exceeded,
  attempts_exhausted, dead_letter_retention_ms, Queued, Outbox, is_safe,
}
use non_stop_talk.Milestones.Retries.{
  acknowledge, count_expected, without, place, sort_by, is_newer, cap_dead_letters, letter,
  update_expected, is_expected, dead_letter_with, dead_letter, retry_delay, as_dead, allows_next,
  schedule, record_retry,
}

-- Some dead letter is such.
abbrev pub Has : (DeadLetter → Type 0) → List DeadLetter → Type 0
Has P [] = ⊥
Has P (d ∷ ds) = P d ⊎ Has P ds

-- What tells a queued milestone from another one.
abbrev pub identity_of : Queued → ℕ × Text × Text × Text
identity_of q = (q.sequence, q.event_id, q.payload_json, q.milestone)

-- Either the milestone is gone from the queue and a new dead letter of it is there, or the dead
-- letters are as many as there may be; or the same milestones are queued as before, in their order.
abbrev pub HasLetter : Queued → Outbox → Outbox → Type 0
HasLetter e o o' =
    ((o'.queue ≡ without e o.queue)
      × (Has (λ d. (d.id ≡ o.next_id) × (d.milestone ≡ e.milestone)) o'.dead_letters
          ⊎ (length o'.dead_letters ≡ dead_letter_capacity)))
    ⊎ (map identity_of o'.queue ≡ map identity_of o.queue)

abbrev pub Ends {ℓ} : {A : Type ℓ} → Queued → Outbox → Option (A × Outbox) → Type 0
Ends e o none = Unit
Ends e o (some (a, o')) = HasLetter e o o'

place-Has :
    (P : DeadLetter → Type 0) (before : DeadLetter → DeadLetter → Bool) (d : DeadLetter)
    (ds : List DeadLetter)
    → P d
    → Has P (place before d ds)
unfolding place
place-Has P before d [] h = inl h
place-Has P before d (x ∷ ds) h = elim (Bool-cases (before x d)) [
  | inl t ↦ rw t (inr (place-Has P before d ds h))
  | inr f ↦ rw f (inl h)
]

sort_by-Has :
    (P : DeadLetter → Type 0) (before : DeadLetter → DeadLetter → Bool) (d : DeadLetter)
    (ds : List DeadLetter)
    → P d
    → Has P (sort_by before (d ∷ ds))
unfolding sort_by
sort_by-Has P before d ds h = place-Has P before d (sort_by before ds) h

-- What is taken has it too, or is full.
take-Has :
    (P : DeadLetter → Type 0) (n : ℕ) (ds : List DeadLetter)
    → Has P ds
    → Has P (take n ds) ⊎ (length (take n ds) ≡ n)
take-Has P zero ds h = inr refl
take-Has P (suc n) [] h = absurd h
take-Has P (suc n) (d ∷ ds) (inl h) = inl (inl h)
take-Has P (suc n) (d ∷ ds) (inr h) = elim (take-Has P n ds h) [
  | inl k ↦ inl (inr k)
  | inr k ↦ inr (omega (arith, k))
]

cap_dead_letters-Has :
    (P : DeadLetter → Type 0) (d : DeadLetter) (ds : List DeadLetter)
    → P d
    → Has P (cap_dead_letters (d ∷ ds))
      ⊎ (length (cap_dead_letters (d ∷ ds)) ≡ dead_letter_capacity)
unfolding cap_dead_letters
cap_dead_letters-Has P d ds h =
    take-Has P dead_letter_capacity (sort_by is_newer (d ∷ ds)) (sort_by-Has P is_newer d ds h)

identity_of-update_expected :
    (e : Queued) (attempts next : ℕ) (failure : RetryFailure) (qs : List Queued)
    → map identity_of (update_expected e attempts next failure qs) ≡ map identity_of qs
unfolding update_expected
identity_of-update_expected e attempts next failure [] = refl
identity_of-update_expected e attempts next failure (q ∷ qs) =
    let same = identity_of-update_expected e attempts next failure qs in
    elim (Bool-cases (is_expected e q)) [
      | inl t ↦ rw t (ap (◌∷◌ (identity_of q)) same)
      | inr f ↦ rw f (ap (◌∷◌ (identity_of q)) same)
    ]

if-Ends {ℓ} :
    {A : Type ℓ} (e : Queued) (o : Outbox) (b : Bool) (r t : Option (A × Outbox))
    → Ends e o r
    → Ends e o t
    → Ends e o (if b then r else t)
if-Ends e o true r t h k = h
if-Ends e o false r t h k = k

dead_letter_with-Ends :
    (e : Queued) (reason : DeadLetterReason) (failed_at attempts : ℕ) (o : Outbox)
    → Ends e o (dead_letter_with e reason failed_at attempts o)
unfolding dead_letter_with
dead_letter_with-Ends e reason failed_at attempts o =
    if-Ends e o (not (leb attempts max_attempts)) none _ tt (
      if-Ends e o (count_expected e o.queue == 0) (some (false, o)) _ (inr refl) (
        if-Ends e o (is_safe (failed_at + dead_letter_retention_ms) && (acknowledge e o).0) _ none
          (inl (
            refl,
            cap_dead_letters-Has _ (letter o.next_id reason e.milestone attempts failed_at)
                o.dead_letters (refl, refl),
          ))
          tt))

pub dead_letter-Ends :
    (e : Queued) (reason : DeadLetterReason) (failed_at : ℕ) (o : Outbox)
    → Ends e o (dead_letter e reason failed_at o)
unfolding dead_letter
dead_letter-Ends e reason failed_at o =
    if-Ends e o (is_safe failed_at) (dead_letter_with e reason failed_at e.attempt_count o) none
      (dead_letter_with-Ends e reason failed_at e.attempt_count o) tt

as_dead-Ends :
    (e : Queued) (o : Outbox) (reason : DeadLetterReason) (r : Option (Bool × Outbox))
    → Ends e o r
    → Ends e o (as_dead reason r)
as_dead-Ends e o reason none h = tt
as_dead-Ends e o reason (some (true, o')) h = h
as_dead-Ends e o reason (some (false, o')) h = h

schedule-Ends :
    (e : Queued) (failure : RetryFailure) (failed_at : ℕ) (delay : Option ℕ) (o : Outbox)
    → Ends e o (schedule e failure failed_at delay o)
schedule-Ends e failure failed_at none o = tt
schedule-Ends e failure failed_at (some delay) o =
    let next = min e.deadline_at (failed_at + delay) in
    let same = identity_of-update_expected e (e.attempt_count + 1) next failure o.queue in
    elim (Bool-cases (is_safe (failed_at + delay) && allows_next e next o.queue)) [
      | inr f ↦ rw f tt
      | inl t ↦ elim (Bool-cases (count_expected e o.queue == 1)) [
        | inl c ↦ rw (t, c) (inr same)
        | inr c ↦ rw (t, c) (inr same)
      ]
    ]

pub record_retry-Ends :
    (e : Queued) (failure : RetryFailure) (failed_at : ℕ) (o : Outbox)
    → Ends e o (record_retry e failure failed_at o)
unfolding record_retry
record_retry-Ends e failure failed_at o =
    let attempts = e.attempt_count + 1 in
    let late = dead_letter e deadline_exceeded failed_at o in
    let last = dead_letter_with e attempts_exhausted failed_at attempts o in
    if-Ends e o (not (is_safe failed_at)) none _ tt (
      if-Ends e o (leb e.deadline_at failed_at) (as_dead deadline_exceeded late) _
        (as_dead-Ends e o deadline_exceeded late (dead_letter-Ends e deadline_exceeded failed_at o))
        (if-Ends e o (leb max_attempts attempts) (as_dead attempts_exhausted last) _
          (as_dead-Ends e o attempts_exhausted last
            (dead_letter_with-Ends e attempts_exhausted failed_at attempts o))
          (schedule-Ends e failure failed_at (retry_delay e.event_id attempts) o)))
