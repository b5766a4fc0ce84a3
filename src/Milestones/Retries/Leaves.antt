-- ===== src/Milestones/Retries/Leaves.antt =====
-- Each operation of cloudflare/room-milestone-outbox.ts leaves the tables within their limits.
use non_stop_talk.Prelude.{
  ℕ, ◌+◌, ◌≤◌, ◌<◌, min, Bool, true, false, not, ◌&&◌, ◌∷◌, Option, none, some, leb, ◌==◌,
  if◌then◌else◌, length, Bool-cases, inl, inr, arith,
}
use non_stop_talk.Milestones.Outbox.{
  dead_letter_capacity, dead_letter_retention_ms, max_attempts, purge_batch_max, RetryFailure,
  DeadLetterReason, Queued, Outbox, is_safe, deadline_exceeded, attempts_exhausted,
}
use non_stop_talk.Milestones.Outbox.Rows.{IsOutbox}
use non_stop_talk.Milestones.Retries.{
  count_expected, acknowledge, sort_by, letter, dead_letter_with, dead_letter, dead_letter_expired,
  retry_delay, as_dead, update_expected, allows_next, schedule, record_retry, purge_some,
  purges_first, purge,
}
use non_stop_talk.Milestones.Retries.Rows.{
  acknowledge-IsOutbox, length-sort_by, length-cap_dead_letters, length-purge_some,
  update_expected-All, update_expected-IsAscending, length-update_expected, update_expected-IsRow,
}

-- What an operation leaves is within the limits.
abbrev pub Leaves {ℓ} : {A : Type ℓ} → Option (A × Outbox) → Type 0
Leaves none = Unit
Leaves (some (a, o)) = IsOutbox o

dead_letter_with-Leaves :
    (e : Queued) (reason : DeadLetterReason) (failed_at attempts : ℕ) (o : Outbox)
    → IsOutbox o
    → Leaves (dead_letter_with e reason failed_at attempts o)
unfolding dead_letter_with
dead_letter_with-Leaves e reason failed_at attempts o h =
    elim (Bool-cases (leb attempts max_attempts)) [
      | inr f ↦ rw f tt
      | inl t ↦ elim (Bool-cases (count_expected e o.queue == 0)) [
        | inl z ↦ rw (t, z) h
        | inr nz ↦
            elim (Bool-cases
              (is_safe (failed_at + dead_letter_retention_ms) && (acknowledge e o).0)) [
                | inr f ↦ rw (t, nz, f) tt
                | inl s ↦
                    let k = acknowledge-IsOutbox e o h in
                    let letters =
                      length-cap_dead_letters
                        (letter o.next_id reason e.milestone attempts failed_at ∷ o.dead_letters) in
                    rw (t, nz, s)
                      (record {
                        size = k.size;
                        ordered = k.ordered;
                        numbered = k.numbered;
                        rows = k.rows;
                        letters = letters;
                        counted = k.counted;
                      })
              ]
      ]
    ]

pub dead_letter-Leaves :
    (e : Queued) (reason : DeadLetterReason) (failed_at : ℕ) (o : Outbox)
    → IsOutbox o
    → Leaves (dead_letter e reason failed_at o)
unfolding dead_letter
dead_letter-Leaves e reason failed_at o h = elim (Bool-cases (is_safe failed_at)) [
  | inl t ↦ rw t (dead_letter_with-Leaves e reason failed_at e.attempt_count o h)
  | inr f ↦ rw f tt
]

-- Either branch of a test.
if-Leaves {ℓ} :
    {A : Type ℓ} (b : Bool) (r t : Option (A × Outbox))
    → Leaves r
    → Leaves t
    → Leaves (if b then r else t)
if-Leaves true r t h k = h
if-Leaves false r t h k = k

pub dead_letter_expired-Leaves :
    (e : Queued) (now : ℕ) (o : Outbox) → IsOutbox o → Leaves (dead_letter_expired e now o)
unfolding dead_letter_expired
dead_letter_expired-Leaves e now o h =
    let late = dead_letter e deadline_exceeded now o in
    if-Leaves (not (is_safe now)) none (if leb e.deadline_at now then late else some (false, o)) tt
      (if-Leaves (leb e.deadline_at now) late (some (false, o))
        (dead_letter-Leaves e deadline_exceeded now o h) h)

as_dead-Leaves :
    (reason : DeadLetterReason) (r : Option (Bool × Outbox)) → Leaves r → Leaves (as_dead reason r)
as_dead-Leaves reason none h = tt
as_dead-Leaves reason (some (true, o)) h = h
as_dead-Leaves reason (some (false, o)) h = h

schedule-Leaves :
    (e : Queued) (failure : RetryFailure) (failed_at : ℕ) (delay : Option ℕ) (o : Outbox)
    → e.attempt_count + 1 < max_attempts
    → IsOutbox o
    → Leaves (schedule e failure failed_at delay o)
schedule-Leaves e failure failed_at none o a h = tt
schedule-Leaves e failure failed_at (some delay) o a h =
    let next = min e.deadline_at (failed_at + delay) in
    let attempts = e.attempt_count + 1 in
    elim (Bool-cases (is_safe (failed_at + delay) && allows_next e next o.queue)) [
      | inr f ↦ rw f tt
      | inl t ↦
          let k : IsOutbox (record o { queue = update_expected e attempts next failure o.queue }) =
            record {
              size = omega (arith, length-update_expected e attempts next failure o.queue, h.size);
              ordered = update_expected-IsAscending e attempts next failure o.queue h.ordered;
              numbered =
                  update_expected-All e attempts next failure (λ n. n < o.next_sequence) o.queue
                    h.numbered;
              rows =
                  update_expected-IsRow e attempts next failure o.queue a (ground (arith, t))
                    h.rows;
              letters = h.letters;
              counted = h.counted;
            } in
          elim (Bool-cases (count_expected e o.queue == 1)) [
            | inl c ↦ rw (t, c) k
            | inr c ↦ rw (t, c) k
          ]
    ]

pub record_retry-Leaves :
    (e : Queued) (failure : RetryFailure) (failed_at : ℕ) (o : Outbox)
    → IsOutbox o
    → Leaves (record_retry e failure failed_at o)
unfolding record_retry
record_retry-Leaves e failure failed_at o h =
    let attempts = e.attempt_count + 1 in
    let late = dead_letter e deadline_exceeded failed_at o in
    let last = dead_letter_with e attempts_exhausted failed_at attempts o in
    let again = schedule e failure failed_at (retry_delay e.event_id attempts) o in
    let tried : Leaves
        (if leb max_attempts attempts then as_dead attempts_exhausted last else again) =
      elim (Bool-cases (leb max_attempts attempts)) [
        | inl m ↦ rw m (
            as_dead-Leaves attempts_exhausted last
              (dead_letter_with-Leaves e attempts_exhausted failed_at attempts o h))
        | inr m ↦ rw m (
            schedule-Leaves e failure failed_at (retry_delay e.event_id attempts) o
              (ground (arith, m)) h)
      ] in
    if-Leaves (not (is_safe failed_at)) none _ tt (
      if-Leaves (leb e.deadline_at failed_at) (as_dead deadline_exceeded late) _
        (as_dead-Leaves deadline_exceeded late
          (dead_letter-Leaves e deadline_exceeded failed_at o h))
        tried)

pub purge-Leaves : (limit now : ℕ) (o : Outbox) → IsOutbox o → Leaves (purge limit now o)
unfolding purge
purge-Leaves limit now o h =
    let sorted = sort_by purges_first o.dead_letters in
    elim (Bool-cases (is_safe now && leb 1 limit && leb limit purge_batch_max)) [
      | inr f ↦ rw f tt
      | inl t ↦
          let letters : length (purge_some limit now sorted).1 ≤ dead_letter_capacity = omega (
            arith,
            length-purge_some limit now sorted,
            length-sort_by purges_first o.dead_letters,
            h.letters,
          ) in
          rw t (record {
            size = h.size;
            ordered = h.ordered;
            numbered = h.numbered;
            rows = h.rows;
            letters = letters;
            counted = h.counted;
          })
    ]
