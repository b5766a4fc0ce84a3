-- ===== src/Milestones/Retries/Delays.antt =====
-- roomMilestoneRetryDelayMs of cloudflare/room-milestone-outbox.ts.
use non_stop_talk.Prelude.{
  ℕ, zero, suc, ◌+◌, ◌*◌, ◌/◌, ◌%◌, ◌≤◌, min, ◌≡◌, refl, ◌&&◌, ◌∷◌, ◌++◌, some, leb, inl, inr,
  Bool-cases, arith,
}
use non_stop_talk.Text.{Text}
use non_stop_talk.Text.Decimal.{decimal}
use non_stop_talk.Milestones.Contract.{is_hex_256}
use non_stop_talk.Milestones.Outbox.{max_attempts}
use non_stop_talk.Milestones.Retries.{fnv, retry_base, retry_delay}

-- The base of each attempt is a whole number of five seconds.
base_steps : (attempt : ℕ) → (m : ℕ) × (retry_base attempt ≡ 5000 * m)
base_steps zero = (1, refl)
base_steps (suc zero) = (1, refl)
base_steps (suc (suc zero)) = (6, refl)
base_steps (suc (suc (suc zero))) = (24, refl)
base_steps (suc (suc (suc (suc zero)))) = (120, refl)
base_steps (suc (suc (suc (suc (suc zero))))) = (720, refl)
base_steps (suc (suc (suc (suc (suc (suc zero)))))) = (4320, refl)
base_steps (suc (suc (suc (suc (suc (suc (suc n))))))) =
    let capped : min (suc (suc (suc (suc (suc (suc (suc n))))))) 7 ≡ 7 = omega arith in
    (17280, rw capped refl)

scaled :
    (m h : ℕ)
    → h ≤ 4000
    → (4 * (5000 * m) ≤ 5 * ((5000 * m * (8000 + h)) / 10000))
      × (5 * ((5000 * m * (8000 + h)) / 10000) ≤ 6 * (5000 * m))
scaled m h k = grind arith

some-injective : (a b : ℕ) → some a ≡ some b → b ≡ a
some-injective a b h = ground (arith, h)

computed :
    (id : Text) (attempt d : ℕ)
    → retry_delay id attempt ≡ some d
    → d ≡ (retry_base attempt * (8000 + fnv 2166136261 (id ++ 58 ∷ decimal attempt) % 4001)) / 10000
unfolding retry_delay
computed id attempt d h =
    elim (Bool-cases (is_hex_256 id && leb 1 attempt && leb attempt max_attempts)) [
      | inl e ↦ some-injective _ d (rw e at h)
      | inr e ↦ ground (arith, e, h)
    ]

-- The delay before a retry is between 80% and 120% of the base of its attempt, whatever the event.
pub retry_delay_bounds :
    (id : Text) (attempt d : ℕ)
    → retry_delay id attempt ≡ some d
    → (4 * retry_base attempt ≤ 5 * d) × (5 * d ≤ 6 * retry_base attempt)
unfolding retry_delay
retry_delay_bounds id attempt d h =
    let hash = fnv 2166136261 (id ++ 58 ∷ decimal attempt) in
    let (m, e) = base_steps attempt in
    let s = scaled m (hash % 4001) (omega arith) in
    let is : d ≡ (retry_base attempt * (8000 + hash % 4001)) / 10000 = computed id attempt d h in
    rw (is, e) s
