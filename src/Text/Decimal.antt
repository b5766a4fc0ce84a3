-- ===== src/Text/Decimal.antt =====
-- Decimal numerals as texts: what a template literal prints for a safe integer, and what
-- `Number` reads back.
use non_stop_talk.Prelude.{
  ℕ, zero, suc, ◌+◌, ◌-◌, ◌*◌, ◌/◌, ◌%◌, ◌<◌, ◌≡◌, refl, ◌∙◌, Bool, ◌&&◌, [], ◌∷◌, Option, none,
  some, arith, ltb, leb, if◌then◌else◌, Bool-cases, inl, inr,
}
use non_stop_talk.Text.{Text}

-- The digits of `n` in front of `acc`, on fuel: `suc n` rounds are enough.
pub digits : ℕ → ℕ → Text → Text
digits zero n acc = acc
digits (suc fuel) n acc =
    let more = digits fuel (n / 10) ((48 + n % 10) ∷ acc) in
    if ltb n 10 then (48 + n) ∷ acc else more

unfoldable pub decimal : ℕ → Text
unfolding digits
decimal n = digits (suc n) n []

unfoldable pub is_digit : ℕ → Bool
is_digit c = leb 48 c && leb c 57

-- All digits, or nothing.
pub digits_value : ℕ → Text → Option ℕ
digits_value n [] = some n
digits_value n (c ∷ s) = if is_digit c then digits_value (n * 10 + (c - 48)) s else none

-- The texts of `[1-9][0-9]*`, with their value.
unfoldable pub positive_numeral : Text → Option ℕ
unfolding digits_value is_digit
positive_numeral [] = none
positive_numeral (c ∷ s) = if leb 49 c && leb c 57 then digits_value (c - 48) s else none

digits_head :
    (fuel n : ℕ) (acc : Text)
    → 0 < n
    → n < fuel
    → positive_numeral (digits fuel n acc) ≡ digits_value n acc
unfolding digits positive_numeral
digits_head zero n acc p h = absurd (omega arith)
digits_head (suc fuel) n acc p h = elim (Bool-cases (ltb n 10)) [
  | inl small ↦ rw small (ground arith)
  | inr large ↦
      rw large (
        digits_head fuel (n / 10) ((48 + n % 10) ∷ acc) (ground arith) (ground arith)
        ∙ ground arith)
]

-- Reading a printed positive number gives it back.
pub positive_numeral-decimal : (n : ℕ) → 0 < n → positive_numeral (decimal n) ≡ some n
unfolding decimal
positive_numeral-decimal n h =
    digits_head (suc n) n [] h (omega arith) ∙ unfold digits_value in refl

decimal_42 : decimal 1042 ≡ 49 ∷ 48 ∷ 52 ∷ 50 ∷ []
unfolding decimal
decimal_42 = refl
