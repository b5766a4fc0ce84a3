-- ===== src/Prelude/Count.antt =====
-- How often a number occurs in a list, and the effect of a write on it.
use Prim.Native.Nat.{ℕ, zero, suc, ◌+◌, ◌<◌}
use mathlib.Core.Path.{◌≡◌, refl}
use mathlib.Core.List.{List, [], ◌∷◌}
use mathlib.Core.Option.{some}
use native.Mathlib.Omega.{arith}
use non_stop_talk.Prelude.Tests.{◌==◌, if◌then◌else◌}
use non_stop_talk.Prelude.Lists.{length, set, get_elem?}

abbrev pub one : ℕ → ℕ → ℕ
one a x = if x == a then 1 else 0

unfoldable pub count : ℕ → List ℕ → ℕ
count a [] = 0
count a (x ∷ xs) = one a x + count a xs

pub count-set :
    (a : ℕ) (xs : List ℕ) (i x v : ℕ)
    → get_elem? xs i ≡ some x
    → count a (set xs i v) + one a x ≡ count a xs + one a v
unfolding count
count-set a [] i x v h = ground arith
count-set a (y ∷ xs) zero x v h = ground arith
count-set a (y ∷ xs) (suc i) x v h = omega (arith, count-set a xs i x v h)

-- Writing the item of `j` elsewhere leaves the item of `j`.
pub get_elem?-set_same {ℓ} :
    {A : Type ℓ} (xs : List A) (i j : ℕ) (y : A)
    → get_elem? xs j ≡ some y
    → get_elem? (set xs i y) j ≡ some y
get_elem?-set_same [] i j y h = h
get_elem?-set_same (x ∷ xs) zero zero y h = refl
get_elem?-set_same (x ∷ xs) zero (suc j) y h = h
get_elem?-set_same (x ∷ xs) (suc i) zero y h = h
get_elem?-set_same (x ∷ xs) (suc i) (suc j) y h = get_elem?-set_same xs i j y h

pub get_elem?_of_lt {ℓ} :
    {A : Type ℓ} (xs : List A) (i : ℕ) → i < length xs → (x : A) × (get_elem? xs i ≡ some x)
get_elem?_of_lt [] i h = elim h [ ]
get_elem?_of_lt (x ∷ xs) zero h = (x, refl)
get_elem?_of_lt (x ∷ xs) (suc i) h = get_elem?_of_lt xs i (omega arith)
