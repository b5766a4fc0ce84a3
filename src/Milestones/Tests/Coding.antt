-- ===== src/Milestones/Tests/Coding.antt =====
-- A JSON for the tests: a list of values as numbers, each of which reads back.
use non_stop_talk.Prelude.{zero, suc, ◌≡◌, refl, ap, ◌∙◌, sym, true, List, [], ◌∷◌, ◌++◌}
use mathlib.Core.List.{append_assoc, append-nil}
use non_stop_talk.Text.{Text}
use non_stop_talk.Milestones.{whole, negative, part, Value, null, text, number, other}
use non_stop_talk.Milestones.Contract.{Json, array}

-- Characters one above, then a zero.
abbrev written_text : Text → Text → Text
written_text [] rest = 0 ∷ rest
written_text (c ∷ s) rest = suc c ∷ written_text s rest

abbrev written : List Value → Text
written [] = []
written (null ∷ vs) = 0 ∷ written vs
written (text s ∷ vs) = 1 ∷ written_text s (written vs)
written (number (whole n) ∷ vs) = 2 ∷ n ∷ written vs
written (number (negative n) ∷ vs) = 3 ∷ n ∷ written vs
written (number (part n k) ∷ vs) = 4 ∷ n ∷ k ∷ written vs
written (other n ∷ vs) = 5 ∷ n ∷ written vs

-- Where a reader is: between values, or in a text of which some characters are read.
pub data Place : Type 0 where
  outside : Place
  inside : Text → Place

abbrev read : Place → Text → List Value
read outside [] = []
read outside (zero ∷ s) = null ∷ read outside s
read outside (suc zero ∷ s) = read (inside []) s
read outside (suc (suc zero) ∷ n ∷ s) = number (whole n) ∷ read outside s
read outside (suc (suc (suc zero)) ∷ n ∷ s) = number (negative n) ∷ read outside s
read outside (suc (suc (suc (suc zero))) ∷ n ∷ k ∷ s) = number (part n k) ∷ read outside s
read outside (_ ∷ n ∷ s) = other n ∷ read outside s
read outside (_ ∷ []) = []
read (inside before) [] = []
read (inside before) (zero ∷ s) = text before ∷ read outside s
read (inside before) (suc c ∷ s) = read (inside (before ++ c ∷ [])) s

abbrev pub coding : Json
coding = record {
  parse = λ s. array (read outside s);
  stringify = written;
  is_timestamp = λ s. true;
}

read-written_text :
    (before s rest : Text)
    → read (inside before) (written_text s rest) ≡ text (before ++ s) ∷ read outside rest
read-written_text before [] rest =
    ap (λ (x : Text). text x ∷ read outside rest) (sym (append-nil before))
read-written_text before (c ∷ s) rest =
    read-written_text (before ++ c ∷ []) s rest
    ∙ ap (λ (x : Text). text x ∷ read outside rest) (append_assoc before (c ∷ []) s)

read-written : (vs : List Value) → read outside (written vs) ≡ vs
read-written [] = refl
read-written (null ∷ vs) = ap (◌∷◌ null) (read-written vs)
read-written (text s ∷ vs) =
    read-written_text [] s (written vs) ∙ ap (◌∷◌ (text s)) (read-written vs)
read-written (number (whole n) ∷ vs) = ap (◌∷◌ (number (whole n))) (read-written vs)
read-written (number (negative n) ∷ vs) = ap (◌∷◌ (number (negative n))) (read-written vs)
read-written (number (part n k) ∷ vs) = ap (◌∷◌ (number (part n k))) (read-written vs)
read-written (other n ∷ vs) = ap (◌∷◌ (other n)) (read-written vs)

-- What is written reads back.
pub coding_reads : (vs : List Value) → coding.parse (coding.stringify vs) ≡ array vs
coding_reads vs = ap array (read-written vs)
