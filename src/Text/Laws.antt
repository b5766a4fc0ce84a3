-- ===== src/Text/Laws.antt =====
-- Equality, trimming and well-formedness of texts.
use non_stop_talk.Prelude.{
  ℕ, suc, ◌≤◌, ◌≡◌, refl, ◌↔◌, true, false, ◌&&◌, [], ◌∷◌, arith, inl, inr, Bool-cases, length,
  take, All, zero, length-map,
}
use non_stop_talk.Text.{
  Text, same_text, is_empty, is_game_space, is_surrogate, replace_surrogate, to_well_formed,
  trim_start, trim_end, trim_game_space,
}

pub same_text_iff : (s t : Text) → (same_text s t ≡ true) ↔ (s ≡ t)
unfolding same_text
same_text_iff [] [] = ground arith
same_text_iff [] (d ∷ t) = ground arith
same_text_iff (c ∷ s) [] = ground arith
same_text_iff (c ∷ s) (d ∷ t) = ground (arith, same_text_iff s t)

pub same_text_refl : (s : Text) → same_text s s ≡ true
same_text_refl s = (same_text_iff s s).1 refl

-- No white space in front, none behind.
abbrev pub StartsClean : Text → Type 0
StartsClean [] = Unit
StartsClean (c ∷ s) = is_game_space c ≡ false

abbrev pub EndsClean : Text → Type 0
EndsClean s = trim_end s ≡ s

abbrev pub IsTrimmed : Text → Type 0
IsTrimmed s = StartsClean s × EndsClean s

abbrev pub IsWellFormed : Text → Type 0
IsWellFormed s = All (λ c. is_surrogate c ≡ false) s

trim_start-StartsClean : (s : Text) → StartsClean (trim_start s)
unfolding trim_start
trim_start-StartsClean [] = tt
trim_start-StartsClean (c ∷ s) = elim (Bool-cases (is_game_space c)) [
  | inl e ↦ rw e (trim_start-StartsClean s)
  | inr e ↦ rw e e
]

trim_start_of_StartsClean : (s : Text) → StartsClean s → trim_start s ≡ s
unfolding trim_start
trim_start_of_StartsClean [] h = refl
trim_start_of_StartsClean (c ∷ s) h = rw h

trim_end-StartsClean : (s : Text) → StartsClean s → StartsClean (trim_end s)
unfolding trim_end
trim_end-StartsClean [] h = tt
trim_end-StartsClean (c ∷ s) h = rw h h

pub trim_end-EndsClean : (s : Text) → EndsClean (trim_end s)
unfolding trim_end
trim_end-EndsClean [] = refl
trim_end-EndsClean (c ∷ s) = ground (arith, trim_end-EndsClean s)

pub trim-IsTrimmed : (s : Text) → IsTrimmed (trim_game_space s)
unfolding trim_game_space
trim-IsTrimmed s =
    (trim_end-StartsClean _ (trim_start-StartsClean s), trim_end-EndsClean (trim_start s))

pub trim_of_IsTrimmed : (s : Text) → IsTrimmed s → trim_game_space s ≡ s
unfolding trim_game_space
trim_of_IsTrimmed s h = rw (trim_start_of_StartsClean s h.0) h.1

length-trim_start : (s : Text) → length (trim_start s) ≤ length s
unfolding trim_start
length-trim_start [] = omega arith
length-trim_start (c ∷ s) = ground (arith, length-trim_start s)

length-trim_end : (s : Text) → length (trim_end s) ≤ length s
unfolding trim_end
length-trim_end [] = omega arith
length-trim_end (c ∷ s) = ground (arith, length-trim_end s)

pub length-trim : (s : Text) → length (trim_game_space s) ≤ length s
unfolding trim_game_space
length-trim s = omega (arith, length-trim_end (trim_start s), length-trim_start s)

trim_start-All : (P : ℕ → Type 0) (s : Text) → All P s → All P (trim_start s)
unfolding trim_start
trim_start-All P [] h = tt
trim_start-All P (c ∷ s) h = elim (Bool-cases (is_game_space c)) [
  | inl e ↦ rw e (trim_start-All P s h.1)
  | inr e ↦ rw e h
]

trim_end-All : (P : ℕ → Type 0) (s : Text) → All P s → All P (trim_end s)
unfolding trim_end
trim_end-All P [] h = tt
trim_end-All P (c ∷ s) h = elim (Bool-cases (is_game_space c && is_empty (trim_end s))) [
  | inl e ↦ rw e tt
  | inr e ↦ rw e (h.0, trim_end-All P s h.1)
]

pub trim-All : (P : ℕ → Type 0) (s : Text) → All P s → All P (trim_game_space s)
unfolding trim_game_space
trim-All P s h = trim_end-All P _ (trim_start-All P s h)

pub to_well_formed-IsWellFormed : (s : Text) → IsWellFormed (to_well_formed s)
unfolding to_well_formed
to_well_formed-IsWellFormed [] = tt
to_well_formed-IsWellFormed (c ∷ s) = (ground arith, to_well_formed-IsWellFormed s)

pub to_well_formed_of_IsWellFormed : (s : Text) → IsWellFormed s → to_well_formed s ≡ s
unfolding to_well_formed
to_well_formed_of_IsWellFormed [] h = refl
to_well_formed_of_IsWellFormed (c ∷ s) h = ground (arith, h.0, to_well_formed_of_IsWellFormed s h.1)

pub to_well_formed-StartsClean : (s : Text) → StartsClean s → StartsClean (to_well_formed s)
unfolding to_well_formed is_game_space
to_well_formed-StartsClean [] h = tt
to_well_formed-StartsClean (c ∷ s) h = ground arith

pub take-StartsClean : (n : ℕ) (s : Text) → StartsClean s → StartsClean (take n s)
take-StartsClean zero s h = tt
take-StartsClean (suc n) [] h = tt
take-StartsClean (suc n) (c ∷ s) h = h

pub length-to_well_formed : (s : Text) → length (to_well_formed s) ≡ length s
unfolding to_well_formed
length-to_well_formed s = length-map replace_surrogate s
