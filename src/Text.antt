-- ===== src/Text.antt =====
-- Texts as the code points that `[...value]` yields; a lone surrogate is a code point of its own.
-- trimGameSpace, toWellFormed and codePointLength of cloudflare/public/setup-kits.js, which
-- cloudflare/game.ts has too.
pub mod Laws
pub mod Decimal
use non_stop_talk.Prelude.{
  ℕ, Bool, true, false, ◌&&◌, ◌||◌, not, List, [], ◌∷◌, map, ltb, leb, ◌==◌, if◌then◌else◌, length,
  ◌+◌,
}

abbrev pub Text : Type 0
Text = List ℕ

unfoldable pub same_text : Text → Text → Bool
same_text [] [] = true
same_text (c ∷ s) (d ∷ t) = c == d && same_text s t
same_text _ _ = false

abbrev pub is_empty : Text → Bool
is_empty [] = true
is_empty (c ∷ s) = false

abbrev within : ℕ → ℕ → ℕ → Bool
within lo hi c = leb lo c && leb c hi

-- Unicode White_Space and U+FEFF.
unfoldable pub is_game_space : ℕ → Bool
is_game_space c =
    within 9 13 c
    || c == 32
    || c == 0x85
    || c == 0xa0
    || c == 0x1680
    || within 0x2000 0x200a c
    || within 0x2028 0x2029 c
    || c == 0x202f
    || c == 0x205f
    || c == 0x3000
    || c == 0xfeff

unfoldable pub is_surrogate : ℕ → Bool
is_surrogate c = within 0xd800 0xdfff c

unfoldable pub replace_surrogate : ℕ → ℕ
unfolding is_surrogate
replace_surrogate c = if is_surrogate c then 0xfffd else c

unfoldable pub to_well_formed : Text → Text
unfolding replace_surrogate
to_well_formed s = map replace_surrogate s

pub trim_start : Text → Text
trim_start [] = []
trim_start (c ∷ s) = if is_game_space c then trim_start s else c ∷ s

pub trim_end : Text → Text
trim_end [] = []
trim_end (c ∷ s) =
    let rest = trim_end s in if is_game_space c && is_empty rest then [] else c ∷ rest

unfoldable pub trim_game_space : Text → Text
unfolding trim_start trim_end is_game_space
trim_game_space s = trim_end (trim_start s)

-- `value.trim()`, which leaves U+0085 alone.
unfoldable pub is_js_space : ℕ → Bool
unfolding is_game_space
is_js_space c = is_game_space c && not (c == 0x85)

unfoldable pub drop_spaces : Text → Text
drop_spaces [] = []
drop_spaces (c ∷ s) = if is_js_space c then drop_spaces s else c ∷ s

unfoldable pub drop_last_spaces : Text → Text
drop_last_spaces [] = []
drop_last_spaces (c ∷ s) =
    let rest = drop_last_spaces s in if is_js_space c && is_empty rest then [] else c ∷ rest

unfoldable pub js_trim : Text → Text
unfolding drop_spaces drop_last_spaces is_js_space
js_trim s = drop_last_spaces (drop_spaces s)

abbrev pub code_point_length : Text → ℕ
code_point_length = length

-- `value.length`: a code point beyond U+FFFF is two code units.
unfoldable pub utf16_length : Text → ℕ
utf16_length [] = 0
utf16_length (c ∷ s) = (if leb 0x10000 c then 2 else 1) + utf16_length s

-- The length of the UTF-8 encoding, in which a lone surrogate is encoded as U+FFFD.
unfoldable pub utf8_length : Text → ℕ
utf8_length [] = 0
utf8_length (c ∷ s) =
    (if ltb c 0x80 then 1 else if ltb c 0x800 then 2 else if ltb c 0x10000 then 3 else 4)
    + utf8_length s
