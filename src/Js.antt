-- ===== src/Js.antt =====
-- The JavaScript values of an action's untyped fields, and the coercions `text`, `integer` and
-- `clamp` of cloudflare/game.ts.
use non_stop_talk.Prelude.{
  ℕ, zero, suc, ◌+◌, ◌-◌, ◌*◌, ◌^◌, Bool, true, false, ◌&&◌, List, [], ◌∷◌, Option, none, some, leb,
  ◌==◌, if◌then◌else◌, min, max, not,
}
use non_stop_talk.Prelude.Int.{ℤ, pos, negsuc}
use non_stop_talk.Text.{Text, same_text, is_game_space}
use non_stop_talk.Text.Decimal.{is_digit}

-- A finite number is an integer, or a fraction of which its truncation is kept.
pub data JsNumber : Type 0 where
  int : ℤ → JsNumber
  fraction : ℤ → JsNumber
  nan infinity : JsNumber

mutual
  pub data Js : Type 0 where
    undefined null : Js
    bool : Bool → Js
    num : JsNumber → Js
    str : Text → Js
    arr : Items → Js
    object : Fields → Js

  pub data Items : Type 0 where
    nil : Items
    cons : Js → Items → Items

  pub data Fields : Type 0 where
    end : Fields
    field : Text → Js → Fields → Fields

abbrev pub items : Items → List Js
items nil = []
items (cons v vs) = v ∷ items vs

abbrev pub from_items : List Js → Items
from_items [] = nil
from_items (v ∷ vs) = cons v (from_items vs)

-- value[key], of an object.
unfoldable pub field_of : Text → Fields → Js
field_of key end = undefined
field_of key (field k v rest) = if same_text k key then v else field_of key rest

-- Object.keys
unfoldable pub keys : Fields → List Text
keys end = []
keys (field k v rest) = k ∷ keys rest

-- What `value.key` reads: no value but an object has keys of its own that the program asks for.
unfoldable pub fields_of : Js → Fields
fields_of (object fields) = fields
fields_of _ = end

-- What the language gives: `String(value)`, and whether it throws a TypeError as it does on an
-- object whose toString and valueOf are no functions, and `value.toLowerCase()`.
pub record Builtins : Type 0 where
  pub to_string : Js → Text
  pub throws : Js → Bool
  pub to_lower : Text → Text

-- `String(value)` has a result. A number and a text are not converted, or to themselves.
abbrev pub reads : Builtins → Js → Bool
reads js (num n) = true
reads js (str s) = true
reads js v = not (js.throws v)

abbrev pub all_read : Builtins → List Js → Bool
all_read js [] = true
all_read js (v ∷ vs) = reads js v && all_read js vs

-- Number.MAX_SAFE_INTEGER
abbrev pub max_safe_integer : ℕ
max_safe_integer = 2 ^ 53 - 1

unfoldable pub text : Js → Text
text (str s) = s
text _ = []

unfoldable pub truthy : Js → Bool
truthy undefined = false
truthy null = false
truthy (bool b) = b
truthy (num (int (pos n))) = if n == 0 then false else true
truthy (num nan) = false
truthy (str []) = false
truthy _ = true

-- The digits in front of a text, as a number.
leading_digits : ℕ → Text → ℕ
leading_digits n [] = n
leading_digits n (c ∷ s) =
    let more = leading_digits (n * 10 + (c - 48)) s in if is_digit c then more else n

-- From this size on a number is rounded to Infinity.
abbrev overflow : ℕ
overflow = 2 ^ 1024 - 2 ^ 970

abbrev finite : ℕ → Option ℕ
finite n = if leb overflow n then none else some n

unsigned : Text → Option ℕ
unfolding leading_digits is_digit
unsigned [] = none
unsigned (c ∷ s) = if is_digit c then finite (leading_digits (c - 48) s) else none

abbrev pub negate : ℕ → ℤ
negate zero = pos 0
negate (suc n) = negsuc n

abbrev to_pos : Option ℕ → Option ℤ
to_pos none = none
to_pos (some n) = some (pos n)

abbrev to_neg : Option ℕ → Option ℤ
to_neg none = none
to_neg (some n) = some (negate n)

signed : Text → Option ℤ
unfolding unsigned
signed [] = none
signed (c ∷ s) =
    if c == b'-'
    then to_neg (unsigned s)
    else if c == b'+'
    then to_pos (unsigned s)
    else to_pos (unsigned (c ∷ s))

-- White space of the language, which has no U+0085.
skip_space : Text → Text
skip_space [] = []
skip_space (c ∷ s) = if is_game_space c && not (c == 0x85) then skip_space s else c ∷ s

-- Number.parseInt(s, 10); `none` is NaN or an infinity.
parse_int : Text → Option ℤ
unfolding signed skip_space is_game_space
parse_int s = signed (skip_space s)

abbrev or_else : Option ℤ → ℤ → ℤ
or_else none fallback = fallback
or_else (some n) fallback = n

unfoldable pub integer : Builtins → Js → ℤ → ℤ
unfolding parse_int
integer js (num (int n)) fallback = n
integer js (num (fraction n)) fallback = n
integer js (num nan) fallback = fallback
integer js (num infinity) fallback = fallback
integer js (str s) fallback = or_else (parse_int s) fallback
integer js v fallback = or_else (parse_int (js.to_string v)) fallback

-- `clamp` between bounds that are not negative, and between -bound and bound.
unfoldable pub clamp : ℤ → ℕ → ℕ → ℕ
clamp (pos n) lo hi = max lo (min hi n)
clamp (negsuc n) lo hi = lo

unfoldable pub clamp_sym : ℤ → ℕ → ℤ
clamp_sym (pos n) bound = pos (min bound n)
clamp_sym (negsuc n) bound = if leb bound n then negate bound else negsuc n

-- Math.max(0, n + d)
unfoldable pub add_floored : ℕ → ℤ → ℕ
add_floored n (pos d) = n + d
add_floored n (negsuc d) = n - suc d

-- The value of a persisted counter if it is a safe integer that is not negative.
unfoldable pub safe_counter : Js → Option ℕ
safe_counter (num (int (pos n))) = if leb n max_safe_integer then some n else none
safe_counter _ = none
