-- ===== src/Milestones/Contract/Facts.antt =====
-- The checks of one field, taken back, in cloudflare/room-milestone-contract.ts.
use non_stop_talk.Prelude.{
  ℕ, ◌≤◌, ◌≡◌, refl, sym, ap, Bool, true, false, Option, none, some, List, length, inl, inr,
  Bool-cases, arith,
}
use non_stop_talk.Text.{Text}
use non_stop_talk.Text.Laws.{same_text_iff}
use non_stop_talk.Room.{contains_text}
use non_stop_talk.Milestones.{
  Number, same_number, whole, negative, part, Value, null, text, number, other, Checked, valid,
  invalid, ◌>>=◌, require,
}
use non_stop_talk.Milestones.Contract.{
  Json, is_hex_256, lowercase_hex_256, same_metric, same_value, enum_value, canonical_timestamp,
  integer_between, at_most, number_up_to, or_null, text_or_null, number_or_null,
}

pub bound {ℓ κ} :
    {A : Type ℓ} {B : Type κ} (m : Checked A) (f : A → Checked B) (b : B)
    → (m >>= f) ≡ valid b
    → (a : A) × (m ≡ valid a) × (f a ≡ valid b)
bound (valid a) f b h = (a, refl, h)
bound (invalid e) f b h = ground (arith, h)

pub required : (b : Bool) → require b ≡ valid tt → b ≡ true
required true h = refl
required false h = ground (arith, h)

pub lowercase_hex_256-valid :
    (v : Value) (s : Text) → lowercase_hex_256 v ≡ valid s → (v ≡ text s) × (is_hex_256 s ≡ true)
unfolding lowercase_hex_256
lowercase_hex_256-valid (text t) s h = ground (arith, h)
lowercase_hex_256-valid null s h = ground (arith, h)
lowercase_hex_256-valid (number n) s h = ground (arith, h)
lowercase_hex_256-valid (other n) s h = ground (arith, h)

pub enum_value-valid :
    (allowed : List Text) (v : Value) (s : Text)
    → enum_value allowed v ≡ valid s
    → (v ≡ text s) × (contains_text s allowed ≡ true)
unfolding enum_value
enum_value-valid allowed (text t) s h = elim (Bool-cases (contains_text t allowed)) [
  | inl e ↦ ground (arith, e, h)
  | inr e ↦ ground (arith, e, h)
]
enum_value-valid allowed null s h = ground (arith, h)
enum_value-valid allowed (number n) s h = ground (arith, h)
enum_value-valid allowed (other n) s h = ground (arith, h)

pub canonical_timestamp-valid :
    (json : Json) (v : Value) (s : Text)
    → canonical_timestamp json v ≡ valid s
    → (v ≡ text s) × (length s ≡ 24) × (json.is_timestamp s ≡ true)
unfolding canonical_timestamp
canonical_timestamp-valid json (text t) s h = ground (arith, h)
canonical_timestamp-valid json null s h = ground (arith, h)
canonical_timestamp-valid json (number n) s h = ground (arith, h)
canonical_timestamp-valid json (other n) s h = ground (arith, h)

pub integer_between-valid :
    (lo hi : ℕ) (v : Value) (n : ℕ)
    → integer_between lo hi v ≡ valid n
    → (v ≡ number (whole n)) × (lo ≤ n) × (n ≤ hi)
unfolding integer_between
integer_between-valid lo hi (number (whole m)) n h = ground (arith, h)
integer_between-valid lo hi (number (negative m)) n h = ground (arith, h)
integer_between-valid lo hi (number (part m k)) n h = ground (arith, h)
integer_between-valid lo hi null n h = ground (arith, h)
integer_between-valid lo hi (text s) n h = ground (arith, h)
integer_between-valid lo hi (other m) n h = ground (arith, h)

pub number_up_to-valid :
    (hi : ℕ) (v : Value) (x : Number)
    → number_up_to hi v ≡ valid x
    → (v ≡ number x) × (at_most hi x ≡ true)
unfolding number_up_to
number_up_to-valid hi (number y) x h = elim (Bool-cases (at_most hi y)) [
  | inl e ↦ ground (arith, e, h)
  | inr e ↦ ground (arith, e, h)
]
number_up_to-valid hi null x h = ground (arith, h)
number_up_to-valid hi (text s) x h = ground (arith, h)
number_up_to-valid hi (other m) x h = ground (arith, h)

pub text_or_null-valid :
    (allowed : List Text) (v : Value) (m : Option Text)
    → or_null (enum_value allowed) v ≡ valid m
    → v ≡ text_or_null m
text_or_null-valid allowed null m h = ground (arith, h)
text_or_null-valid allowed (text s) m h =
    let (a, e, f) = bound (enum_value allowed (text s)) (λ t. valid (some t)) m h in
    ground (arith, f, enum_value-valid allowed (text s) a e)
text_or_null-valid allowed (number n) m h =
    let (a, e, f) = bound (enum_value allowed (number n)) (λ t. valid (some t)) m h in
    ground (arith, f, enum_value-valid allowed (number n) a e)
text_or_null-valid allowed (other n) m h =
    let (a, e, f) = bound (enum_value allowed (other n)) (λ t. valid (some t)) m h in
    ground (arith, f, enum_value-valid allowed (other n) a e)

pub number_or_null-valid :
    (hi : ℕ) (v : Value) (x : Option Number)
    → or_null (number_up_to hi) v ≡ valid x
    → v ≡ number_or_null x
number_or_null-valid hi null x h = ground (arith, h)
number_or_null-valid hi (text s) x h =
    let (a, e, f) = bound (number_up_to hi (text s)) (λ t. valid (some t)) x h in
    ground (arith, f, number_up_to-valid hi (text s) a e)
number_or_null-valid hi (number n) x h =
    let (a, e, f) = bound (number_up_to hi (number n)) (λ t. valid (some t)) x h in
    ground (arith, f, number_up_to-valid hi (number n) a e)
number_or_null-valid hi (other n) x h =
    let (a, e, f) = bound (number_up_to hi (other n)) (λ t. valid (some t)) x h in
    ground (arith, f, number_up_to-valid hi (other n) a e)

-- What a metric and a value may be.
abbrev pub IsMetric : List Text → Option Text → Type 0
IsMetric allowed none = Unit
IsMetric allowed (some s) = contains_text s allowed ≡ true

abbrev pub IsValueUpTo : ℕ → Option Number → Type 0
IsValueUpTo hi none = Unit
IsValueUpTo hi (some n) = at_most hi n ≡ true

some-IsMetric :
    (allowed : List Text) (c : Checked Text) (x : Option Text)
    → ((s : Text) → c ≡ valid s → contains_text s allowed ≡ true)
    → (c >>= λ t. valid (some t)) ≡ valid x
    → IsMetric allowed x
some-IsMetric allowed (invalid e) x f h = ground (arith, h)
some-IsMetric allowed (valid s) none f h = tt
some-IsMetric allowed (valid s) (some t) f h =
    let same : s ≡ t = ground (arith, h) in rw (sym same) (f s refl)

pub or_null-IsMetric :
    (allowed : List Text) (v : Value) (x : Option Text)
    → or_null (enum_value allowed) v ≡ valid x
    → IsMetric allowed x
or_null-IsMetric allowed null none h = tt
or_null-IsMetric allowed null (some s) h = ground (arith, h)
or_null-IsMetric allowed (text s) x h =
    some-IsMetric allowed _ x (λ t e. (enum_value-valid allowed (text s) t e).1) h
or_null-IsMetric allowed (number n) x h =
    some-IsMetric allowed _ x (λ t e. (enum_value-valid allowed (number n) t e).1) h
or_null-IsMetric allowed (other n) x h =
    some-IsMetric allowed _ x (λ t e. (enum_value-valid allowed (other n) t e).1) h

some-IsValueUpTo :
    (hi : ℕ) (c : Checked Number) (x : Option Number)
    → ((n : Number) → c ≡ valid n → at_most hi n ≡ true)
    → (c >>= λ t. valid (some t)) ≡ valid x
    → IsValueUpTo hi x
some-IsValueUpTo hi (invalid e) x f h = ground (arith, h)
some-IsValueUpTo hi (valid s) none f h = tt
some-IsValueUpTo hi (valid s) (some t) f h =
    let same : s ≡ t = ground (arith, h) in rw (sym same) (f s refl)

pub or_null-IsValueUpTo :
    (hi : ℕ) (v : Value) (x : Option Number)
    → or_null (number_up_to hi) v ≡ valid x
    → IsValueUpTo hi x
or_null-IsValueUpTo hi null none h = tt
or_null-IsValueUpTo hi null (some s) h = ground (arith, h)
or_null-IsValueUpTo hi (text s) x h =
    some-IsValueUpTo hi _ x (λ t e. (number_up_to-valid hi (text s) t e).1) h
or_null-IsValueUpTo hi (number n) x h =
    some-IsValueUpTo hi _ x (λ t e. (number_up_to-valid hi (number n) t e).1) h
or_null-IsValueUpTo hi (other n) x h =
    some-IsValueUpTo hi _ x (λ t e. (number_up_to-valid hi (other n) t e).1) h

pub same_metric-eq : (a b : Option Text) → same_metric a b ≡ true → a ≡ b
unfolding same_metric
same_metric-eq none none h = refl
same_metric-eq (some s) (some t) h = ap some ((same_text_iff s t).0 h)
same_metric-eq none (some t) h = ground (arith, h)
same_metric-eq (some s) none h = ground (arith, h)

same_number-eq : (m n : Number) → same_number m n ≡ true → m ≡ n
unfolding same_number
same_number-eq (whole m) (whole n) h = ground (arith, h)
same_number-eq (negative m) (negative n) h = ground (arith, h)
same_number-eq (part m j) (part n k) h = ground (arith, h)
same_number-eq (whole m) (negative n) h = ground (arith, h)
same_number-eq (whole m) (part n k) h = ground (arith, h)
same_number-eq (negative m) (whole n) h = ground (arith, h)
same_number-eq (negative m) (part n k) h = ground (arith, h)
same_number-eq (part m j) (whole n) h = ground (arith, h)
same_number-eq (part m j) (negative n) h = ground (arith, h)

pub same_value-eq : (a b : Option Number) → same_value a b ≡ true → a ≡ b
unfolding same_value
same_value-eq none none h = refl
same_value-eq (some m) (some n) h = ap some (same_number-eq m n h)
same_value-eq none (some n) h = ground (arith, h)
same_value-eq (some m) none h = ground (arith, h)
