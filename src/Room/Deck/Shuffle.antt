-- ===== src/Room/Deck/Shuffle.antt =====
-- The shuffle deals every topic exactly once, and its deck is one that validDeck accepts.
use non_stop_talk.Prelude.{
  ℕ, zero, suc, ◌+◌, ◌-◌, ◌≤◌, ◌<◌, ◌≡◌, refl, ap, ◌∙◌, true, ◌&&◌, List, [], ◌∷◌, Option, none,
  some, arith, ltb, leb, if◌then◌else◌, length, set, inl, inr, get_elem?, length-set, Option-cases,
}
use non_stop_talk.Prelude.Count.{count, count-set, get_elem?-set_same}
use non_stop_talk.Room.{Room, Random, swapped, swap}
use non_stop_talk.Room.Deck.{
  indices, member, set_size, all_below, valid_deck, shuffle_from, avoid_repeat, shuffled,
  shuffle_deck,
}

pub length-swap {ℓ} : {A : Type ℓ} (xs : List A) (i j : ℕ) → length (swap xs i j) ≡ length xs
unfolding swap
length-swap xs i j = swapped_case (get_elem? xs i) (get_elem? xs j)
  where
    swapped_case : (x y : Option _) → length (swapped xs i j x y) ≡ length xs
    swapped_case (some x) (some y) = length-set (set xs i y) j x ∙ length-set xs i y
    swapped_case (some x) none = refl
    swapped_case none y = refl

pub count-swap : (a : ℕ) (xs : List ℕ) (i j : ℕ) → count a (swap xs i j) ≡ count a xs
unfolding swap
count-swap a xs i j = elim (Option-cases (get_elem? xs i)) [
  | inl e ↦ rw (e, swapped)
  | inr (x, ex) ↦ elim (Option-cases (get_elem? xs j)) [
    | inl e ↦ rw (ex, e)
    | inr (y, ey) ↦
        rw (ex, ey)
          (omega (
            arith,
            count-set a (set xs i y) j y x (get_elem?-set_same xs i j y ey),
            count-set a xs i x y ex,
          ))
  ]
]

pub length-shuffle_from :
    (r : Random) (i : ℕ) (deck : List ℕ) → length (shuffle_from r i deck) ≡ length deck
unfolding shuffle_from
length-shuffle_from r zero deck = refl
length-shuffle_from r (suc i) deck =
    length-shuffle_from r i _ ∙ length-swap deck (suc i) (r.pick (suc i) (suc i + 1))

pub count-shuffle_from :
    (r : Random) (a i : ℕ) (deck : List ℕ) → count a (shuffle_from r i deck) ≡ count a deck
unfolding shuffle_from
count-shuffle_from r a zero deck = refl
count-shuffle_from r a (suc i) deck =
    count-shuffle_from r a i _ ∙ count-swap a deck (suc i) (r.pick (suc i) (suc i + 1))

pub length-shuffled :
    (r : Random) (last : Option ℕ) (deck : List ℕ) → length (shuffled r last deck) ≡ length deck
unfolding shuffled avoid_repeat
length-shuffled r last deck = ground (
  arith,
  length-shuffle_from r (length deck - 1) deck,
  length-swap (shuffle_from r (length deck - 1) deck) 0
      (1 + r.pick 0 (length (shuffle_from r (length deck - 1) deck) - 1)),
)

pub count-shuffled :
    (r : Random) (last : Option ℕ) (a : ℕ) (deck : List ℕ)
    → count a (shuffled r last deck) ≡ count a deck
unfolding shuffled avoid_repeat
count-shuffled r last a deck = ground (
  arith,
  count-shuffle_from r a (length deck - 1) deck,
  count-swap a (shuffle_from r (length deck - 1) deck) 0
      (1 + r.pick 0 (length (shuffle_from r (length deck - 1) deck) - 1)),
)

pub length-indices {ℓ} : {A : Type ℓ} (k : ℕ) (xs : List A) → length (indices k xs) ≡ length xs
unfolding indices
length-indices k [] = refl
length-indices k (x ∷ xs) = ap suc (length-indices (suc k) xs)

count-indices {ℓ} :
    {A : Type ℓ} (a k : ℕ) (xs : List A)
    → count a (indices k xs) ≡ (if leb k a && ltb a (k + length xs) then 1 else 0)
unfolding indices count
count-indices a k [] = ground arith
count-indices a k (x ∷ xs) = ground (arith, count-indices a (suc k) xs)

pub count-indices_all {ℓ} :
    {A : Type ℓ} (a : ℕ) (xs : List A)
    → count a (indices 0 xs) ≡ (if ltb a (length xs) then 1 else 0)
count-indices_all a xs = count-indices a 0 xs ∙ ground arith

-- Each of the numbers below `n` once, and no other.
abbrev pub IsDeal : ℕ → List ℕ → Type 0
IsDeal n xs = (a : ℕ) → count a xs ≡ (if ltb a n then 1 else 0)

-- A shuffled deck holds each topic's index exactly once, whatever the random numbers.
pub shuffle-IsDeal :
    (r : Random) (room : Room) → IsDeal (length room.topics) (shuffle_deck r room).deck
unfolding shuffle_deck
shuffle-IsDeal r room a =
    count-shuffled r room.last_topic_index a (indices 0 room.topics)
    ∙ count-indices_all a room.topics

member_iff_count : (a : ℕ) (xs : List ℕ) → member a xs ≡ ltb 0 (count a xs)
unfolding member count
member_iff_count a [] = ground arith
member_iff_count a (x ∷ xs) = ground (arith, member_iff_count a xs)

set_size_of_counts : (xs : List ℕ) → ((a : ℕ) → count a xs ≤ 1) → set_size xs ≡ length xs
unfolding set_size count
set_size_of_counts [] h = refl
set_size_of_counts (x ∷ xs) h =
    ground (arith, h x, member_iff_count x xs, set_size_of_counts xs (λ a. omega (arith, h a)))

all_below_of_counts :
    (n : ℕ) (xs : List ℕ) → ((a : ℕ) → 0 < count a xs → a < n) → all_below n xs ≡ true
unfolding all_below count
all_below_of_counts n [] h = refl
all_below_of_counts n (x ∷ xs) h =
    ground (arith, h x (ground arith), all_below_of_counts n xs (λ a p. h a (omega arith)))

deal_count_le : (n : ℕ) (xs : List ℕ) → IsDeal n xs → (a : ℕ) → count a xs ≤ 1
deal_count_le n xs h a = ground (arith, h a)

deal_below : (n : ℕ) (xs : List ℕ) → IsDeal n xs → (a : ℕ) → 0 < count a xs → a < n
deal_below n xs h a p = ground (arith, h a)

pub valid_deck_of_deal :
    (room : Room)
    → length room.deck ≡ length room.topics
    → room.deck_cursor ≤ length room.deck
    → IsDeal (length room.topics) room.deck
    → valid_deck room ≡ true
unfolding valid_deck
valid_deck_of_deal room len cursor h = ground (
  arith,
  set_size_of_counts room.deck (deal_count_le _ room.deck h),
  all_below_of_counts (length room.topics) room.deck (deal_below _ room.deck h),
)
