-- ===== src/Room/Deck/Draws.antt =====
-- A sequence of draws from a room: a cycle of the deck, and the first draw of the next.
use non_stop_talk.Prelude.{
  ℕ, zero, suc, ◌+◌, ◌-◌, ◌≤◌, ◌<◌, ◌≡◌, ◌≢◌, refl, ap, ◌∙◌, true, false, List, [], ◌∷◌, some,
  arith, ltb, ◌==◌, if◌then◌else◌, length, get_or, inl, inr, get_elem?, Bool-cases, take, drop,
  take_all, lt→ltb, ==_iff,
}
use native.Mathlib.Numerals.{add-one}
use non_stop_talk.Prelude.Count.{count, get_elem?_of_lt}
use non_stop_talk.Room.{Room, Random, Result, ok, thrown, swap}
use non_stop_talk.Room.Deck.{
  indices, valid_deck, shuffle_from, starts_with, avoid_repeat, shuffled, shuffle_deck, ready_deck,
  drawn, advance_deck, draw_topic,
}
use non_stop_talk.Room.Deck.Shuffle.{
  IsDeal, shuffle-IsDeal, valid_deck_of_deal, length-shuffled, length-indices, length-shuffle_from,
  count-shuffle_from, count-indices_all,
}

abbrev after_draw : Result ℕ → (Room → List ℕ × Room) → List ℕ × Room
after_draw (ok index room) rest = (index ∷ (rest room).0, (rest room).1)
after_draw (thrown e room) rest = rest room

-- `k` draws, the first with the random numbers `random 0`: the topics' indices and the room after.
unfoldable pub draws : (ℕ → Random) → ℕ → Room → List ℕ × Room
draws random zero room = ([], room)
draws random (suc k) room = after_draw (draw_topic (random 0) room) (draws (λ i. random (suc i)) k)

drop_at : (xs : List ℕ) (i d : ℕ) → i < length xs → drop i xs ≡ get_or xs i d ∷ drop (suc i) xs
drop_at [] i d h = elim h [ ]
drop_at (x ∷ xs) zero d h = refl
drop_at (x ∷ xs) (suc i) d h = drop_at xs i d (omega arith)

valid_deck_step :
    (room : Room)
    → room.deck_cursor < length room.deck
    → valid_deck (advance_deck room) ≡ valid_deck room
unfolding valid_deck
valid_deck_step room h = ground arith

draw_in_deck :
    (r : Random) (room : Room)
    → valid_deck room ≡ true
    → room.deck_cursor < length room.deck
    → draw_topic r room ≡ ok (drawn room) (advance_deck room)
unfolding draw_topic ready_deck valid_deck
draw_in_deck r room v h = ground arith

-- While the deck lasts, the draws are its next items.
draws_in_deck :
    (random : ℕ → Random) (k : ℕ) (room : Room)
    → valid_deck room ≡ true
    → room.deck_cursor + k ≤ length room.deck
    → (draws random k room).0 ≡ take k (drop room.deck_cursor room.deck)
unfolding draws
draws_in_deck random zero room v h = refl
draws_in_deck random (suc k) room v h =
    rw
      (
        draw_in_deck (random 0) room v (omega arith),
        after_draw,
        drop_at room.deck room.deck_cursor 0 (omega arith),
      )
      (ap (λ l. drawn room ∷ l)
        (draws_in_deck (λ i. random (suc i)) k (advance_deck room)
            (valid_deck_step room (omega arith) ∙ v) (omega arith)
          ∙ ap (λ n. take k (drop n room.deck)) (add-one room.deck_cursor)))

draw_reset :
    (r : Random) (room : Room)
    → room.deck ≡ []
    → 0 < length room.topics
    → draw_topic r room ≡ ok (drawn (shuffle_deck r room)) (advance_deck (shuffle_deck r room))
unfolding draw_topic ready_deck
draw_reset r room e h = ground arith

length-shuffle_deck :
    (r : Random) (room : Room) → length (shuffle_deck r room).deck ≡ length room.topics
unfolding shuffle_deck
length-shuffle_deck r room =
    length-shuffled r room.last_topic_index (indices 0 room.topics) ∙ length-indices 0 room.topics

valid_deck-shuffle : (r : Random) (room : Room) → valid_deck (shuffle_deck r room) ≡ true
unfolding shuffle_deck
valid_deck-shuffle r room =
    valid_deck_of_deal (shuffle_deck r room) (length-shuffle_deck r room) (omega arith)
      (shuffle-IsDeal r room)

head_and_rest :
    (xs : List ℕ) (c : ℕ)
    → c ≡ 0
    → 0 < length xs
    → get_or xs c 0 ∷ take (length xs - 1) (drop (c + 1) xs) ≡ xs
head_and_rest [] c e h = elim h [ ]
head_and_rest (x ∷ xs) c e h = rw e (ap (λ l. x ∷ l) (take_all _ xs (omega arith)))

whole_deck :
    (random : ℕ → Random) (room : Room)
    → valid_deck room ≡ true
    → room.deck_cursor ≡ 0
    → 0 < length room.deck
    → drawn room ∷ (draws random (length room.deck - 1) (advance_deck room)).0 ≡ room.deck
whole_deck random room v e h =
    ap (λ l. drawn room ∷ l)
      (draws_in_deck random (length room.deck - 1) (advance_deck room)
        (valid_deck_step room (omega arith) ∙ v) (omega arith))
    ∙ head_and_rest room.deck room.deck_cursor e h

deck_cursor-shuffle : (r : Random) (room : Room) → (shuffle_deck r room).deck_cursor ≡ 0
unfolding shuffle_deck
deck_cursor-shuffle r room = refl

first_cycle :
    (random : ℕ → Random) (room : Room) (n : ℕ)
    → room.deck ≡ []
    → length room.topics ≡ suc n
    → (draws random (suc n) room).0 ≡ (shuffle_deck (random 0) room).deck
unfolding draws
first_cycle random room n e h =
    rw (draw_reset (random 0) room e (omega arith), after_draw)
      (ap (λ k. drawn fresh ∷ (draws (λ i. random (suc i)) k (advance_deck fresh)).0) same
        ∙ whole_deck (λ i. random (suc i)) fresh (valid_deck-shuffle (random 0) room)
            (deck_cursor-shuffle (random 0) room)
            (omega (arith, length-shuffle_deck (random 0) room)))
  where
    fresh : Room
    fresh = shuffle_deck (random 0) room

    same : n ≡ length fresh.deck - 1
    same = omega (arith, length-shuffle_deck (random 0) room)

-- From a reset deck, as many draws as there are topics draw each topic exactly once, whatever the
-- random numbers.
pub draws-IsDeal :
    (random : ℕ → Random) (room : Room)
    → room.deck ≡ []
    → 0 < length room.topics
    → IsDeal (length room.topics) (draws random (length room.topics) room).0
draws-IsDeal random room e h a =
    ap (λ n. count a (draws random n room).0) len
    ∙ ap (count a) (first_cycle random room (length room.topics - 1) e len)
    ∙ shuffle-IsDeal (random 0) room a
  where
    len : length room.topics ≡ suc (length room.topics - 1)
    len = omega arith

count-get_elem? : (xs : List ℕ) (j y : ℕ) → get_elem? xs j ≡ some y → 0 < count y xs
unfolding count
count-get_elem? [] j y h = cc
count-get_elem? (x ∷ xs) zero y h = ground arith
count-get_elem? (x ∷ xs) (suc j) y h = omega (arith, count-get_elem? xs j y h)

-- Where each number occurs once at most, a swap of the first item changes the first item.
swap_head :
    (x : ℕ) (xs : List ℕ) (j last : ℕ)
    → ((a : ℕ) → count a (x ∷ xs) ≤ 1)
    → 0 < j
    → j < length (x ∷ xs)
    → x ≡ last
    → starts_with (some last) (swap (x ∷ xs) 0 j) ≡ false
unfolding swap count
swap_head x xs zero last h p q e = absurd (omega arith)
swap_head x xs (suc j) last h p q e =
    let (y, at) = get_elem?_of_lt xs j (omega arith) in
    rw at (ground (arith, h y, count-get_elem? xs j y at))

avoid_repeat_head :
    (r : Random) (last : ℕ) (deck : List ℕ)
    → ((a : ℕ) → count a deck ≤ 1)
    → 1 < length deck
    → starts_with (some last) (avoid_repeat r (some last) deck) ≡ false
unfolding avoid_repeat
avoid_repeat_head r last [] h p = elim p [ ]
avoid_repeat_head r last (x ∷ xs) h p = elim (Bool-cases (x == last)) [
  | inr other ↦ rw (other, lt→ltb 1 (length (x ∷ xs)) p) other
  | inl same ↦
      rw (same, lt→ltb 1 (length (x ∷ xs)) p)
        (swap_head x xs (1 + r.pick 0 (length (x ∷ xs) - 1)) last h (omega arith)
          (omega (arith, r.pick_lt 0 (length (x ∷ xs) - 1))) ((==_iff x last).0 same))
]

shuffled_head :
    (r : Random) (last : ℕ) (room : Room)
    → room.last_topic_index ≡ some last
    → 1 < length room.topics
    → starts_with (some last) (shuffle_deck r room).deck ≡ false
unfolding shuffle_deck shuffled
shuffled_head r last room e h =
    rw e (avoid_repeat_head r last _ (λ a. ground (arith, once a)) (omega (arith, long)))
  where
    deck : List ℕ
    deck = indices 0 room.topics

    once :
        (a : ℕ)
        → count a (shuffle_from r (length deck - 1) deck)
          ≡ (if ltb a (length room.topics) then 1 else 0)
    once a = count-shuffle_from r a _ deck ∙ count-indices_all a room.topics

    long : length (shuffle_from r (length deck - 1) deck) ≡ length room.topics
    long = length-shuffle_from r _ deck ∙ length-indices 0 room.topics

ne_of_starts_with :
    (deck : List ℕ) (last : ℕ)
    → 0 < length deck
    → starts_with (some last) deck ≡ false
    → get_or deck 0 0 ≢ last
ne_of_starts_with [] last p h = elim p [ ]
ne_of_starts_with (x ∷ xs) last p h = ground arith

head_below : (n : ℕ) (xs : List ℕ) → 0 < length xs → IsDeal n xs → get_or xs 0 0 < n
unfolding count
head_below n [] p h = elim p [ ]
head_below n (x ∷ xs) p h = ground (arith, h x)

-- A draw that begins a new cycle never repeats the topic drawn last, if there is a choice.
pub new_cycle_ne_last :
    (r : Random) (room : Room) (last : ℕ)
    → room.last_topic_index ≡ some last
    → 1 < length room.topics
    → length room.deck ≤ room.deck_cursor
    → (room' : Room) × (index : ℕ) × (draw_topic r room ≡ ok index room')
      × (index ≢ last)
      × (index < length room.topics)
unfolding draw_topic ready_deck
new_cycle_ne_last r room last e many used = (
  advance_deck fresh,
  drawn fresh,
  ground arith,
  rw (deck_cursor-shuffle r room) (
      ne_of_starts_with fresh.deck last (omega (arith, length-shuffle_deck r room))
        (shuffled_head r last room e many)),
  rw (deck_cursor-shuffle r room)
      (head_below _ fresh.deck (omega (arith, length-shuffle_deck r room)) (shuffle-IsDeal r room)),
)
  where
    fresh : Room
    fresh = shuffle_deck r room
