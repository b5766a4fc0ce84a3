-- ===== src/Room/Deck.antt =====
-- The topic deck: drawTopic, validDeck, shuffleDeck and resetDeck of cloudflare/game.ts.
pub mod Shuffle
pub mod Draws
use non_stop_talk.Prelude.{
  ℕ, zero, suc, ◌+◌, ◌-◌, Bool, true, false, not, ◌&&◌, ◌||◌, List, [], ◌∷◌, Option, none, some,
  ltb, leb, ◌==◌, if◌then◌else◌, length, get_or,
}
use non_stop_talk.Room.{Room, Random, Result, ok, thrown, topics_missing_at_start, require, swap}

-- topics.map((_, index) => index)
unfoldable pub indices {ℓ} : {A : Type ℓ} → ℕ → List A → List ℕ
indices k [] = []
indices k (x ∷ xs) = k ∷ indices (suc k) xs

unfoldable pub member : ℕ → List ℕ → Bool
member a [] = false
member a (x ∷ xs) = if x == a then true else member a xs

-- new Set(deck).size
unfoldable pub set_size : List ℕ → ℕ
unfolding member
set_size [] = 0
set_size (x ∷ xs) = let size = set_size xs in if member x xs then size else suc size

unfoldable pub all_below : ℕ → List ℕ → Bool
all_below n [] = true
all_below n (x ∷ xs) = ltb x n && all_below n xs

unfoldable pub valid_deck : Room → Bool
valid_deck room =
    length room.deck == length room.topics
    && leb room.deck_cursor (length room.deck)
    && set_size room.deck == length room.topics
    && all_below (length room.topics) room.deck

-- The loop of shuffleDeck, from `index` down to 1.
unfoldable pub shuffle_from : Random → ℕ → List ℕ → List ℕ
unfolding swap
shuffle_from random zero deck = deck
shuffle_from random (suc i) deck =
    shuffle_from random i (swap deck (suc i) (random.pick (suc i) (suc i + 1)))

abbrev pub starts_with : Option ℕ → List ℕ → Bool
starts_with (some last) (x ∷ xs) = x == last
starts_with _ _ = false

-- The swap after the loop, by which a new cycle does not begin with the topic drawn last.
unfoldable pub avoid_repeat : Random → Option ℕ → List ℕ → List ℕ
unfolding swap
avoid_repeat random last deck =
    if ltb 1 (length deck) && starts_with last deck
    then swap deck 0 (1 + random.pick 0 (length deck - 1))
    else deck

unfoldable pub shuffled : Random → Option ℕ → List ℕ → List ℕ
shuffled random last deck = avoid_repeat random last (shuffle_from random (length deck - 1) deck)

unfoldable pub shuffle_deck : Random → Room → Room
shuffle_deck random room = record room {
  deck = shuffled random room.last_topic_index (indices 0 room.topics);
  deck_cursor = 0;
}

unfoldable pub reset_deck : Room → Room
reset_deck room = record room { deck = []; deck_cursor = 0 }

-- The deck that a draw takes its topic from.
unfoldable pub ready_deck : Random → Room → Room
ready_deck random room =
    if not (valid_deck room) || leb (length room.deck) room.deck_cursor
    then shuffle_deck random room
    else room

abbrev pub drawn : Room → ℕ
drawn room = get_or room.deck room.deck_cursor 0

abbrev advance_deck : Room → Room
advance_deck room = record room {
  deck_cursor = room.deck_cursor + 1;
  last_topic_index = some (drawn room);
}

unfoldable pub draw_topic : Random → Room → Result ℕ
draw_topic random room =
    require (ltb 0 (length room.topics)) topics_missing_at_start room
      (ok (drawn (ready_deck random room)) (advance_deck (ready_deck random room)))
