-- ===== src/Room/TurnIds/Fresh.antt =====
-- A new turn id is not the id of any turn that the room still knows.
use non_stop_talk.Prelude.{
  ℕ, ◌+◌, ◌≤◌, ◌<◌, ◌≡◌, refl, Bool, false, ◌||◌, List, [], ◌∷◌, Option, none, some, arith, leb,
  if◌then◌else◌, All, le→leb,
}
use non_stop_talk.Prelude.Int.{pos}
use non_stop_talk.Text.{Text}
use non_stop_talk.Text.Decimal.{positive_numeral-decimal}
use non_stop_talk.Js.{Js, num, int, max_safe_integer, safe_counter}
use non_stop_talk.Room.{Room, ScoredTurn, Turn, ok, thrown, done, turn_ids_exhausted}
use non_stop_talk.Room.TurnIds.{
  turn_number, used_number, max_completed, max_active, max_used, beyond_safe, at_least_one,
  repaired_number, repair_next_turn, turn_id, next_turn_id,
}

-- A printed turn id is read back as its number.
pub turn_number-turn_id : (n : ℕ) → 0 < n → n ≤ max_safe_integer → turn_number (turn_id n) ≡ some n
unfolding turn_number
turn_number-turn_id n h k = rw (positive_numeral-decimal n h) (rw (le→leb _ _ k))

abbrev pub exhausted : Room → Bool
exhausted room = beyond_safe room.next_turn || leb max_safe_integer (max_used room)

safe_counter-le : (v : Js) → at_least_one (safe_counter v) ≤ max_safe_integer
unfolding safe_counter
safe_counter-le (num (int (pos n))) = ground arith
safe_counter-le (num (int _)) = ground arith
safe_counter-le (num _) = ground arith
safe_counter-le _ = ground arith

pub repaired_number_bounds :
    (room : Room)
    → exhausted room ≡ false
    → (max_used room < repaired_number room)
      × (repaired_number room ≤ max_safe_integer)
      × (0 < repaired_number room)
unfolding repaired_number
repaired_number_bounds room h = ground (arith, safe_counter-le room.next_turn)

pub repair_lem :
    (room : Room)
    → repair_next_turn room ≡ (
        if exhausted room
        then thrown turn_ids_exhausted room
        else done (record room { next_turn = num (int (pos (repaired_number room))) }))
unfolding repair_next_turn
repair_lem room = refl

pub next_turn_id_lem :
    (room : Room) (n : ℕ)
    → room.next_turn ≡ num (int (pos n))
    → max_used room < n
    → n ≤ max_safe_integer
    → next_turn_id room ≡ ok (turn_id n) (record room { next_turn = num (int (pos (n + 1))) })
unfolding next_turn_id repair_next_turn repaired_number beyond_safe safe_counter
next_turn_id_lem room n e h k = ground arith

-- What nextTurnId returns for a room, whatever its persisted counter holds.
pub next_turn_id_cases :
    (room : Room)
    → next_turn_id room ≡ (
        if exhausted room
        then thrown turn_ids_exhausted room
        else ok
            (turn_id (repaired_number room))
            (record room { next_turn = num (int (pos (repaired_number room + 1))) }))
unfolding next_turn_id safe_counter
next_turn_id_cases room = ground (arith, repair_lem room, repaired_number_bounds room)

-- The number of no id in the room reaches `n`.
abbrev pub Below : ℕ → Text → Type 0
Below n id = used_number (turn_number id) < n

abbrev pub ActiveBelow : ℕ → Option Turn → Type 0
ActiveBelow n none = Unit
ActiveBelow n (some t) = Below n t.id

pub max_completed-Below :
    (ts : List ScoredTurn) (n : ℕ) → max_completed ts < n → All (λ t. Below n t.turn.id) ts
unfolding max_completed
max_completed-Below [] n h = tt
max_completed-Below (t ∷ ts) n h = (omega arith, max_completed-Below ts n (omega arith))

pub max_active-Below : (t : Option Turn) (n : ℕ) → max_active t < n → ActiveBelow n t
unfolding max_active
max_active-Below none n h = tt
max_active-Below (some t) n h = h

-- A turn id that is issued carries a number above that of every id in the room, and the counter
-- that is left is above it in turn, so that no later id can equal it.
pub next_turn_id-fresh :
    (room room' : Room) (id : Text)
    → next_turn_id room ≡ ok id room'
    → (n : ℕ) × (turn_number id ≡ some n)
      × ActiveBelow n room.active_turn
      × All (λ t. Below n t.turn.id) room.completed_turns
      × (room' ≡ record room { next_turn = num (int (pos (n + 1))) })
next_turn_id-fresh room room' id h = (
  n,
  ground (arith, next_turn_id_cases room, bounds, turn_number-turn_id n),
  max_active-Below room.active_turn n (unfold max_used in omega (arith, bounds)),
  max_completed-Below room.completed_turns n (unfold max_used in omega (arith, bounds)),
  ground (arith, next_turn_id_cases room),
)
  where
    n : ℕ
    n = repaired_number room

    bounds : (max_used room < n) × (n ≤ max_safe_integer) × (0 < n)
    bounds = repaired_number_bounds room (ground (arith, next_turn_id_cases room))
