-- ===== src/Room/TurnIds.antt =====
-- Turn ids: nextTurnId and repairNextTurn of cloudflare/game.ts.
pub mod Fresh
use non_stop_talk.Prelude.{
  ℕ, ◌+◌, Bool, true, false, ◌||◌, List, [], ◌∷◌, Option, none, some, ltb, leb, ◌==◌, if◌then◌else◌,
  max,
}
use non_stop_talk.Prelude.Int.{pos}
use non_stop_talk.Text.{Text}
use non_stop_talk.Text.Decimal.{decimal, positive_numeral}
use non_stop_talk.Js.{Js, num, int, fraction, max_safe_integer, safe_counter}
use non_stop_talk.Room.{
  Room, Turn, ScoredTurn, Result, ok, thrown, Outcome, ◌>>=◌, require, done, turn_ids_exhausted,
}

-- /^t([1-9][0-9]*)$/ with a number that is a safe integer.
unfoldable pub turn_number : Text → Option ℕ
turn_number [] = none
turn_number (c ∷ s) =
    if c == b't'
    then elim (positive_numeral s) [
      | none ↦ none
      | some n ↦ if leb n max_safe_integer then some n else none
    ]
    else none

abbrev used_number : Option ℕ → ℕ
used_number none = 0
used_number (some n) = n

unfoldable pub max_completed : List ScoredTurn → ℕ
max_completed [] = 0
max_completed (t ∷ ts) = max (used_number (turn_number t.turn.id)) (max_completed ts)

unfoldable pub max_active : Option Turn → ℕ
max_active none = 0
max_active (some t) = used_number (turn_number t.id)

unfoldable pub max_used : Room → ℕ
max_used room = max (max_active room.active_turn) (max_completed room.completed_turns)

-- A finite number above Number.MAX_SAFE_INTEGER.
unfoldable pub beyond_safe : Js → Bool
beyond_safe (num (int (pos n))) = ltb max_safe_integer n
beyond_safe (num (fraction (pos n))) = leb max_safe_integer n
beyond_safe _ = false

abbrev pub at_least_one : Option ℕ → ℕ
at_least_one none = 1
at_least_one (some n) = max 1 n

unfoldable pub repaired_number : Room → ℕ
repaired_number room = max (at_least_one (safe_counter room.next_turn)) (max_used room + 1)

unfoldable pub repair_next_turn : Room → Outcome
repair_next_turn room =
    if beyond_safe room.next_turn || leb max_safe_integer (max_used room)
    then thrown turn_ids_exhausted room
    else done (record room { next_turn = num (int (pos (repaired_number room))) })

abbrev pub turn_id : ℕ → Text
turn_id n = b't' ∷ decimal n

abbrev pub turn_id_exhausted_sentinel : ℕ
turn_id_exhausted_sentinel = max_safe_integer + 1

abbrev pub increment_turn : ℕ → ℕ
increment_turn n = if n == max_safe_integer then turn_id_exhausted_sentinel else n + 1

unfoldable pub allocate_turn_id : Option ℕ → Room → Result Text
allocate_turn_id none room = thrown turn_ids_exhausted room
allocate_turn_id (some n) room =
    if ltb n 1
    then thrown turn_ids_exhausted room
    else ok (turn_id n) (record room { next_turn = num (int (pos (increment_turn n))) })

unfoldable pub next_turn_id : Room → Result Text
unfolding allocate_turn_id
next_turn_id room = repair_next_turn room >>= λ _ repaired.
    allocate_turn_id (safe_counter repaired.next_turn) repaired
