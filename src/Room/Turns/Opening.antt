-- ===== src/Room/Turns/Opening.antt =====
-- What start-turn and redraw-turn do after their guards: the whole effect in one equation, so that
-- nothing is half done when they throw.
use non_stop_talk.Prelude.{
  ℕ, ◌+◌, ◌<◌, ◌≡◌, refl, false, [], none, some, arith, if◌then◌else◌, inl, inr, Bool-cases, length,
  get_or,
}
use non_stop_talk.Prelude.Int.{pos}
use non_stop_talk.Js.{Js, num, int}
use non_stop_talk.Room.{Room, Player, Turn, Request, Random, ok, thrown, done, turn_ids_exhausted}
use non_stop_talk.Room.Deck.{shuffle_deck, ready_deck, valid_deck, drawn, draw_topic}
use non_stop_talk.Room.TurnIds.{next_turn_id, repaired_number, turn_id, max_used}
use non_stop_talk.Room.TurnIds.Fresh.{
  exhausted, repair_lem, repaired_number_bounds, next_turn_id_lem,
}
use non_stop_talk.Room.Turns.{new_turn, open_turn, reopen_turn}

-- The topic that the next draw takes, and the deck after it.
abbrev pub next_topic : Random → Room → ℕ
next_topic random room = drawn (ready_deck random room)

-- The room after a draw and a new turn id, with the turn still to be set.
abbrev pub prepared : Random → Room → Room
prepared random room = record room {
  deck = (ready_deck random room).deck;
  deck_cursor = (ready_deck random room).deck_cursor + 1;
  last_topic_index = some (next_topic random room);
  next_turn = num (int (pos (repaired_number room + 1)));
}

draw_repaired :
    (r : Random) (room : Room) (v : Js)
    → 0 < length room.topics
    → draw_topic r (record room { next_turn = v })
      ≡ ok (next_topic r room) (record room {
        deck = (ready_deck r room).deck;
        deck_cursor = (ready_deck r room).deck_cursor + 1;
        last_topic_index = some (next_topic r room);
        next_turn = v;
      })
unfolding draw_topic ready_deck shuffle_deck valid_deck
draw_repaired r room v h = ground arith

number_drawn :
    (r : Random) (room : Room)
    → exhausted room ≡ false
    → next_turn_id (record room {
      deck = (ready_deck r room).deck;
      deck_cursor = (ready_deck r room).deck_cursor + 1;
      last_topic_index = some (next_topic r room);
      next_turn = num (int (pos (repaired_number room)));
    })
      ≡ ok (turn_id (repaired_number room)) (prepared r room)
unfolding max_used
number_drawn r room e =
    let bounds = repaired_number_bounds room e in
    next_turn_id_lem _ (repaired_number room) refl bounds.0 bounds.1

pub open_turn_lem :
    (req : Request) (current : Player) (room : Room)
    → 0 < length room.topics
    → open_turn req current room ≡ (
        if exhausted room
        then thrown turn_ids_exhausted room
        else done (record (prepared req.random room) {
          active_turn =
              some (
                new_turn room current
                  (next_topic req.random room)
                  (turn_id (repaired_number room)));
        }))
unfolding open_turn
open_turn_lem req current room h = elim (Bool-cases (exhausted room)) [
  | inl e ↦ rw (repair_lem room, e)
  | inr e ↦ rw (
    repair_lem room,
    e,
    draw_repaired req.random room (num (int (pos (repaired_number room)))) h,
    number_drawn req.random room e,
  )
]

-- The part of redraw-turn after its guards.
abbrev pub reopened : Random → Room → Turn → Turn
reopened random room t = record t {
  id = turn_id (repaired_number room);
  topic_index = next_topic random room;
  topic = get_or room.topics (next_topic random room) [];
  begun_at = none;
}

pub reopen_turn_lem :
    (req : Request) (t : Turn) (room : Room)
    → 0 < length room.topics
    → reopen_turn req t room ≡ (
        if exhausted room
        then thrown turn_ids_exhausted room
        else done
            (record (prepared req.random room) { active_turn = some (reopened req.random room t) }))
unfolding reopen_turn
reopen_turn_lem req t room h = elim (Bool-cases (exhausted room)) [
  | inl e ↦ rw (repair_lem room, e)
  | inr e ↦ rw (
    repair_lem room,
    e,
    draw_repaired req.random room (num (int (pos (repaired_number room)))) h,
    number_drawn req.random room e,
  )
]
