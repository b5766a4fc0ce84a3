-- ===== src/Room/View/Privacy.antt =====
-- What a guest's view of a room does not tell.
use non_stop_talk.Prelude.{ℕ, ◌≡◌, false, List, Option, length, arith}
use non_stop_talk.Text.{Text}
use non_stop_talk.Js.{Js}
use non_stop_talk.Room.{Room, Request, is_host, player_id_of}
use non_stop_talk.Room.Games.{standings}
use non_stop_talk.Room.View.{public_room_state}

-- The view of somebody who is not the host depends on the topics by their number only, and not on
-- the deck, the draws, the draft number or the turn counter.
pub guest_view_hides :
    (req : Request) (room : Room) (topics : List Text) (deck : List ℕ) (cursor : ℕ)
    (last : Option ℕ) (generation turn : Js)
    → is_host req room ≡ false
    → length topics ≡ length room.topics
    → public_room_state req (record room {
      topics = topics;
      deck = deck;
      deck_cursor = cursor;
      last_topic_index = last;
      topic_generation = generation;
      next_turn = turn;
    })
      ≡ public_room_state req room
unfolding public_room_state is_host player_id_of standings
guest_view_hides req room topics deck cursor last generation turn guest same = ground arith
