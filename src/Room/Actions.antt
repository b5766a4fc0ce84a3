-- ===== src/Room/Actions.antt =====
-- applyAction and createRoomState of cloudflare/game.ts: the switch over the actions, and what
-- follows a successful one.
pub mod Atomic
pub mod Bounds
pub mod Progress
pub mod Authority
use non_stop_talk.Prelude.{
  ℕ, ◌+◌, Bool, true, false, not, ◌&&◌, List, [], ◌∷◌, Option, none, some, if◌then◌else◌,
}
use non_stop_talk.Prelude.Int.{pos}
use non_stop_talk.Text.{Text, is_empty}
use non_stop_talk.Js.{Js, num, int}
use non_stop_talk.Room.{
  Room, Request, Outcome, ok, thrown, ◌>>=◌, done, unknown_action, is_host, touch, contains_text,
}
use non_stop_talk.Room
use non_stop_talk.Room.Names.{clean_name}
use non_stop_talk.Room.Packs.{everyday, codes}
use non_stop_talk.Room.Seats
use non_stop_talk.Room.Setup
use non_stop_talk.Room.Turns
use non_stop_talk.Room.Games
use non_stop_talk.Room.Host

-- An action with the fields that its case reads; `unknown` is any other type.
pub data Action : Type 0 where
  add_player : (name : Js) → Action
  rename_player : (id name : Js) → Action
  move_player : (id offset : Js) → Action
  remove_player : (id : Js) → Action
  leave : Action
  settings : (duration silence rounds pack : Js) → Action
  apply_setup_kit : (duration silence rounds pack topics : Js) → Action
  custom_topics : (topics generation : Js) → Action
  start_game : Action
  start_turn : (after : Js) → Action
  begin_turn : (turn : Js) → Action
  redraw_turn : (turn : Js) → Action
  submit_turn : (turn spoken completed eliminated : Js) → Action
  score : (id delta : Js) → Action
  reset : Action
  transfer_host : (id : Js) → Action
  claim_host : Action
  unknown : Action

-- The switch.
unfoldable pub perform : Request → Action → Room → Outcome
perform req (add_player name) room = Seats.add_player req name room
perform req (rename_player id name) room = Seats.rename_player req id name room
perform req (move_player id offset) room = Seats.move_player req id offset room
perform req (remove_player id) room = Seats.remove_player req id room
perform req leave room = Seats.leave req room
perform req (settings d s r p) room = Setup.settings req d s r p room
perform req (apply_setup_kit d s r p t) room = Setup.apply_setup_kit req d s r p t room
perform req (custom_topics t g) room = Setup.custom_topics req t g room
perform req start_game room = Games.start_game req room
perform req (start_turn after) room = Turns.start_turn req after room
perform req (begin_turn t) room = Turns.begin_turn req t room
perform req (redraw_turn t) room = Turns.redraw_turn req t room
perform req (submit_turn t s c e) room = Turns.submit_turn req t s c e room
perform req (score id delta) room = Games.correct_score req id delta room
perform req reset room = Games.reset req room
perform req (transfer_host id) room = Host.transfer_host req id room
perform req claim_host room = Host.claim_host req room
perform req unknown room = thrown unknown_action room

-- A host without a live socket is seen at each successful action.
unfoldable pub refresh_host : Request → Room → Room
refresh_host req room =
    if is_host req room && not (contains_text req.token req.online)
    then record room { host_disconnected_at = some req.now }
    else room

unfoldable pub apply_action : Request → Action → Room → Outcome
unfolding refresh_host
apply_action req action room =
    perform req action room >>= λ _ r. done (touch req.now (refresh_host req r))

abbrev empty_room : Text → Text → ℕ → Room
empty_room code host_token now = record {
  code = code;
  version = 1;
  host_token = host_token;
  host_disconnected_at = some now;
  created_at = now;
  updated_at = now;
  topic_generation = num (int (pos 0));
  next_player = 1;
  next_turn = num (int (pos 1));
  players = [];
  members = [];
  settings = record { duration = 60; silence = 2; rounds = 1; topic_pack = codes "everyday" };
  topics = everyday.topics;
  deck = [];
  deck_cursor = 0;
  last_topic_index = none;
  current_player = 0;
  current_round = 1;
  phase = Room.setup;
  active_turn = none;
  completed_turns = [];
  history = [];
}

unfoldable pub create_room_state : Text → Text → Text → ℕ → Room
create_room_state code host_token host_name now =
    let room = empty_room code host_token now in
    if is_empty (clean_name host_name) then room else Seats.seat_player host_token host_name room
