-- ===== src/Room/View.antt =====
-- publicRoomState of cloudflare/game.ts: what a viewer is sent of a room. The constant list of topic
-- packs, which is sent to everybody, is left out.
pub mod Privacy
use non_stop_talk.Prelude.{
  ℕ, ◌+◌, ◌-◌, Bool, true, false, not, ◌&&◌, ◌||◌, List, [], ◌∷◌, Option, none, some, map, ltb, leb,
  if◌then◌else◌, length,
}
use non_stop_talk.Text.{Text, same_text, is_empty}
use non_stop_talk.Room.{
  Room, Player, Settings, Phase, Turn, ScoredTurn, GameHistory, Request, is_host, player_id_of,
  is_finished, is_none, last?, contains_text,
}
use non_stop_talk.Room.Seats.{max_players}
use non_stop_talk.Room.Turns.{completion_bonus}
use non_stop_talk.Room.Games.{standings}
use non_stop_talk.Room.Host.{host_claim_grace_ms, host_is_here}

pub record PublicPlayer : Type 0 where
  pub player : Player
  pub online : Bool

pub record Viewer : Type 0 where
  pub player_id : Text
  pub is_host : Bool
  pub is_member : Bool
  pub host_disconnected : Bool
  pub host_claim_wait_ms : ℕ
  pub can_claim_host : Bool

pub record PublicRoom : Type 0 where
  pub code : Text
  pub version : ℕ
  pub server_now : ℕ
  pub max_players : ℕ
  pub completion_bonus : ℕ
  pub phase : Phase
  pub players : List PublicPlayer
  pub settings : Settings
  pub topic_count : ℕ
  pub topics : List Text
  pub current_player : ℕ
  pub current_round : ℕ
  pub active_turn : Option Turn
  pub completed_turns : List ScoredTurn
  pub last_turn : Option ScoredTurn
  pub standings : List Player
  pub winner : Option Player
  pub history : List GameHistory
  pub viewer : Viewer

-- The ids of the members whose tokens are online.
online_ids : List Text → List (Text × Text) → List Text
online_ids online [] = []
online_ids online ((token, id) ∷ rest) =
    let ids = online_ids online rest in if contains_text token online then id ∷ ids else ids

abbrev claim_wait : ℕ → Option ℕ → ℕ
claim_wait now none = 0
claim_wait now (some since) = (since + host_claim_grace_ms) - now

abbrev first : List Player → Option Player
first [] = none
first (p ∷ ps) = some p

unfoldable pub viewer_of : Request → Room → Viewer
unfolding host_is_here
viewer_of req room = record {
  player_id = player_id_of req room;
  is_host = is_host req room;
  is_member = not (is_empty (player_id_of req room)) || is_host req room;
  host_disconnected = not (is_none room.host_disconnected_at);
  host_claim_wait_ms = claim_wait req.now room.host_disconnected_at;
  can_claim_host =
      not (is_empty (player_id_of req room))
      && not (host_is_here req.now room.host_disconnected_at);
}

unfoldable pub public_room_state : Request → Room → PublicRoom
unfolding viewer_of online_ids
public_room_state req room = record {
  code = room.code;
  version = room.version;
  server_now = req.now;
  max_players = max_players;
  completion_bonus = completion_bonus;
  phase = room.phase;
  players =
      map
        (λ p. record {
          player = p;
          online = contains_text p.id (online_ids req.online room.members);
        })
        room.players;
  settings = room.settings;
  topic_count = length room.topics;
  topics = if is_host req room then room.topics else [];
  current_player = room.current_player;
  current_round = room.current_round;
  active_turn = room.active_turn;
  completed_turns = room.completed_turns;
  last_turn = last? room.completed_turns;
  standings = standings room;
  winner = if is_finished room.phase then first (standings room) else none;
  history = room.history;
  viewer = viewer_of req room;
}
