-- ===== src/Room/Seats.antt =====
-- Joining, and the actions on the seats of a room: joinRoom, addPlayer, removePlayer and the cases
-- add-player, rename-player, move-player, remove-player and leave of applyAction in
-- cloudflare/game.ts.
use non_stop_talk.Prelude.{
  ℕ, zero, suc, ◌+◌, ◌-◌, not, ◌&&◌, ◌||◌, List, [], ◌∷◌, ◌++◌, Option, none, some, ltb,
  if◌then◌else◌, length,
}
use non_stop_talk.Prelude.Int.{ℤ, pos, negsuc}
use non_stop_talk.Text.{Text, same_text, is_empty}
use non_stop_talk.Text.Decimal.{decimal}
use non_stop_talk.Js.{reads, Js, text, integer, clamp_sym}
use non_stop_talk.Room.{
  type_error, Room, Player, Turn, Request, Result, ok, thrown, Outcome, require, done, room_full,
  already_started, only_host, only_before_game, rename_self_only, name_missing, player_not_found,
  not_seated, is_setup, is_host, player_id_of, set_member, delete_member, delete_seats,
  player_index, update_player, find_player, remove_at, swap, touch,
}
use non_stop_talk.Room.Names.{clean_name}
use non_stop_talk.Room.Packs.{codes}

abbrev pub max_players : ℕ
max_players = 12

abbrev pub player_id : ℕ → Text
player_id n = b'p' ∷ decimal n

abbrev name_or : Text → ℕ → Text
name_or name n = if is_empty name then codes "Player " ++ decimal n else name

unfoldable pub new_player : Text → Room → Player
new_player raw_name room = record {
  id = player_id room.next_player;
  name = name_or (clean_name raw_name) room.next_player;
  score = 0;
}

unfoldable pub seat_player : Text → Text → Room → Room
unfolding new_player
seat_player token raw_name room = record room {
  next_player = room.next_player + 1;
  players = room.players ++ new_player raw_name room ∷ [];
  members =
      if is_empty token
      then room.members
      else set_member token (player_id room.next_player) room.members;
}

-- joinRoom: the player that the token has now, if any.
unfoldable pub join_room : Request → Text → Room → Result (Option Player)
join_room req name room =
    let existing = player_id_of req room in
    if not (is_empty existing)
    then ok (find_player existing room.players) room
    else if is_host req room && is_empty (clean_name name)
    then ok none room
    else require (is_setup room.phase) already_started room (
        require (ltb (length room.players) max_players) room_full room
          (ok (some (new_player name room)) (touch req.now (seat_player req.token name room))))

unfoldable pub add_player : Request → Js → Room → Outcome
add_player req name room = require (is_host req room) only_host room (
    require (is_setup room.phase) only_before_game room (
      require (ltb (length room.players) max_players) room_full room
        (done (seat_player [] (text name) room))))

abbrev pub renamed : Text → Player → Player
renamed name p = record p { name = name }

abbrev pub rename_turn : Text → Text → Option Turn → Option Turn
rename_turn id name none = none
rename_turn id name (some t) =
    some (if same_text t.player_id id then record t { player_name = name } else t)

abbrev or_not_found : Room → Option (List Player) → (List Player → Room) → Outcome
or_not_found room none use_players = thrown player_not_found room
or_not_found room (some ps) use_players = done (use_players ps)

unfoldable pub rename_player : Request → Js → Js → Room → Outcome
rename_player req id name room = require (is_setup room.phase) only_before_game room (
    require (is_host req room || same_text (text id) (player_id_of req room)) rename_self_only room
      (let found = update_player (text id) (renamed (clean_name (text name))) room.players in
        elim found [
          | none ↦ thrown player_not_found room
          | some ps ↦ require (not (is_empty (clean_name (text name)))) name_missing room (
              done (record room {
                players = ps;
                active_turn = rename_turn (text id) (clean_name (text name)) room.active_turn;
              }))
        ]))

-- The players after a move by an offset of -1, 0 or 1.
abbrev pub moved : List Player → ℕ → ℤ → List Player
moved ps from (pos zero) = ps
moved ps from (pos (suc n)) =
    if ltb (from + suc n) (length ps) then swap ps from (from + suc n) else ps
moved ps from (negsuc n) = if ltb n from then swap ps from (from - suc n) else ps

unfoldable pub move_player : Request → Js → Js → Room → Outcome
move_player req id offset room = require (is_host req room) only_host room (
    require (is_setup room.phase) only_before_game room
      (elim (player_index (text id) room.players) [
        | none ↦ thrown player_not_found room
        | some from ↦ require (reads req.builtins offset) type_error room (
            done (record room {
              players = moved room.players from (clamp_sym (integer req.builtins offset (pos 0)) 1);
            }))
      ]))

-- removePlayer
unfoldable pub unseat : Text → Room → Outcome
unseat id room = elim (player_index id room.players) [
  | none ↦ thrown player_not_found room
  | some index ↦ done (record room {
    players = remove_at index room.players;
    members = delete_seats id room.members;
  })
]

unfoldable pub remove_player : Request → Js → Room → Outcome
unfolding unseat
remove_player req id room =
    require (is_host req room) only_host room
      (require (is_setup room.phase) only_before_game room (unseat (text id) room))

abbrev forget_member : Text → Outcome → Outcome
forget_member token (ok u room) = done (record room { members = delete_member token room.members })
forget_member token (thrown e room) = thrown e room

unfoldable pub leave : Request → Room → Outcome
unfolding unseat
leave req room = require (not (is_empty (player_id_of req room))) not_seated room (
    require (is_setup room.phase) only_before_game room
      (forget_member req.token (unseat (player_id_of req room) room)))
