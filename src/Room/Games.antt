-- ===== src/Room/Games.antt =====
-- Starting, resetting and archiving games, scores and standings: start-game, score and reset of
-- applyAction, archiveFinishedGame and standings of cloudflare/game.ts.
pub mod Standings
use non_stop_talk.Prelude.{
  ℕ, ◌+◌, ◌-◌, Bool, true, false, not, ◌&&◌, List, [], ◌∷◌, ◌++◌, Option, none, some, ltb, leb, map,
  if◌then◌else◌, length, drop,
}
use non_stop_talk.Prelude.Int.{pos}
use non_stop_talk.Text.{Text}
use non_stop_talk.Js.{reads, Js, text, integer, clamp_sym, add_floored}
use non_stop_talk.Room.{
  type_error, Room, Player, Phase, GameHistory, Request, Outcome, thrown, ◌>>=◌, require, done,
  setup, playing, only_host, only_before_game, players_missing, topics_missing_at_start,
  player_not_found, reset_while_playing, is_setup, is_playing, is_finished, is_host, update_player,
}
use non_stop_talk.Room.Deck.{reset_deck}
use non_stop_talk.Room.TurnIds.{repair_next_turn}

-- Array.prototype.sort is stable: a player stands before those of an equal score that came later.
unfoldable pub insert_by_score : Player → List Player → List Player
insert_by_score p [] = p ∷ []
insert_by_score p (q ∷ qs) =
    let rest = insert_by_score p qs in if ltb p.score q.score then q ∷ rest else p ∷ q ∷ qs

unfoldable pub standings_of : List Player → List Player
unfolding insert_by_score
standings_of [] = []
standings_of (p ∷ ps) = insert_by_score p (standings_of ps)

unfoldable pub standings : Room → List Player
standings room = standings_of room.players

abbrev pub max_history : ℕ
max_history = 20

-- history.slice(-20) of a longer history
abbrev pub keep_last : ℕ → List GameHistory → List GameHistory
keep_last n games = if ltb n (length games) then drop (length games - n) games else games

abbrev pub archived_game : ℕ → Room → GameHistory
archived_game now room = record {
  finished_at = now;
  standings = standings_of room.players;
  turns = length room.completed_turns;
}

unfoldable pub archive_finished_game : ℕ → Room → Room
archive_finished_game now room =
    if is_finished room.phase && ltb 0 (length room.completed_turns)
    then record room {
      history = keep_last max_history (room.history ++ archived_game now room ∷ []);
    }
    else room

abbrev pub zero_score : Player → Player
zero_score p = record p { score = 0 }

-- What start-game and reset end with.
unfoldable pub fresh_game : ℕ → Phase → Room → Room
unfolding reset_deck archive_finished_game
fresh_game now phase room =
    let archived = archive_finished_game now room in
    reset_deck (record archived {
      phase = phase;
      current_player = 0;
      current_round = 1;
      active_turn = none;
      completed_turns = [];
      players = map zero_score archived.players;
    })

unfoldable pub start_game : Request → Room → Outcome
start_game req room = require (is_host req room) only_host room (
    if is_playing room.phase
    then done room
    else require (is_setup room.phase) only_before_game room (
        require (leb 2 (length room.players)) players_missing room (
          require (ltb 0 (length room.topics)) topics_missing_at_start room
            (repair_next_turn room >>= λ _ r. done (fresh_game req.now playing r)))))

unfoldable pub reset : Request → Room → Outcome
reset req room = require (is_host req room) only_host room (
    require (not (is_playing room.phase)) reset_while_playing room
      (repair_next_turn room >>= λ _ r. done (fresh_game req.now setup r)))

abbrev pub max_score_correction : ℕ
max_score_correction = 100

abbrev pub corrected : Request → Js → Player → Player
corrected req delta p = record p {
  score = add_floored p.score (clamp_sym (integer req.builtins delta (pos 0)) max_score_correction);
}

unfoldable pub correct_score : Request → Js → Js → Room → Outcome
correct_score req id delta room =
    require (is_host req room) only_host room
      (elim (update_player (text id) (corrected req delta) room.players) [
        | none ↦ thrown player_not_found room
        | some ps ↦
            require (reads req.builtins delta) type_error room (done (record room { players = ps }))
      ])
