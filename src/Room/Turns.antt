-- ===== src/Room/Turns.antt =====
-- The turns of a game: start-turn, begin-turn, redraw-turn and submit-turn of applyAction, with
-- requireTurn, requireTurnDriver and advance, in cloudflare/game.ts.
pub mod Opening
pub mod Scoring
use non_stop_talk.Prelude.{
  ℕ, ◌+◌, ◌-◌, ◌/◌, Bool, true, false, not, ◌&&◌, ◌||◌, List, [], ◌∷◌, ◌++◌, Option, none, some,
  ltb, leb, ◌==◌, if◌then◌else◌, length, get_elem?, get_or, min,
}
use non_stop_talk.Prelude.Int.{pos}
use non_stop_talk.Text.{Text, same_text, is_empty}
use non_stop_talk.Js.{reads, Js, text, integer, clamp, truthy}
use non_stop_talk.Room.{
  type_error, Room, Player, Turn, ScoredTurn, Request, Result, ok, thrown, Outcome, ◌>>=◌, require,
  done, finished, not_in_progress, next_turn_stale, player_unavailable, only_next_speaker,
  turn_not_active, only_current_speaker, redraw_too_late, player_not_found, is_playing, is_none,
  is_host, player_id_of, update_player, last?,
}
use non_stop_talk.Room.Deck.{draw_topic}
use non_stop_talk.Room.TurnIds.{repair_next_turn, next_turn_id}

abbrev pub completion_bonus : ℕ
completion_bonus = 25

abbrev pub observation_tolerance_seconds : ℕ
observation_tolerance_seconds = 1

abbrev pub completion_grace_seconds : ℕ
completion_grace_seconds = 2

abbrev id_of_last : Option ScoredTurn → Text
id_of_last none = []
id_of_last (some t) = t.turn.id

abbrev pub last_turn_id : Room → Text
last_turn_id room = id_of_last (last? room.completed_turns)

abbrev new_turn : Room → Player → ℕ → Text → Turn
new_turn room current index id = record {
  id = id;
  player_id = current.id;
  player_name = current.name;
  round = room.current_round;
  topic = get_or room.topics index [];
  topic_index = index;
  duration = room.settings.duration;
  silence = room.settings.silence;
  begun_at = none;
}

-- The part of start-turn after its guards.
unfoldable pub open_turn : Request → Player → Room → Outcome
open_turn req current room = repair_next_turn room >>= λ _ repaired.
    draw_topic req.random repaired >>= λ index drew. next_turn_id drew >>= λ id numbered.
    done (record numbered { active_turn = some (new_turn numbered current index id) })

unfoldable pub start_turn : Request → Js → Room → Outcome
start_turn req after room = require (is_playing room.phase) not_in_progress room (
    require (same_text (text after) (last_turn_id room)) next_turn_stale room
      (elim (get_elem? room.players room.current_player) [
        | none ↦ thrown player_unavailable room
        | some current ↦
            require (is_host req room || same_text current.id (player_id_of req room))
              only_next_speaker room
              (if not (is_none room.active_turn) then done room else open_turn req current room)
      ]))

-- requireTurn
unfoldable pub require_turn : Room → Text → Result Turn
require_turn room id = require (is_playing room.phase) not_in_progress room (elim room.active_turn [
  | none ↦ thrown turn_not_active room
  | some t ↦ require (not (is_empty id) && same_text t.id id) turn_not_active room (ok t room)
])

-- requireTurn, then requireTurnDriver
unfoldable pub driven_turn : Request → Js → Room → Result Turn
unfolding require_turn
driven_turn req id room = require_turn room (text id) >>= λ t r.
    require (is_host req r || same_text t.player_id (player_id_of req r)) only_current_speaker r
      (ok t r)

abbrev begun : ℕ → Option ℕ → Option ℕ
begun now none = some now
begun now (some at) = some at

unfoldable pub begin_turn : Request → Js → Room → Outcome
begin_turn req id room = driven_turn req id room >>= λ t r.
    done (record r { active_turn = some (record t { begun_at = begun req.now t.begun_at }) })

-- The part of redraw-turn after its guards.
unfoldable pub reopen_turn : Request → Turn → Room → Outcome
reopen_turn req t room = repair_next_turn room >>= λ _ repaired.
    draw_topic req.random repaired >>= λ index drew. next_turn_id drew >>= λ new_id numbered.
    done (record numbered {
      active_turn = some (record t {
        id = new_id;
        topic_index = index;
        topic = get_or numbered.topics index [];
        begun_at = none;
      });
    })

unfoldable pub redraw_turn : Request → Js → Room → Outcome
redraw_turn req id room = driven_turn req id room >>= λ t r.
    require (is_none t.begun_at) redraw_too_late r (reopen_turn req t r)

-- Math.floor((now - begunAt) / 1000); `none` is a negative number, which -1 also stands for.
unfoldable pub server_elapsed : ℕ → Option ℕ → Option ℕ
server_elapsed now none = none
server_elapsed now (some at) = if ltb now at then none else some ((now - at) / 1000)

abbrev observed : Option ℕ → ℕ → ℕ
observed none duration = 0
observed (some e) duration = min duration (e + observation_tolerance_seconds)

abbrev in_grace : Option ℕ → ℕ → Bool
in_grace none duration = false
in_grace (some e) duration = leb duration (e + completion_grace_seconds)

-- The seconds that a submission counts. A speaker who is not the host is held to the server's clock.
unfoldable pub counted_seconds : Bool → Option ℕ → ℕ → ℕ → Bool → ℕ
counted_seconds trusted elapsed duration claimed completion =
    if trusted
    then claimed
    else if completion && in_grace elapsed duration
    then duration
    else min claimed (observed elapsed duration)

-- What submit-turn records, from the claim: seconds in range, `completed` and `eliminated`.
unfoldable pub score_turn : Bool → ℕ → Turn → ℕ → Bool → Bool → ScoredTurn
unfolding counted_seconds server_elapsed
score_turn trusted now t claimed completed eliminated =
    let requested = completed && not eliminated in
    let spoken =
      counted_seconds trusted (server_elapsed now t.begun_at) t.duration claimed requested in
    let complete = requested && leb t.duration spoken in
    record {
      turn = t;
      spoken_seconds = spoken;
      completed = complete;
      eliminated = eliminated;
      score = spoken + (if complete then completion_bonus else 0);
    }

abbrev pub add_score : ℕ → Player → Player
add_score n p = record p { score = p.score + n }

-- The next player, the next round, the end of the game.
unfoldable pub advance : Room → Room
advance room =
    let wraps = leb (length room.players) (room.current_player + 1) in
    let round = if wraps then room.current_round + 1 else room.current_round in
    record room {
      current_player = if wraps then 0 else room.current_player + 1;
      current_round = round;
      phase = if ltb room.settings.rounds round then finished else room.phase;
    }

-- The end of submit-turn: the score is added, the turn is filed and the next one is due.
unfoldable pub file_turn : ScoredTurn → Room → Outcome
file_turn scored r = elim (update_player scored.turn.player_id (add_score scored.score) r.players) [
  | none ↦ thrown player_not_found r
  | some ps ↦ done (
      advance (record r {
        players = ps;
        completed_turns = r.completed_turns ++ scored ∷ [];
        active_turn = none;
      }))
]

unfoldable pub submit_turn : Request → Js → Js → Js → Js → Room → Outcome
submit_turn req id spoken completed eliminated room = driven_turn req id room >>= λ t r.
    require (reads req.builtins spoken) type_error r (
      file_turn
        (score_turn (is_host req r) req.now t
          (clamp (integer req.builtins spoken (pos 0)) 0 t.duration) (truthy completed)
          (truthy eliminated))
        r)
