-- ===== src/Room/Actions/Atomic.antt =====
-- What a rejected action leaves of the room, which the code mutates in place.
use non_stop_talk.Prelude.Int.{pos}
use non_stop_talk.Prelude.{◌⊎◌, ◌<◌, ◌≡◌, refl, arith, inl, inr, Option-cases, length, get_elem?}
use non_stop_talk.Js.{Js, integer, clamp}
use non_stop_talk.Room.{Room, Request, Result, Settings, GameError, Outcome, type_error, ok, thrown}
use non_stop_talk.Room.Seats
use non_stop_talk.Room.Setup
use non_stop_talk.Room.Turns
use non_stop_talk.Room.Turns.Opening.{open_turn_lem, reopen_turn_lem}
use non_stop_talk.Room.Games
use non_stop_talk.Room.Host
use non_stop_talk.Room.TurnIds.Fresh.{repair_lem}
use non_stop_talk.Room.Actions

-- A thrown error keeps the room.
abbrev pub Keeps {ℓ} : {A : Type ℓ} → Room → Result A → Type 0
Keeps room (ok a r) = Unit
Keeps room (thrown e r) = r ≡ room

add_player-Keeps :
    (req : Request) (name : Js) (room : Room) → Keeps room (Seats.add_player req name room)
unfolding Seats.add_player
add_player-Keeps req name room = ground arith

rename-Keeps :
    (req : Request) (id name : Js) (room : Room) → Keeps room (Seats.rename_player req id name room)
unfolding Seats.rename_player
rename-Keeps req id name room = ground arith

move-Keeps :
    (req : Request) (id o : Js) (room : Room) → Keeps room (Seats.move_player req id o room)
unfolding Seats.move_player
move-Keeps req id o room = ground arith

remove-Keeps :
    (req : Request) (id : Js) (room : Room) → Keeps room (Seats.remove_player req id room)
unfolding Seats.remove_player
remove-Keeps req id room = ground arith

leave-Keeps : (req : Request) (room : Room) → Keeps room (Seats.leave req room)
unfolding Seats.leave
leave-Keeps req room = ground arith

-- The settings after the duration, or it and the silence, were set.
pub record IsHalfSet (req : Request) (d s : Js) (old new : Settings) : Type 0 where
  pub duration_set : new.duration ≡ clamp (integer req.builtins d (pos old.duration)) 10 300
  pub silence_set :
      (new.silence ≡ old.silence)
      ⊎ (new.silence ≡ clamp (integer req.builtins s (pos old.silence)) 1 10)

-- Only the settings action can have set some of the room's settings when a field cannot be
-- converted; it keeps all else.
abbrev pub LeavesHalf : Request → Actions.Action → Room → GameError → Room → Type 0
LeavesHalf req (Actions.settings d s r p) room type_error after =
    IsHalfSet req d s room.settings after.settings
    × (after ≡ record room {
      settings = record room.settings {
        duration = after.settings.duration;
        silence = after.settings.silence;
      };
    })
LeavesHalf req action room e after = ⊥

abbrev pub Leaves : Request → Actions.Action → Room → Outcome → Type 0
Leaves req action room (ok a after) = Unit
Leaves req action room (thrown e after) = (after ≡ room) ⊎ LeavesHalf req action room e after

settings-Leaves :
    (req : Request) (d s r p : Js) (room : Room)
    → Leaves req (Actions.settings d s r p) room (Setup.settings req d s r p room)
unfolding Setup.settings
settings-Leaves req d s r p room = ground arith

kit-Keeps :
    (req : Request) (d s r p t : Js) (room : Room)
    → Keeps room (Setup.apply_setup_kit req d s r p t room)
unfolding Setup.apply_setup_kit
kit-Keeps req d s r p t room = ground arith

custom-Keeps :
    (req : Request) (t g : Js) (room : Room) → Keeps room (Setup.custom_topics req t g room)
unfolding Setup.custom_topics
custom-Keeps req t g room = ground arith

start_game-Keeps : (req : Request) (room : Room) → Keeps room (Games.start_game req room)
unfolding Games.start_game
start_game-Keeps req room = ground (arith, repair_lem room)

reset-Keeps : (req : Request) (room : Room) → Keeps room (Games.reset req room)
unfolding Games.reset
reset-Keeps req room = ground (arith, repair_lem room)

score-Keeps :
    (req : Request) (id d : Js) (room : Room) → Keeps room (Games.correct_score req id d room)
unfolding Games.correct_score
score-Keeps req id d room = ground arith

transfer-Keeps :
    (req : Request) (id : Js) (room : Room) → Keeps room (Host.transfer_host req id room)
unfolding Host.transfer_host
transfer-Keeps req id room = ground arith

claim-Keeps : (req : Request) (room : Room) → Keeps room (Host.claim_host req room)
unfolding Host.claim_host
claim-Keeps req room = ground arith

start_turn-Keeps :
    (req : Request) (after : Js) (room : Room)
    → 0 < length room.topics
    → Keeps room (Turns.start_turn req after room)
unfolding Turns.start_turn
start_turn-Keeps req after room h =
    elim (Option-cases (get_elem? room.players room.current_player)) [
      | inl e ↦ ground arith
      | inr (p, e) ↦ ground (arith, open_turn_lem req p room h)
    ]

-- What requireTurn and requireTurnDriver have established when they let a request through.
pub driven_turn_cases :
    (req : Request) (id : Js) (room : Room) → Keeps room (Turns.driven_turn req id room)
unfolding Turns.driven_turn
driven_turn_cases req id room = ground arith

begin-Keeps : (req : Request) (id : Js) (room : Room) → Keeps room (Turns.begin_turn req id room)
unfolding Turns.begin_turn Turns.driven_turn
begin-Keeps req id room = ground arith

redraw-Keeps :
    (req : Request) (id : Js) (room : Room)
    → 0 < length room.topics
    → Keeps room (Turns.redraw_turn req id room)
unfolding Turns.redraw_turn Turns.driven_turn
redraw-Keeps req id room h = elim (Option-cases room.active_turn) [
  | inl e ↦ ground arith
  | inr (t, e) ↦ ground (arith, reopen_turn_lem req t room h)
]

submit-Keeps :
    (req : Request) (id s c e : Js) (room : Room) → Keeps room (Turns.submit_turn req id s c e room)
unfolding Turns.submit_turn Turns.driven_turn Turns.file_turn
submit-Keeps req id s c e room = ground arith

Keeps-Leaves :
    (req : Request) (action : Actions.Action) (room : Room) (o : Outcome)
    → Keeps room o
    → Leaves req action room o
Keeps-Leaves req action room (ok a after) h = tt
Keeps-Leaves req action room (thrown e after) h = inl h

perform-Leaves :
    (req : Request) (action : Actions.Action) (room : Room)
    → 0 < length room.topics
    → Leaves req action room (Actions.perform req action room)
unfolding Actions.perform
perform-Leaves req (Actions.settings d s r p) room h = settings-Leaves req d s r p room
perform-Leaves req (Actions.add_player name) room h =
    Keeps-Leaves req (Actions.add_player name) room _ (add_player-Keeps req name room)
perform-Leaves req (Actions.rename_player id name) room h =
    Keeps-Leaves req (Actions.rename_player id name) room _ (rename-Keeps req id name room)
perform-Leaves req (Actions.move_player id offset) room h =
    Keeps-Leaves req (Actions.move_player id offset) room _ (move-Keeps req id offset room)
perform-Leaves req (Actions.remove_player id) room h =
    Keeps-Leaves req (Actions.remove_player id) room _ (remove-Keeps req id room)
perform-Leaves req (Actions.leave) room h =
    Keeps-Leaves req Actions.leave room _ (leave-Keeps req room)
perform-Leaves req (Actions.apply_setup_kit d s r p t) room h =
    Keeps-Leaves req (Actions.apply_setup_kit d s r p t) room _ (kit-Keeps req d s r p t room)
perform-Leaves req (Actions.custom_topics t g) room h =
    Keeps-Leaves req (Actions.custom_topics t g) room _ (custom-Keeps req t g room)
perform-Leaves req (Actions.start_game) room h =
    Keeps-Leaves req (Actions.start_game) room _ (start_game-Keeps req room)
perform-Leaves req (Actions.start_turn after) room h =
    Keeps-Leaves req (Actions.start_turn after) room _ (start_turn-Keeps req after room h)
perform-Leaves req (Actions.begin_turn t) room h =
    Keeps-Leaves req (Actions.begin_turn t) room _ (begin-Keeps req t room)
perform-Leaves req (Actions.redraw_turn t) room h =
    Keeps-Leaves req (Actions.redraw_turn t) room _ (redraw-Keeps req t room h)
perform-Leaves req (Actions.submit_turn t s c e) room h =
    Keeps-Leaves req (Actions.submit_turn t s c e) room _ (submit-Keeps req t s c e room)
perform-Leaves req (Actions.score id delta) room h =
    Keeps-Leaves req (Actions.score id delta) room _ (score-Keeps req id delta room)
perform-Leaves req (Actions.reset) room h =
    Keeps-Leaves req (Actions.reset) room _ (reset-Keeps req room)
perform-Leaves req (Actions.transfer_host id) room h =
    Keeps-Leaves req (Actions.transfer_host id) room _ (transfer-Keeps req id room)
perform-Leaves req (Actions.claim_host) room h =
    Keeps-Leaves req (Actions.claim_host) room _ (claim-Keeps req room)
perform-Leaves req (Actions.unknown) room h = inl refl

-- In a room with topics, an action that throws leaves the room exactly as it was, except for the
-- settings action when a field of it cannot be converted to a number, which throws a TypeError:
-- then the duration, and possibly the silence, are the ones asked for, clamped, and nothing else of
-- the room has changed.
pub rejected_action_keeps_room :
    (req : Request) (action : Actions.Action) (room room' : Room) (e : GameError)
    → 0 < length room.topics
    → Actions.apply_action req action room ≡ thrown e room'
    → (room' ≡ room) ⊎ LeavesHalf req action room e room'
unfolding Actions.apply_action
rejected_action_keeps_room req action room room' e h thrown_there =
    ground (arith, perform-Leaves req action room h)
