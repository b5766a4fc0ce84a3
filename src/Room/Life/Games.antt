-- ===== src/Room/Life/Games.antt =====
-- The course of a game in every room that a server can reach: rounds times players turns, no more
-- and no fewer.
use non_stop_talk.Prelude.{
  ℕ, suc, ◌+◌, ◌*◌, ◌≡◌, ◌<◌, ◌≤◌, ◌↔◌, ◌≢◌, List, [], ◌∷◌, arith, length, refl, sym, Option-cases,
  inl, inr, ap, length-append,
}
use non_stop_talk.Text.{Text}
use non_stop_talk.Js.{Js, integer, clamp, truthy}
use non_stop_talk.Prelude.Int.{pos}
use non_stop_talk.Room.{
  Room, Request, Outcome, ok, touch, done, setup, playing, finished, is_host, ScoredTurn, Settings,
  Phase, room_of, thrown,
}
use non_stop_talk.Room.Seats.{seat_player}
use non_stop_talk.Room.Host.{set_host_online, refresh_http_host_presence}
use non_stop_talk.Room.Turns
use non_stop_talk.Room.Turns.{advance, file_turn, add_score, score_turn}
use non_stop_talk.Room.Actions
use non_stop_talk.Room.Actions.{create_room_state}
use non_stop_talk.Room.Actions.Bounds.{IsBounded, length-update_player}
use non_stop_talk.Room.Actions.Progress.{
  IsCoherent, Progress, apply_action-IsCoherent, join_room-IsCoherent, generation-IsCoherent,
}
use non_stop_talk.Room.Life.{Event, act, join, generate, presence, poll, handle, live}
use non_stop_talk.Room.Life.Bounded.{handle-IsBounded, create-IsBounded}

handle-IsCoherent :
    (e : Event) (room : Room) → IsBounded room → IsCoherent room → IsCoherent (handle e room)
unfolding handle set_host_online refresh_http_host_presence touch
handle-IsCoherent (act req action) room b h = apply_action-IsCoherent req room b h action
handle-IsCoherent (join req name) room b h = join_room-IsCoherent req room b h name
handle-IsCoherent (generate req) room b h = generation-IsCoherent req room b h
handle-IsCoherent (presence online now) room b h = ground (arith, h.progress)
handle-IsCoherent (poll token has_socket now) room b h = ground (arith, h.progress)

live-IsCoherent :
    (es : List Event) (room : Room) → IsBounded room → IsCoherent room → IsCoherent (live es room)
unfolding live
live-IsCoherent [] room b h = h
live-IsCoherent (e ∷ es) room b h =
    live-IsCoherent es (handle e room) (handle-IsBounded e room b) (handle-IsCoherent e room b h)

create-IsCoherent :
    (code host_token host_name : Text) (now : ℕ)
    → IsCoherent (create_room_state code host_token host_name now)
unfolding create_room_state seat_player
create-IsCoherent code host_token host_name now = ground arith

-- In every room that a server can reach, the filed turns tell how far the game is. In setup there is
-- none. While playing, the current player and round are in range, and the turns filed are those of
-- the rounds before and of the players before in this round. A finished game has exactly rounds times
-- players turns. Only a game in progress has an active turn.
pub every_room-IsCoherent :
    (code host_token host_name : Text) (now : ℕ) (es : List Event)
    → IsCoherent (live es (create_room_state code host_token host_name now))
every_room-IsCoherent code host_token host_name now es =
    live-IsCoherent es _ (create-IsBounded code host_token host_name now)
      (create-IsCoherent code host_token host_name now)

-- What a filed turn changes in the game's course.
abbrev FiledOne : Room → Room → Type 0
FiledOne room room' =
    (length room'.completed_turns ≡ suc (length room.completed_turns))
    × (length room'.players ≡ length room.players)
    × (room'.settings ≡ room.settings)
    × (room.phase ≡ playing → room'.phase ≢ setup)

file_turn-FiledOne :
    (scored : ScoredTurn) (room room' : Room)
    → file_turn scored room ≡ done room'
    → FiledOne room room'
unfolding file_turn advance
file_turn-FiledOne scored room room' h = ground (
  arith,
  length-append room.completed_turns (scored ∷ []),
  length-update_player scored.turn.player_id (add_score scored.score) room.players,
)

submit-FiledOne :
    (req : Request) (id s c e : Js) (room room' : Room)
    → Turns.submit_turn req id s c e room ≡ done room'
    → FiledOne room room' × (room.phase ≡ playing)
unfolding Turns.submit_turn Turns.driven_turn
submit-FiledOne req id s c e room room' h = elim (Option-cases room.active_turn) [
  | inl n ↦ ground arith
  | inr (t, n) ↦ ground (
    arith,
    file_turn-FiledOne
        (score_turn (is_host req room) req.now t
          (clamp (integer req.builtins s (pos 0)) 0 t.duration) (truthy c) (truthy e))
        room room',
  )
]

not_over :
    (c n player round rounds : ℕ)
    → player < n
    → round ≤ rounds
    → c + n ≡ round * n + player
    → c ≢ rounds * n
not_over c n player round rounds p q e = grind arith

over_at :
    (p : Phase) (room : Room)
    → p ≢ setup
    → Progress p room
    → (p ≡ finished) ↔ (length room.completed_turns ≡ room.settings.rounds * length room.players)
over_at setup room n h = absurd (n refl)
over_at playing room n h = ground (
  arith,
  not_over (length room.completed_turns) (length room.players) room.current_player
      room.current_round room.settings.rounds,
)
over_at finished room n h = ground arith

-- The game is over exactly when all the turns of all its rounds are filed.
over_iff :
    (room : Room)
    → IsCoherent room
    → room.phase ≢ setup
    → (room.phase ≡ finished)
      ↔ (length room.completed_turns ≡ room.settings.rounds * length room.players)
over_iff room h n = over_at room.phase room n h.progress

accepted-FiledOne :
    (req : Request) (id s c e : Js) (room room' : Room)
    → Actions.apply_action req (Actions.submit_turn id s c e) room ≡ done room'
    → FiledOne room room' × (room.phase ≡ playing)
unfolding Actions.apply_action Actions.perform Actions.refresh_host touch
accepted-FiledOne req id s c e room room' k = go (Turns.submit_turn req id s c e room) refl
  where
    go :
        (o : Outcome)
        → Turns.submit_turn req id s c e room ≡ o
        → FiledOne room room' × (room.phase ≡ playing)
    go (ok u r) q = ground (arith, submit-FiledOne req id s c e room r, q)
    go (thrown x r) q = ground arith

-- In a bounded and coherent room, as every room of a server is, an accepted submission files one
-- turn, and it ends the game exactly when the turns filed are then rounds times players.
pub submission_ends_game :
    (req : Request) (id s c e : Js) (room room' : Room)
    → IsBounded room
    → IsCoherent room
    → Actions.apply_action req (Actions.submit_turn id s c e) room ≡ done room'
    → (length room'.completed_turns ≡ suc (length room.completed_turns))
      × ((room'.phase ≡ finished)
          ↔ (length room'.completed_turns ≡ room.settings.rounds * length room.players))
submission_ends_game req id s c e room room' b h k =
    let coherent : IsCoherent room' =
      rw (ap room_of k) at (apply_action-IsCoherent req room b h (Actions.submit_turn id s c e)) in
    let (one, same, kept, going) = (accepted-FiledOne req id s c e room room' k).0 in
    let playing_there = (accepted-FiledOne req id s c e room room' k).1 in
    (
      one,
      rw (ap (λ (st : Settings). st.rounds) (sym kept), sym same)
          (over_iff room' coherent (going playing_there)),
    )
