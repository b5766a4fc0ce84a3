-- ===== src/Room/Actions/Progress.antt =====
-- How far a game is: the turns filed, the player and the round that are due, and the phase agree,
-- whatever the actions.
use non_stop_talk.Prelude.{
  ℕ, ◌+◌, ◌*◌, ◌≤◌, ◌<◌, ◌≡◌, refl, ap, true, [], ◌∷◌, ◌++◌, none, arith, ltb, leb, inl, inr,
  Bool-cases, Option-cases, length, get_elem?, length-append, length-map,
}
use non_stop_talk.Prelude.Int.{pos}
use non_stop_talk.Text.{Text}
use non_stop_talk.Js.{Js, num, int, clamp, integer, text, truthy}
use non_stop_talk.Room.{
  Room, Request, is_host, room_of, Phase, setup, playing, finished, update_player, touch,
  ScoredTurn, is_none,
}
use non_stop_talk.Room.Seats
use non_stop_talk.Room.Seats.{max_players, moved, seat_player}
use non_stop_talk.Room.Setup
use non_stop_talk.Room.Turns
use non_stop_talk.Room.Turns.{advance, file_turn, add_score, score_turn}
use non_stop_talk.Room.Turns.Opening.{open_turn_lem, reopen_turn_lem}
use non_stop_talk.Room.Games
use non_stop_talk.Room.Games.{
  max_history, keep_last, archived_game, archive_finished_game, fresh_game,
}
use non_stop_talk.Room.Host
use non_stop_talk.Room.TurnIds.{repaired_number}
use non_stop_talk.Room.TurnIds.Fresh.{repair_lem}
use non_stop_talk.Room.Actions
use non_stop_talk.Room.Actions.Bounds.{length-update_player, IsBounded}

-- The players of a round take their turns in order, so `completed` counts the rounds before this
-- one and the players before the current one.
abbrev pub Progress : Phase → Room → Type 0
Progress setup r = (length r.completed_turns ≡ 0) × (is_none r.active_turn ≡ true)
Progress playing r =
    (r.current_player < length r.players)
    × (1 ≤ r.current_round)
    × (r.current_round ≤ r.settings.rounds)
    × (length r.completed_turns + length r.players
        ≡ r.current_round * length r.players + r.current_player)
Progress finished r =
    (length r.completed_turns ≡ r.settings.rounds * length r.players)
    × (is_none r.active_turn ≡ true)

pub record IsCoherent (room : Room) : Type 0 where
  pub progress : Progress room.phase room

fresh_playing :
    (now : ℕ) (room : Room)
    → 2 ≤ length room.players
    → 1 ≤ room.settings.rounds
    → IsCoherent (fresh_game now playing room)
unfolding fresh_game archive_finished_game
fresh_playing now room h k = record {
  progress = ground (arith, length-map Games.zero_score room.players);
}

fresh_setup : (now : ℕ) (room : Room) → IsCoherent (fresh_game now setup room)
unfolding fresh_game
fresh_setup now room = record { progress = (refl, refl) }

finish_count :
    (c n round rounds : ℕ)
    → c + n ≡ round * n + n
    → round ≤ rounds
    → rounds < round + 1
    → c ≡ rounds * n
finish_count c n round rounds h p q =
    let same : round ≡ rounds = omega arith in omega (arith, ap (λ (t : ℕ). t * n) same)

-- The progress of a room whose turn is filed and whose next turn is not yet due.
abbrev Filed : Room → Type 0
Filed r =
    (r.current_player < length r.players)
    × (1 ≤ r.current_round)
    × (r.current_round ≤ r.settings.rounds)
    × (length r.completed_turns + length r.players
        ≡ r.current_round * length r.players + r.current_player + 1)

advance-IsCoherent :
    (r : Room) → r.phase ≡ playing → r.active_turn ≡ none → Filed r → IsCoherent (advance r)
unfolding advance
advance-IsCoherent r e n f = elim (Bool-cases (leb (length r.players) (r.current_player + 1))) [
  | inr stays ↦ record { progress = rw stays (ground (arith, e, n, f)) }
  | inl wraps ↦ elim (Bool-cases (ltb r.settings.rounds (r.current_round + 1))) [
    | inr goes_on ↦ record { progress = rw (wraps, goes_on) (ground (arith, e, n, f)) }
    | inl ends ↦ record {
      progress =
          rw (wraps, ends)
            (
              finish_count (length r.completed_turns) (length r.players) r.current_round
                  r.settings.rounds (ground (arith, f)) f.2 (ground arith),
              ground (arith, n),
            );
    }
  ]
]

module _ (req : Request) (room : Room) (h : IsCoherent room) where
  add_player-IsCoherent : (name : Js) → IsCoherent (room_of (Seats.add_player req name room))
  unfolding Seats.add_player Seats.seat_player
  add_player-IsCoherent name = ground (arith, h.progress)

  rename-IsCoherent : (id name : Js) → IsCoherent (room_of (Seats.rename_player req id name room))
  unfolding Seats.rename_player
  rename-IsCoherent id name = ground (arith, h.progress)

  move-IsCoherent : (id o : Js) → IsCoherent (room_of (Seats.move_player req id o room))
  unfolding Seats.move_player
  move-IsCoherent id o = ground (arith, h.progress)

  remove-IsCoherent : (id : Js) → IsCoherent (room_of (Seats.remove_player req id room))
  unfolding Seats.remove_player
  remove-IsCoherent id = ground (arith, h.progress)

  leave-IsCoherent : IsCoherent (room_of (Seats.leave req room))
  unfolding Seats.leave
  leave-IsCoherent = ground (arith, h.progress)

  settings-IsCoherent : (d s r p : Js) → IsCoherent (room_of (Setup.settings req d s r p room))
  unfolding Setup.settings
  settings-IsCoherent d s r p = ground (arith, h.progress)

  kit-IsCoherent :
      (d s r p t : Js) → IsCoherent (room_of (Setup.apply_setup_kit req d s r p t room))
  unfolding Setup.apply_setup_kit
  kit-IsCoherent d s r p t = ground (arith, h.progress)

  custom-IsCoherent : (t g : Js) → IsCoherent (room_of (Setup.custom_topics req t g room))
  unfolding Setup.custom_topics
  custom-IsCoherent t g = ground (arith, h.progress)

  start_game-IsCoherent :
      1 ≤ room.settings.rounds → IsCoherent (room_of (Games.start_game req room))
  unfolding Games.start_game
  start_game-IsCoherent k = ground (
    arith,
    h.progress,
    repair_lem room,
    fresh_playing req.now (record room { next_turn = num (int (pos (repaired_number room))) }),
  )

  reset-IsCoherent : IsCoherent (room_of (Games.reset req room))
  unfolding Games.reset
  reset-IsCoherent = ground (
    arith,
    h.progress,
    repair_lem room,
    fresh_setup req.now (record room { next_turn = num (int (pos (repaired_number room))) }),
  )

  score-IsCoherent : (id d : Js) → IsCoherent (room_of (Games.correct_score req id d room))
  unfolding Games.correct_score
  score-IsCoherent id d =
      ground
        (arith, h.progress, length-update_player (text id) (Games.corrected req d) room.players)

  start_turn-IsCoherent :
      (after : Js) → 0 < length room.topics → IsCoherent (room_of (Turns.start_turn req after room))
  unfolding Turns.start_turn
  start_turn-IsCoherent after k = elim (Option-cases (get_elem? room.players room.current_player)) [
    | inl e ↦ ground (arith, h.progress)
    | inr (p, e) ↦ ground (arith, h.progress, open_turn_lem req p room k)
  ]

  begin-IsCoherent : (id : Js) → IsCoherent (room_of (Turns.begin_turn req id room))
  unfolding Turns.begin_turn Turns.driven_turn
  begin-IsCoherent id = ground (arith, h.progress)

  redraw-IsCoherent :
      (id : Js) → 0 < length room.topics → IsCoherent (room_of (Turns.redraw_turn req id room))
  unfolding Turns.redraw_turn Turns.driven_turn
  redraw-IsCoherent id k = elim (Option-cases room.active_turn) [
    | inl e ↦ ground (arith, h.progress)
    | inr (t, e) ↦ ground (arith, h.progress, reopen_turn_lem req t room k)
  ]

  file_turn-IsCoherent :
      (scored : ScoredTurn) → room.phase ≡ playing → IsCoherent (room_of (file_turn scored room))
  unfolding file_turn
  file_turn-IsCoherent scored e =
      elim (Option-cases
        (update_player scored.turn.player_id (add_score scored.score) room.players)) [
          | inl missing ↦ rw (missing, room_of) h
          | inr (ps, found) ↦
              rw (found, room_of)
                (advance-IsCoherent
                  (record room {
                    players = ps;
                    completed_turns = room.completed_turns ++ scored ∷ [];
                    active_turn = none;
                  })
                  e refl
                  (ground (
                    arith,
                    h.progress,
                    length-append room.completed_turns (scored ∷ []),
                    length-update_player scored.turn.player_id (add_score scored.score)
                        room.players,
                  )))
        ]

  submit-IsCoherent : (id s c e : Js) → IsCoherent (room_of (Turns.submit_turn req id s c e room))
  unfolding Turns.submit_turn Turns.driven_turn
  submit-IsCoherent id s c e = elim (Option-cases room.active_turn) [
    | inl n ↦ ground (arith, h.progress)
    | inr (t, n) ↦ ground (
      arith,
      h.progress,
      file_turn-IsCoherent (
          score_turn (is_host req room) req.now t
            (clamp (integer req.builtins s (pos 0)) 0 t.duration) (truthy c) (truthy e)),
    )
  ]

  transfer-IsCoherent : (id : Js) → IsCoherent (room_of (Host.transfer_host req id room))
  unfolding Host.transfer_host
  transfer-IsCoherent id = ground (arith, h.progress)

  claim-IsCoherent : IsCoherent (room_of (Host.claim_host req room))
  unfolding Host.claim_host
  claim-IsCoherent = ground (arith, h.progress)

module _ (req : Request) (room : Room) (b : IsBounded room) (h : IsCoherent room) where
  perform-IsCoherent :
      (action : Actions.Action) → IsCoherent (room_of (Actions.perform req action room))
  unfolding Actions.perform
  perform-IsCoherent (Actions.add_player name) = add_player-IsCoherent req room h name
  perform-IsCoherent (Actions.rename_player id name) = rename-IsCoherent req room h id name
  perform-IsCoherent (Actions.move_player id offset) = move-IsCoherent req room h id offset
  perform-IsCoherent (Actions.remove_player id) = remove-IsCoherent req room h id
  perform-IsCoherent Actions.leave = leave-IsCoherent req room h
  perform-IsCoherent (Actions.settings d s r p) = settings-IsCoherent req room h d s r p
  perform-IsCoherent (Actions.apply_setup_kit d s r p t) = kit-IsCoherent req room h d s r p t
  perform-IsCoherent (Actions.custom_topics t g) = custom-IsCoherent req room h t g
  perform-IsCoherent Actions.start_game =
      start_game-IsCoherent req room h (b.settings_fit.rounds_fit.0)
  perform-IsCoherent (Actions.start_turn after) =
      start_turn-IsCoherent req room h after b.topics_left
  perform-IsCoherent (Actions.begin_turn t) = begin-IsCoherent req room h t
  perform-IsCoherent (Actions.redraw_turn t) = redraw-IsCoherent req room h t b.topics_left
  perform-IsCoherent (Actions.submit_turn t s c e) = submit-IsCoherent req room h t s c e
  perform-IsCoherent (Actions.score id delta) = score-IsCoherent req room h id delta
  perform-IsCoherent Actions.reset = reset-IsCoherent req room h
  perform-IsCoherent (Actions.transfer_host id) = transfer-IsCoherent req room h id
  perform-IsCoherent Actions.claim_host = claim-IsCoherent req room h
  perform-IsCoherent Actions.unknown = h

  pub apply_action-IsCoherent :
      (action : Actions.Action) → IsCoherent (room_of (Actions.apply_action req action room))
  unfolding Actions.apply_action Actions.refresh_host touch
  apply_action-IsCoherent action = ground (arith, perform-IsCoherent action)

  pub join_room-IsCoherent : (name : Text) → IsCoherent (room_of (Seats.join_room req name room))
  unfolding Seats.join_room Seats.seat_player touch
  join_room-IsCoherent name = ground (arith, h.progress)

  pub generation-IsCoherent : IsCoherent (room_of (Setup.begin_topic_generation req room))
  unfolding Setup.begin_topic_generation touch
  generation-IsCoherent = ground (arith, h.progress)
