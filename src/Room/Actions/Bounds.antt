-- ===== src/Room/Actions/Bounds.antt =====
-- The sizes and settings of a room stay within their limits, whatever the actions.
use non_stop_talk.Prelude.{
  ℕ, zero, suc, ◌+◌, ◌-◌, ◌≤◌, ◌<◌, ◌≡◌, refl, List, [], ◌∷◌, ◌++◌, Option, none, some, arith, inl,
  inr, All, Option-cases, length, get_elem?, length-append, length-map, length-drop,
}
use non_stop_talk.Prelude.Int.{ℤ, pos, negsuc}
use non_stop_talk.Text.{Text}
use non_stop_talk.Js.{Js, num, int, clamp, clamp_sym, integer, text}
use non_stop_talk.Room.{
  Room, Player, Request, player_id_of, room_of, Settings, Phase, GameHistory, setup, playing,
  update_player, remove_at, touch, player_index, ScoredTurn,
}
use non_stop_talk.Room.Names.{clean_name}
use non_stop_talk.Room.Packs.{TopicPack, topic_packs, find_pack}
use non_stop_talk.Room.Deck.Shuffle.{length-swap}
use non_stop_talk.Room.Seats
use non_stop_talk.Room.Seats.{max_players, moved, seat_player}
use non_stop_talk.Room.Setup
use non_stop_talk.Room.Turns
use non_stop_talk.Room.Turns.{advance, file_turn, add_score}
use non_stop_talk.Room.Turns.Opening.{open_turn_lem, reopen_turn_lem}
use non_stop_talk.Room.Games
use non_stop_talk.Room.Games.{
  max_history, keep_last, archived_game, archive_finished_game, fresh_game,
}
use non_stop_talk.Room.Host
use non_stop_talk.Room.TurnIds.{repaired_number}
use non_stop_talk.Room.TurnIds.Fresh.{repair_lem}
use non_stop_talk.Room.Actions

pub record IsWithinLimits (s : Settings) : Type 0 where
  pub duration_fits : (10 ≤ s.duration) × (s.duration ≤ 300)
  pub silence_fits : (1 ≤ s.silence) × (s.silence ≤ 10)
  pub rounds_fit : (1 ≤ s.rounds) × (s.rounds ≤ 10)

pub record IsBounded (room : Room) : Type 0 where
  pub players_fit : length room.players ≤ max_players
  pub settings_fit : IsWithinLimits room.settings
  pub topics_left : 0 < length room.topics
  pub history_fits : length room.history ≤ max_history

pub clamp_bounds : (n : ℤ) (lo hi : ℕ) → lo ≤ hi → (lo ≤ clamp n lo hi) × (clamp n lo hi ≤ hi)
unfolding clamp
clamp_bounds n lo hi h = ground arith

abbrev pub SameLength : List Player → Option (List Player) → Type 0
SameLength ps none = Unit
SameLength ps (some qs) = length qs ≡ length ps

pub length-update_player :
    (id : Text) (f : Player → Player) (ps : List Player) → SameLength ps (update_player id f ps)
unfolding update_player
length-update_player id f [] = tt
length-update_player id f (p ∷ ps) = ground (arith, length-update_player id f ps)

pub length-remove_at {ℓ} : {A : Type ℓ} (i : ℕ) (xs : List A) → length (remove_at i xs) ≤ length xs
unfolding remove_at
length-remove_at i [] = omega arith
length-remove_at zero (x ∷ xs) = omega arith
length-remove_at (suc i) (x ∷ xs) = omega (arith, length-remove_at i xs)

pub length-moved : (ps : List Player) (from : ℕ) (o : ℤ) → length (moved ps from o) ≡ length ps
length-moved ps from (pos zero) = refl
length-moved ps from (pos (suc n)) = ground (arith, length-swap ps from (from + suc n))
length-moved ps from (negsuc n) = ground (arith, length-swap ps from (from - suc n))

abbrev HasTopics : Option TopicPack → Type 0
HasTopics none = Unit
HasTopics (some p) = 0 < length p.topics

find_pack-HasTopics :
    (id : Text) (ps : List TopicPack)
    → All (λ p. 0 < length p.topics) ps
    → HasTopics (find_pack id ps)
unfolding find_pack
find_pack-HasTopics id [] h = tt
find_pack-HasTopics id (p ∷ ps) h = ground (arith, h.0, find_pack-HasTopics id ps h.1)

built_in-HasTopics : (id : Text) → HasTopics (find_pack id topic_packs)
built_in-HasTopics id = find_pack-HasTopics id topic_packs (omega arith)

clamped-IsWithinLimits :
    (req : Request) (d s r : Js) (old : Settings)
    → IsWithinLimits (Setup.clamped_settings req d s r old)
unfolding Setup.clamped_settings
clamped-IsWithinLimits req d s r old = record {
  duration_fits = clamp_bounds _ 10 300 (omega arith);
  silence_fits = clamp_bounds _ 1 10 (omega arith);
  rounds_fit = clamp_bounds _ 1 10 (omega arith);
}

length-keep_last :
    (games : List GameHistory) (g : GameHistory)
    → length games ≤ max_history
    → length (keep_last max_history (games ++ g ∷ [])) ≤ max_history
length-keep_last games g h = ground (
  arith,
  length-append games (g ∷ []),
  length-drop (length (games ++ g ∷ []) - max_history) (games ++ g ∷ []),
)

fresh_game-IsBounded :
    (now : ℕ) (phase : Phase) (room : Room) → IsBounded room → IsBounded (fresh_game now phase room)
unfolding fresh_game
fresh_game-IsBounded now phase room h = ground (
  arith,
  length-keep_last room.history (archived_game now room) h.history_fits,
  length-map Games.zero_score room.players,
)

module _ (req : Request) (room : Room) (h : IsBounded room) where
  add_player-IsBounded : (name : Js) → IsBounded (room_of (Seats.add_player req name room))
  unfolding Seats.add_player Seats.seat_player
  add_player-IsBounded name =
      ground (arith, length-append room.players (Seats.new_player (text name) room ∷ []))

  rename-IsBounded : (id name : Js) → IsBounded (room_of (Seats.rename_player req id name room))
  unfolding Seats.rename_player
  rename-IsBounded id name =
      ground (
        arith,
        length-update_player (text id) (Seats.renamed (clean_name (text name))) room.players,
      )

  move-IsBounded : (id o : Js) → IsBounded (room_of (Seats.move_player req id o room))
  unfolding Seats.move_player
  move-IsBounded id o = elim (Option-cases (player_index (text id) room.players)) [
    | inl e ↦ ground arith
    | inr (i, e) ↦
        ground (arith, length-moved room.players i (clamp_sym (integer req.builtins o (pos 0)) 1))
  ]

  unseat-IsBounded : (id : Text) → IsBounded (room_of (Seats.unseat id room))
  unfolding Seats.unseat
  unseat-IsBounded id = elim (Option-cases (player_index id room.players)) [
    | inl e ↦ ground arith
    | inr (i, e) ↦ ground (arith, length-remove_at i room.players)
  ]

  remove-IsBounded : (id : Js) → IsBounded (room_of (Seats.remove_player req id room))
  unfolding Seats.remove_player
  remove-IsBounded id = ground (arith, unseat-IsBounded (text id))

  leave-IsBounded : IsBounded (room_of (Seats.leave req room))
  unfolding Seats.leave
  leave-IsBounded = ground (arith, unseat-IsBounded (player_id_of req room))

  settings-IsBounded : (d s r p : Js) → IsBounded (room_of (Setup.settings req d s r p room))
  unfolding Setup.settings
  settings-IsBounded d s r p = ground (
    arith,
    clamp_bounds (integer req.builtins d (pos room.settings.duration)) 10 300 (omega arith),
    clamp_bounds (integer req.builtins s (pos room.settings.silence)) 1 10 (omega arith),
    clamp_bounds (integer req.builtins r (pos room.settings.rounds)) 1 10 (omega arith),
    built_in-HasTopics (text p),
  )

  kit-IsBounded : (d s r p t : Js) → IsBounded (room_of (Setup.apply_setup_kit req d s r p t room))
  unfolding Setup.apply_setup_kit
  kit-IsBounded d s r p t =
      ground (arith, clamped-IsWithinLimits req d s r room.settings, built_in-HasTopics (text p))

  custom-IsBounded : (t g : Js) → IsBounded (room_of (Setup.custom_topics req t g room))
  unfolding Setup.custom_topics
  custom-IsBounded t g = ground arith

  start_game-IsBounded : IsBounded (room_of (Games.start_game req room))
  unfolding Games.start_game
  start_game-IsBounded = ground (
    arith,
    repair_lem room,
    fresh_game-IsBounded req.now playing
        (record room { next_turn = num (int (pos (repaired_number room))) })
        (record {
          players_fit = h.players_fit;
          settings_fit = h.settings_fit;
          topics_left = h.topics_left;
          history_fits = h.history_fits;
        }),
  )

  reset-IsBounded : IsBounded (room_of (Games.reset req room))
  unfolding Games.reset
  reset-IsBounded = ground (
    arith,
    repair_lem room,
    fresh_game-IsBounded req.now setup
        (record room { next_turn = num (int (pos (repaired_number room))) })
        (record {
          players_fit = h.players_fit;
          settings_fit = h.settings_fit;
          topics_left = h.topics_left;
          history_fits = h.history_fits;
        }),
  )

  score-IsBounded : (id d : Js) → IsBounded (room_of (Games.correct_score req id d room))
  unfolding Games.correct_score
  score-IsBounded id d =
      ground (arith, length-update_player (text id) (Games.corrected req d) room.players)

  start_turn-IsBounded : (after : Js) → IsBounded (room_of (Turns.start_turn req after room))
  unfolding Turns.start_turn
  start_turn-IsBounded after = elim (Option-cases (get_elem? room.players room.current_player)) [
    | inl e ↦ ground arith
    | inr (p, e) ↦ ground (arith, open_turn_lem req p room h.topics_left)
  ]

  begin-IsBounded : (id : Js) → IsBounded (room_of (Turns.begin_turn req id room))
  unfolding Turns.begin_turn Turns.driven_turn
  begin-IsBounded id = ground arith

  redraw-IsBounded : (id : Js) → IsBounded (room_of (Turns.redraw_turn req id room))
  unfolding Turns.redraw_turn Turns.driven_turn
  redraw-IsBounded id = elim (Option-cases room.active_turn) [
    | inl e ↦ ground arith
    | inr (t, e) ↦ ground (arith, reopen_turn_lem req t room h.topics_left)
  ]

  file_turn-IsBounded : (scored : ScoredTurn) → IsBounded (room_of (file_turn scored room))
  unfolding file_turn advance
  file_turn-IsBounded scored =
      ground
        (arith, length-update_player scored.turn.player_id (add_score scored.score) room.players)

  submit-IsBounded : (id s c e : Js) → IsBounded (room_of (Turns.submit_turn req id s c e room))
  unfolding Turns.submit_turn Turns.driven_turn
  submit-IsBounded id s c e = grind (arith, file_turn-IsBounded)

  transfer-IsBounded : (id : Js) → IsBounded (room_of (Host.transfer_host req id room))
  unfolding Host.transfer_host
  transfer-IsBounded id = ground arith

  claim-IsBounded : IsBounded (room_of (Host.claim_host req room))
  unfolding Host.claim_host
  claim-IsBounded = ground arith

  perform-IsBounded :
      (action : Actions.Action) → IsBounded (room_of (Actions.perform req action room))
  unfolding Actions.perform
  perform-IsBounded (Actions.add_player name) = add_player-IsBounded name
  perform-IsBounded (Actions.rename_player id name) = rename-IsBounded id name
  perform-IsBounded (Actions.move_player id offset) = move-IsBounded id offset
  perform-IsBounded (Actions.remove_player id) = remove-IsBounded id
  perform-IsBounded Actions.leave = leave-IsBounded
  perform-IsBounded (Actions.settings d s r p) = settings-IsBounded d s r p
  perform-IsBounded (Actions.apply_setup_kit d s r p t) = kit-IsBounded d s r p t
  perform-IsBounded (Actions.custom_topics t g) = custom-IsBounded t g
  perform-IsBounded Actions.start_game = start_game-IsBounded
  perform-IsBounded (Actions.start_turn after) = start_turn-IsBounded after
  perform-IsBounded (Actions.begin_turn t) = begin-IsBounded t
  perform-IsBounded (Actions.redraw_turn t) = redraw-IsBounded t
  perform-IsBounded (Actions.submit_turn t s c e) = submit-IsBounded t s c e
  perform-IsBounded (Actions.score id delta) = score-IsBounded id delta
  perform-IsBounded Actions.reset = reset-IsBounded
  perform-IsBounded (Actions.transfer_host id) = transfer-IsBounded id
  perform-IsBounded Actions.claim_host = claim-IsBounded
  perform-IsBounded Actions.unknown = h

  -- Every action, accepted or rejected, keeps the limits of a room.
  pub apply_action-IsBounded :
      (action : Actions.Action) → IsBounded (room_of (Actions.apply_action req action room))
  unfolding Actions.apply_action Actions.refresh_host touch
  apply_action-IsBounded action = ground (arith, perform-IsBounded action)

  pub join_room-IsBounded : (name : Text) → IsBounded (room_of (Seats.join_room req name room))
  unfolding Seats.join_room Seats.seat_player touch
  join_room-IsBounded name =
      ground (arith, length-append room.players (Seats.new_player name room ∷ []))

  pub generation-IsBounded : IsBounded (room_of (Setup.begin_topic_generation req room))
  unfolding Setup.begin_topic_generation touch
  generation-IsBounded = ground arith
