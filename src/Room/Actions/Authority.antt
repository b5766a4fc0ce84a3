-- ===== src/Room/Actions/Authority.antt =====
-- What somebody who is not the host can do to a room.
use non_stop_talk.Prelude.{
  ℕ, ◌+◌, ◌≤◌, ◌<◌, ◌≡◌, ◌⊎◌, refl, false, some, arith, inl, inr, Option-cases, length, get_elem?,
}
use non_stop_talk.Prelude.Int.{pos}
use non_stop_talk.Text.{Text, is_empty}
use non_stop_talk.Js.{Js, clamp, integer, text, truthy}
use non_stop_talk.Room.{
  Room, Request, Outcome, ok, thrown, is_host, player_id_of, done, touch, player_index, ScoredTurn,
}
use non_stop_talk.Room.Names.{clean_name}
use non_stop_talk.Room.Seats
use non_stop_talk.Room.Seats.{max_players, moved, seat_player}
use non_stop_talk.Room.Setup
use non_stop_talk.Room.Turns
use non_stop_talk.Room.Turns.{advance, file_turn, add_score, score_turn}
use non_stop_talk.Room.Turns.Opening.{open_turn_lem, reopen_turn_lem}
use non_stop_talk.Room.Games
use non_stop_talk.Room.Games.{
  max_history, keep_last, archived_game, archive_finished_game, fresh_game,
}
use non_stop_talk.Room.Host
use non_stop_talk.Room.Host.{host_claim_grace_ms}
use non_stop_talk.Room.Actions
use non_stop_talk.Room.Actions.Bounds.{length-update_player, length-remove_at}

-- The host was away for the grace period, and a seated player has taken over.
abbrev pub HasClaimed : Request → Room → Room → Type 0
HasClaimed req room room' =
    (since : ℕ) × (room.host_disconnected_at ≡ some since)
    × (since + host_claim_grace_ms ≤ req.now)
    × (is_empty (player_id_of req room) ≡ false)
    × (room'.host_token ≡ req.token)

pub record IsGuestStep (req : Request) (room room' : Room) : Type 0 where
  pub settings_kept : room'.settings ≡ room.settings
  pub topics_kept : room'.topics ≡ room.topics
  pub generation_kept : room'.topic_generation ≡ room.topic_generation
  pub history_kept : room'.history ≡ room.history
  pub none_added : length room'.players ≤ length room.players
  pub host_kept : (room'.host_token ≡ room.host_token) ⊎ HasClaimed req room room'

module _ (req : Request) (room r : Room) (guest : is_host req room ≡ false) where
  rename-guest :
      (id name : Js) → Seats.rename_player req id name room ≡ done r → IsGuestStep req room r
  unfolding Seats.rename_player
  rename-guest id name h =
      ground (
        arith,
        length-update_player (text id) (Seats.renamed (clean_name (text name))) room.players,
      )

  unseat-guest : (id : Text) → Seats.unseat id room ≡ done r → IsGuestStep req room r
  unfolding Seats.unseat
  unseat-guest id h = elim (Option-cases (player_index id room.players)) [
    | inl e ↦ ground arith
    | inr (i, e) ↦ ground (arith, length-remove_at i room.players)
  ]

  begin-guest : (id : Js) → Turns.begin_turn req id room ≡ done r → IsGuestStep req room r
  unfolding Turns.begin_turn Turns.driven_turn
  begin-guest id h = ground arith

  start_turn-guest :
      (after : Js)
      → 0 < length room.topics
      → Turns.start_turn req after room ≡ done r
      → IsGuestStep req room r
  unfolding Turns.start_turn
  start_turn-guest after k h = elim (Option-cases (get_elem? room.players room.current_player)) [
    | inl e ↦ ground arith
    | inr (p, e) ↦ ground (arith, open_turn_lem req p room k)
  ]

  redraw-guest :
      (id : Js)
      → 0 < length room.topics
      → Turns.redraw_turn req id room ≡ done r
      → IsGuestStep req room r
  unfolding Turns.redraw_turn Turns.driven_turn
  redraw-guest id k h = elim (Option-cases room.active_turn) [
    | inl e ↦ ground arith
    | inr (t, e) ↦ ground (arith, reopen_turn_lem req t room k)
  ]

  file_turn-guest : (scored : ScoredTurn) → file_turn scored room ≡ done r → IsGuestStep req room r
  unfolding file_turn advance
  file_turn-guest scored h =
      ground
        (arith, length-update_player scored.turn.player_id (add_score scored.score) room.players)

  submit-guest :
      (id s c e : Js) → Turns.submit_turn req id s c e room ≡ done r → IsGuestStep req room r
  unfolding Turns.submit_turn Turns.driven_turn
  submit-guest id s c e h = elim (Option-cases room.active_turn) [
    | inl n ↦ ground arith
    | inr (t, n) ↦ ground (
      arith,
      file_turn-guest (
          score_turn false req.now t (clamp (integer req.builtins s (pos 0)) 0 t.duration)
            (truthy c) (truthy e)),
    )
  ]

  claim-guest : Host.claim_host req room ≡ done r → IsGuestStep req room r
  unfolding Host.claim_host
  claim-guest h = elim (Option-cases room.host_disconnected_at) [
    | inl e ↦ ground arith
    | inr (since, e) ↦ record {
      settings_kept = ground arith;
      topics_kept = ground arith;
      generation_kept = ground arith;
      history_kept = ground arith;
      none_added = ground arith;
      host_kept = inr (since, e, ground arith, ground arith, ground arith);
    }
  ]

module _ (req : Request) (room : Room) (guest : is_host req room ≡ false) where
  leave-guest : (r : Room) → Seats.leave req room ≡ done r → IsGuestStep req room r
  unfolding Seats.leave
  leave-guest r h = go (Seats.unseat (player_id_of req room) room) refl
    where
      go : (o : Outcome) → Seats.unseat (player_id_of req room) room ≡ o → IsGuestStep req room r
      go (ok u q) e = ground (arith, unseat-guest req room q guest (player_id_of req room) e)
      go (thrown x q) e = ground arith

  perform-guest :
      (action : Actions.Action) (r : Room)
      → 0 < length room.topics
      → Actions.perform req action room ≡ done r
      → IsGuestStep req room r
  unfolding Actions.perform Seats.add_player Seats.move_player Seats.remove_player Setup.settings
      Setup.apply_setup_kit Setup.custom_topics Games.start_game Games.correct_score Games.reset
      Host.transfer_host
  perform-guest (Actions.rename_player id name) r k h = rename-guest req room r guest id name h
  perform-guest Actions.leave r k h = leave-guest r h
  perform-guest (Actions.start_turn after) r k h = start_turn-guest req room r guest after k h
  perform-guest (Actions.begin_turn t) r k h = begin-guest req room r guest t h
  perform-guest (Actions.redraw_turn t) r k h = redraw-guest req room r guest t k h
  perform-guest (Actions.submit_turn t s c e) r k h = submit-guest req room r guest t s c e h
  perform-guest Actions.claim_host r k h = claim-guest req room r guest h
  perform-guest (Actions.add_player name) r k h = absurd (ground arith)
  perform-guest (Actions.move_player id offset) r k h = absurd (ground arith)
  perform-guest (Actions.remove_player id) r k h = absurd (ground arith)
  perform-guest (Actions.settings d s q p) r k h = absurd (ground arith)
  perform-guest (Actions.apply_setup_kit d s q p t) r k h = absurd (ground arith)
  perform-guest (Actions.custom_topics t g) r k h = absurd (ground arith)
  perform-guest Actions.start_game r k h = absurd (ground arith)
  perform-guest (Actions.score id delta) r k h = absurd (ground arith)
  perform-guest Actions.reset r k h = absurd (ground arith)
  perform-guest (Actions.transfer_host id) r k h = absurd (ground arith)
  perform-guest Actions.unknown r k h = absurd (ground arith)

  -- In a room with topics, an accepted action of somebody who is not the host leaves the settings,
  -- the topics, the draft number and the history alone, and seats nobody. It changes the host only to the one who acts, a
  -- seated player, and only when the host has been away for the 30 seconds of grace.
  pub guest_step :
      (action : Actions.Action) (room' : Room)
      → 0 < length room.topics
      → Actions.apply_action req action room ≡ done room'
      → IsGuestStep req room room'
  unfolding Actions.apply_action Actions.refresh_host touch
  guest_step action room' k h = go (Actions.perform req action room) refl
    where
      go : (o : Outcome) → Actions.perform req action room ≡ o → IsGuestStep req room room'
      go (ok u r) e = ground (arith, perform-guest action r k e)
      go (thrown x r) e = ground arith
