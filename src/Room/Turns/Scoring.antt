-- ===== src/Room/Turns/Scoring.antt =====
-- What a submitted turn is worth, and what a speaker who is not the host can claim.
use non_stop_talk.Prelude.{
  ℕ, ◌+◌, ◌-◌, ◌*◌, ◌≤◌, ◌≡◌, Bool, true, false, [], ◌∷◌, ◌++◌, Option, none, some, arith,
  if◌then◌else◌, Option-cases, inl, inr, refl,
}
use non_stop_talk.Prelude.Int.{ℤ, pos}
use non_stop_talk.Js.{Js, integer, clamp, truthy}
use non_stop_talk.Room.{
  Room, Turn, ScoredTurn, Request, Outcome, done, is_host, update_player, touch, ok, thrown,
}
use non_stop_talk.Room.Actions.{Action, apply_action, perform, refresh_host}
use non_stop_talk.Room.Turns.{
  score_turn, server_elapsed, completion_bonus, submit_turn, driven_turn, file_turn, advance,
  add_score,
}

-- The recorded seconds are in range, a completed turn ran for its whole duration and was not
-- eliminated, and the score is the seconds with the bonus of a completed turn.
pub record IsFair (scored : ScoredTurn) : Type 0 where
  pub in_range : scored.spoken_seconds ≤ scored.turn.duration
  pub complete :
      scored.completed ≡ true
      → (scored.spoken_seconds ≡ scored.turn.duration) × (scored.eliminated ≡ false)
  pub worth :
      scored.score ≡ scored.spoken_seconds + (if scored.completed then completion_bonus else 0)

score_turn-IsFair :
    (trusted : Bool) (now : ℕ) (t : Turn) (claimed : ℕ) (completed eliminated : Bool)
    → claimed ≤ t.duration
    → IsFair (score_turn trusted now t claimed completed eliminated)
unfolding score_turn
score_turn-IsFair trusted now t claimed completed eliminated h = record {
  in_range = ground arith;
  complete = ground arith;
  worth = refl;
}

-- What the server's clock allows: nothing for a turn that did not begin, else two seconds more than
-- have passed since it began.
abbrev pub Allowed : ℕ → Option ℕ → ℕ → Type 0
Allowed now none spoken = spoken ≡ 0
Allowed now (some at) spoken = 1000 * spoken ≤ (now - at) + 2000

remote_turn-Allowed :
    (now : ℕ) (t : Turn) (claimed : ℕ) (completed eliminated : Bool)
    → Allowed now t.begun_at (score_turn false now t claimed completed eliminated).spoken_seconds
unfolding score_turn
remote_turn-Allowed now t claimed completed eliminated = elim (Option-cases t.begun_at) [
  | inl e ↦ rw (e, Allowed, server_elapsed) (ground arith)
  | inr (at, e) ↦ rw (e, Allowed, server_elapsed) (ground arith)
]

clamp-le : (n : ℤ) (hi : ℕ) → clamp n 0 hi ≤ hi
unfolding clamp
clamp-le n hi = ground arith

-- What the room records of an accepted submission.
pub record IsRecorded (req : Request) (room room' : Room) : Type 0 where
  pub turn : Turn
  pub scored : ScoredTurn
  pub was_active : room.active_turn ≡ some turn
  pub of_turn : scored.turn ≡ turn
  pub filed : room'.completed_turns ≡ room.completed_turns ++ scored ∷ []
  pub paid : update_player turn.player_id (add_score scored.score) room.players ≡ some room'.players
  pub fair : IsFair scored
  pub remote : is_host req room ≡ false → Allowed req.now turn.begun_at scored.spoken_seconds

abbrev scored_claim : Request → Js → Js → Js → Room → Turn → ScoredTurn
scored_claim req s c e room t =
    score_turn (is_host req room) req.now t (clamp (integer req.builtins s (pos 0)) 0 t.duration)
      (truthy c) (truthy e)

file_turn-filed :
    (scored : ScoredTurn) (room room' : Room)
    → file_turn scored room ≡ done room'
    → (room'.completed_turns ≡ room.completed_turns ++ scored ∷ [])
      × (update_player scored.turn.player_id (add_score scored.score) room.players
          ≡ some room'.players)
unfolding file_turn advance
file_turn-filed scored room room' h = ground arith

turn-score_turn :
    (trusted : Bool) (now : ℕ) (t : Turn) (claimed : ℕ) (completed eliminated : Bool)
    → (score_turn trusted now t claimed completed eliminated).turn ≡ t
unfolding score_turn
turn-score_turn trusted now t claimed completed eliminated = refl

driven :
    (req : Request) (id s c e : Js) (room room' : Room) (t : Turn)
    → room.active_turn ≡ some t
    → submit_turn req id s c e room ≡ done room'
    → file_turn (scored_claim req s c e room t) room ≡ done room'
unfolding submit_turn driven_turn
driven req id s c e room room' t n h = ground arith

not_active :
    (req : Request) (id s c e : Js) (room room' : Room)
    → room.active_turn ≡ none
    → submit_turn req id s c e room ≡ done room'
    → ⊥
unfolding submit_turn driven_turn
not_active req id s c e room room' n h = ground arith

remote_claim :
    (req : Request) (s c e : Js) (room : Room) (t : Turn)
    → is_host req room ≡ false
    → Allowed req.now t.begun_at (scored_claim req s c e room t).spoken_seconds
remote_claim req s c e room t g = rw g (
    remote_turn-Allowed req.now t (clamp (integer req.builtins s (pos 0)) 0 t.duration) (truthy c)
      (truthy e))

submit-IsRecorded :
    (req : Request) (id s c e : Js) (room room' : Room)
    → submit_turn req id s c e room ≡ done room'
    → IsRecorded req room room'
submit-IsRecorded req id s c e room room' h = elim (Option-cases room.active_turn) [
  | inl n ↦ absurd (not_active req id s c e room room' n h)
  | inr (t, n) ↦
      let (filed, paid) =
        file_turn-filed (scored_claim req s c e room t) room room'
          (driven req id s c e room room' t n h) in
      record {
        turn = t;
        scored = scored_claim req s c e room t;
        was_active = n;
        of_turn = turn-score_turn _ _ t _ _ _;
        filed = filed;
        paid = unfold score_turn in paid;
        fair =
            score_turn-IsFair (is_host req room) req.now t _ (truthy c) (truthy e)
              (clamp-le (integer req.builtins s (pos 0)) t.duration);
        remote = remote_claim req s c e room t;
      }
]

-- An accepted submission files the active turn once, with a fair score that is added to its player,
-- and a speaker who is not the host cannot claim more seconds than the server's clock allows,
-- whatever the request says.
pub submission-IsRecorded :
    (req : Request) (id s c e : Js) (room room' : Room)
    → apply_action req (Action.submit_turn id s c e) room ≡ done room'
    → IsRecorded req room room'
unfolding apply_action perform refresh_host touch
submission-IsRecorded req id s c e room room' h = go (submit_turn req id s c e room) refl
  where
    go : (o : Outcome) → submit_turn req id s c e room ≡ o → IsRecorded req room room'
    go (ok u r) q =
        let found = submit-IsRecorded req id s c e room r q in
        record {
          turn = found.turn;
          scored = found.scored;
          was_active = found.was_active;
          of_turn = found.of_turn;
          filed = ground (arith, found.filed);
          paid = ground (arith, found.paid);
          fair = found.fair;
          remote = found.remote;
        }
    go (thrown x r) q = absurd (ground arith)
