-- ===== src/Room.antt =====
-- The state of a room, its errors and small lookups: cloudflare/game.ts.
pub mod Names
pub mod Packs
pub mod Deck
pub mod TurnIds
pub mod Seats
pub mod Setup
pub mod Turns
pub mod Games
pub mod Host
pub mod Actions
pub mod Life
pub mod View
pub mod Tests
use non_stop_talk.Prelude.{
  ℕ, zero, suc, ◌+◌, Bool, true, false, List, [], ◌∷◌, ◌++◌, Option, none, some, ltb, leb, ◌==◌,
  if◌then◌else◌, length, set, get_elem?, ◌<◌,
}
use non_stop_talk.Text.{Text, same_text, is_empty}
use non_stop_talk.Js.{Js, Builtins}

pub record Player : Type 0 where
  pub id : Text
  pub name : Text
  pub score : ℕ

pub record Settings : Type 0 where
  pub duration : ℕ
  pub silence : ℕ
  pub rounds : ℕ
  pub topic_pack : Text

pub record Turn : Type 0 where
  pub id : Text
  pub player_id : Text
  pub player_name : Text
  pub round : ℕ
  pub topic : Text
  pub topic_index : ℕ
  pub duration : ℕ
  pub silence : ℕ
  pub begun_at : Option ℕ

-- A submitted turn has the four fields that are optional in the source.
pub record ScoredTurn : Type 0 where
  pub turn : Turn
  pub spoken_seconds : ℕ
  pub completed : Bool
  pub eliminated : Bool
  pub score : ℕ

pub record GameHistory : Type 0 where
  pub finished_at : ℕ
  pub standings : List Player
  pub turns : ℕ

pub data Phase : Type 0 where
  setup playing finished : Phase

-- `members` maps a token to a player id. The two persisted counters may hold anything in a room
-- that an older version stored.
pub record Room : Type 0 where
  pub code : Text
  pub version : ℕ
  pub host_token : Text
  pub host_disconnected_at : Option ℕ
  pub created_at : ℕ
  pub updated_at : ℕ
  pub topic_generation : Js
  pub next_player : ℕ
  pub next_turn : Js
  pub players : List Player
  pub members : List (Text × Text)
  pub settings : Settings
  pub topics : List Text
  pub deck : List ℕ
  pub deck_cursor : ℕ
  pub last_topic_index : Option ℕ
  pub current_player : ℕ
  pub current_round : ℕ
  pub phase : Phase
  pub active_turn : Option Turn
  pub completed_turns : List ScoredTurn
  pub history : List GameHistory

-- One constructor for each message of a GameError, and the TypeError of the language, which the
-- server answers as an internal error.
pub data GameError : Type 0 where
  already_started room_full only_host_generates only_host only_before_game not_in_progress :
      GameError
  rename_self_only name_missing player_not_found not_seated : GameError
  topics_missing pack_invalid draft_stale players_missing topics_missing_at_start : GameError
  next_turn_stale player_unavailable only_next_speaker turn_not_active only_current_speaker :
      GameError
  redraw_too_late turn_ids_exhausted reset_while_playing target_not_remote target_offline :
      GameError
  claim_without_seat host_still_here unknown_action : GameError
  type_error : GameError

pub status : GameError → ℕ
status only_host_generates = 403
status only_host = 403
status rename_self_only = 403
status only_next_speaker = 403
status only_current_speaker = 403
status claim_without_seat = 403
status player_not_found = 404
status unknown_action = 404
status type_error = 500
status name_missing = 400
status topics_missing = 400
status pack_invalid = 400
status _ = 409

-- A thrown error leaves the room as it was mutated up to there.
pub data Result {ℓ} (A : Type ℓ) : Type ℓ where
  ok : A → Room → Result A
  thrown : GameError → Room → Result A

abbrev pub Outcome : Type 0
Outcome = Result (Unit {0})

abbrev pub room_of {ℓ} : {A : Type ℓ} → Result A → Room
room_of (ok a room) = room
room_of (thrown e room) = room

infixl 5 ◌>>=◌
abbrev pub ◌>>=◌ {ℓ κ} : {A : Type ℓ} {B : Type κ} → Result A → (A → Room → Result B) → Result B
ok a room >>= f = f a room
thrown e room >>= f = thrown e room

-- `if (!passed) throw e;` before the rest.
abbrev pub require {ℓ} : {A : Type ℓ} → Bool → GameError → Room → Result A → Result A
require passed e room rest = if passed then rest else thrown e room

abbrev pub done : Room → Outcome
done room = ok tt room

abbrev pub is_setup : Phase → Bool
is_setup setup = true
is_setup _ = false

abbrev pub is_playing : Phase → Bool
is_playing playing = true
is_playing _ = false

abbrev pub is_finished : Phase → Bool
is_finished finished = true
is_finished _ = false

abbrev pub is_none {ℓ} : {A : Type ℓ} → Option A → Bool
is_none none = true
is_none (some a) = false

-- room.members[token]
unfoldable pub member_id : Text → List (Text × Text) → Option Text
member_id token [] = none
member_id token ((t, id) ∷ rest) = if same_text t token then some id else member_id token rest

-- room.members[token] = id
unfoldable pub set_member : Text → Text → List (Text × Text) → List (Text × Text)
set_member token id [] = (token, id) ∷ []
set_member token id ((t, old) ∷ rest) =
    if same_text t token then (t, id) ∷ rest else (t, old) ∷ set_member token id rest

-- delete room.members[token]
unfoldable pub delete_member : Text → List (Text × Text) → List (Text × Text)
delete_member token [] = []
delete_member token ((t, id) ∷ rest) =
    let kept = delete_member token rest in if same_text t token then kept else (t, id) ∷ kept

-- The loop of removePlayer over the members.
unfoldable pub delete_seats : Text → List (Text × Text) → List (Text × Text)
delete_seats id [] = []
delete_seats id ((t, seat) ∷ rest) =
    let kept = delete_seats id rest in if same_text seat id then kept else (t, seat) ∷ kept

-- The first token of a seat, in the order of the entries.
unfoldable pub token_of : Text → List (Text × Text) → Option Text
token_of id [] = none
token_of id ((t, seat) ∷ rest) = if same_text seat id then some t else token_of id rest

-- players.findIndex
unfoldable pub player_index : Text → List Player → Option ℕ
player_index id [] = none
player_index id (p ∷ ps) =
    let later = player_index id ps in
    if same_text p.id id then some 0 else elim later [ none ↦ none | some i ↦ some (suc i) ]

-- findPlayer, by which the caller mutates the player that it finds.
unfoldable pub update_player : Text → (Player → Player) → List Player → Option (List Player)
update_player id f [] = none
update_player id f (p ∷ ps) =
    let later = update_player id f ps in
    if same_text p.id id
    then some (f p ∷ ps)
    else elim later [ none ↦ none | some qs ↦ some (p ∷ qs) ]

-- players.splice(index, 1)
unfoldable pub remove_at {ℓ} : {A : Type ℓ} → ℕ → List A → List A
remove_at i [] = []
remove_at zero (x ∷ xs) = xs
remove_at (suc i) (x ∷ xs) = x ∷ remove_at i xs

unfoldable pub last? {ℓ} : {A : Type ℓ} → List A → Option A
last? [] = none
last? (x ∷ []) = some x
last? (x ∷ y ∷ xs) = last? (y ∷ xs)

abbrev pub contains_text : Text → List Text → Bool
contains_text s [] = false
contains_text s (t ∷ ts) = if same_text t s then true else contains_text s ts

-- players.find by id
unfoldable pub find_player : Text → List Player → Option Player
find_player id [] = none
find_player id (p ∷ ps) = if same_text p.id id then some p else find_player id ps

abbrev pub swapped {ℓ} : {A : Type ℓ} → List A → ℕ → ℕ → Option A → Option A → List A
swapped xs i j (some x) (some y) = set (set xs i y) j x
swapped xs i j _ _ = xs

-- [xs[i], xs[j]] = [xs[j], xs[i]] at indices in range.
unfoldable pub swap {ℓ} : {A : Type ℓ} → List A → ℕ → ℕ → List A
swap xs i j = swapped xs i j (get_elem? xs i) (get_elem? xs j)

-- What one call of the server works with. `pick label bound` is
-- Math.floor(Math.random() * bound), where each call of Math.random has a label of its own.
pub record Random : Type 0 where
  pub pick : ℕ → ℕ → ℕ
  pub pick_lt : (label bound : ℕ) → 0 < bound → pick label bound < bound

pub record Request : Type 0 where
  pub token : Text
  pub now : ℕ
  pub online : List Text
  pub random : Random
  pub builtins : Builtins

abbrev pub text_or_empty : Option Text → Text
text_or_empty none = []
text_or_empty (some s) = s

unfoldable pub is_host : Request → Room → Bool
is_host req room = same_text room.host_token req.token

-- room.members[token] ?? ""
unfoldable pub player_id_of : Request → Room → Text
player_id_of req room = text_or_empty (member_id req.token room.members)

unfoldable pub touch : ℕ → Room → Room
touch now room = record room { version = room.version + 1; updated_at = now }
