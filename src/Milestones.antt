-- ===== src/Milestones.antt =====
-- The milestones that a room reports, cloudflare/room-milestone-*.ts: their names, limits, and the
-- values of a JSON tuple.
pub mod Contract
pub mod Outbox
pub mod Retries
pub mod Receiver
pub mod Delivery
mod Tests
use non_stop_talk.Prelude.{ℕ, Bool, true, false, ◌&&◌, List, [], ◌∷◌, ◌==◌, ◌*◌, leb, length}
use non_stop_talk.Text.{Text, same_text}
use non_stop_talk.Room.Packs.{codes}

-- A finite number: `part n k` is n / 2^(k+1), with n odd, and `negative` is below zero.
pub data Number : Type 0 where
  whole negative : ℕ → Number
  part : ℕ → ℕ → Number

unfoldable pub same_number : Number → Number → Bool
same_number (whole m) (whole n) = m == n
same_number (negative m) (negative n) = m == n
same_number (part m j) (part n k) = m == n && j == k
same_number _ _ = false

-- An element of a tuple. Values that no field takes are told apart by a number.
pub data Value : Type 0 where
  null : Value
  text : Text → Value
  number : Number → Value
  other : ℕ → Value

-- INVALID_INPUT and PAYLOAD_TOO_LARGE of PlatformError.
pub data Problem : Type 0 where
  invalid_input payload_too_large : Problem

pub data Checked {ℓ} (A : Type ℓ) : Type ℓ where
  valid : A → Checked A
  invalid : Problem → Checked A

infixl 5 ◌>>=◌ ◌>>◌
abbrev pub ◌>>=◌ {ℓ κ} : {A : Type ℓ} {B : Type κ} → Checked A → (A → Checked B) → Checked B
valid a >>= f = f a
invalid e >>= f = invalid e

abbrev pub ◌>>◌ {ℓ} : {B : Type ℓ} → Checked (Unit {0}) → Checked B → Checked B
m >> k = m >>= λ _. k

abbrev pub require : Bool → Checked (Unit {0})
require true = valid tt
require false = invalid invalid_input

abbrev pub created : Text
created = codes "created"

abbrev pub joined : Text
joined = codes "joined"

abbrev pub game_started : Text
game_started = codes "game-started"

abbrev pub turn_completed : Text
turn_completed = codes "turn-completed"

abbrev pub game_finished : Text
game_finished = codes "game-finished"

abbrev pub reset : Text
reset = codes "reset"

abbrev pub deliverable_milestones : List Text
deliverable_milestones =
    created ∷ joined ∷ game_started ∷ turn_completed ∷ game_finished ∷ reset ∷ []

abbrev pub max_room_milestone_payload_bytes : ℕ
max_room_milestone_payload_bytes = 1024
