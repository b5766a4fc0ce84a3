-- ===== src/Milestones/Contract.antt =====
-- The payload of a milestone, cloudflare/room-milestone-contract.ts: a JSON tuple of 17 fields.
-- JSON and the dates are parameters.
pub mod Canonical
pub mod Facts
use non_stop_talk.Prelude.{
  ℕ, ◌^◌, ◌*◌, ◌+◌, Bool, true, false, not, ◌&&◌, ◌||◌, List, [], ◌∷◌, Option, none, some, ltb, leb,
  ◌==◌, if◌then◌else◌, length,
}
use non_stop_talk.Text.{Text, same_text, utf8_length}
use non_stop_talk.Js.{max_safe_integer}
use non_stop_talk.Room.{contains_text}
use non_stop_talk.Room.Packs.{codes}
use non_stop_talk.Milestones.{
  Number, whole, negative, part, same_number, Value, null, text, number, other, Problem,
  invalid_input, payload_too_large, Checked, valid, invalid, ◌>>=◌, ◌>>◌, require, created, joined,
  game_started, turn_completed, game_finished, reset, deliverable_milestones,
  max_room_milestone_payload_bytes,
}

-- What JSON.parse gives.
pub data Parsed : Type 0 where
  malformed not_an_array : Parsed
  array : List Value → Parsed

-- What the language gives: JSON, and whether a text is the ISO form of a date, to milliseconds.
pub record Json : Type 0 where
  pub parse : Text → Parsed
  pub stringify : List Value → Text
  pub is_timestamp : Text → Bool

abbrev pub payload_domain : Text
payload_domain = codes "nonstoptalk-room-milestone:v1"

abbrev pub phases : List Text
phases = codes "setup" ∷ codes "playing" ∷ codes "finished" ∷ []

abbrev pub topic_pack_names : List Text
topic_pack_names =
    codes "everyday"
    ∷ codes "story"
    ∷ codes "absurd"
    ∷ codes "debate"
    ∷ codes "expert"
    ∷ codes "custom"
    ∷ []

abbrev pub analytics_metrics : List Text
analytics_metrics =
    codes "room_created"
    ∷ codes "room_joined"
    ∷ codes "game_started"
    ∷ codes "turn_completed"
    ∷ codes "game_finished"
    ∷ []

-- PublicRoomFactDraft, without the fields that are not sent. Its numbers may be any.
pub record Fact : Type 0 where
  pub milestone : Text
  pub observed_at : Text
  pub state_version : Number
  pub phase : Text
  pub player_count : Number
  pub online_player_count : Number
  pub configured_rounds : Number
  pub turn_duration_seconds : Number
  pub topic_pack : Text
  pub completed_turn_count : Number
  pub finished_game_count : Number
  pub total_score : Number
  pub last_turn_spoken_seconds : Number

-- NormalizedRoomMilestonePayloadV1
pub record Payload : Type 0 where
  pub room_instance_id : Text
  pub fact : Fact
  pub analytics_metric : Option Text
  pub analytics_value : Option Number

is_hex_digit : ℕ → Bool
is_hex_digit c = (leb 48 c && leb c 57) || (leb 97 c && leb c 102)

abbrev all_hex : Text → Bool
unfolding is_hex_digit
all_hex [] = true
all_hex (c ∷ s) = is_hex_digit c && all_hex s

-- LOWERCASE_HEX_256_PATTERN
unfoldable pub is_hex_256 : Text → Bool
unfolding is_hex_digit
is_hex_256 s = length s == 64 && all_hex s

unfoldable pub lowercase_hex_256 : Value → Checked Text
lowercase_hex_256 (text s) = if is_hex_256 s then valid s else invalid invalid_input
lowercase_hex_256 _ = invalid invalid_input

unfoldable pub enum_value : List Text → Value → Checked Text
enum_value allowed (text s) = if contains_text s allowed then valid s else invalid invalid_input
enum_value allowed _ = invalid invalid_input

unfoldable pub canonical_timestamp : Json → Value → Checked Text
canonical_timestamp json (text s) =
    if length s == 24 && json.is_timestamp s then valid s else invalid invalid_input
canonical_timestamp json _ = invalid invalid_input

-- finiteNumber, of an integer.
unfoldable pub integer_between : ℕ → ℕ → Value → Checked ℕ
integer_between lo hi (number (whole n)) =
    if leb n max_safe_integer && leb lo n && leb n hi then valid n else invalid invalid_input
integer_between lo hi _ = invalid invalid_input

-- Is a number at least 0 and at most a bound?
unfoldable pub at_most : ℕ → Number → Bool
at_most hi (whole n) = leb n hi
at_most hi (negative n) = false
at_most hi (part n k) = leb n (hi * 2 ^ (k + 1))

unfoldable pub number_up_to : ℕ → Value → Checked Number
number_up_to hi (number x) = if at_most hi x then valid x else invalid invalid_input
number_up_to hi _ = invalid invalid_input

abbrev pub or_null {ℓ} : {A : Type ℓ} → (Value → Checked A) → Value → Checked (Option A)
or_null check null = valid none
or_null check v = check v >>= λ a. valid (some a)

-- expectedAnalytics
unfoldable pub expected_analytics : Text → Number → Number → Checked (Option Text × Option Number)
expected_analytics milestone turns seconds =
    if same_text milestone created
    then valid (some (codes "room_created"), some (whole 0))
    else if same_text milestone joined
    then valid (some (codes "room_joined"), some (whole 0))
    else if same_text milestone game_started
    then valid (some (codes "game_started"), some (whole 0))
    else if same_text milestone turn_completed
    then valid (some (codes "turn_completed"), some seconds)
    else if same_text milestone game_finished
    then valid (some (codes "game_finished"), some turns)
    else if same_text milestone reset
    then valid (none, none)
    else invalid invalid_input

-- assertMilestoneInvariants: what each milestone says of the phase and the counts.
unfoldable pub milestone_invariants : Text → Text → ℕ → ℕ → ℕ → Number → Bool
milestone_invariants milestone phase turns games score seconds =
    let m = λ (s : Text). same_text milestone s in
    let in_phase = λ (s : Text). same_text phase s in
    let in_setup = in_phase (codes "setup") in
    (not (m created || m joined || m reset) || in_setup)
    && (not in_setup || (turns == 0 && same_number seconds (whole 0)))
    && (not (m created) || (games == 0 && score == 0))
    && (not (m reset) || score == 0)
    && (not (m game_started) || (in_phase (codes "playing") && turns == 0))
    && (not (m turn_completed) || (not in_setup && leb 1 turns))
    && (not (m game_finished) || (in_phase (codes "finished") && leb 1 turns && leb 1 games))

unfoldable pub same_metric : Option Text → Option Text → Bool
same_metric none none = true
same_metric (some s) (some t) = same_text s t
same_metric _ _ = false

unfoldable pub same_value : Option Number → Option Number → Bool
same_value none none = true
same_value (some m) (some n) = same_number m n
same_value _ _ = false

abbrev pub text_or_null : Option Text → Value
text_or_null none = null
text_or_null (some s) = text s

abbrev pub number_or_null : Option Number → Value
number_or_null none = null
number_or_null (some n) = number n

-- The tuple of a payload.
unfoldable pub tuple : Text → Fact → Option Text → Option Number → List Value
tuple id f metric value =
    text payload_domain
    ∷ text id
    ∷ text f.milestone
    ∷ text f.observed_at
    ∷ number f.state_version
    ∷ text f.phase
    ∷ number f.player_count
    ∷ number f.online_player_count
    ∷ number f.configured_rounds
    ∷ number f.turn_duration_seconds
    ∷ text f.topic_pack
    ∷ number f.completed_turn_count
    ∷ number f.finished_game_count
    ∷ number f.total_score
    ∷ number f.last_turn_spoken_seconds
    ∷ text_or_null metric
    ∷ number_or_null value
    ∷ []

module _ (json : Json) where
  -- The fields of a tuple, in the order of their checks.
  unfoldable pub decode_fields : List Value → Checked Payload
  decode_fields
        (domain ∷ id ∷ milestone ∷ at ∷ version ∷ phase ∷ players ∷ online ∷ rounds ∷ duration
          ∷ pack ∷ turns ∷ games ∷ score ∷ seconds ∷ metric ∷ value ∷ []) =
      do
        _ ← enum_value (payload_domain ∷ []) domain
        id' ← lowercase_hex_256 id
        milestone' ← enum_value deliverable_milestones milestone
        at' ← canonical_timestamp json at
        version' ← integer_between 1 max_safe_integer version
        phase' ← enum_value phases phase
        players' ← integer_between 0 12 players
        online' ← integer_between 0 players' online
        rounds' ← integer_between 1 10 rounds
        duration' ← integer_between 10 300 duration
        pack' ← enum_value topic_pack_names pack
        turns' ← integer_between 0 1200 turns
        games' ← integer_between 0 21 games
        score' ← integer_between 0 12000000 score
        seconds' ← number_up_to 300 seconds
        metric' ← or_null (enum_value analytics_metrics) metric
        value' ← or_null (number_up_to 1200) value
        require (milestone_invariants milestone' phase' turns' games' score' seconds')
        expected ← expected_analytics milestone' (whole turns') seconds'
        require (same_metric metric' expected.0 && same_value value' expected.1)
        valid (record {
          room_instance_id = id';
          fact = record {
            milestone = milestone';
            observed_at = at';
            state_version = whole version';
            phase = phase';
            player_count = whole players';
            online_player_count = whole online';
            configured_rounds = whole rounds';
            turn_duration_seconds = whole duration';
            topic_pack = pack';
            completed_turn_count = whole turns';
            finished_game_count = whole games';
            total_score = whole score';
            last_turn_spoken_seconds = seconds';
          };
          analytics_metric = metric';
          analytics_value = value';
        })
  decode_fields _ = invalid invalid_input

  abbrev pub decode_parsed : Text → Parsed → Checked Payload
  decode_parsed s malformed = invalid invalid_input
  decode_parsed s not_an_array = invalid invalid_input
  decode_parsed s (array vs) =
      if length vs == 17 && same_text (json.stringify vs) s
      then decode_fields vs
      else invalid invalid_input

  -- decodeRoomMilestonePayloadV1, of a text.
  unfoldable pub decode_payload : Text → Checked Payload
  decode_payload s =
      if ltb max_room_milestone_payload_bytes (utf8_length s)
      then invalid payload_too_large
      else decode_parsed s (json.parse s)

  -- encodeRoomMilestonePayloadV1
  unfoldable pub encode_payload : Text → Fact → Checked Text
  encode_payload id fact = do
    id' ← lowercase_hex_256 (text id)
    expected ←
        expected_analytics fact.milestone fact.completed_turn_count fact.last_turn_spoken_seconds
    let s = json.stringify (tuple id' fact expected.0 expected.1)
    _ ← decode_payload s
    valid s
