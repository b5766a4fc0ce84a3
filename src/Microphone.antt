-- ===== src/Microphone.antt =====
-- The devices and constraints of cloudflare/public/microphone-selection.js. What the browser lists is
-- untrusted: a candidate's fields are values of any kind, and reading them may throw.
pub mod Devices
pub mod Selection
mod Tests
use non_stop_talk.Prelude.{
  ℕ, suc, ◌+◌, ◌*◌, Bool, true, false, not, ◌&&◌, ◌||◌, List, [], ◌∷◌, ◌++◌, Option, none, some,
  ltb, leb, ◌==◌, if◌then◌else◌, length, take,
}
use non_stop_talk.Text.{
  Text, same_text, is_empty, js_trim, code_point_length, utf16_length, utf8_length,
}
use non_stop_talk.Text.Decimal.{decimal}
use non_stop_talk.Js.{
  Js, undefined, null, bool, str, object, Fields, end, field, field_of, fields_of, truthy,
}
use non_stop_talk.Room.{contains_text}
use non_stop_talk.Room.Packs.{codes}

abbrev pub max_device_id_code_points : ℕ
max_device_id_code_points = 1024

abbrev pub max_device_id_bytes : ℕ
max_device_id_bytes = 2048

abbrev pub max_label_code_points : ℕ
max_label_code_points = 120

abbrev pub max_device_count : ℕ
max_device_count = 64

abbrev pub max_device_scan_count : ℕ
max_device_scan_count = max_device_count * 4

-- /[\u0000-\u001f\u007f]/
unfoldable pub has_control_character : Text → Bool
has_control_character [] = false
has_control_character (c ∷ s) = leb c 0x1f || c == 0x7f || has_control_character s

unfoldable pub is_device_id : Text → Bool
is_device_id s =
    not (is_empty s)
    && leb (utf16_length s) max_device_id_bytes
    && leb (utf8_length s) max_device_id_bytes
    && leb (code_point_length s) max_device_id_code_points
    && not (has_control_character s)

-- normalizeMicrophoneDeviceId, with its option allowAuto; `none` is its TypeError.
unfoldable pub normalize_device_id : Bool → Js → Option Text
normalize_device_id allow_auto (str s) =
    if (allow_auto && is_empty s) || is_device_id s then some s else none
normalize_device_id allow_auto _ = none

pub record Device : Type 0 where
  pub device_id : Text
  pub label : Text

-- What a browser lists: its kind, deviceId and label, or an object that throws when read.
pub data Candidate : Type 0 where
  unreadable : Candidate
  entry : Js → Js → Js → Candidate

unfoldable pub candidate_label : Js → Text
candidate_label (str s) = take max_label_code_points (js_trim (take (max_label_code_points + 1) s))
candidate_label _ = []

abbrev is_audio_input : Js → Bool
is_audio_input (str s) = same_text s (codes "audioinput")
is_audio_input _ = false

-- The body of the loop, up to the test of what was seen.
unfoldable pub accepted : Candidate → Option Device
unfolding candidate_label
accepted unreadable = none
accepted (entry kind device_id label) = elim (normalize_device_id false device_id) [
  | none ↦ none
  | some id ↦
      if is_audio_input kind
      then some (record { device_id = id; label = candidate_label label })
      else none
]

unfoldable pub collect_devices : ℕ → List Device → List Text → List Candidate → List Device
collect_devices inspected devices seen [] = devices
collect_devices inspected devices seen (c ∷ cs) =
    let skipped = collect_devices (inspected + 1) devices seen cs in
    if ltb max_device_scan_count (inspected + 1) || leb max_device_count (length devices)
    then devices
    else elim (accepted c) [
      | none ↦ skipped
      | some d ↦
          let pushed =
            collect_devices (inspected + 1) (devices ++ d ∷ []) (d.device_id ∷ seen) cs in
          if contains_text d.device_id seen then skipped else pushed
    ]

-- `none` is a value that is not iterable.
unfoldable pub normalize_devices : Option (List Candidate) → List Device
normalize_devices none = []
normalize_devices (some cs) = collect_devices 0 [] [] cs

-- The device with an id, and its place.
unfoldable pub find_device : Text → List Device → Option (ℕ × Device)
find_device id [] = none
find_device id (d ∷ ds) =
    let later = find_device id ds in
    if same_text d.device_id id
    then some (0, d)
    else elim later [ none ↦ none | some (i, e) ↦ some (suc i, e) ]

abbrev shown : Option (ℕ × Device) → Text
shown none = codes "Saved microphone"
shown (some (i, d)) =
    if not (is_empty d.label)
    then d.label
    else if same_text d.device_id (codes "default")
    then codes "System default"
    else if same_text d.device_id (codes "communications")
    then codes "Communications microphone"
    else codes "Microphone " ++ decimal (i + 1)

-- microphoneDeviceLabel, of a list of devices.
unfoldable pub device_label : List Device → Js → Option Text
unfolding find_device
device_label devices selected = elim (normalize_device_id true selected) [
  | none ↦ none
  | some id ↦ some (if is_empty id then codes "Auto-detect" else shown (find_device id devices))
]

-- { ...fields, [key]: value }
unfoldable pub set_field : Text → Js → Fields → Fields
set_field key v end = field key v end
set_field key v (field k w rest) =
    if same_text k key then field k v rest else field k w (set_field key v rest)

abbrev exact_device : Text → Js
exact_device id = object (field (codes "exact") (str id) end)

abbrev constrained : Text → Js → Option Js
constrained id (bool true) =
    some
      (if is_empty id then bool true else object (field (codes "deviceId") (exact_device id) end))
constrained id (object fields) = some (
    if is_empty id
    then object fields
    else object (set_field (codes "deviceId") (exact_device id) fields))
constrained id _ = none

-- audioConstraintsForMicrophone; `none` is a TypeError.
unfoldable pub audio_constraints : Js → Js → Option Js
unfolding set_field
audio_constraints selected base = elim (normalize_device_id true selected) [
  | none ↦ none
  | some id ↦ constrained id base
]

abbrev is_one_of : Js → List Text → Bool
is_one_of (str s) names = contains_text s names
is_one_of _ names = false

-- isSelectedMicrophoneUnavailableError
unfoldable pub is_unavailable_error : Js → Bool
is_unavailable_error error =
    let name = field_of (codes "name") (fields_of error) in
    let constraint = field_of (codes "constraint") (fields_of error) in
    is_one_of name (codes "NotFoundError" ∷ codes "DevicesNotFoundError" ∷ [])
    || (is_one_of name (codes "OverconstrainedError" ∷ codes "ConstraintNotSatisfiedError" ∷ [])
        && (not (truthy constraint) || is_one_of constraint (codes "deviceId" ∷ [])))
