-- ===== src/Microphone/Selection.antt =====
-- createMicrophoneSelection of cloudflare/public/microphone-selection.js: the preference, the device
-- list, and enumerate and acquire cut at their awaits, so that other calls may come between. What
-- the caller's isCurrent answers and what the browser's promises settle with are arguments.
pub mod Valid
pub mod Fallback
pub mod Newest
pub mod Kept
use non_stop_talk.Prelude.{
  ℕ, ◌+◌, Bool, true, false, not, ◌&&◌, ◌||◌, List, [], ◌∷◌, Option, none, some, ◌==◌,
  if◌then◌else◌,
}
use non_stop_talk.Text.{Text, same_text, is_empty}
use non_stop_talk.Js.{Js, null, str}
use non_stop_talk.Microphone.{
  Device, Candidate, normalize_device_id, normalize_devices, audio_constraints,
  is_unavailable_error,
}

-- The text is the device id in use; the empty one stands for auto-detection.
pub record Selection : Type 0 where
  pub selected : Text
  pub devices : List Device
  pub generation : ℕ

-- The browser's storage: the entry under the key (`null` if there is none), and what will throw.
pub record Storage : Type 0 where
  pub available : Bool
  pub item : Js
  pub get_throws : Bool
  pub set_throws : Bool
  pub remove_throws : Bool

abbrev pub initial : Selection
initial = record { selected = []; devices = []; generation = 0 }

abbrev pub removed : Storage → Storage
removed storage = if storage.remove_throws then storage else record storage { item = null }

abbrev written : Text → Storage → Bool × Storage
written id storage =
    if is_empty id
    then (not storage.remove_throws, removed storage)
    else if storage.set_throws
    then (false, storage)
    else (true, record storage { item = str id })

-- Whether the id was stored, and the storage after.
unfoldable pub persist : Text → Storage → Bool × Storage
persist id storage = if storage.available then written id storage else (false, storage)

abbrev pub repaired : Option Text → Selection → Storage → Selection × Storage
repaired (some id) sel storage = (record sel { selected = id }, storage)
repaired none sel storage = (record sel { selected = [] }, removed storage)

abbrev pub loaded : Js → Selection → Storage → Selection × Storage
loaded null sel storage = (record sel { selected = [] }, storage)
loaded (str []) sel storage = (record sel { selected = [] }, storage)
loaded stored sel storage = repaired (normalize_device_id false stored) sel storage

unfoldable pub reload : Selection → Storage → Selection × Storage
reload sel storage =
    if storage.available && not storage.get_throws
    then loaded storage.item sel storage
    else (record sel { selected = [] }, storage)

abbrev pub kept : Selection → Text → Bool × Storage → Selection × Bool × Storage
kept sel id (done, storage) = (record sel { selected = id }, done, storage)

-- `none` is a TypeError; else the selection, `persisted` and the storage.
unfoldable pub select : Js → Selection → Storage → Option (Selection × Bool × Storage)
select value sel storage = elim (normalize_device_id true value) [
  | none ↦ none
  | some id ↦ some (kept sel id (persist id storage))
]

abbrev pub is_text : Js → Text → Bool
is_text (str s) t = same_text s t
is_text _ t = false

abbrev is_absent : Js → Bool
is_absent null = true
is_absent (str []) = true
is_absent _ = false

-- The id that another page stored in the meantime, if it is valid.
abbrev pub stored_instead : Js → Option Text
stored_instead stored = if is_absent stored then none else normalize_device_id false stored

abbrev pub fall_back_memory : Bool → Option Text → Selection → Selection
fall_back_memory false stored sel = sel
fall_back_memory true none sel = record sel { selected = [] }
fall_back_memory true (some id) sel = record sel { selected = id }

-- clearUnavailablePreference
unfoldable pub clear_unavailable : Text → Selection → Storage → Selection × Storage
clear_unavailable requested sel storage =
    let held = same_text sel.selected requested in
    if storage.available && not storage.get_throws
    then (if is_text storage.item requested
        then (fall_back_memory held none sel, removed storage)
        else (fall_back_memory held (stored_instead storage.item) sel, storage))
    else (fall_back_memory held none sel, storage)

-- What getUserMedia settles with.
pub data Media : Type 0 where
  granted : Media
  refused : Js → Media

-- How a call ends. A cancelled one may have stopped a stream that it was granted.
pub data Outcome : Type 0 where
  acquired : Text → Text → Bool → Outcome
  rejected : Js → Outcome
  cancelled : Bool → Outcome
  unsupported misused : Outcome

-- Before an await: the call has ended, or it waits for a device.
pub data Next : Type 0 where
  finished : Outcome → Next
  requests : Text → Next
  retries : Text → Next

-- acquire, up to its first await.
unfoldable pub acquire : Bool → Bool → Js → Selection → Next
acquire current supported base sel =
    if not current
    then finished (cancelled false)
    else if not supported
    then finished unsupported
    else elim (audio_constraints (str sel.selected) base) [
      | none ↦ finished misused
      | some constraints ↦ requests sel.selected
    ]

-- From the first await to the second.
unfoldable pub acquire_settled : Bool → Text → Media → Next
acquire_settled current requested granted =
    if current then finished (acquired requested requested false) else finished (cancelled true)
acquire_settled current requested (refused error) =
    if is_empty requested || not (is_unavailable_error error)
    then finished (rejected error)
    else if current
    then retries requested
    else finished (cancelled false)

-- After the second await.
unfoldable pub acquire_retried :
    Bool → Text → Media → Selection → Storage → Outcome × (Selection × Storage)
acquire_retried current requested granted sel storage =
    if current
    then (acquired requested [] true, clear_unavailable requested sel storage)
    else (cancelled true, (sel, storage))
acquire_retried current requested (refused error) sel storage =
    if current
    then (rejected error, clear_unavailable requested sel storage)
    else (cancelled false, (sel, storage))

-- How enumerate begins: it has ended, or it waits, with its generation.
pub data Listing : Type 0 where
  aborted no_devices no_permission_request : Listing
  waits : ℕ → Listing

-- enumerate, up to its first await: `current`, whether there is enumerateDevices, and whether a
-- permission is to be requested with no getUserMedia to do so.
unfoldable pub enumerate : Bool → Bool → Bool → Selection → Listing × Selection
enumerate current supported unrequestable sel =
    let next = record sel { generation = sel.generation + 1 } in
    if not current
    then (aborted, sel)
    else if not supported
    then (no_devices, record next { devices = [] })
    else if unrequestable
    then (no_permission_request, next)
    else (waits (sel.generation + 1), next)

-- The end of enumerate, with what enumerateDevices settled with. The list that it returns, `none`
-- if it was cancelled.
unfoldable pub enumerated :
    Bool → ℕ → Option (List Candidate) → Selection → Option (List Device) × Selection
enumerated current generation listed sel =
    let next = normalize_devices listed in
    if not current
    then (none, sel)
    else if generation == sel.generation
    then (some next, record sel { devices = next })
    else (some sel.devices, sel)

-- A call or a settled await. Another page may write the entry at any time.
pub data Event : Type 0 where
  reloads : Event
  selects : Js → Event
  lists : Bool → Bool → Bool → Event
  listed : Bool → ℕ → Option (List Candidate) → Event
  retried : Bool → Text → Media → Event
  other_page : Js → Event

abbrev selection_after :
    Selection × Storage → Option (Selection × Bool × Storage) → Selection × Storage
selection_after before none = before
selection_after before (some (sel, done, storage)) = (sel, storage)

unfoldable pub handle : Event → Selection × Storage → Selection × Storage
handle reloads (sel, storage) = reload sel storage
handle (selects value) (sel, storage) = selection_after (sel, storage) (select value sel storage)
handle (lists current supported unrequestable) (sel, storage) =
    ((enumerate current supported unrequestable sel).1, storage)
handle (listed current generation found) (sel, storage) =
    ((enumerated current generation found sel).1, storage)
handle (retried current requested media) (sel, storage) =
    (acquire_retried current requested media sel storage).1
handle (other_page value) (sel, storage) = (sel, record storage { item = value })

unfoldable pub live : List Event → Selection × Storage → Selection × Storage
unfolding handle
live [] s = s
live (e ∷ es) s = live es (handle e s)
