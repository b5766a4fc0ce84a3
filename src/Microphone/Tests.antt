-- ===== src/Microphone/Tests.antt =====
-- A microphone that is unplugged, and the theorems on such events.
use non_stop_talk.Prelude.{◌≡◌, refl, true, false, List, [], ◌∷◌, Option, none, some, arith}
use non_stop_talk.Text.{Text}
use non_stop_talk.Js.{Js, null, undefined, bool, str}
use non_stop_talk.Room.Packs.{codes}
use non_stop_talk.Microphone.{
  Device, Candidate, unreadable, entry, normalize_devices, accepted, collect_devices,
  normalize_device_id, is_device_id, has_control_character, device_label, audio_constraints,
}
use non_stop_talk.Microphone.Devices.{IsDeviceList, normalize_devices-IsDeviceList}
use non_stop_talk.Microphone.Selection.{
  Selection, Storage, initial, reloads, selects, listed, other_page, live, reload, select,
  enumerate, acquire_retried, granted, clear_unavailable, persist, handle, enumerated,
}
use non_stop_talk.Microphone.Selection.Valid.{IsValid, every_selection-IsValid}
use non_stop_talk.Microphone.Selection.Fallback.{IsFallback, acquire_retried-IsFallback}
use non_stop_talk.Microphone.Selection.Newest.{newest_listing_wins}
use non_stop_talk.Microphone.Selection.Kept.{select_survives}

abbrev empty_storage : Storage
empty_storage = record {
  available = true;
  item = null;
  get_throws = false;
  set_throws = false;
  remove_throws = false;
}

abbrev usb : Js
usb = str (codes "usb")

abbrev desk : Device
desk = record { device_id = codes "usb"; label = codes "Desk" }

abbrev found : Option (List Candidate)
found = some (
    entry (str (codes "audioinput")) usb (str (codes " Desk "))
    ∷ unreadable
    ∷ entry (str (codes "audioinput")) usb undefined
    ∷ entry (str (codes "videoinput")) (str (codes "cam")) undefined
    ∷ [])

abbrev on_usb : Selection
on_usb = record { selected = codes "usb"; devices = []; generation = 0 }

abbrev with_usb : Storage
with_usb = record empty_storage { item = usb }

-- Opens what the browser computes with.
page : Unit {0}
unfolding normalize_devices collect_devices accepted normalize_device_id is_device_id
    has_control_character non_stop_talk.Text.same_text non_stop_talk.Text.utf16_length
    non_stop_talk.Text.utf8_length non_stop_talk.Text.js_trim select reload persist enumerate
    enumerated acquire_retried clear_unavailable live handle device_label
    non_stop_talk.Microphone.find_device non_stop_talk.Text.Decimal.decimal audio_constraints
page = tt

one_device : normalize_devices found ≡ desk ∷ []
unfolding page
one_device = refl

normalize_devices-IsDeviceList_example : IsDeviceList (desk ∷ [])
unfolding page
normalize_devices-IsDeviceList_example = normalize_devices-IsDeviceList found

every_selection-IsValid_example :
    IsValid
      (live (selects usb ∷ other_page (bool true) ∷ reloads ∷ []) (reload initial empty_storage)).0
every_selection-IsValid_example =
    every_selection-IsValid (selects usb ∷ other_page (bool true) ∷ reloads ∷ []) empty_storage

acquire_retried-IsFallback_example : IsFallback (codes "usb") on_usb initial with_usb empty_storage
unfolding page
acquire_retried-IsFallback_example =
    acquire_retried-IsFallback (codes "usb") granted on_usb with_usb refl

newest_listing_wins_example :
    (live
      (listed true 0 none ∷ selects usb ∷ listed true 1 found ∷ listed true 0 none ∷ [])
      (record initial { generation = 1 }, empty_storage)).0.devices
    ≡ normalize_devices found
unfolding page
newest_listing_wins_example =
    newest_listing_wins initial (record initial { generation = 1 }) empty_storage 1 refl
      (listed true 0 none ∷ selects usb ∷ []) (listed true 0 none ∷ []) found (omega arith)
      (omega arith)

finds_choice_again : (reload initial with_usb).0.selected ≡ codes "usb"
unfolding page
finds_choice_again = select_survives usb initial on_usb initial empty_storage with_usb refl refl
