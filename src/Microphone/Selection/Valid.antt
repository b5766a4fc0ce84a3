-- ===== src/Microphone/Selection/Valid.antt =====
-- What holds of a microphone preference whatever happens to it, in
-- cloudflare/public/microphone-selection.js.
use non_stop_talk.Prelude.{
  ℕ, ◌≡◌, refl, Bool, true, false, ◌||◌, List, [], ◌∷◌, Option, none, some, arith, inl, inr,
  Option-cases,
}
use non_stop_talk.Text.{Text, is_empty, same_text}
use non_stop_talk.Js.{Js, str, null}
use non_stop_talk.Microphone.{Candidate, is_device_id, normalize_device_id}
use non_stop_talk.Microphone.Devices.{IsDeviceList, normalize_devices-IsDeviceList}
use non_stop_talk.Microphone.Selection.{
  Selection, Storage, initial, reload, select, clear_unavailable, Media, granted, refused,
  acquire_retried, enumerate, enumerated, Event, reloads, selects, lists, listed, retried,
  other_page, handle, live, persist, loaded, repaired, fall_back_memory, stored_instead,
}

-- The id in use is empty or a valid id, and the devices are such as normalizeMicrophoneDevices keeps.
pub record IsValid (sel : Selection) : Type 0 where
  pub choice : (is_empty sel.selected || is_device_id sel.selected) ≡ true
  pub listing : IsDeviceList sel.devices

pub normalize_lem :
    (allow : Bool) (v : Js) (id : Text)
    → normalize_device_id allow v ≡ some id
    → (is_empty id || is_device_id id) ≡ true
unfolding normalize_device_id
normalize_lem allow (str s) id h = ground arith
normalize_lem allow _ id h = absurd (ground arith)

repaired-IsValid :
    (v : Js) (o : Option Text) (sel : Selection) (storage : Storage)
    → normalize_device_id false v ≡ o
    → IsValid sel
    → IsValid (repaired o sel storage).0
repaired-IsValid v none sel storage e h = record { choice = refl; listing = h.listing }
repaired-IsValid v (some id) sel storage e h = record {
  choice = normalize_lem false v id e;
  listing = h.listing;
}

loaded-IsValid :
    (v : Js) (sel : Selection) (storage : Storage) → IsValid sel → IsValid (loaded v sel storage).0
loaded-IsValid null sel storage h = record { choice = refl; listing = h.listing }
loaded-IsValid (str []) sel storage h = record { choice = refl; listing = h.listing }
loaded-IsValid v sel storage h = repaired-IsValid v (normalize_device_id false v) sel storage refl h

reload-IsValid :
    (sel : Selection) (storage : Storage) → IsValid sel → IsValid (reload sel storage).0
unfolding reload
reload-IsValid sel storage h = ground (arith, h.choice, loaded-IsValid storage.item sel storage h)

select-IsValid :
    (v : Js) (sel : Selection) (storage : Storage)
    → IsValid sel
    → IsValid (handle (selects v) (sel, storage)).0
unfolding handle select persist
select-IsValid v sel storage h = elim (Option-cases (normalize_device_id true v)) [
  | inl e ↦ ground (arith, h.choice, h.listing, e)
  | inr (id, e) ↦ ground (arith, h.choice, h.listing, e, normalize_lem true v id e)
]

stored_lem :
    (v : Js) (id : Text) → stored_instead v ≡ some id → (is_empty id || is_device_id id) ≡ true
stored_lem v id h = normalize_lem false v id (ground (arith, h))

fall_back-IsValid :
    (held : Bool) (v : Js) (o : Option Text) (sel : Selection)
    → stored_instead v ≡ o
    → IsValid sel
    → IsValid (fall_back_memory held o sel)
fall_back-IsValid false v o sel e h = h
fall_back-IsValid true v none sel e h = record { choice = refl; listing = h.listing }
fall_back-IsValid true v (some id) sel e h = record {
  choice = stored_lem v id e;
  listing = h.listing;
}

clear-IsValid :
    (requested : Text) (sel : Selection) (storage : Storage)
    → IsValid sel
    → IsValid (clear_unavailable requested sel storage).0
unfolding clear_unavailable
clear-IsValid requested sel storage h = ground (
  arith,
  h.choice,
  fall_back-IsValid (same_text sel.selected requested) null none sel refl h,
  fall_back-IsValid (same_text sel.selected requested) storage.item (stored_instead storage.item)
      sel refl h,
)

retried-IsValid :
    (current : Bool) (requested : Text) (media : Media) (sel : Selection) (storage : Storage)
    → IsValid sel
    → IsValid (acquire_retried current requested media sel storage).1.0
unfolding acquire_retried
retried-IsValid true requested granted sel storage h = clear-IsValid requested sel storage h
retried-IsValid false requested granted sel storage h = h
retried-IsValid true requested (refused e) sel storage h = clear-IsValid requested sel storage h
retried-IsValid false requested (refused e) sel storage h = h

enumerate-IsValid :
    (current supported unrequestable : Bool) (sel : Selection)
    → IsValid sel
    → IsValid (enumerate current supported unrequestable sel).1
unfolding enumerate
enumerate-IsValid current supported unrequestable sel h = ground (arith, h.choice, h.listing)

enumerated-IsValid :
    (current : Bool) (generation : ℕ) (found : Option (List Candidate)) (sel : Selection)
    → IsValid sel
    → IsValid (enumerated current generation found sel).1
unfolding enumerated
enumerated-IsValid current generation found sel h =
    ground (arith, h.choice, h.listing, normalize_devices-IsDeviceList found)

handle-IsValid :
    (e : Event) (sel : Selection) (storage : Storage)
    → IsValid sel
    → IsValid (handle e (sel, storage)).0
unfolding handle
handle-IsValid reloads sel storage h = reload-IsValid sel storage h
handle-IsValid (selects v) sel storage h = select-IsValid v sel storage h
handle-IsValid (lists c s u) sel storage h = enumerate-IsValid c s u sel h
handle-IsValid (listed c g found) sel storage h = enumerated-IsValid c g found sel h
handle-IsValid (retried c r m) sel storage h = retried-IsValid c r m sel storage h
handle-IsValid (other_page v) sel storage h = h

live-IsValid : (es : List Event) (s : Selection × Storage) → IsValid s.0 → IsValid (live es s).0
unfolding live
live-IsValid [] s h = h
live-IsValid (e ∷ es) s h = live-IsValid es (handle e s) (handle-IsValid e s.0 s.1 h)

-- From a new preference on, whatever is called, in whatever order the awaits settle and whatever
-- other pages store: the id in use is empty or valid, and the devices are at most 64, of different,
-- valid ids and with labels of at most 120 code points.
pub every_selection-IsValid :
    (es : List Event) (storage : Storage) → IsValid (live es (reload initial storage)).0
every_selection-IsValid es storage =
    live-IsValid es (reload initial storage)
      (reload-IsValid initial storage (record { choice = refl; listing = (tt, tt, omega arith) }))
