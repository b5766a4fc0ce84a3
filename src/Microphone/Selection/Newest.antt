-- ===== src/Microphone/Selection/Newest.antt =====
-- Enumerations that overlap, in cloudflare/public/microphone-selection.js: only the one that began
-- last may set the devices.
use non_stop_talk.Prelude.{
  ℕ, ◌≡◌, ◌<◌, refl, ◌∙◌, Bool, true, false, List, [], ◌∷◌, ◌++◌, Option, none, some, arith, All,
}
use non_stop_talk.Text.{Text, same_text}
use non_stop_talk.Js.{Js, null, str}
use non_stop_talk.Microphone.{Candidate, normalize_devices, normalize_device_id}
use non_stop_talk.Microphone.Selection.{
  Selection, Storage, Event, reloads, selects, lists, listed, retried, other_page, handle, live,
  enumerate, enumerated, waits, reload, select, acquire_retried, Media, granted, refused,
  clear_unavailable, fall_back_memory, stored_instead, repaired, loaded,
}

-- An event by which no later enumeration begins, and none of generation `g` ends.
abbrev pub IsOlder : ℕ → Event → Type 0
IsOlder g (lists current supported unrequestable) = current ≡ false
IsOlder g (listed current generation found) = generation < g
IsOlder g _ = Unit

-- What the calls that list nothing leave alone.
abbrev SameList : Selection → Selection → Type 0
SameList sel sel' = (sel'.devices ≡ sel.devices) × (sel'.generation ≡ sel.generation)

repaired-SameList :
    (o : Option Text) (sel : Selection) (storage : Storage)
    → SameList sel (repaired o sel storage).0
repaired-SameList none sel storage = (refl, refl)
repaired-SameList (some id) sel storage = (refl, refl)

loaded-SameList :
    (v : Js) (sel : Selection) (storage : Storage) → SameList sel (loaded v sel storage).0
loaded-SameList null sel storage = (refl, refl)
loaded-SameList (str []) sel storage = (refl, refl)
loaded-SameList v sel storage = repaired-SameList (normalize_device_id false v) sel storage

reload-SameList : (sel : Selection) (storage : Storage) → SameList sel (reload sel storage).0
unfolding reload
reload-SameList sel storage = ground (arith, loaded-SameList storage.item sel storage)

memory-SameList :
    (held : Bool) (o : Option Text) (sel : Selection) → SameList sel (fall_back_memory held o sel)
memory-SameList false o sel = (refl, refl)
memory-SameList true none sel = (refl, refl)
memory-SameList true (some id) sel = (refl, refl)

clear-SameList :
    (requested : Text) (sel : Selection) (storage : Storage)
    → SameList sel (clear_unavailable requested sel storage).0
unfolding clear_unavailable
clear-SameList requested sel storage = ground (
  arith,
  memory-SameList (same_text sel.selected requested) none sel,
  memory-SameList (same_text sel.selected requested) (stored_instead storage.item) sel,
)

retried-SameList :
    (current : Bool) (requested : Text) (media : Media) (sel : Selection) (storage : Storage)
    → SameList sel (acquire_retried current requested media sel storage).1.0
unfolding acquire_retried
retried-SameList true requested granted sel storage = clear-SameList requested sel storage
retried-SameList false requested granted sel storage = (refl, refl)
retried-SameList true requested (refused e) sel storage = clear-SameList requested sel storage
retried-SameList false requested (refused e) sel storage = (refl, refl)

select-SameList :
    (v : Js) (sel : Selection) (storage : Storage)
    → SameList sel (handle (selects v) (sel, storage)).0
unfolding handle select
select-SameList v sel storage = ground arith

older_keeps :
    (g : ℕ) (e : Event) (s : Selection × Storage)
    → s.0.generation ≡ g
    → IsOlder g e
    → SameList s.0 (handle e s).0
unfolding handle enumerate enumerated
older_keeps g reloads (sel, storage) h k = reload-SameList sel storage
older_keeps g (selects v) (sel, storage) h k = select-SameList v sel storage
older_keeps g (lists c s u) (sel, storage) h k = ground (arith, k)
older_keeps g (listed c n found) (sel, storage) h k = ground (arith, k, h)
older_keeps g (retried c r m) (sel, storage) h k = retried-SameList c r m sel storage
older_keeps g (other_page v) (sel, storage) h k = (refl, refl)

live_keeps :
    (g : ℕ) (es : List Event) (s : Selection × Storage)
    → s.0.generation ≡ g
    → All (IsOlder g) es
    → SameList s.0 (live es s).0
unfolding live
live_keeps g [] s h k = (refl, refl)
live_keeps g (e ∷ es) s h k =
    let one = older_keeps g e s h k.0 in
    let rest = live_keeps g es (handle e s) (one.1 ∙ h) k.1 in (rest.0 ∙ one.0, rest.1 ∙ one.1)

live-append :
    (es fs : List Event) (s : Selection × Storage) → live (es ++ fs) s ≡ live fs (live es s)
unfolding live
live-append [] fs s = refl
live-append (e ∷ es) fs s = live-append es fs (handle e s)

begun_generation :
    (sel next : Selection) (g : ℕ)
    → enumerate true true false sel ≡ (waits g, next)
    → next.generation ≡ g
unfolding enumerate
begun_generation sel next g h = ground arith

listed_sets :
    (g : ℕ) (found : Option (List Candidate)) (s : Selection × Storage)
    → s.0.generation ≡ g
    → ((handle (listed true g found) s).0.devices ≡ normalize_devices found)
      × ((handle (listed true g found) s).0.generation ≡ g)
unfolding handle enumerated
listed_sets g found (sel, storage) h = ground (arith, h)

-- When an enumeration has begun and no later one does, its result is what is listed, whatever calls
-- come before and after it settles, and whatever enumerations that began earlier settle with.
pub newest_listing_wins :
    (sel next : Selection) (storage : Storage) (g : ℕ)
    → enumerate true true false sel ≡ (waits g, next)
    → (before after : List Event) (found : Option (List Candidate)) → All (IsOlder g) before
    → All (IsOlder g) after
    → (live (before ++ listed true g found ∷ after) (next, storage)).0.devices
      ≡ normalize_devices found
unfolding live
newest_listing_wins sel next storage g begun before after found h k =
    let start : next.generation ≡ g = begun_generation sel next g begun in
    let early = live_keeps g before (next, storage) start h in
    let now = listed_sets g found (live before (next, storage)) (early.1 ∙ start) in
    let late =
      live_keeps g after (handle (listed true g found) (live before (next, storage))) now.1 k in
    rw (live-append before (listed true g found ∷ after) (next, storage)) (late.0 ∙ now.0)
