-- ===== src/Microphone/Selection/Fallback.antt =====
-- The fallback to auto-detection of acquire, in cloudflare/public/microphone-selection.js: which
-- preferences it clears.
use non_stop_talk.Prelude.{
  ◌≡◌, ◌≢◌, refl, ap, true, false, not, ◌&&◌, Option, none, some, arith, inl, inr, Bool-cases,
}
use non_stop_talk.Text.{Text, is_empty, same_text}
use non_stop_talk.Text.Laws.{same_text_iff, same_text_refl}
use non_stop_talk.Js.{Js, str}
use non_stop_talk.Microphone.{normalize_device_id}
use non_stop_talk.Microphone.Selection.{
  Selection, Storage, clear_unavailable, Media, granted, refused, acquire_retried, fall_back_memory,
  stored_instead, is_text,
}

-- What the fallback may change for a request of an id that is not the empty one.
pub record IsFallback (requested : Text) (before after : Selection) (old new : Storage)
    : Type 0 where
  pub let_go : after.selected ≢ requested
  pub choice_kept : before.selected ≢ requested → after.selected ≡ before.selected
  pub entry_kept : old.item ≢ str requested → new.item ≡ old.item
  pub entry_gone :
      old.available ≡ true
      → old.get_throws ≡ false
      → old.remove_throws ≡ false
      → new.item ≢ str requested
  pub devices_kept : after.devices ≡ before.devices

stored_is : (v : Js) (id : Text) → normalize_device_id false v ≡ some id → v ≡ str id
unfolding normalize_device_id
stored_is (str s) id h = ground arith
stored_is _ id h = absurd (ground arith)

is_text_lem : (v : Js) (t : Text) → is_text v t ≡ true → v ≡ str t
is_text_lem (str s) t h = ground (arith, h, same_text_iff s t)
is_text_lem _ t h = absurd (ground arith)

is_text_refl : (t : Text) → is_text (str t) t ≡ true
is_text_refl t = same_text_refl t

memory_lem :
    (requested : Text) (stored : Option Text) (sel : Selection)
    → is_empty requested ≡ false
    → (stored ≢ some requested)
    → (let after = fall_back_memory (same_text sel.selected requested) stored sel in
        (after.selected ≢ requested)
        × (sel.selected ≢ requested → after.selected ≡ sel.selected)
        × (after.devices ≡ sel.devices))
memory_lem requested stored sel some_id other =
    ground (arith, some_id, other, same_text_iff sel.selected requested)

stored_other :
    (v : Js) (requested : Text) → is_text v requested ≡ false → stored_instead v ≢ some requested
stored_other v requested apart same =
    let there : v ≡ str requested = stored_is v requested (ground (arith, same)) in
    ground (arith, apart, ap (λ w. is_text w requested) there, is_text_refl requested)

clear-IsFallback :
    (requested : Text) (sel : Selection) (storage : Storage)
    → is_empty requested ≡ false
    → IsFallback requested sel
        (clear_unavailable requested sel storage).0
        storage
        (clear_unavailable requested sel storage).1
unfolding clear_unavailable
clear-IsFallback requested sel storage h =
    elim (Bool-cases (storage.available && not storage.get_throws)) [
      | inr shut ↦
          let memory = memory_lem requested none sel h (λ e. cc e) in
          rw shut (record {
            let_go = memory.0;
            choice_kept = memory.1;
            entry_kept = λ e. refl;
            entry_gone = λ a b c. absurd (ground (arith, shut, a, b));
            devices_kept = memory.2;
          })
      | inl open_now ↦ elim (Bool-cases (is_text storage.item requested)) [
        | inl same ↦
            let memory = memory_lem requested none sel h (λ e. cc e) in
            rw (open_now, same)
              (record {
                let_go = memory.0;
                choice_kept = memory.1;
                entry_kept = λ e. absurd (e (is_text_lem storage.item requested same));
                entry_gone = λ a b c. ground (arith, c);
                devices_kept = memory.2;
              })
        | inr other ↦
            let memory =
              memory_lem requested (stored_instead storage.item) sel h
                (stored_other storage.item requested other) in
            rw (open_now, other)
              (record {
                let_go = memory.0;
                choice_kept = memory.1;
                entry_kept = λ e. refl;
                entry_gone = λ a b c e.
                    ground (arith, other, ap (λ w. is_text w requested) e, is_text_refl requested);
                devices_kept = memory.2;
              })
      ]
    ]

-- A fallback that a caller still wants lets go of the id that failed, in memory and, where storage
-- works, in storage. A choice made in the meantime, here or in another page, is not touched.
pub acquire_retried-IsFallback :
    (requested : Text) (media : Media) (sel : Selection) (storage : Storage)
    → is_empty requested ≡ false
    → IsFallback requested sel
        (acquire_retried true requested media sel storage).1.0
        storage
        (acquire_retried true requested media sel storage).1.1
unfolding acquire_retried
acquire_retried-IsFallback requested granted sel storage h =
    clear-IsFallback requested sel storage h
acquire_retried-IsFallback requested (refused e) sel storage h =
    clear-IsFallback requested sel storage h
