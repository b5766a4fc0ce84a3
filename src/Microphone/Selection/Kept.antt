-- ===== src/Microphone/Selection/Kept.antt =====
-- A preference that was stored, loaded by a later page, in
-- cloudflare/public/microphone-selection.js.
use non_stop_talk.Prelude.{
  ◌≡◌, refl, true, false, ◌||◌, [], ◌∷◌, some, arith, inl, inr, Option-cases,
}
use non_stop_talk.Text.{Text, is_empty}
use non_stop_talk.Js.{Js, str}
use non_stop_talk.Microphone.{is_device_id, normalize_device_id}
use non_stop_talk.Microphone.Selection.{Selection, Storage, select, reload, persist, loaded}
use non_stop_talk.Microphone.Selection.Valid.{normalize_lem}

loaded_str :
    (id : Text) (sel : Selection) (storage : Storage)
    → (is_empty id || is_device_id id) ≡ true
    → (loaded (str id) sel storage).0.selected ≡ id
unfolding normalize_device_id
loaded_str [] sel storage h = refl
loaded_str (c ∷ s) sel storage h = ground (arith, h)

persisted :
    (id : Text) (storage storage' : Storage)
    → persist id storage ≡ (true, storage')
    → storage.get_throws ≡ false
    → (sel : Selection) → (is_empty id || is_device_id id) ≡ true
    → (reload sel storage').0.selected ≡ id
unfolding persist reload
persisted [] storage storage' h k sel good = ground (arith, h, k)
persisted (c ∷ s) storage storage' h k sel good =
    ground (arith, h, k, loaded_str (c ∷ s) sel storage' good)

-- If select says that a choice was stored, then a page that can read the storage loads that choice,
-- whatever its own was before.
pub select_survives :
    (v : Js) (sel sel' later : Selection) (storage storage' : Storage)
    → select v sel storage ≡ some (sel', true, storage')
    → storage.get_throws ≡ false
    → (reload later storage').0.selected ≡ sel'.selected
unfolding select
select_survives v sel sel' later storage storage' h k =
    elim (Option-cases (normalize_device_id true v)) [
      | inl e ↦ absurd (ground (arith, h, e))
      | inr (id, e) ↦
          let same : sel'.selected ≡ id = ground (arith, h, e) in
          rw same (
            persisted id storage storage' (ground (arith, h, e)) k later
              (normalize_lem true v id e))
    ]
