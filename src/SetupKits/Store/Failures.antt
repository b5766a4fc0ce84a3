-- ===== src/SetupKits/Store/Failures.antt =====
-- Failed operations of createSetupKitStore, of cloudflare/public/setup-kits.js.
use non_stop_talk.Prelude.{◌≡◌, ◌≢◌, Bool, true, arith}
use non_stop_talk.Js.{Js, Builtins}
use non_stop_talk.SetupKits.{Code, Result, ok, fail}
use non_stop_talk.SetupKits.Store.{
  Json, Storage, save, remove, write_envelope, remove_stored_envelope,
}

module _ (json : Json) (js : Builtins) where
  -- A save that fails, at whatever step, leaves the storage as it was.
  pub failed_save_keeps_storage :
      (v : Js) (overwrite : Bool) (storage storage' : Storage json.Raw) (c : Code)
      → save json js v overwrite storage ≡ (fail c, storage')
      → storage' ≡ storage
  unfolding save write_envelope
  failed_save_keeps_storage v overwrite storage storage' c h = ground arith

  -- A removal that fails, or that finds no kit, leaves the storage as it was.
  pub failed_remove_keeps_storage :
      (name : Js) (storage storage' : Storage json.Raw) (r : Result Bool)
      → remove json js name storage ≡ (r, storage')
      → r ≢ ok true
      → storage' ≡ storage
  unfolding remove write_envelope remove_stored_envelope
  failed_remove_keeps_storage name storage storage' r h n = ground arith
