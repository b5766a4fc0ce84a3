-- ===== src/SetupKits/Store/Removing.antt =====
-- What remove of createSetupKitStore, of cloudflare/public/setup-kits.js, does to the kits that get
-- finds.
use non_stop_talk.Prelude.{
  ℕ, ◌≡◌, ◌≢◌, ◌∙◌, refl, ap, true, List, [], ◌∷◌, Option, none, some, arith,
}
use non_stop_talk.Text.{Text}
use non_stop_talk.Js.{str, Builtins}
use non_stop_talk.Room.{remove_at}
use non_stop_talk.SetupKits.{Result, ok, fail, Kit}
use non_stop_talk.SetupKits.Store.{
  Json, Storage, envelope_value, read_envelope, write_envelope, remove_stored_envelope, get, remove,
  kit_index, exact_stored_name, store_rest,
}
use non_stop_talk.SetupKits.Store.Reading.{IsStorable, read_envelope-IsStorable}
use non_stop_talk.SetupKits.Store.Placing.{
  remove_at-IsStorable, find-remove_at, find-remove_at_other,
}
use non_stop_talk.SetupKits.Store.Saving.{written, get_lem, get_same}

module _ (json : Json) (js : Builtins) where
  -- A kit removed is found no more, and every other name finds what it found.
  pub record IsRemoved (name : Text) (storage storage' : Storage json.Raw) : Type 0 where
    pub gone : get json js (str name) storage' ≡ ok none
    pub others :
        (other : Text)
        → other ≢ name
        → get json js (str other) storage' ≡ get json js (str other) storage

  exact_is_name : (name exact : Text) → exact_stored_name (str name) ≡ ok exact → exact ≡ name
  unfolding exact_stored_name
  exact_is_name name exact h = ground arith

  removed_through :
      (name : Text) (storage storage' : Storage json.Raw)
      → remove json js (str name) storage ≡ (ok true, storage')
      → (kits : List Kit) × (i : ℕ) × (read_envelope json js storage ≡ ok kits)
        × (exact_stored_name (str name) ≡ ok name)
        × (kit_index name kits ≡ some i)
        × (store_rest json js storage (remove_at i kits) ≡ (ok true, storage'))
  unfolding remove
  removed_through name storage storage' h = exactly (exact_stored_name (str name)) refl
    where
      Through : Type 0
      Through =
          (kits : List Kit) × (i : ℕ) × (read_envelope json js storage ≡ ok kits)
          × (exact_stored_name (str name) ≡ ok name)
          × (kit_index name kits ≡ some i)
          × (store_rest json js storage (remove_at i kits) ≡ (ok true, storage'))

      index :
          (kits : List Kit) (o : Option ℕ)
          → exact_stored_name (str name) ≡ ok name
          → read_envelope json js storage ≡ ok kits
          → kit_index name kits ≡ o
          → Through
      index kits (some i) x e f = (kits, i, e, x, f, ground (arith, x, e, f))
      index kits none x e f = absurd (ground (arith, x, e, f))

      read :
          (o : Result (List Kit))
          → exact_stored_name (str name) ≡ ok name
          → read_envelope json js storage ≡ o
          → Through
      read (ok kits) x e = index kits (kit_index name kits) x e refl
      read (fail c) x e = absurd (ground (arith, x, e))

      exactly : (o : Result Text) → exact_stored_name (str name) ≡ o → Through
      exactly (ok exact) x =
          read (read_envelope json js storage) (x ∙ ap ok (exact_is_name name exact x)) refl
      exactly (fail c) x = absurd (ground (arith, x))

  emptied :
      (storage storage' : Storage json.Raw) (out : List Kit)
      → store_rest json js storage [] ≡ (ok true, storage')
      → read_envelope json js storage ≡ ok out
      → read_envelope json js storage' ≡ ok []
  unfolding remove_stored_envelope read_envelope
  emptied storage storage' out h reads = ground (arith, h, reads)

  rewritten :
      (storage storage' : Storage json.Raw) (k : Kit) (ks : List Kit)
      → store_rest json js storage (k ∷ ks) ≡ (ok true, storage')
      → write_envelope json js (k ∷ ks) storage ≡ (ok tt, storage')
  rewritten storage storage' k ks h = go (write_envelope json js (k ∷ ks) storage) refl
    where
      go :
          (w : Result (Unit {0}) × Storage json.Raw)
          → write_envelope json js (k ∷ ks) storage ≡ w
          → write_envelope json js (k ∷ ks) storage ≡ (ok tt, storage')
      go (ok u, r) e = ground (arith, e, h)
      go (fail c, r) e = absurd (ground (arith, e, h))

  module _
      (faithful : (kits : List Kit)
        → IsStorable js kits
        → json.parse (json.stringify (envelope_value kits)) ≡ some (envelope_value kits)) where
    stored_rest :
        (storage storage' : Storage json.Raw) (rest out : List Kit)
        → store_rest json js storage rest ≡ (ok true, storage')
        → IsStorable js rest
        → read_envelope json js storage ≡ ok out
        → read_envelope json js storage' ≡ ok rest
    stored_rest storage storage' [] out h storable reads = emptied storage storage' out h reads
    stored_rest storage storage' (k ∷ ks) out h storable reads =
        written json js (k ∷ ks) storage storage' (rewritten storage storage' k ks h)
          (faithful (k ∷ ks) storable) storable out reads

    -- If JSON.parse reads back what JSON.stringify writes of storable kits, then after a removal that
    -- returns true, get finds nothing under the name removed, and under every other name what it
    -- found before.
    pub remove-IsRemoved :
        (name : Text) (storage storage' : Storage json.Raw)
        → remove json js (str name) storage ≡ (ok true, storage')
        → IsRemoved name storage storage'
    remove-IsRemoved name storage storage' h =
        let (kits, i, reads, exact, at, write) = removed_through name storage storage' h in
        let storable : IsStorable js kits = read_envelope-IsStorable js json storage kits reads in
        let reads' : read_envelope json js storage' ≡ ok (remove_at i kits) =
          stored_rest storage storage' (remove_at i kits) kits write
            (remove_at-IsStorable js kits i storable) reads in
        record {
          gone =
              get_lem json js storage' (remove_at i kits) name reads' exact
              ∙ ap ok (find-remove_at kits i name at storable.1);
          others = λ other n.
              get_same json js storage storage' kits (remove_at i kits) other reads reads'
                (find-remove_at_other kits i name other at n);
        }
