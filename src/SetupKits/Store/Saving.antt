-- ===== src/SetupKits/Store/Saving.antt =====
-- What save of createSetupKitStore, of cloudflare/public/setup-kits.js, does to the kits that get
-- finds.
use non_stop_talk.Prelude.{◌≡◌, ◌≢◌, ◌∙◌, refl, ap, sym, Bool, List, some, arith}
use non_stop_talk.Text.{Text, to_well_formed, trim_game_space}
use non_stop_talk.Text.Laws.{
  same_text_refl, trim-All, to_well_formed-IsWellFormed, to_well_formed_of_IsWellFormed,
}
use non_stop_talk.Js.{Js, str, Builtins}
use non_stop_talk.SetupKits.{Result, ok, fail, Kit}
use non_stop_talk.SetupKits.Kits.{normalize_setup_kit, normalize_name}
use non_stop_talk.SetupKits.Kits.Canonical.{normalize_setup_kit_idem, name_of_normal}
use non_stop_talk.SetupKits.Store.{
  Json, Storage, envelope_value, read_envelope, write_envelope, save, get, placed, find_kit,
  exact_stored_name,
}
use non_stop_talk.SetupKits.Store.Reading.{
  IsStorable, IsNormal, check_envelope-value, read_envelope-IsStorable,
}
use non_stop_talk.SetupKits.Store.Placing.{IsPlaced, placed-IsPlaced}

-- A name in normal form is one that get and remove take.
exact_of_normal :
    (name : Text) → normalize_name (str name) ≡ ok name → exact_stored_name (str name) ≡ ok name
unfolding normalize_name exact_stored_name
exact_of_normal name h =
    let same : name ≡ trim_game_space (to_well_formed name) = ground arith in
    let formed : to_well_formed name ≡ name =
      to_well_formed_of_IsWellFormed name
        (rw same (trim-All _ _ (to_well_formed-IsWellFormed name))) in
    let trimmed : trim_game_space name ≡ name = ap trim_game_space (sym formed) ∙ sym same in
    ground (arith, h, formed, trimmed, same_text_refl name)

module _ (json : Json) (js : Builtins) where
  saved_through :
      (v : Js) (overwrite : Bool) (storage storage' : Storage json.Raw) (kit : Kit)
      → save json js v overwrite storage ≡ (ok kit, storage')
      → (kits : List Kit) × (kits' : List Kit) × (read_envelope json js storage ≡ ok kits)
        × (normalize_setup_kit js v ≡ ok kit)
        × (placed kit overwrite kits ≡ ok kits')
        × (write_envelope json js kits' storage ≡ (ok tt, storage'))
  unfolding save
  saved_through v overwrite storage storage' kit h = read (read_envelope json js storage) refl
    where
      Through : Type 0
      Through =
          (kits : List Kit) × (kits' : List Kit) × (read_envelope json js storage ≡ ok kits)
          × (normalize_setup_kit js v ≡ ok kit)
          × (placed kit overwrite kits ≡ ok kits')
          × (write_envelope json js kits' storage ≡ (ok tt, storage'))

      write :
          (kits : List Kit) (k : Kit) (kits' : List Kit) (w : Result (Unit {0}) × Storage json.Raw)
          → read_envelope json js storage ≡ ok kits
          → normalize_setup_kit js v ≡ ok k
          → placed k overwrite kits ≡ ok kits'
          → write_envelope json js kits' storage ≡ w
          → Through
      write kits k kits' (ok u, s) e f g q =
          let same : k ≡ kit = ground (arith, e, f, g, q) in
          (
            kits,
            kits',
            e,
            f ∙ ap ok same,
            ap (λ n. placed n overwrite kits) (sym same) ∙ g,
            ground (arith, e, f, g, q),
          )
      write kits k kits' (fail c, s) e f g q = absurd (ground (arith, e, f, g, q))

      place :
          (kits : List Kit) (k : Kit) (o : Result (List Kit))
          → read_envelope json js storage ≡ ok kits
          → normalize_setup_kit js v ≡ ok k
          → placed k overwrite kits ≡ o
          → Through
      place kits k (ok kits') e f g =
          write kits k kits' (write_envelope json js kits' storage) e f g refl
      place kits k (fail c) e f g = absurd (ground (arith, e, f, g))

      norm :
          (kits : List Kit) (o : Result Kit)
          → read_envelope json js storage ≡ ok kits
          → normalize_setup_kit js v ≡ o
          → Through
      norm kits (ok k) e f = place kits k (placed k overwrite kits) e f refl
      norm kits (fail c) e f = absurd (ground (arith, e, f))

      read : (o : Result (List Kit)) → read_envelope json js storage ≡ o → Through
      read (ok kits) e = norm kits (normalize_setup_kit js v) e refl
      read (fail c) e = absurd (ground (arith, e))

  -- A write that succeeds, and what is read after it.
  pub written :
      (kits : List Kit) (storage storage' : Storage json.Raw)
      → write_envelope json js kits storage ≡ (ok tt, storage')
      → (json.parse (json.stringify (envelope_value kits)) ≡ some (envelope_value kits))
      → IsStorable js kits
      → (out : List Kit) → read_envelope json js storage ≡ ok out
      → read_envelope json js storage' ≡ ok kits
  unfolding write_envelope read_envelope
  written kits storage storage' h faithful storable out reads =
      ground (arith, h, reads, faithful, check_envelope-value js kits storable)

  pub get_lem :
      (storage : Storage json.Raw) (kits : List Kit) (name : Text)
      → read_envelope json js storage ≡ ok kits
      → exact_stored_name (str name) ≡ ok name
      → get json js (str name) storage ≡ ok (find_kit name kits)
  unfolding get read_envelope
  get_lem storage kits name e exact = ground (arith, e, exact)

  pub get_same :
      (storage storage' : Storage json.Raw) (kits kits' : List Kit) (name : Text)
      → read_envelope json js storage ≡ ok kits
      → read_envelope json js storage' ≡ ok kits'
      → find_kit name kits' ≡ find_kit name kits
      → get json js (str name) storage' ≡ get json js (str name) storage
  unfolding get exact_stored_name read_envelope
  get_same storage storage' kits kits' name e e' same = ground (arith, e, e', same)

  -- What a save that succeeds means to a reader: the kit is the value's normal form, it is found
  -- under its name, and every other name finds what it found.
  pub record IsSaved (v : Js) (kit : Kit) (storage storage' : Storage json.Raw) : Type 0 where
    pub normalized : normalize_setup_kit js v ≡ ok kit
    pub found : get json js (str kit.name) storage' ≡ ok (some kit)
    pub others :
        (name : Text)
        → name ≢ kit.name
        → get json js (str name) storage' ≡ get json js (str name) storage

  module _
      (faithful : (kits : List Kit)
        → IsStorable js kits
        → json.parse (json.stringify (envelope_value kits)) ≡ some (envelope_value kits)) where
    -- If JSON.parse reads back what JSON.stringify writes of storable kits, then after a save that
    -- succeeds, with overwriting or without, get finds the kit's normal form under its name, and
    -- under every other name what it found before.
    pub save-IsSaved :
        (v : Js) (overwrite : Bool) (storage storage' : Storage json.Raw) (kit : Kit)
        → save json js v overwrite storage ≡ (ok kit, storage')
        → IsSaved v kit storage storage'
    save-IsSaved v overwrite storage storage' kit h =
        let (kits, kits', reads, norm, place, write) =
          saved_through v overwrite storage storage' kit h in
        let normal : IsNormal js kit = normalize_setup_kit_idem js v kit norm in
        let after : IsPlaced js kit kits kits' =
          placed-IsPlaced js kit overwrite kits kits' place
            (read_envelope-IsStorable js json storage kits reads) normal in
        let reads' : read_envelope json js storage' ≡ ok kits' =
          written kits' storage storage' write (faithful kits' after.storable) after.storable kits
            reads in
        record {
          normalized = norm;
          found =
              get_lem storage' kits' kit.name reads'
                (exact_of_normal kit.name (name_of_normal js kit normal))
              ∙ ap ok after.found;
          others = λ name n.
              get_same storage storage' kits kits' name reads reads' (after.others name n);
        }
