-- ===== src/SetupKits/Store/Reading.antt =====
-- What readEnvelope of cloudflare/public/setup-kits.js accepts: the envelopes of distinct kits in
-- normal form, 25 at most.
use non_stop_talk.Prelude.{
  ◌+◌, ◌≡◌, ◌≢◌, ◌≤◌, refl, ap, ◌∙◌, sym, true, false, List, [], ◌∷◌, ◌++◌, map, length,
  length-append, length-map, arith, All, All-append, All-imp, Option, none, some,
}
use mathlib.Core.List.{append_assoc, append-nil}
use non_stop_talk.Text.{Text, same_text}
use non_stop_talk.Text.Laws.{same_text_iff, same_text_refl}
use non_stop_talk.Js.{
  Js, str, arr, object, Items, items, Fields, field_of, keys, from_items, Builtins,
}
use non_stop_talk.Room.{contains_text}
use non_stop_talk.Room.Packs.{codes}
use non_stop_talk.SetupKits.{Result, ok, fail, Kit, max_count}
use non_stop_talk.SetupKits.Topics.Again.{items-from_items}
use non_stop_talk.SetupKits.Kits.{normalize_setup_kit, kit_value, kit_fields}
use non_stop_talk.SetupKits.Kits.Canonical.{normalize_setup_kit_idem}
use non_stop_talk.SetupKits.Store.{
  Json, Storage, read_kits, is_canonical, same_topics, has_exact_keys, kit_keys, sorted_keys,
  insert_key, text_le, same_texts, check_envelope, envelope_value, read_envelope, read_list, parsed,
  read_item, Item, missing, not_text, raw,
}

abbrev pub NamesDiffer : List Kit → Type 0
NamesDiffer [] = Unit
NamesDiffer (k ∷ ks) = All (λ (j : Kit). j.name ≢ k.name) ks × NamesDiffer ks

abbrev Named : List Text → List Kit → Type 0
Named names kits = All (λ (k : Kit). contains_text k.name names ≡ true) kits

pub NamesDiffer-push :
    (ks : List Kit) (k : Kit)
    → NamesDiffer ks
    → All (λ (j : Kit). k.name ≢ j.name) ks
    → NamesDiffer (ks ++ k ∷ [])
NamesDiffer-push [] k h f = (tt, tt)
NamesDiffer-push (j ∷ js) k h f =
    (All-append _ js (k ∷ []) h.0 (f.0, tt), NamesDiffer-push js k h.1 f.1)

fresh_name :
    (names : List Text) (k : Kit) (ks : List Kit)
    → contains_text k.name names ≡ false
    → Named names ks
    → All (λ (j : Kit). k.name ≢ j.name) ks
fresh_name names k ks h =
    All-imp _ _ ks λ j there same. cc (h, there, ap (λ n. contains_text n names) same)

module _ (js : Builtins) where
  -- A kit that normalizeSetupKit leaves as it is.
  abbrev pub IsNormal : Kit → Type 0
  IsNormal kit = normalize_setup_kit js (kit_value kit) ≡ ok kit

  -- A list of kits that the store keeps.
  abbrev pub IsStorable : List Kit → Type 0
  IsStorable kits = All IsNormal kits × NamesDiffer kits × (length kits ≤ max_count)

  accepted :
      (kits : List Kit) (names : List Text) (stored : Fields) (rest : List Js) (out : List Kit)
      → read_kits js kits names (object stored ∷ rest) ≡ ok out
      → (kit : Kit) × IsNormal kit
        × (contains_text kit.name names ≡ false)
        × (read_kits js (kits ++ kit ∷ []) (kit.name ∷ names) rest ≡ ok out)
  unfolding read_kits
  accepted kits names stored rest out h = go (normalize_setup_kit js (object stored)) refl
    where
      go :
          (o : Result Kit)
          → normalize_setup_kit js (object stored) ≡ o
          → (kit : Kit) × IsNormal kit
            × (contains_text kit.name names ≡ false)
            × (read_kits js (kits ++ kit ∷ []) (kit.name ∷ names) rest ≡ ok out)
      go (ok kit) e = (
        kit,
        normalize_setup_kit_idem js (object stored) kit e,
        ground (arith, e),
        ground (arith, e),
      )
      go (fail c) e = absurd (ground (arith, e))

  read_kits-IsStorable :
      (kits : List Kit) (names : List Text) (vs : List Js) (out : List Kit)
      → read_kits js kits names vs ≡ ok out
      → All IsNormal kits
      → NamesDiffer kits
      → Named names kits
      → All IsNormal out × NamesDiffer out × (length out ≡ length kits + length vs)
  unfolding read_kits
  read_kits-IsStorable kits names [] out h normal differ named =
      let same : out ≡ kits = ground arith in rw same (normal, differ, omega arith)
  read_kits-IsStorable kits names (object stored ∷ rest) out h normal differ named =
      let (kit, canonical, fresh, next) = accepted kits names stored rest out h in
      let (all, apart, many) =
        read_kits-IsStorable (kits ++ kit ∷ []) (kit.name ∷ names) rest out next
          (All-append _ kits (kit ∷ []) normal (canonical, tt))
          (NamesDiffer-push kits kit differ (fresh_name names kit kits fresh named))
          (All-append _ kits (kit ∷ []) (All-imp _ _ kits (λ k there. ground (arith, there)) named)
            (ground (arith, same_text_refl kit.name), tt)) in
      (all, apart, omega (arith, many, length-append kits (kit ∷ [])))
  read_kits-IsStorable kits names (_ ∷ rest) out h normal differ named = absurd (ground arith)

  kit_keys_there : (kit : Kit) → has_exact_keys (kit_fields kit) kit_keys ≡ true
  unfolding has_exact_keys keys sorted_keys insert_key text_le same_texts same_text
  kit_keys_there kit = refl

  topics_there : (ts : List Text) → same_topics (map str ts) ts ≡ true
  unfolding same_topics
  topics_there [] = refl
  topics_there (t ∷ ts) = ground (arith, same_text_refl t, topics_there ts)

  stored_canonical : (kit : Kit) → is_canonical (kit_fields kit) kit ≡ true
  unfolding is_canonical field_of same_text
  stored_canonical kit =
      ground (arith, same_text_refl kit.name, same_text_refl kit.topic_pack, there)
    where
      there : same_topics (items (from_items (map str kit.topics))) kit.topics ≡ true
      there = rw (items-from_items (map str kit.topics)) (topics_there kit.topics)

  still_fresh :
      (k : Kit) (names : List Text) (ks : List Kit)
      → All (λ (j : Kit). j.name ≢ k.name) ks
      → All (λ (j : Kit). contains_text j.name names ≡ false) ks
      → All (λ (j : Kit). contains_text j.name (k.name ∷ names) ≡ false) ks
  still_fresh k names [] h f = tt
  still_fresh k names (j ∷ ks) h f =
      (ground (arith, f.0, h.0, same_text_iff k.name j.name), still_fresh k names ks h.1 f.1)

  read_back :
      (kits : List Kit) (names : List Text) (ks : List Kit)
      → All IsNormal ks
      → NamesDiffer ks
      → All (λ (j : Kit). contains_text j.name names ≡ false) ks
      → read_kits js kits names (map kit_value ks) ≡ ok (kits ++ ks)
  unfolding read_kits kit_value
  read_back kits names [] normal differ fresh = ap ok (sym (append-nil kits))
  read_back kits names (k ∷ ks) normal differ fresh =
      rw (kit_keys_there k, normal.0, stored_canonical k, fresh.0)
        (read_back (kits ++ k ∷ []) (k.name ∷ names) ks normal.1 differ.1
            (still_fresh k names ks differ.0 fresh.1)
          ∙ ap ok (append_assoc kits (k ∷ []) ks))

  none_named : (ks : List Kit) → All (λ (j : Kit). contains_text j.name [] ≡ false) ks
  none_named [] = tt
  none_named (k ∷ ks) = (refl, none_named ks)

  -- An envelope of storable kits is read as those kits.
  pub check_envelope-value :
      (kits : List Kit) → IsStorable kits → check_envelope js (envelope_value kits) ≡ ok kits
  unfolding check_envelope envelope_value field_of same_text has_exact_keys keys sorted_keys
      insert_key text_le same_texts
  check_envelope-value kits h = rw (items-from_items (map kit_value kits)) (
      ground
        (arith, h.2, length-map kit_value kits, read_back [] [] kits h.0 h.1 (none_named kits)))

  list_step :
      (vs : Items) (out : List Kit)
      → read_list js (arr vs) ≡ ok out
      → (length (items vs) ≤ max_count) × (read_kits js [] [] (items vs) ≡ ok out)
  list_step vs out h = ground arith

  read_list_lem : (v : Js) (out : List Kit) → read_list js v ≡ ok out → IsStorable out
  read_list_lem (arr vs) out h =
      let (few, there) = list_step vs out h in
      let (normal, differ, many) = read_kits-IsStorable [] [] (items vs) out there tt tt tt in
      (normal, differ, omega (arith, many, few))
  read_list_lem _ out h = absurd (ground arith)

  pub check_envelope-IsStorable :
      (v : Js) (out : List Kit) → check_envelope js v ≡ ok out → IsStorable out
  unfolding check_envelope
  check_envelope-IsStorable (object fields) out h =
      read_list_lem (field_of (codes "kits") fields) out (ground arith)
  check_envelope-IsStorable _ out h = absurd (ground arith)

  parsed-IsStorable :
      (json : Json) (o : Option Js) (out : List Kit) → parsed json js o ≡ ok out → IsStorable out
  parsed-IsStorable json none out h = absurd (ground arith)
  parsed-IsStorable json (some v) out h = check_envelope-IsStorable v out h

  item-IsStorable :
      (json : Json) (item : Item json.Raw) (out : List Kit)
      → read_item json js item ≡ ok out
      → IsStorable out
  item-IsStorable json missing out h =
      let none_there : out ≡ [] = ground arith in rw none_there (tt, tt, omega arith)
  item-IsStorable json not_text out h = absurd (ground arith)
  item-IsStorable json (raw r) out h = parsed-IsStorable json (json.parse r) out (ground arith)

  -- Whatever is stored, what readEnvelope returns is at most 25 kits of different names, each in the
  -- form that normalizeSetupKit gives it.
  pub read_envelope-IsStorable :
      (json : Json) (storage : Storage json.Raw) (out : List Kit)
      → read_envelope json js storage ≡ ok out
      → IsStorable out
  unfolding read_envelope
  read_envelope-IsStorable json storage out h = item-IsStorable json storage.item out (ground arith)
