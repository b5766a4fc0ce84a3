-- ===== src/SetupKits/Store.antt =====
-- The setup-kit store over the browser's Storage: readEnvelope, writeEnvelope and the methods of
-- createSetupKitStore of cloudflare/public/setup-kits.js. JSON and the byte count of a text are the
-- language's, and so a parameter; what the Storage calls do is part of the state.
pub mod Reading
pub mod Placing
pub mod Saving
pub mod Removing
pub mod Failures
use non_stop_talk.Prelude.{
  ℕ, suc, ◌≡◌, Bool, true, false, not, ◌&&◌, ◌||◌, List, [], ◌∷◌, ◌++◌, Option, none, some, map,
  ltb, leb, ◌==◌, if◌then◌else◌, length, set,
}
use non_stop_talk.Prelude.Int.{pos, negsuc}
use non_stop_talk.Text.{
  Text, same_text, is_empty, to_well_formed, trim_game_space, code_point_length,
}
use non_stop_talk.Js.{
  Js, str, arr, num, int, object, items, Fields, end, field, field_of, keys, Builtins, from_items,
  max_safe_integer,
}
use non_stop_talk.Room.{contains_text, remove_at}
use non_stop_talk.Room.Packs.{codes}
use non_stop_talk.SetupKits.{
  Code, Result, ok, fail, ◌>>=◌, require, Kit, invalid_name, duplicate_name, kit_limit_reached,
  storage_unavailable, storage_read_failed, storage_write_failed, storage_quota_exceeded,
  storage_corrupt, storage_version_unsupported, storage_limit_exceeded, max_name_code_points,
  max_count, max_storage_bytes,
}
use non_stop_talk.SetupKits.Kits.{normalize_setup_kit, kit_value}

-- A text before another, by code points. The source sorts by code units, and only asks whether two
-- lists of keys are the same when sorted, for which any order serves.
unfoldable pub text_le : Text → Text → Bool
text_le [] t = true
text_le (c ∷ s) [] = false
text_le (c ∷ s) (d ∷ t) = ltb c d || (c == d && text_le s t)

unfoldable pub insert_key : Text → List Text → List Text
unfolding text_le
insert_key k [] = k ∷ []
insert_key k (j ∷ js) = let rest = insert_key k js in if text_le k j then k ∷ j ∷ js else j ∷ rest

unfoldable pub sorted_keys : List Text → List Text
unfolding insert_key
sorted_keys [] = []
sorted_keys (k ∷ ks) = insert_key k (sorted_keys ks)

unfoldable pub same_texts : List Text → List Text → Bool
same_texts [] [] = true
same_texts (s ∷ ss) (t ∷ ts) = same_text s t && same_texts ss ts
same_texts _ _ = false

unfoldable pub has_exact_keys : Fields → List Text → Bool
unfolding sorted_keys
has_exact_keys fields expected = same_texts (sorted_keys (keys fields)) (sorted_keys expected)

abbrev pub kit_keys : List Text
kit_keys =
    codes "name"
    ∷ codes "duration"
    ∷ codes "silence"
    ∷ codes "rounds"
    ∷ codes "topicPack"
    ∷ codes "topics"
    ∷ []

abbrev pub envelope_keys : List Text
envelope_keys = codes "schemaVersion" ∷ codes "kits" ∷ []

abbrev is_text : Js → Text → Bool
is_text (str s) t = same_text s t
is_text _ t = false

abbrev is_number : Js → ℕ → Bool
is_number (num (int (pos n))) m = n == m
is_number _ m = false

-- Each item is the canonical topic of its place.
unfoldable pub same_topics : List Js → List Text → Bool
same_topics [] [] = true
same_topics (v ∷ vs) (t ∷ ts) = is_text v t && same_topics vs ts
same_topics _ _ = false

abbrev topics_match : Js → List Text → Bool
topics_match (arr vs) ts = same_topics (items vs) ts
topics_match _ ts = false

unfoldable pub is_canonical : Fields → Kit → Bool
is_canonical stored kit =
    is_text (field_of (codes "name") stored) kit.name
    && is_number (field_of (codes "duration") stored) kit.duration
    && is_number (field_of (codes "silence") stored) kit.silence
    && is_number (field_of (codes "rounds") stored) kit.rounds
    && is_text (field_of (codes "topicPack") stored) kit.topic_pack
    && topics_match (field_of (codes "topics") stored) kit.topics

abbrev accept_kit : Fields → List Text → Result Kit → (Kit → Result (List Kit)) → Result (List Kit)
accept_kit stored names (fail c) rest = fail storage_corrupt
accept_kit stored names (ok kit) rest =
    require (is_canonical stored kit && not (contains_text kit.name names)) storage_corrupt
      (rest kit)

-- The loop of readEnvelope over the stored kits.
unfoldable pub read_kits : Builtins → List Kit → List Text → List Js → Result (List Kit)
read_kits js kits names [] = ok kits
read_kits js kits names (object stored ∷ rest) =
    require (has_exact_keys stored kit_keys) storage_corrupt (
      accept_kit stored names (normalize_setup_kit js (object stored))
        (λ kit. read_kits js (kits ++ kit ∷ []) (kit.name ∷ names) rest))
read_kits js kits names (_ ∷ rest) = fail storage_corrupt

abbrev is_safe_integer : Js → Bool
is_safe_integer (num (int (pos n))) = leb n max_safe_integer
is_safe_integer (num (int (negsuc n))) = ltb n max_safe_integer
is_safe_integer _ = false

abbrev pub read_list : Builtins → Js → Result (List Kit)
read_list js (arr vs) =
    require (leb (length (items vs)) max_count) storage_corrupt (read_kits js [] [] (items vs))
read_list js _ = fail storage_corrupt

unfoldable pub check_envelope : Builtins → Js → Result (List Kit)
check_envelope js (object fields) =
    let version = field_of (codes "schemaVersion") fields in
    require (has_exact_keys fields envelope_keys) storage_corrupt (
      require (not (is_safe_integer version) || is_number version 1) storage_version_unsupported (
        require (is_number version 1) storage_corrupt
          (read_list js (field_of (codes "kits") fields))))
check_envelope js _ = fail storage_corrupt

unfoldable pub envelope_value : List Kit → Js
unfolding kit_value
envelope_value kits = object (
    field (codes "schemaVersion") (num (int (pos 1)))
      (field (codes "kits") (arr (from_items (map kit_value kits))) end))

-- JSON.parse (`none` if it throws), JSON.stringify and the length of the UTF-8 encoding.
pub record Json : Type 1 where
  pub Raw : Type 0
  pub parse : Raw → Option Js
  pub stringify : Js → Raw
  pub serialized_bytes : Raw → ℕ

-- What Storage does when it throws: for lack of space, or otherwise.
pub data Failure : Type 0 where
  quota other : Failure

pub data Item (Raw : Type 0) : Type 0 where
  missing not_text : Item Raw
  raw : Raw → Item Raw

-- The entry under the store's key, and how the next calls behave.
pub record Storage (Raw : Type 0) : Type 0 where
  pub item : Item Raw
  pub available : Bool
  pub get_throws : Bool
  pub set_throws : Option Failure
  pub remove_throws : Option Failure

abbrev failure_code : Failure → Code
failure_code quota = storage_quota_exceeded
failure_code other = storage_write_failed

-- A kit's place by its name.
unfoldable pub kit_index : Text → List Kit → Option ℕ
kit_index name [] = none
kit_index name (k ∷ ks) =
    let later = kit_index name ks in
    if same_text k.name name then some 0 else elim later [ none ↦ none | some i ↦ some (suc i) ]

unfoldable pub find_kit : Text → List Kit → Option Kit
find_kit name [] = none
find_kit name (k ∷ ks) = if same_text k.name name then some k else find_kit name ks

-- The list to be saved: the kit in its old place, or at the end.
unfoldable pub placed : Kit → Bool → List Kit → Result (List Kit)
placed kit overwrite kits = elim (kit_index kit.name kits) [
  | some index ↦ require overwrite duplicate_name (ok (set kits index kit))
  | none ↦ require (ltb (length kits) max_count) kit_limit_reached (ok (kits ++ kit ∷ []))
]

unfoldable pub exact_stored_name : Js → Result Text
exact_stored_name (str value) =
    require (same_text value (to_well_formed value) && same_text value (trim_game_space value))
      invalid_name
      (require (not (is_empty value) && leb (code_point_length value) max_name_code_points)
        invalid_name (ok value))
exact_stored_name _ = fail invalid_name

module _ (json : Json) (js : Builtins) where
  abbrev pub parsed : Option Js → Result (List Kit)
  parsed none = fail storage_corrupt
  parsed (some v) = check_envelope js v

  abbrev pub read_item : Item json.Raw → Result (List Kit)
  read_item missing = ok []
  read_item not_text = fail storage_corrupt
  read_item (raw r) =
      require (leb (json.serialized_bytes r) max_storage_bytes) storage_limit_exceeded
        (parsed (json.parse r))

  unfoldable pub read_envelope : Storage json.Raw → Result (List Kit)
  read_envelope storage =
      require storage.available storage_unavailable
        (require (not storage.get_throws) storage_read_failed (read_item storage.item))

  abbrev pub put_item :
      Option Failure → Item json.Raw → Storage json.Raw → Result (Unit {0}) × Storage json.Raw
  put_item none item storage = (ok tt, record storage { item = item })
  put_item (some f) item storage = (fail (failure_code f), storage)

  unfoldable pub write_envelope : List Kit → Storage json.Raw → Result (Unit {0}) × Storage json.Raw
  write_envelope kits storage =
      let serialized = json.stringify (envelope_value kits) in
      if leb (json.serialized_bytes serialized) max_storage_bytes
      then put_item storage.set_throws (raw serialized) storage
      else (fail storage_limit_exceeded, storage)

  unfoldable pub remove_stored_envelope : Storage json.Raw → Result (Unit {0}) × Storage json.Raw
  remove_stored_envelope storage = put_item storage.remove_throws missing storage

  abbrev pub returning {ℓ} :
      {A : Type ℓ} → A → Result (Unit {0}) × Storage json.Raw → Result A × Storage json.Raw
  returning a (ok u, storage) = (ok a, storage)
  returning a (fail c, storage) = (fail c, storage)

  unfoldable pub list : Storage json.Raw → Result (List Kit)
  list storage = read_envelope storage

  unfoldable pub get : Js → Storage json.Raw → Result (Option Kit)
  get name storage = require storage.available storage_unavailable (
      exact_stored_name name >>= λ exact.
      read_envelope storage >>= λ kits. ok (find_kit exact kits))

  abbrev pub commit : Storage json.Raw → Kit → Result (List Kit) → Result Kit × Storage json.Raw
  commit storage kit (fail c) = (fail c, storage)
  commit storage kit (ok kits) = returning kit (write_envelope kits storage)

  abbrev pub save_kit :
      Bool → Storage json.Raw → List Kit → Result Kit → Result Kit × Storage json.Raw
  save_kit overwrite storage kits (fail c) = (fail c, storage)
  save_kit overwrite storage kits (ok kit) = commit storage kit (placed kit overwrite kits)

  abbrev pub save_into :
      Js → Bool → Storage json.Raw → Result (List Kit) → Result Kit × Storage json.Raw
  save_into value overwrite storage (fail c) = (fail c, storage)
  save_into value overwrite storage (ok kits) =
      save_kit overwrite storage kits (normalize_setup_kit js value)

  unfoldable pub save : Js → Bool → Storage json.Raw → Result Kit × Storage json.Raw
  save value overwrite storage = save_into value overwrite storage (read_envelope storage)

  abbrev pub store_rest : Storage json.Raw → List Kit → Result Bool × Storage json.Raw
  store_rest storage [] = returning true (remove_stored_envelope storage)
  store_rest storage (k ∷ ks) = returning true (write_envelope (k ∷ ks) storage)

  abbrev pub remove_from :
      Storage json.Raw → Text → Result (List Kit) → Result Bool × Storage json.Raw
  remove_from storage name (fail c) = (fail c, storage)
  remove_from storage name (ok kits) = elim (kit_index name kits) [
    | none ↦ (ok false, storage)
    | some index ↦ store_rest storage (remove_at index kits)
  ]

  abbrev pub remove_named : Storage json.Raw → Result Text → Result Bool × Storage json.Raw
  remove_named storage (fail c) = (fail c, storage)
  remove_named storage (ok name) = remove_from storage name (read_envelope storage)

  unfoldable pub remove : Js → Storage json.Raw → Result Bool × Storage json.Raw
  remove name storage =
      if storage.available
      then remove_named storage (exact_stored_name name)
      else (fail storage_unavailable, storage)
