-- ===== src/SetupKits/Kits.antt =====
-- normalizeSetupKit of cloudflare/public/setup-kits.js, and the value that a kit is stored as.
pub mod Canonical
use non_stop_talk.Prelude.{
  ℕ, Bool, not, ◌&&◌, List, [], ◌∷◌, Option, none, some, map, leb, if◌then◌else◌,
}
use non_stop_talk.Prelude.Int.{pos}
use non_stop_talk.Text.{Text, is_empty, to_well_formed, trim_game_space, code_point_length}
use non_stop_talk.Js.{
  Js, str, arr, num, int, object, Fields, end, field, field_of, Builtins, from_items,
}
use non_stop_talk.Room.{contains_text}
use non_stop_talk.Room.Packs.{codes}
use non_stop_talk.SetupKits.{
  Result, ok, fail, ◌>>=◌, require, Kit, invalid_kit, invalid_name, invalid_settings,
  invalid_topic_pack, max_name_code_points,
}
use non_stop_talk.SetupKits.Topics.{normalize_topic_array}

unfoldable pub normalize_name : Js → Result Text
normalize_name (str value) =
    let name = trim_game_space (to_well_formed value) in
    require (not (is_empty name) && leb (code_point_length name) max_name_code_points) invalid_name
      (ok name)
normalize_name _ = fail invalid_name

-- Both bounds are safe integers, so a value between them is one.
unfoldable pub bounded_integer : Js → ℕ → ℕ → Option ℕ
bounded_integer (num (int (pos n))) lo hi = if leb lo n && leb n hi then some n else none
bounded_integer _ lo hi = none

abbrev pub built_in_pack_ids : List Text
built_in_pack_ids =
    codes "everyday" ∷ codes "story" ∷ codes "absurd" ∷ codes "debate" ∷ codes "expert" ∷ []

abbrev pub pack_ids : List Text
pack_ids =
    codes "everyday"
    ∷ codes "story"
    ∷ codes "absurd"
    ∷ codes "debate"
    ∷ codes "expert"
    ∷ codes "custom"
    ∷ []

unfoldable pub is_pack : Text → Bool
is_pack id = contains_text id pack_ids

unfoldable pub is_built_in : Text → Bool
is_built_in id = contains_text id built_in_pack_ids

abbrev text_of : Js → Text
text_of (str s) = s
text_of _ = []

abbrev pub with_topics : Builtins → Text → Js → Result (List Text)
with_topics js pack topics = if is_built_in pack then ok [] else normalize_topic_array js topics

-- The settings of a kit, if each is in range.
unfoldable pub kit_settings : Fields → Option (ℕ × ℕ × ℕ)
kit_settings fields = elim (bounded_integer (field_of (codes "duration") fields) 10 300) [
  | none ↦ none
  | some duration ↦ elim (bounded_integer (field_of (codes "silence") fields) 1 10) [
    | none ↦ none
    | some silence ↦ elim (bounded_integer (field_of (codes "rounds") fields) 1 10) [
      | none ↦ none
      | some rounds ↦ some (duration, silence, rounds)
    ]
  ]
]

abbrev pub build_kit : Builtins → Fields → Text → Option (ℕ × ℕ × ℕ) → Result Kit
build_kit js fields name none = fail invalid_settings
build_kit js fields name (some (duration, silence, rounds)) =
    let pack = text_of (field_of (codes "topicPack") fields) in
    require (is_pack pack) invalid_topic_pack (
      with_topics js pack (field_of (codes "topics") fields) >>= λ topics. ok (record {
        name = name;
        duration = duration;
        silence = silence;
        rounds = rounds;
        topic_pack = pack;
        topics = topics;
      }))

unfoldable pub normalize_setup_kit : Builtins → Js → Result Kit
normalize_setup_kit js (object fields) = normalize_name (field_of (codes "name") fields) >>= λ name.
    build_kit js fields name (kit_settings fields)
normalize_setup_kit js _ = fail invalid_kit

abbrev pub kit_fields : Kit → Fields
kit_fields kit = field (codes "name") (str kit.name) (
    field (codes "duration") (num (int (pos kit.duration))) (
      field (codes "silence") (num (int (pos kit.silence))) (
        field (codes "rounds") (num (int (pos kit.rounds))) (
          field (codes "topicPack") (str kit.topic_pack)
            (field (codes "topics") (arr (from_items (map str kit.topics))) end)))))

-- cloneKit's record, as a value.
unfoldable pub kit_value : Kit → Js
kit_value kit = object (kit_fields kit)
