-- ===== src/SetupKits/Tests.antt =====
-- Concrete kits, and the theorems on them.
use non_stop_talk.Prelude.{◌≡◌, refl, true, false, [], ◌∷◌, Option, none, some, arith}
use non_stop_talk.Prelude.Int.{pos}
use non_stop_talk.Text.{Text}
use non_stop_talk.Js.{Js, str, arr, num, int, object, Fields, end, field, cons, nil, Builtins}
use non_stop_talk.Room.Packs.{codes}
use non_stop_talk.SetupKits.{Result, ok, fail, Kit, storage_quota_exceeded, storage_corrupt}
use non_stop_talk.SetupKits.Topics.{parse_topic_text, serialize_topic_text, normalize_topic_array}
use non_stop_talk.SetupKits.Topics.Import.{parsed_topics_kept}
use non_stop_talk.Js.{from_items}
use non_stop_talk.Prelude.{map}
use non_stop_talk.SetupKits.Topics.RoundTrip.{parse_topic_text-serialize}
use non_stop_talk.SetupKits.Kits.{normalize_setup_kit, kit_value}
use non_stop_talk.SetupKits.Kits.Canonical.{normalize_setup_kit_idem}
use non_stop_talk.SetupKits.Store.{
  Json, Storage, Failure, quota, Item, raw, missing, envelope_value, save, remove, get, list,
  read_envelope,
}
use non_stop_talk.SetupKits.Store.Reading.{IsStorable, read_envelope-IsStorable}
use non_stop_talk.SetupKits.Store.Saving.{IsSaved, save-IsSaved}
use non_stop_talk.SetupKits.Store.Removing.{IsRemoved, remove-IsRemoved}
use non_stop_talk.SetupKits.Store.Failures.{failed_save_keeps_storage, failed_remove_keeps_storage}

abbrev plain : Builtins
plain = record { to_string = λ v. []; throws = λ v. false; to_lower = λ s. s }

-- Values stored as they are.
abbrev verbatim : Json
verbatim = record { Raw = Js; parse = λ r. some r; stringify = λ v. v; serialized_bytes = λ r. 0 }

abbrev kit_of : Text → Js
kit_of name = object (
    field (codes "name") (str name) (
      field (codes "duration") (num (int (pos 60))) (
        field (codes "silence") (num (int (pos 3))) (
          field (codes "rounds") (num (int (pos 2))) (
            field (codes "topicPack") (str (codes "custom")) (
              field (codes "topics")
                (arr (cons (str (codes " cats ")) (cons (str (codes "dogs")) nil))) end))))))

abbrev family : Kit
family = record {
  name = codes "Family";
  duration = 60;
  silence = 3;
  rounds = 2;
  topic_pack = codes "custom";
  topics = codes "cats" ∷ codes "dogs" ∷ [];
}

abbrev storage_of : Item Js → Option Failure → Storage Js
storage_of item set_throws = record {
  item = item;
  available = true;
  get_throws = false;
  set_throws = set_throws;
  remove_throws = none;
}

-- Opens what the browser computes with.
browser : Unit {0}
unfolding parse_topic_text non_stop_talk.SetupKits.Topics.collect
    non_stop_talk.SetupKits.Topics.split_lines non_stop_talk.SetupKits.Topics.split_from
    non_stop_talk.SetupKits.Topics.unify_breaks serialize_topic_text normalize_topic_array
    non_stop_talk.SetupKits.Topics.normalize_from non_stop_talk.Text.trim_game_space
    non_stop_talk.Text.to_well_formed non_stop_talk.SetupKits.Topics.has_line_break
    non_stop_talk.Text.same_text non_stop_talk.SetupKits.Topics.assert_topic_text_length
    non_stop_talk.Text.utf16_length non_stop_talk.SetupKits.Topics.join_lines normalize_setup_kit
    non_stop_talk.SetupKits.Kits.normalize_name non_stop_talk.Js.field_of
    non_stop_talk.SetupKits.Kits.kit_settings non_stop_talk.SetupKits.Kits.bounded_integer
    non_stop_talk.SetupKits.Kits.is_pack non_stop_talk.SetupKits.Kits.is_built_in save remove
    read_envelope kit_value envelope_value non_stop_talk.SetupKits.Store.read_kits
    non_stop_talk.SetupKits.Store.check_envelope non_stop_talk.SetupKits.Store.has_exact_keys
    non_stop_talk.SetupKits.Store.sorted_keys non_stop_talk.SetupKits.Store.insert_key
    non_stop_talk.SetupKits.Store.text_le non_stop_talk.SetupKits.Store.same_texts
    non_stop_talk.SetupKits.Store.is_canonical non_stop_talk.SetupKits.Store.same_topics
    non_stop_talk.SetupKits.Store.placed non_stop_talk.SetupKits.Store.kit_index
    non_stop_talk.SetupKits.Store.find_kit non_stop_talk.SetupKits.Store.exact_stored_name
    non_stop_talk.SetupKits.Store.write_envelope
    non_stop_talk.SetupKits.Store.remove_stored_envelope non_stop_talk.Js.keys
    non_stop_talk.Room.remove_at
browser = tt

abbrev pets : Js
pets = arr (cons (str (codes " cats ")) (cons (str (codes "dogs")) nil))

abbrev one_kit : Item Js
one_kit = raw (envelope_value (family ∷ []))

parse_topic_text-serialize_example :
    parse_topic_text plain (str (codes "cats\ndogs")) ≡ normalize_topic_array plain pets
unfolding browser
parse_topic_text-serialize_example = parse_topic_text-serialize plain pets (codes "cats\ndogs") refl

normalize_setup_kit_idem_for_family : normalize_setup_kit plain (kit_value family) ≡ ok family
unfolding browser
normalize_setup_kit_idem_for_family =
    normalize_setup_kit_idem plain (kit_of (codes " Family")) family refl

read_envelope-IsStorable_example : IsStorable plain (family ∷ [])
unfolding browser
read_envelope-IsStorable_example =
    read_envelope-IsStorable plain verbatim (storage_of one_kit none) (family ∷ []) refl

save-IsSaved_example :
    IsSaved verbatim plain
      (kit_of (codes " Family"))
      family
      (storage_of missing none)
      (storage_of one_kit none)
unfolding browser
save-IsSaved_example =
    save-IsSaved verbatim plain (λ kits h. refl) (kit_of (codes " Family")) false
      (storage_of missing none) (storage_of one_kit none) family refl

remove-IsRemoved_example :
    IsRemoved verbatim plain (codes "Family") (storage_of one_kit none) (storage_of missing none)
unfolding browser
remove-IsRemoved_example =
    remove-IsRemoved verbatim plain (λ kits h. refl) (codes "Family") (storage_of one_kit none)
      (storage_of missing none) refl

failed_save_keeps_storage_for_family :
    storage_of missing (some quota) ≡ storage_of missing (some quota)
unfolding browser
failed_save_keeps_storage_for_family =
    failed_save_keeps_storage verbatim plain (kit_of (codes "Family")) true
      (storage_of missing (some quota)) (storage_of missing (some quota)) storage_quota_exceeded
      refl

failed_removal_changes_nothing :
    storage_of (raw (str (codes "?"))) none ≡ storage_of (raw (str (codes "?"))) none
unfolding browser
failed_removal_changes_nothing =
    failed_remove_keeps_storage verbatim plain (str (codes "Family"))
      (storage_of (raw (str (codes "?"))) none) (storage_of (raw (str (codes "?"))) none)
      (fail storage_corrupt) refl (λ same. ground (arith, same))

parsed_topics_kept_for_pets :
    normalize_topic_array plain (arr (from_items (map str (codes "cats" ∷ codes "dogs" ∷ []))))
    ≡ ok (codes "cats" ∷ codes "dogs" ∷ [])
unfolding browser
parsed_topics_kept_for_pets =
    parsed_topics_kept plain (codes "cats \n\ndogs\ncats") (codes "cats" ∷ codes "dogs" ∷ []) refl
