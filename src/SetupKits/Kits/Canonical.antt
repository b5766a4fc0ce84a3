-- ===== src/SetupKits/Kits/Canonical.antt =====
-- A kit that normalizeSetupKit of cloudflare/public/setup-kits.js made is its own normal form.
use non_stop_talk.Prelude.{ℕ, ◌≡◌, ◌≤◌, refl, true, List, map, arith, some, inl, inr, Bool-cases}
use non_stop_talk.Text.{Text, same_text, to_well_formed, trim_game_space}
use non_stop_talk.Js.{Js, str, arr, object, Fields, field_of, from_items, Builtins}
use non_stop_talk.Room.Packs.{codes}
use non_stop_talk.SetupKits.{ok, Kit}
use non_stop_talk.SetupKits.Topics.Again.{
  trimmed_line_idem, normalize_topic_array-IsAccepted, accepted_again,
}
use non_stop_talk.SetupKits.Kits.{
  normalize_name, bounded_integer, kit_settings, with_topics, is_pack, is_built_in,
  normalize_setup_kit, kit_value, kit_fields,
}

-- A name that was accepted is accepted again, unchanged.
pub name_again :
    (v : Js) (name : Text) → normalize_name v ≡ ok name → normalize_name (str name) ≡ ok name
unfolding normalize_name
name_again (str s) name h =
    let same : name ≡ trim_game_space (to_well_formed s) = ground arith in
    rw same (rw (trimmed_line_idem s) (ground arith))
name_again _ name h = absurd (ground arith)

bounded_lem : (v : Js) (lo hi n : ℕ) → bounded_integer v lo hi ≡ some n → (lo ≤ n) × (n ≤ hi)
unfolding bounded_integer
bounded_lem v lo hi n h = ground arith

-- What normalizeSetupKit asked of a value from which it made a kit.
made_of :
    (js : Builtins) (fields : Fields) (kit : Kit)
    → normalize_setup_kit js (object fields) ≡ ok kit
    → (normalize_name (field_of (codes "name") fields) ≡ ok kit.name)
      × (kit_settings fields ≡ some (kit.duration, kit.silence, kit.rounds))
      × (is_pack kit.topic_pack ≡ true)
      × (with_topics js kit.topic_pack (field_of (codes "topics") fields) ≡ ok kit.topics)
unfolding normalize_setup_kit
made_of js fields kit h = ground arith

settings_in_range :
    (fields : Fields) (d s r : ℕ)
    → kit_settings fields ≡ some (d, s, r)
    → (10 ≤ d) × (d ≤ 300) × (1 ≤ s) × (s ≤ 10) × (1 ≤ r) × (r ≤ 10)
unfolding kit_settings bounded_integer
settings_in_range fields d s r h = ground arith

topics_again :
    (js : Builtins) (pack : Text) (v : Js) (topics : List Text)
    → with_topics js pack v ≡ ok topics
    → with_topics js pack (arr (from_items (map str topics))) ≡ ok topics
topics_again js pack v topics h = elim (Bool-cases (is_built_in pack)) [
  | inl built_in ↦ rw built_in (rw built_in at h)
  | inr custom ↦
      rw custom
        (accepted_again js topics (normalize_topic_array-IsAccepted js v topics (rw custom at h)))
]

settings_again :
    (fields : Fields) (kit : Kit)
    → kit_settings fields ≡ some (kit.duration, kit.silence, kit.rounds)
    → kit_settings (kit_fields kit) ≡ some (kit.duration, kit.silence, kit.rounds)
unfolding kit_settings bounded_integer field_of same_text
settings_again fields kit h =
    ground (arith, settings_in_range fields kit.duration kit.silence kit.rounds h)

-- A kit that normalizeSetupKit makes, of whatever value, is accepted again and unchanged.
pub normalize_setup_kit_idem :
    (js : Builtins) (v : Js) (kit : Kit)
    → normalize_setup_kit js v ≡ ok kit
    → normalize_setup_kit js (kit_value kit) ≡ ok kit
unfolding normalize_setup_kit kit_value field_of same_text
normalize_setup_kit_idem js (object fields) kit h =
    let (named, set, packed, topics) = made_of js fields kit h in
    rw (name_again (field_of (codes "name") fields) kit.name named) (
      rw (settings_again fields kit set) (
        rw packed (
          rw (topics_again js kit.topic_pack (field_of (codes "topics") fields) kit.topics topics)
            refl)))
normalize_setup_kit_idem js _ kit h = absurd (ground arith)

pub name_of_normal :
    (js : Builtins) (kit : Kit)
    → normalize_setup_kit js (kit_value kit) ≡ ok kit
    → normalize_name (str kit.name) ≡ ok kit.name
unfolding kit_value field_of same_text
name_of_normal js kit h = (made_of js (kit_fields kit) kit h).0
