-- ===== src/SetupKits/Topics/Again.antt =====
-- Topics that normalizeTopicArray of cloudflare/public/setup-kits.js accepted, given to it again or
-- to the loop of parseTopicText.
use non_stop_talk.Prelude.{
  ℕ, suc, ◌≡◌, ◌≤◌, ◌<◌, refl, ap, ◌∙◌, sym, true, false, List, [], ◌∷◌, ◌++◌, map, leb, length,
  length-append, length-map, arith, All,
}
use mathlib.Core.List.{append_assoc, append-nil}
use non_stop_talk.Text.{Text, is_empty, code_point_length, to_well_formed, utf16_length}
use non_stop_talk.Text.Laws.{
  trim-IsTrimmed, trim_of_IsTrimmed, trim-All, to_well_formed-IsWellFormed,
  to_well_formed_of_IsWellFormed,
}
use non_stop_talk.Js.{Js, Items, str, arr, items, from_items, Builtins}
use non_stop_talk.Room.{contains_text}
use non_stop_talk.SetupKits.{ok, max_topic_code_points, max_topics, max_topic_text_characters}
use non_stop_talk.SetupKits.Topics.{
  trimmed_line, has_line_break, normalize_from, normalize_topic_array, collect, join_lines,
  assert_topic_text_length,
}

pub trimmed_line_idem : (s : Text) → trimmed_line (trimmed_line s) ≡ trimmed_line s
trimmed_line_idem s =
    rw
      (to_well_formed_of_IsWellFormed (trimmed_line s)
        (trim-All _ _ (to_well_formed-IsWellFormed s)))
      (trim_of_IsTrimmed (trimmed_line s) (trim-IsTrimmed (to_well_formed s)))

pub items-from_items : (vs : List Js) → items (from_items vs) ≡ vs
items-from_items [] = refl
items-from_items (v ∷ vs) = ap (λ l. v ∷ l) (items-from_items vs)

module _ (js : Builtins) where
  assert_kept : (topics out : List Text) → assert_topic_text_length topics ≡ ok out → out ≡ topics
  unfolding assert_topic_text_length
  assert_kept topics out h = ground arith

  normalize_step :
      (topics seen : List Text) (item : Text) (rest : List Js) (out : List Text)
      → normalize_from js topics seen (str item ∷ rest) ≡ ok out
      → (is_empty (trimmed_line item) ≡ false)
        × (has_line_break (trimmed_line item) ≡ false)
        × (leb (code_point_length (trimmed_line item)) max_topic_code_points ≡ true)
        × (contains_text (js.to_lower (trimmed_line item)) seen ≡ false)
        × (normalize_from js
              (topics ++ trimmed_line item ∷ [])
              (js.to_lower (trimmed_line item) ∷ seen)
              rest
            ≡ ok out)
  unfolding normalize_from
  normalize_step topics seen item rest out h = ground arith

  -- What the items add to the topics before them, and that they add it again.
  pub record IsAgain (topics seen out : List Text) (n : ℕ) : Type 0 where
    pub added : List Text
    pub result : out ≡ topics ++ added
    pub count : length added ≡ n
    pub again : normalize_from js topics seen (map str added) ≡ ok out
    pub collected : length out ≤ max_topics → collect js topics seen added ≡ ok out
    pub lines : All (λ t. has_line_break t ≡ false) added

  IsAgain-step :
      (topics seen : List Text) (item : Text) (rest : List Js) (out : List Text) (n : ℕ)
      → normalize_from js topics seen (str item ∷ rest) ≡ ok out
      → IsAgain (topics ++ trimmed_line item ∷ []) (js.to_lower (trimmed_line item) ∷ seen) out n
      → IsAgain topics seen out (suc n)
  unfolding normalize_from collect
  IsAgain-step topics seen item rest out n h found =
      let topic = trimmed_line item in
      let (some_text, one_line, short, fresh, next) = normalize_step topics seen item rest out h in
      let result : out ≡ topics ++ topic ∷ found.added =
        found.result ∙ append_assoc topics (topic ∷ []) found.added in
      record {
        added = topic ∷ found.added;
        result = result;
        count = omega (arith, found.count);
        again = rw (trimmed_line_idem item, some_text, one_line, short, fresh) found.again;
        collected = λ few.
            rw (trimmed_line_idem item, some_text, short, fresh)
              (ground (
                arith,
                few,
                found.collected few,
                ap length result,
                length-append topics (topic ∷ found.added),
                length-append topics (topic ∷ []),
              ));
        lines = (one_line, found.lines);
      }

  pub normalize_from-IsAgain :
      (topics seen : List Text) (vs : List Js) (out : List Text)
      → normalize_from js topics seen vs ≡ ok out
      → IsAgain topics seen out (length vs)
  unfolding normalize_from collect assert_topic_text_length
  normalize_from-IsAgain topics seen [] out h =
      let same : out ≡ topics = assert_kept topics out h in
      record {
        added = [];
        result = same ∙ sym (append-nil topics);
        count = refl;
        again = h;
        collected = λ few. ap ok (sym same);
        lines = tt;
      }
  normalize_from-IsAgain topics seen (str item ∷ rest) out h =
      let (some_text, one_line, short, fresh, next) = normalize_step topics seen item rest out h in
      (IsAgain-step topics seen item rest out (length rest) h (
        normalize_from-IsAgain (topics ++ trimmed_line item ∷ [])
          (js.to_lower (trimmed_line item) ∷ seen) rest out next))
  normalize_from-IsAgain topics seen (_ ∷ rest) out h = absurd (ground arith)

  pub assert_fits :
      (topics out : List Text)
      → assert_topic_text_length topics ≡ ok out
      → utf16_length (join_lines out) ≤ max_topic_text_characters
  unfolding assert_topic_text_length
  assert_fits topics out h = ground arith

  -- What normalizeTopicArray returns fits the limit on texts.
  pub normalize_from_fits :
      (topics seen : List Text) (vs : List Js) (out : List Text)
      → normalize_from js topics seen vs ≡ ok out
      → utf16_length (join_lines out) ≤ max_topic_text_characters
  unfolding normalize_from
  normalize_from_fits topics seen [] out h = assert_fits topics out h
  normalize_from_fits topics seen (str item ∷ rest) out h =
      let (some_text, one_line, short, fresh, next) = normalize_step topics seen item rest out h in
      normalize_from_fits (topics ++ trimmed_line item ∷ [])
        (js.to_lower (trimmed_line item) ∷ seen) rest out next
  normalize_from_fits topics seen (_ ∷ rest) out h = absurd (ground arith)

  -- An accepted array, with its items.
  pub record IsAccepted (out : List Text) : Type 0 where
    pub some_topic : 0 < length out
    pub few : length out ≤ max_topics
    pub fits : utf16_length (join_lines out) ≤ max_topic_text_characters
    pub found : IsAgain [] [] out (length out)

  array_step :
      (vs : Items) (out : List Text)
      → normalize_topic_array js (arr vs) ≡ ok out
      → (0 < length (items vs))
        × (length (items vs) ≤ max_topics)
        × (normalize_from js [] [] (items vs) ≡ ok out)
  unfolding normalize_topic_array
  array_step vs out h = ground arith

  pub normalize_topic_array-IsAccepted :
      (v : Js) (out : List Text) → normalize_topic_array js v ≡ ok out → IsAccepted out
  unfolding normalize_topic_array
  normalize_topic_array-IsAccepted (arr vs) out h =
      let (many, few, passed) = array_step vs out h in
      let found = normalize_from-IsAgain [] [] (items vs) out passed in
      let same : length out ≡ length (items vs) = ap length found.result ∙ found.count in
      record {
        some_topic = omega (arith, same, many);
        few = omega (arith, same, few);
        fits = normalize_from_fits [] [] (items vs) out passed;
        found = rw same found;
      }
  normalize_topic_array-IsAccepted _ out h = absurd (ground arith)

  -- Topics that normalizeTopicArray accepted are accepted again, unchanged.
  pub accepted_again :
      (out : List Text)
      → IsAccepted out
      → normalize_topic_array js (arr (from_items (map str out))) ≡ ok out
  unfolding normalize_topic_array
  accepted_again out h = rw (items-from_items (map str out)) (
      ground (
        arith,
        h.some_topic,
        h.few,
        length-map str out,
        ap (λ l. normalize_from js [] [] (map str l)) h.found.result ∙ h.found.again,
      ))
