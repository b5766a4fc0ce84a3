-- ===== src/SetupKits/Topics/Import.antt =====
-- The topics that parseTopicText reads from a text, as a kit's topics, in
-- cloudflare/public/setup-kits.js.
use non_stop_talk.Prelude.{
  ℕ, ◌≡◌, ◌≤◌, refl, ap, ◌∙◌, sym, Bool, true, false, ◌||◌, List, [], ◌∷◌, ◌++◌, map, leb, length,
  length-map, arith, All, ◌==◌, inl, inr, Bool-cases,
}
use mathlib.Core.List.{append_assoc, append-nil}
use non_stop_talk.Text.{
  Text, is_empty, code_point_length, to_well_formed, replace_surrogate, is_surrogate,
}
use non_stop_talk.Text.Laws.{trim-All}
use non_stop_talk.Js.{str, arr, from_items, Builtins}
use non_stop_talk.Room.{contains_text}
use non_stop_talk.SetupKits.{Result, ok, fail, max_topic_code_points, max_topics}
use non_stop_talk.SetupKits.Topics.{
  trimmed_line, has_line_break, normalize_from, normalize_topic_array, collect,
  assert_topic_text_length, unify_breaks, split_from, split_lines, parse_topic_text,
}
use non_stop_talk.SetupKits.Topics.Again.{trimmed_line_idem, items-from_items}

abbrev is_break : ℕ → Bool
is_break c = c == 13 || c == 10

abbrev OneLine : Text → Type 0
OneLine s = All (λ c. is_break c ≡ false) s

one_line : (s : Text) → OneLine s → has_line_break s ≡ false
unfolding has_line_break
one_line [] h = refl
one_line (c ∷ s) h = ground (arith, h.0, one_line s h.1)

unify_return : (s : Text) → All (λ c. (c == 13) ≡ false) (unify_breaks s)
unfolding unify_breaks
unify_return [] = tt
unify_return (c ∷ []) = (ground arith, tt)
unify_return (c ∷ d ∷ s) = ground (arith, unify_return (d ∷ s))

split-OneLine :
    (s : Text)
    → All (λ c. (c == 13) ≡ false) s
    → OneLine (split_from s).0 × All OneLine (split_from s).1
unfolding split_from
split-OneLine [] h = (tt, tt)
split-OneLine (c ∷ s) h = ground (arith, h.0, split-OneLine s h.1)

well_formed-OneLine : (s : Text) → OneLine s → OneLine (to_well_formed s)
unfolding to_well_formed replace_surrogate is_surrogate
well_formed-OneLine [] h = tt
well_formed-OneLine (c ∷ s) h = (ground (arith, h.0), well_formed-OneLine s h.1)

trimmed-OneLine : (s : Text) → OneLine s → has_line_break (trimmed_line s) ≡ false
trimmed-OneLine s h = one_line _ (trim-All _ _ (well_formed-OneLine s h))

module _ (js : Builtins) where
  -- What the lines add, given to normalizeTopicArray's loop.
  record IsNormalizable (topics seen out : List Text) : Type 0 where
    added : List Text
    result : out ≡ topics ++ added
    again : normalize_from js topics seen (map str added) ≡ assert_topic_text_length out
    few : length out ≤ max_topics

  pushed :
      (topics seen : List Text) (line : Text) (out : List Text)
      → OneLine line
      → is_empty (trimmed_line line) ≡ false
      → leb (code_point_length (trimmed_line line)) max_topic_code_points ≡ true
      → contains_text (js.to_lower (trimmed_line line)) seen ≡ false
      → IsNormalizable
          (topics ++ trimmed_line line ∷ [])
          (js.to_lower (trimmed_line line) ∷ seen)
          out
      → IsNormalizable topics seen out
  unfolding normalize_from
  pushed topics seen line out whole some_text short fresh found = record {
    added = trimmed_line line ∷ found.added;
    result = found.result ∙ append_assoc topics (trimmed_line line ∷ []) found.added;
    again =
        rw (trimmed_line_idem line, some_text, trimmed-OneLine line whole, short, fresh)
          found.again;
    few = found.few;
  }

  collect-IsNormalizable :
      (topics seen lines out : List Text)
      → collect js topics seen lines ≡ ok out
      → All OneLine lines
      → length topics ≤ max_topics
      → IsNormalizable topics seen out
  unfolding collect normalize_from
  collect-IsNormalizable topics seen [] out h whole few =
      let same : out ≡ topics = ground arith in
      record {
        added = [];
        result = same ∙ sym (append-nil topics);
        again = ap assert_topic_text_length (sym same);
        few = rw same few;
      }
  collect-IsNormalizable topics seen (line ∷ lines) out h whole few =
      elim (Bool-cases (is_empty (trimmed_line line))) [
        | inl none_there ↦
            collect-IsNormalizable topics seen lines out (ground (arith, h, none_there)) whole.1 few
        | inr some_text ↦ elim (Bool-cases (contains_text (js.to_lower (trimmed_line line)) seen)) [
          | inl again ↦
              collect-IsNormalizable topics seen lines out (ground (arith, h, some_text, again))
                whole.1 few
          | inr fresh ↦
              pushed topics seen line out whole.0 some_text (ground (arith, h, some_text)) fresh (
                collect-IsNormalizable (topics ++ trimmed_line line ∷ [])
                  (js.to_lower (trimmed_line line) ∷ seen) lines out
                  (ground (arith, h, some_text, fresh)) whole.1
                  (ground (arith, h, some_text, fresh)))
        ]
      ]

-- Whatever text parseTopicText accepts, the topics that it reads can be a kit's: normalizeTopicArray
-- takes them as they are.
pub parsed_topics_kept :
    (js : Builtins) (s : Text) (out : List Text)
    → parse_topic_text js (str s) ≡ ok out
    → normalize_topic_array js (arr (from_items (map str out))) ≡ ok out
unfolding parse_topic_text normalize_topic_array split_lines assert_topic_text_length
parsed_topics_kept js s out h = go (collect js [] [] lines) refl
  where
    lines : List Text
    lines = split_lines (unify_breaks s)

    go :
        (o : Result (List Text))
        → collect js [] [] lines ≡ o
        → normalize_topic_array js (arr (from_items (map str out))) ≡ ok out
    go (fail c) e = absurd (ground (arith, h, e))
    go (ok topics) e =
        let same : out ≡ topics = ground (arith, h, e) in
        let found : IsNormalizable js [] [] topics =
          collect-IsNormalizable js [] [] lines topics e
            (split-OneLine (unify_breaks s) (unify_return s)) (omega arith) in
        let passes : assert_topic_text_length topics ≡ ok topics = ground (arith, h, e) in
        let again : normalize_from js [] [] (map str topics) ≡ ok topics =
          ap (λ l. normalize_from js [] [] (map str l)) found.result ∙ found.again ∙ passes in
        rw (same, items-from_items (map str topics))
          (ground (arith, h, e, found.few, length-map str topics, again))
