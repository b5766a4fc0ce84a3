-- ===== src/SetupKits/Topics.antt =====
-- Custom topics: normalizeTopicArray, parseTopicText, serializeTopicText and readTopicTextFile of
-- cloudflare/public/setup-kits.js.
pub mod Again
pub mod RoundTrip
pub mod Import
use non_stop_talk.Prelude.{
  ℕ, Bool, false, not, ◌||◌, List, [], ◌∷◌, ◌++◌, Option, none, some, ltb, leb, ◌==◌, if◌then◌else◌,
  length,
}
use non_stop_talk.Prelude.Int.{pos}
use non_stop_talk.Text.{
  Text, is_empty, to_well_formed, trim_game_space, code_point_length, utf16_length,
}
use non_stop_talk.Js.{Js, str, arr, num, int, items, Builtins, max_safe_integer}
use non_stop_talk.Room.{contains_text}
use non_stop_talk.SetupKits.{
  Result, ok, fail, ◌>>=◌, require, invalid_topics, topic_text_too_long, topic_too_long,
  too_many_topics, topic_file_too_large, topic_file_read_failed, max_topics, max_topic_code_points,
  max_topic_text_characters, max_topic_file_bytes,
}

-- topics.join("\n")
unfoldable pub join_lines : List Text → Text
join_lines [] = []
join_lines (t ∷ []) = t
join_lines (t ∷ u ∷ us) = t ++ 10 ∷ join_lines (u ∷ us)

unfoldable pub assert_topic_text_length : List Text → Result (List Text)
assert_topic_text_length topics =
    require (leb (utf16_length (join_lines topics)) max_topic_text_characters) topic_text_too_long
      (ok topics)

-- /[\r\n]/
unfoldable pub has_line_break : Text → Bool
has_line_break [] = false
has_line_break (c ∷ s) = c == 13 || c == 10 || has_line_break s

abbrev pub trimmed_line : Text → Text
trimmed_line line = trim_game_space (to_well_formed line)

-- The loop of normalizeTopicArray; `seen` has the keys of `topics`.
unfoldable pub normalize_from : Builtins → List Text → List Text → List Js → Result (List Text)
normalize_from js topics seen [] = assert_topic_text_length topics
normalize_from js topics seen (str item ∷ rest) =
    let topic = trimmed_line item in
    let key = js.to_lower topic in
    let next = normalize_from js (topics ++ topic ∷ []) (key ∷ seen) rest in
    require (not (is_empty topic || has_line_break topic)) invalid_topics (
      require (leb (code_point_length topic) max_topic_code_points) topic_too_long
        (require (not (contains_text key seen)) invalid_topics next))
normalize_from js topics seen (_ ∷ rest) = fail invalid_topics

unfoldable pub normalize_topic_array : Builtins → Js → Result (List Text)
normalize_topic_array js (arr vs) = require (ltb 0 (length (items vs))) invalid_topics (
    require (leb (length (items vs)) max_topics) too_many_topics
      (normalize_from js [] [] (items vs)))
normalize_topic_array js _ = fail invalid_topics

-- value.replace(/\r\n?/gu, "\n")
unfoldable pub unify_breaks : Text → Text
unify_breaks [] = []
unify_breaks (c ∷ []) = (if c == 13 then 10 else c) ∷ []
unify_breaks (c ∷ d ∷ s) =
    let rest = unify_breaks (d ∷ s) in
    if c == 13 then (if d == 10 then rest else 10 ∷ rest) else c ∷ rest

-- split("\n"): the first line, and the others.
unfoldable pub split_from : Text → Text × List Text
split_from [] = ([], [])
split_from (c ∷ s) =
    let rest = split_from s in if c == 10 then ([], rest.0 ∷ rest.1) else (c ∷ rest.0, rest.1)

unfoldable pub split_lines : Text → List Text
unfolding split_from
split_lines s = (split_from s).0 ∷ (split_from s).1

-- The loop of parseTopicText.
unfoldable pub collect : Builtins → List Text → List Text → List Text → Result (List Text)
collect js topics seen [] = ok topics
collect js topics seen (line ∷ lines) =
    let topic = trimmed_line line in
    let key = js.to_lower topic in
    let skipped = collect js topics seen lines in
    let pushed = collect js (topics ++ topic ∷ []) (key ∷ seen) lines in
    if is_empty topic
    then skipped
    else require (leb (code_point_length topic) max_topic_code_points) topic_too_long (
        if contains_text key seen
        then skipped
        else require (leb (length (topics ++ topic ∷ [])) max_topics) too_many_topics pushed)

unfoldable pub parse_topic_text : Builtins → Js → Result (List Text)
parse_topic_text js (str value) =
    require (leb (utf16_length value) max_topic_text_characters) topic_text_too_long (
      collect js [] [] (split_lines (unify_breaks value)) >>= λ topics.
      require (ltb 0 (length topics)) invalid_topics (assert_topic_text_length topics))
parse_topic_text js _ = fail invalid_topics

unfoldable pub serialize_topic_text : Builtins → Js → Result Text
serialize_topic_text js value = normalize_topic_array js value >>= λ topics. ok (join_lines topics)

-- A browser File: its size, and what file.text() yields, `none` if it rejects.
pub record File : Type 0 where
  pub size : Js
  pub readable : Bool
  pub content : Option Js

abbrev safe_size : Js → Option ℕ
safe_size (num (int (pos n))) = if leb n max_safe_integer then some n else none
safe_size _ = none

abbrev read_content : Builtins → Option Js → Result (List Text)
read_content js none = fail topic_file_read_failed
read_content js (some (str content)) = parse_topic_text js (str content)
read_content js (some _) = fail topic_file_read_failed

unfoldable pub read_topic_text_file : Builtins → Option File → Result (List Text)
read_topic_text_file js none = fail topic_file_read_failed
read_topic_text_file js (some file) = elim (safe_size file.size) [
  | none ↦ fail topic_file_read_failed
  | some n ↦
      require file.readable topic_file_read_failed
        (require (leb n max_topic_file_bytes) topic_file_too_large (read_content js file.content))
]
