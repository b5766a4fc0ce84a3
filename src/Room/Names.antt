-- ===== src/Room/Names.antt =====
-- cleanName, cleanTopics and truncateCodePoints of cloudflare/game.ts.
pub mod Laws
use non_stop_talk.Prelude.{
  ℕ, zero, suc, Bool, true, false, ◌||◌, List, [], ◌∷◌, ◌++◌, map, length, take, ◌==◌,
  if◌then◌else◌,
}
use non_stop_talk.Text.{Text, same_text, is_empty, to_well_formed, trim_game_space}
use non_stop_talk.Js.{Js, Builtins, arr, items, text}
use non_stop_talk.Room.{contains_text}

abbrev pub max_player_name_code_points : ℕ
max_player_name_code_points = 40

abbrev pub max_topic_code_points : ℕ
max_topic_code_points = 200

abbrev pub max_topics : ℕ
max_topics = 500

unfoldable pub truncate_code_points : Text → ℕ → Text
truncate_code_points s maximum = take maximum (to_well_formed s)

-- cleanName, and what cleanTopics does to each topic.
unfoldable pub clean_text : ℕ → Text → Text
unfolding truncate_code_points
clean_text maximum s = trim_game_space (truncate_code_points (trim_game_space s) maximum)

abbrev pub clean_name : Text → Text
clean_name s = clean_text max_player_name_code_points s

-- The loop of cleanTopics; `seen` has the keys of `topics`.
unfoldable pub clean_from : Builtins → List Text → List Text → List Text → List Text
clean_from js topics seen [] = topics
clean_from js topics seen (value ∷ values) =
    let topic = clean_text max_topic_code_points value in
    let key = js.to_lower topic in
    let skipped = clean_from js topics seen values in
    let pushed = clean_from js (topics ++ topic ∷ []) (key ∷ seen) values in
    if is_empty topic || contains_text key seen
    then skipped
    else if length (topics ++ topic ∷ []) == max_topics
    then topics ++ topic ∷ []
    else pushed

unfoldable pub clean_topics : Builtins → List Text → List Text
clean_topics js values = clean_from js [] [] values

-- value.replaceAll("\r\n", "\n").split("\n")
unfoldable pub join_crlf : Text → Text
join_crlf [] = []
join_crlf (c ∷ []) = c ∷ []
join_crlf (c ∷ d ∷ s) =
    let rest = join_crlf (d ∷ s) in
    if (c == 13) then (if d == 10 then rest else c ∷ rest) else c ∷ rest

unfoldable pub split_lines : Text → Text → List Text
split_lines line [] = line ∷ []
split_lines line (c ∷ s) =
    let next = split_lines [] s in
    let more = split_lines (line ++ c ∷ []) s in if c == 10 then line ∷ next else more

unfoldable pub clean_action_topics : Builtins → Js → List Text
clean_action_topics js (arr vs) = clean_topics js (map js.to_string (items vs))
clean_action_topics js v = clean_topics js (split_lines [] (join_crlf (text v)))
