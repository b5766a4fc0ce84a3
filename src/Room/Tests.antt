-- ===== src/Room/Tests.antt =====
-- Concrete rooms, and the theorems on them.
use mathlib.Core.List.{Perm}
use non_stop_talk.Prelude.{
  ◌⊎◌, ℕ, ◌+◌, ◌*◌, ◌≡◌, ◌≢◌, ◌↔◌, ◌<◌, refl, true, false, List, [], ◌∷◌, none, some, arith, length,
  All,
}
use non_stop_talk.Prelude.Int.{pos}
use non_stop_talk.Text.{Text}
use non_stop_talk.Js.{
  Js, num, int, str, bool, object, end, undefined, null, Builtins, text, integer, max_safe_integer,
}
use non_stop_talk.Room.{
  type_error, Room, Player, Settings, Turn, ScoredTurn, Random, Request, Result, ok, thrown, done,
  setup, playing, finished, room_of, GameError, only_host, is_host,
}
use non_stop_talk.Room.Packs.{codes}
use non_stop_talk.Room.Names.{clean_text, clean_topics}
use non_stop_talk.Room.Names.Laws.{
  IsClean, IsTopicList, clean_text-IsClean, clean_text_idem, clean_topics-IsTopicList,
}
use non_stop_talk.Room.Deck.{draw_topic, shuffle_deck}
use non_stop_talk.Room.Deck.Draws.{draws, draws-IsDeal, new_cycle_ne_last}
use non_stop_talk.Room.Deck.Shuffle.{IsDeal}
use non_stop_talk.Room.TurnIds.{next_turn_id, turn_number, turn_id}
use non_stop_talk.Room.TurnIds.Fresh.{next_turn_id-fresh, Below, ActiveBelow}
use non_stop_talk.Room.Setup.{
  custom_topics, begin_topic_generation, draft_is_current, current_topic_generation,
}
use non_stop_talk.Room.Setup.Drafts.{old_draft_refused}
use non_stop_talk.Room.Turns.Scoring.{IsRecorded, submission-IsRecorded}
use non_stop_talk.Room.Actions
use non_stop_talk.Room.Actions.{apply_action, create_room_state}
use non_stop_talk.Room.Actions.Atomic.{LeavesHalf, rejected_action_keeps_room}
use non_stop_talk.Room.Actions.Authority.{IsGuestStep, guest_step}
use non_stop_talk.Room.Actions.Bounds.{IsBounded}
use non_stop_talk.Room.Actions.Progress.{IsCoherent}
use non_stop_talk.Room.Games.{standings}
use non_stop_talk.Room.Games.Standings.{Falling, standings-sorted}
use non_stop_talk.Room.Life.{Event, act, join, presence, poll, live}
use non_stop_talk.Room.Life.Bounded.{every_room-IsBounded}
use non_stop_talk.Room.Life.Games.{every_room-IsCoherent, submission_ends_game}
use non_stop_talk.Room.View.{public_room_state}
use non_stop_talk.Room.View.Privacy.{guest_view_hides}

-- Opens what the server computes with.
server : Unit {0}
unfolding Actions.apply_action Actions.perform Actions.refresh_host non_stop_talk.Room.touch
    non_stop_talk.Room.Turns.submit_turn non_stop_talk.Room.Turns.driven_turn text
    non_stop_talk.Text.same_text is_host non_stop_talk.Room.player_id_of
    non_stop_talk.Room.member_id non_stop_talk.Room.Turns.file_turn non_stop_talk.Room.update_player
    non_stop_talk.Room.Turns.score_turn non_stop_talk.Room.Turns.advance integer
    non_stop_talk.Js.clamp non_stop_talk.Js.truthy custom_topics begin_topic_generation
    non_stop_talk.Room.Names.clean_action_topics clean_topics non_stop_talk.Room.Names.clean_from
    clean_text non_stop_talk.Room.Names.split_lines non_stop_talk.Room.Names.join_crlf
    non_stop_talk.Text.to_well_formed non_stop_talk.Text.trim_game_space draft_is_current
    current_topic_generation non_stop_talk.Js.safe_counter draw_topic
    non_stop_talk.Room.Deck.ready_deck non_stop_talk.Room.Deck.valid_deck shuffle_deck
    non_stop_talk.Room.Deck.shuffled non_stop_talk.Room.Deck.shuffle_from
    non_stop_talk.Room.Deck.avoid_repeat non_stop_talk.Room.Deck.indices draws next_turn_id
    non_stop_talk.Room.TurnIds.repair_next_turn non_stop_talk.Room.TurnIds.repaired_number
    non_stop_talk.Room.TurnIds.max_used non_stop_talk.Room.TurnIds.max_active
    non_stop_talk.Room.TurnIds.max_completed turn_number non_stop_talk.Room.TurnIds.beyond_safe
    non_stop_talk.Text.Decimal.decimal non_stop_talk.Text.Decimal.positive_numeral
    non_stop_talk.Room.Deck.set_size non_stop_talk.Room.Deck.all_below
server = tt

abbrev first_always : Random
first_always = record { pick = λ label bound. 0; pick_lt = λ label bound h. h }

abbrev plain : Builtins
plain = record { to_string = λ v. []; throws = λ v. false; to_lower = λ s. s }

abbrev asks : Text → ℕ → Request
asks token now = record {
  token = token;
  now = now;
  online = [];
  random = first_always;
  builtins = plain;
}

abbrev ann : Player
ann = record { id = codes "p1"; name = codes "Ann"; score = 0 }

abbrev bob : Player
bob = record { id = codes "p2"; name = codes "Bob"; score = 7 }

abbrev lobby : Room
lobby = record {
  code = codes "ABC234";
  version = 3;
  host_token = codes "hh";
  host_disconnected_at = some 0;
  created_at = 0;
  updated_at = 0;
  topic_generation = num (int (pos 4));
  next_player = 3;
  next_turn = num (int (pos 1));
  players = ann ∷ bob ∷ [];
  members = (codes "hh", codes "p1") ∷ (codes "bb", codes "p2") ∷ [];
  settings = record { duration = 10; silence = 2; rounds = 1; topic_pack = codes "custom" };
  topics = codes "tea" ∷ codes "rain" ∷ codes "maps" ∷ [];
  deck = [];
  deck_cursor = 0;
  last_topic_index = some 0;
  current_player = 0;
  current_round = 1;
  phase = setup;
  active_turn = none;
  completed_turns = [];
  history = [];
}

abbrev anns_turn : Turn
anns_turn = record {
  id = codes "t1";
  player_id = codes "p1";
  player_name = codes "Ann";
  round = 1;
  topic = codes "rain";
  topic_index = 1;
  duration = 10;
  silence = 2;
  begun_at = some 1000;
}

abbrev bobs_turn : Turn
bobs_turn = record anns_turn { id = codes "t2"; player_id = codes "p2"; player_name = codes "Bob" }

-- Bob, who is not the host, speaks last in the only round.
abbrev last_turn : Room
last_turn = record lobby {
  phase = playing;
  next_turn = num (int (pos 3));
  current_player = 1;
  active_turn = some bobs_turn;
  completed_turns =
      record {
        turn = anns_turn;
        spoken_seconds = 4;
        completed = false;
        eliminated = true;
        score = 4;
      }
      ∷ [];
}

abbrev speaks : Js
speaks = num (int (pos 10))

abbrev submit : Actions.Action
submit = Actions.submit_turn (str (codes "t2")) speaks (bool true) undefined

-- Bob claims ten seconds after five.
abbrev claimed_early : Room
claimed_early = room_of (apply_action (asks (codes "bb") 6000) submit last_turn)

accepted : apply_action (asks (codes "bb") 6000) submit last_turn ≡ done claimed_early
unfolding server
accepted = refl

-- Five seconds and the tolerance of one are counted, and the game is over.
counted_six :
    (claimed_early.phase ≡ finished)
    × (claimed_early.players ≡ ann ∷ record bob { score = 13 } ∷ [])
unfolding server
counted_six = (refl, refl)

last_turn-IsBounded : IsBounded last_turn
last_turn-IsBounded = omega arith

last_turn-IsCoherent : IsCoherent last_turn
last_turn-IsCoherent = record { progress = (omega arith, omega arith, omega arith, omega arith) }

submission-IsRecorded_example : IsRecorded (asks (codes "bb") 6000) last_turn claimed_early
submission-IsRecorded_example =
    submission-IsRecorded (asks (codes "bb") 6000) (str (codes "t2")) speaks (bool true) undefined
      last_turn claimed_early accepted

submission_ends_game_example :
    (length claimed_early.completed_turns ≡ 2)
    × ((claimed_early.phase ≡ finished) ↔ (length claimed_early.completed_turns ≡ 1 * 2))
submission_ends_game_example =
    submission_ends_game (asks (codes "bb") 6000) (str (codes "t2")) speaks (bool true) undefined
      last_turn claimed_early last_turn-IsBounded last_turn-IsCoherent accepted

bob_is_no_host : is_host (asks (codes "bb") 6000) last_turn ≡ false
unfolding server
bob_is_no_host = refl

guest_step_example : IsGuestStep (asks (codes "bb") 6000) last_turn claimed_early
guest_step_example =
    guest_step (asks (codes "bb") 6000) last_turn bob_is_no_host submit claimed_early (omega arith)
      accepted

abbrev start : Actions.Action
start = Actions.start_game

refused : apply_action (asks (codes "bb") 9) start lobby ≡ thrown only_host lobby
unfolding server non_stop_talk.Room.Games.start_game
refused = refl

abbrev odd_silence : Actions.Action
odd_silence = Actions.settings (num (int (pos 99))) (object end) null null

abbrev host_asks : Request
host_asks = record (asks (codes "hh") 9) { builtins = record plain { throws = λ v. true } }

abbrev half_set : Room
half_set = record lobby { settings = record lobby.settings { duration = 99 } }

interrupted : apply_action host_asks odd_silence lobby ≡ thrown type_error half_set
unfolding server non_stop_talk.Room.Setup.settings
interrupted = refl

rejected_action_keeps_room_example :
    (half_set ≡ lobby) ⊎ LeavesHalf host_asks odd_silence lobby type_error half_set
rejected_action_keeps_room_example =
    rejected_action_keeps_room host_asks odd_silence lobby half_set type_error (omega arith)
      interrupted

abbrev calls : List Event
calls =
    join (asks (codes "bb") 5) (codes " Bob ")
    ∷ act (asks (codes "hh") 6) start
    ∷ act (asks (codes "bb") 7) (Actions.start_turn null)
    ∷ presence false 8
    ∷ poll (codes "hh") false 9
    ∷ []

abbrev reached : Room
reached = live calls (create_room_state (codes "ABC234") (codes "hh") (codes "Ann") 1)

every_room-IsBounded_example : IsBounded reached
every_room-IsBounded_example =
    every_room-IsBounded (codes "ABC234") (codes "hh") (codes "Ann") 1 calls

every_room-IsCoherent_example : IsCoherent reached
every_room-IsCoherent_example =
    every_room-IsCoherent (codes "ABC234") (codes "hh") (codes "Ann") 1 calls

draws-IsDeal_example : IsDeal 3 (draws (λ i. first_always) 3 lobby).0
draws-IsDeal_example = draws-IsDeal (λ i. first_always) lobby refl (omega arith)

three_draws : (draws (λ i. first_always) 3 lobby).0 ≡ 1 ∷ 2 ∷ 0 ∷ []
unfolding server
three_draws = refl

new_cycle_ne_last_example :
    (room' : Room) × (index : ℕ) × (draw_topic first_always lobby ≡ ok index room')
    × (index ≢ 0)
    × (index < 3)
new_cycle_ne_last_example = new_cycle_ne_last first_always lobby 0 refl (omega arith) (omega arith)

abbrev numbered : Room
numbered = record last_turn { next_turn = num (int (pos 4)) }

third_id : next_turn_id last_turn ≡ ok (turn_id 3) numbered
unfolding server
third_id = refl

next_turn_id-fresh_example :
    (n : ℕ) × (turn_number (turn_id 3) ≡ some n)
    × ActiveBelow n last_turn.active_turn
    × All (λ t. Below n t.turn.id) last_turn.completed_turns
    × (numbered ≡ record last_turn { next_turn = num (int (pos (n + 1))) })
next_turn_id-fresh_example = next_turn_id-fresh last_turn numbered (turn_id 3) third_id

abbrev retyped : Room
retyped = record lobby { topic_generation = num (int (pos 5)); topics = codes "sea" ∷ [] }

typed : custom_topics (asks (codes "hh") 1) (str (codes "sea")) undefined lobby ≡ done retyped
unfolding server
typed = refl

old_draft_refused_for_sea :
    custom_topics
      (asks (codes "hh") 2)
      (str (codes "sun"))
      (num (int (pos (current_topic_generation lobby))))
      retyped
    ≢ done lobby
old_draft_refused_for_sea =
    old_draft_refused (asks (codes "hh") 1) (asks (codes "hh") 2) (str (codes "sea"))
      (str (codes "sun")) undefined lobby retyped lobby typed

clean_text-IsClean_for_ann : IsClean 40 (clean_text 40 (codes "  Ann "))
clean_text-IsClean_for_ann = clean_text-IsClean 40 (codes "  Ann ")

cleans_twice : clean_text 3 (clean_text 3 (codes " An na")) ≡ clean_text 3 (codes " An na")
cleans_twice = clean_text_idem 3 (codes " An na")

cleaned_name : clean_text 3 (codes " An na") ≡ codes "An"
unfolding server
cleaned_name = refl

clean_topics-IsTopicList_for_sea :
    IsTopicList plain (clean_topics plain (codes "sea" ∷ codes " " ∷ codes "sea " ∷ []))
clean_topics-IsTopicList_for_sea =
    clean_topics-IsTopicList plain (codes "sea" ∷ codes " " ∷ codes "sea " ∷ [])

standings-sorted_for_lobby : Falling (standings lobby) × Perm (standings lobby) lobby.players
standings-sorted_for_lobby = standings-sorted lobby

guest_view_hides_example :
    public_room_state (asks (codes "bb") 6000) (record last_turn {
      topics = codes "x" ∷ codes "y" ∷ codes "z" ∷ [];
      deck = 2 ∷ [];
      deck_cursor = 1;
      last_topic_index = none;
      topic_generation = null;
      next_turn = null;
    })
    ≡ public_room_state (asks (codes "bb") 6000) last_turn
guest_view_hides_example =
    guest_view_hides (asks (codes "bb") 6000) last_turn (codes "x" ∷ codes "y" ∷ codes "z" ∷ [])
      (2 ∷ []) 1 none null null bob_is_no_host refl
