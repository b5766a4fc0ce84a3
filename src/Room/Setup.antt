-- ===== src/Room/Setup.antt =====
-- The settings and topics of a room before a game: the cases settings, apply-setup-kit and
-- custom-topics of applyAction, and the topic generation number, in cloudflare/game.ts.
pub mod Drafts
use non_stop_talk.Prelude.{
  ℕ, ◌+◌, Bool, true, false, not, ◌||◌, List, [], ◌∷◌, Option, none, some, ltb, leb, ◌==◌,
  if◌then◌else◌, length,
}
use non_stop_talk.Prelude.Int.{ℤ, pos, negsuc}
use non_stop_talk.Text.{Text, same_text}
use non_stop_talk.Js.{
  Js, undefined, num, int, arr, items, text, integer, clamp, safe_counter, reads, all_read,
}
use non_stop_talk.Room.{
  Room, Settings, Request, Result, ok, thrown, Outcome, ◌>>=◌, require, done, only_host,
  only_before_game, only_host_generates, topics_missing, pack_invalid, draft_stale, is_setup,
  is_host, touch, type_error,
}
use non_stop_talk.Room.Names.{clean_action_topics}
use non_stop_talk.Room.Packs.{TopicPack, topic_packs, find_pack, codes}
use non_stop_talk.Room.Deck.{reset_deck}

abbrev generation_of : Option ℕ → ℕ
generation_of none = 0
generation_of (some n) = n

unfoldable pub current_topic_generation : Room → ℕ
current_topic_generation room = generation_of (safe_counter room.topic_generation)

abbrev next_generation : Room → Js
next_generation room = num (int (pos (current_topic_generation room + 1)))

unfoldable pub authorize_topic_generation : Request → Room → Outcome
authorize_topic_generation req room =
    require (is_host req room) only_host_generates room
      (require (is_setup room.phase) only_before_game room (done room))

unfoldable pub begin_topic_generation : Request → Room → Result ℕ
unfolding authorize_topic_generation
begin_topic_generation req room = authorize_topic_generation req room >>= λ _ r.
    ok (current_topic_generation r + 1)
      (touch req.now (record r { topic_generation = next_generation r }))

-- The three numbers of the settings, from the action's fields.
unfoldable pub clamped_settings : Request → Js → Js → Js → Settings → Settings
clamped_settings req duration silence rounds s = record s {
  duration = clamp (integer req.builtins duration (pos s.duration)) 10 300;
  silence = clamp (integer req.builtins silence (pos s.silence)) 1 10;
  rounds = clamp (integer req.builtins rounds (pos s.rounds)) 1 10;
}

abbrev choose_pack : Option TopicPack → Room → Room
choose_pack none room = room
choose_pack (some pack) room = reset_deck (record room {
  topic_generation = next_generation room;
  settings = record room.settings { topic_pack = pack.id };
  topics = pack.topics;
})

abbrev set_duration : Request → Js → Room → Outcome
set_duration req v room = require (reads req.builtins v) type_error room (
    done (record room {
      settings = record room.settings {
        duration = clamp (integer req.builtins v (pos room.settings.duration)) 10 300;
      };
    }))

abbrev set_silence : Request → Js → Room → Outcome
set_silence req v room = require (reads req.builtins v) type_error room (
    done (record room {
      settings = record room.settings {
        silence = clamp (integer req.builtins v (pos room.settings.silence)) 1 10;
      };
    }))

abbrev set_rounds : Request → Js → Room → Outcome
set_rounds req v room = require (reads req.builtins v) type_error room (
    done (record room {
      settings = record room.settings {
        rounds = clamp (integer req.builtins v (pos room.settings.rounds)) 1 10;
      };
    }))

unfoldable pub settings : Request → Js → Js → Js → Js → Room → Outcome
unfolding reset_deck
settings req duration silence rounds pack room = require (is_host req room) only_host room (
    require (is_setup room.phase) only_before_game room (
      set_duration req duration room >>= λ _ a. set_silence req silence a >>= λ _ b.
      set_rounds req rounds b >>= λ _ c. done (choose_pack (find_pack (text pack) topic_packs) c)))

-- The mutation that apply-setup-kit ends with.
unfoldable pub install_kit : Settings → Text → List Text → Room → Room
unfolding reset_deck
install_kit next_settings pack next_topics room =
    record (reset_deck (record room {
      settings = record next_settings { topic_pack = pack };
      topics = next_topics;
      topic_generation = next_generation room;
    })) { last_topic_index = none }

abbrev kit_custom : Bool → Settings → List Text → Room → Outcome
kit_custom is_custom next_settings next_topics room = require is_custom pack_invalid room (
    require (ltb 0 (length next_topics)) topics_missing room
      (done (install_kit next_settings (codes "custom") next_topics room)))

-- The items of a list are converted one by one, any other value is not.
abbrev topics_read : Request → Js → Bool
topics_read req (arr vs) = all_read req.builtins (items vs)
topics_read req v = true

abbrev custom_kit : Request → Settings → Js → Js → Room → Outcome
custom_kit req next pack topics room =
    let cleaned = clean_action_topics req.builtins topics in
    require (topics_read req topics || not (same_text (text pack) (codes "custom"))) type_error room
      (kit_custom (same_text (text pack) (codes "custom")) next cleaned room)

unfoldable pub apply_setup_kit : Request → Js → Js → Js → Js → Js → Room → Outcome
unfolding install_kit clamped_settings
apply_setup_kit req duration silence rounds pack topics room =
    require (is_host req room) only_host room (
      require (is_setup room.phase) only_before_game room (
        require (all_read req.builtins (duration ∷ silence ∷ rounds ∷ [])) type_error room (
          let next = clamped_settings req duration silence rounds room.settings in
          elim (find_pack (text pack) topic_packs) [
            | some built_in ↦ done (install_kit next built_in.id built_in.topics room)
            | none ↦ custom_kit req next pack topics room
          ])))

-- action.topicGeneration !== undefined && integer(action.topicGeneration, -1) !== current
abbrev same_number : ℤ → ℕ → Bool
same_number (pos n) m = n == m
same_number (negsuc n) m = false

unfoldable pub draft_is_current : Request → Js → Room → Bool
draft_is_current req undefined room = true
draft_is_current req generation room =
    same_number (integer req.builtins generation (negsuc 0)) (current_topic_generation room)

abbrev draft_read : Request → Js → Bool
draft_read req undefined = true
draft_read req generation = reads req.builtins generation

unfoldable pub custom_topics : Request → Js → Js → Room → Outcome
unfolding reset_deck
custom_topics req topics generation room =
    let cleaned = clean_action_topics req.builtins topics in
    require (is_host req room) only_host room (
      require (is_setup room.phase) only_before_game room (
        require (topics_read req topics) type_error room (
          require (ltb 0 (length cleaned)) topics_missing room (
            require (draft_read req generation) type_error room (
              require (draft_is_current req generation room) draft_stale room (
                done (
                  reset_deck (record room {
                    topic_generation = next_generation room;
                    topics = cleaned;
                    settings = record room.settings { topic_pack = codes "custom" };
                  }))))))))
