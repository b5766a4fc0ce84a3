-- ===== src/Room/Setup/Drafts.antt =====
-- Generated topic drafts: a draft's number is good for one accepted list of topics.
use non_stop_talk.Prelude.{ℕ, ◌≤◌, ◌≡◌, ◌≢◌, true, arith}
use non_stop_talk.Prelude.Int.{pos}
use non_stop_talk.Js.{Js, num, int, safe_counter, max_safe_integer, integer}
use non_stop_talk.Room.{Room, Request, ok, done, touch}
use non_stop_talk.Room.Setup.{
  current_topic_generation, draft_is_current, custom_topics, begin_topic_generation,
}

generation_moves :
    (req : Request) (t g : Js) (room next : Room)
    → custom_topics req t g room ≡ done next
    → current_topic_generation next ≢ current_topic_generation room
unfolding custom_topics current_topic_generation safe_counter
generation_moves req t g room next h = ground arith

accepted_is_current :
    (req : Request) (t : Js) (n : ℕ) (room next : Room)
    → custom_topics req t (num (int (pos n))) room ≡ done next
    → n ≡ current_topic_generation room
unfolding custom_topics draft_is_current integer
accepted_is_current req t n room next h = ground arith

-- Once a list of topics is accepted, generated or typed, no list that carries the draft number of
-- before is accepted any more, from whomever it comes.
pub old_draft_refused :
    (req late : Request) (t t' g : Js) (room next after : Room)
    → custom_topics req t g room ≡ done next
    → custom_topics late t' (num (int (pos (current_topic_generation room)))) next ≢ done after
old_draft_refused req late t t' g room next after h k =
    generation_moves req t g room next h
      (omega (arith, accepted_is_current late t' (current_topic_generation room) next after k))

-- The number that begin-topic-generation hands out is the current one, while it is a safe integer.
pub draft_number_is_current :
    (req req' : Request) (room next : Room) (n : ℕ)
    → begin_topic_generation req room ≡ ok n next
    → n ≤ max_safe_integer
    → draft_is_current req' (num (int (pos n))) next ≡ true
unfolding begin_topic_generation touch draft_is_current integer current_topic_generation
    safe_counter
draft_number_is_current req req' room next n h k = ground arith
