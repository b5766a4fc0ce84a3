-- ===== src/SoundCues/Tests.antt =====
-- A page with sound cues, and the theorems on it.
use non_stop_talk.Prelude.{◌≡◌, refl, true, false, [], ◌∷◌, some}
use non_stop_talk.Text.{Text}
use non_stop_talk.Js.{Js, null, bool, str}
use non_stop_talk.Room.Packs.{codes}
use non_stop_talk.SoundCues.{
  start, tone, sine, Player, Storage, Browser, fresh_player, recipe, cue_of, release, apply_enabled,
  persist_preference, reload, set_enabled, toggle, ensure_context, play, unlock, is_current, played,
  schedule_recipe, new_tones, releases, toggles, sets, plays, settles, handle, live, ready, off,
}
use non_stop_talk.SoundCues.Quiet.{IsQuiet, every_player-IsQuiet}
use non_stop_talk.SoundCues.Preference.{preference, Works, reload_settles, set_enabled_survives}

abbrev empty_storage : Storage
empty_storage = record {
  available = true;
  current = null;
  legacy = null;
  get_throws = false;
  get_legacy_throws = false;
  set_throws = false;
  remove_throws = false;
}

abbrev migrating : Storage
migrating = record empty_storage { legacy = off }

abbrev running : Browser
running = record { state = codes "running"; makes = true; resumes = true }

abbrev start_name : Js
start_name = str (codes "start")

abbrev with_context : Player
with_context = record fresh_player { context = some 0; next_context = 1 }

-- Opens what the page computes with.
page : Unit {0}
unfolding recipe cue_of release apply_enabled persist_preference reload set_enabled toggle
    ensure_context play unlock is_current played schedule_recipe new_tones handle live preference
    non_stop_talk.Text.same_text
page = tt

started : play start_name running running fresh_player ≡ (ready (recipe start) 0 0, with_context)
unfolding page
started = refl

two_tones :
    (played true true (recipe start) 0 0 with_context).1.live_tones
    ≡ (0, tone 660 0 120 sine 80) ∷ (1, tone 880 140 160 sine 80) ∷ []
unfolding page
two_tones = refl

every_player-IsQuiet_example :
    IsQuiet
      (live
        (plays start_name running running ∷ settles true true (recipe start) 0 0 ∷ toggles ∷ [])
        (reload fresh_player empty_storage)).0
every_player-IsQuiet_example =
    every_player-IsQuiet
      (plays start_name running running ∷ settles true true (recipe start) 0 0 ∷ toggles ∷ [])
      empty_storage

abbrev silenced : Player
silenced = (live (sets (bool true) ∷ releases ∷ toggles ∷ []) (with_context, empty_storage)).0

migrating-Works : Works migrating
migrating-Works = record {
  there = refl;
  reads = refl;
  reads_legacy = refl;
  writes = refl;
  removes = refl;
}

reload_settles_example :
    ((reload fresh_player migrating).0.enabled ≡ preference migrating.current migrating.legacy)
    × ((reload fresh_player migrating).1.legacy ≡ null)
    × ((reload fresh_player (reload fresh_player migrating).1).0.enabled
        ≡ preference migrating.current migrating.legacy)
    × ((reload fresh_player (reload fresh_player migrating).1).1
        ≡ (reload fresh_player migrating).1)
reload_settles_example = reload_settles fresh_player fresh_player migrating migrating-Works

finds_preference_again :
    (reload fresh_player (record empty_storage { current = off })).0.enabled ≡ false
unfolding page
finds_preference_again =
    set_enabled_survives false fresh_player
      (record fresh_player { enabled = false; generation = 1 }) fresh_player empty_storage
      (record empty_storage { current = off }) refl refl refl
