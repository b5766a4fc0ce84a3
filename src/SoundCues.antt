-- ===== src/SoundCues.antt =====
-- The sound-cue player of cloudflare/public/sound-cues.js: its preference over the browser's storage,
-- its audio context, and play and unlock cut at their await, so that other calls may come between.
-- What the browser does (whether a context can be made, its state, whether resume and scheduling
-- succeed) is an argument. Seconds are counted in milliseconds, gains in thousandths.
pub mod Quiet
pub mod Stale
pub mod Plays
pub mod Preference
mod Tests
use non_stop_talk.Prelude.{
  ℕ, ◌+◌, Bool, true, false, not, ◌&&◌, ◌||◌, List, [], ◌∷◌, ◌++◌, Option, none, some, ◌==◌,
  if◌then◌else◌, length,
}
use non_stop_talk.Text.{Text, same_text, is_empty}
use non_stop_talk.Js.{Js, null, bool, str}
use non_stop_talk.Room.Packs.{codes}

pub data Cue : Type 0 where
  start tick silence_warning eliminated completed : Cue

pub data Wave : Type 0 where
  sine triangle sawtooth : Wave

pub record Tone : Type 0 where
  pub frequency : ℕ
  pub delay : ℕ
  pub duration : ℕ
  pub wave : Wave
  pub gain : ℕ

abbrev pub tone : ℕ → ℕ → ℕ → Wave → ℕ → Tone
tone frequency delay duration wave gain = record {
  frequency = frequency;
  delay = delay;
  duration = duration;
  wave = wave;
  gain = gain;
}

-- SOUND_CUE_RECIPES
unfoldable pub recipe : Cue → List Tone
recipe start = tone 660 0 120 sine 80 ∷ tone 880 140 160 sine 80 ∷ []
recipe tick = tone 880 0 60 sine 50 ∷ []
recipe silence_warning = tone 440 0 160 triangle 100 ∷ []
recipe eliminated = tone 220 0 220 sawtooth 60 ∷ tone 160 200 320 sawtooth 60 ∷ []
recipe completed = tone 523 0 120 sine 80 ∷ tone 659 130 120 sine 80 ∷ tone 784 260 200 sine 80 ∷ []

-- SOUND_CUE_NAMES
unfoldable pub cue_of : Js → Option Cue
cue_of (str s) =
    if same_text s (codes "start")
    then some start
    else if same_text s (codes "tick")
    then some tick
    else if same_text s (codes "silence-warning")
    then some silence_warning
    else if same_text s (codes "eliminated")
    then some eliminated
    else if same_text s (codes "completed")
    then some completed
    else none
cue_of _ = none

-- The entries under SOUND_CUE_STORAGE_KEY and SOUND_CUE_LEGACY_STORAGE_KEY (`null` if there is none),
-- and which calls will throw.
pub record Storage : Type 0 where
  pub available : Bool
  pub current : Js
  pub legacy : Js
  pub get_throws : Bool
  pub get_legacy_throws : Bool
  pub set_throws : Bool
  pub remove_throws : Bool

-- The player's variables, the tones that sound, each with a number, and the numbers given out so far.
pub record Player : Type 0 where
  pub enabled : Bool
  pub context : Option ℕ
  pub generation : ℕ
  pub live_tones : List (ℕ × Tone)
  pub next_context : ℕ
  pub next_tone : ℕ

abbrev pub fresh_player : Player
fresh_player = record {
  enabled = true;
  context = none;
  generation = 0;
  live_tones = [];
  next_context = 0;
  next_tone = 0;
}

abbrev pub cleared : Storage → Storage
cleared storage = record storage { current = null; legacy = null }

abbrev pub drop_legacy : Storage → Storage
drop_legacy storage = if storage.remove_throws then storage else record storage { legacy = null }

abbrev pub off : Js
off = str (codes "off")

abbrev store_off : Storage → Bool × Storage
store_off storage = (not storage.remove_throws, drop_legacy (record storage { current = off }))

-- persistPreference, of the storage if there is one.
unfoldable pub persist_preference : Storage → Bool → Bool × Storage
persist_preference storage enabled =
    if not storage.available
    then (false, storage)
    else if enabled
    then (if storage.remove_throws then (false, storage) else (true, cleared storage))
    else if storage.set_throws
    then (false, storage)
    else store_off storage

unfoldable pub release : Player → Player
release p = record p { generation = p.generation + 1; context = none; live_tones = [] }

unfoldable pub apply_enabled : Bool → Player → Player
unfolding release
apply_enabled true p = record p { enabled = true }
apply_enabled false p = release (record p { enabled = false })

abbrev pub is_off : Js → Bool
is_off (str s) = same_text s (codes "off")
is_off _ = false

abbrev pub reload_legacy : Js → Player → Storage → Player × Storage
reload_legacy null p storage = (apply_enabled true p, storage)
reload_legacy legacy p storage =
    (apply_enabled (not (is_off legacy)) p, (persist_preference storage (not (is_off legacy))).1)

abbrev pub reload_current : Js → Player → Storage → Player × Storage
reload_current null p storage =
    if storage.get_legacy_throws then (p, storage) else reload_legacy storage.legacy p storage
reload_current current p storage =
    if is_off current
    then (apply_enabled false p, drop_legacy storage)
    else (apply_enabled true p, (persist_preference storage true).1)

unfoldable pub reload : Player → Storage → Player × Storage
unfolding apply_enabled persist_preference
reload p storage =
    if storage.available && not storage.get_throws
    then reload_current storage.current p storage
    else (p, storage)

abbrev saved : Player → Bool × Storage → Player × Bool × Storage
saved p (persisted, storage) = (p, persisted, storage)

-- setEnabled: the player, `persisted` and the storage; `none` is a TypeError.
unfoldable pub set_enabled : Js → Player → Storage → Option (Player × Bool × Storage)
unfolding apply_enabled persist_preference
set_enabled (bool enabled) p storage =
    some (saved (apply_enabled enabled p) (persist_preference storage enabled))
set_enabled _ p storage = none

unfoldable pub toggle : Player → Storage → Option (Player × Bool × Storage)
unfolding set_enabled
toggle p storage = set_enabled (bool (not p.enabled)) p storage

-- What the browser answers when a context is asked for: the state of the one at hand, and whether a
-- new one can be made.
pub record Browser : Type 0 where
  pub state : Text
  pub makes : Bool
  pub resumes : Bool

abbrev pub is_usable : Text → Bool
is_usable state = not (is_empty state) && not (same_text state (codes "closed"))

abbrev pub make_context : Bool → Player → Option ℕ × Player
make_context false p = (none, p)
make_context true p = (
  some p.next_context,
  record p { context = some p.next_context; next_context = p.next_context + 1 },
)

abbrev pub ensure_from : Browser → Option ℕ → Player → Option ℕ × Player
ensure_from b none p = make_context b.makes p
ensure_from b (some c) p =
    if is_usable b.state then (some c, p) else make_context b.makes (release p)

unfoldable pub ensure_context : Browser → Player → Option ℕ × Player
unfolding release
ensure_context b p = if p.enabled then ensure_from b p.context p else (none, p)

-- How a call of play or unlock goes on: it is refused with a TypeError, it resolves to false, or its
-- context runs or is asked to resume, in the generation in which the call began, with the recipe
-- that play hands on to playRecipe. That of unlock is empty, since it plays nothing.
pub data Begun : Type 0 where
  misused silent : Begun
  ready waits : List Tone → ℕ → ℕ → Begun

-- resumeContext before its await, in the same turn as ensureContext: a context just made is in the
-- state that the browser tells for it.
abbrev pub begin_resume : Browser → List Tone → Option ℕ × Player → Begun × Player
begin_resume b tones (none, p) = (silent, p)
begin_resume b tones (some c, p) = (
  if same_text b.state (codes "running")
      then ready tones c p.generation
      else if not (same_text b.state (codes "closed")) && b.resumes
      then waits tones c p.generation
      else silent,
  p,
)

unfoldable pub unlock : Browser → Browser → Player → Begun × Player
unfolding ensure_context
unlock asked made p =
    if p.enabled then begin_resume made [] (ensure_context asked p) else (silent, p)

unfoldable pub play : Js → Browser → Browser → Player → Begun × Player
unfolding ensure_context recipe
play name asked made p = elim (cue_of name) [
  | none ↦ (misused, p)
  | some cue ↦
      if p.enabled then begin_resume made (recipe cue) (ensure_context asked p) else (silent, p)
]

abbrev pub is_context : Option ℕ → ℕ → Bool
is_context none c = false
is_context (some d) c = d == c

-- enabled && context === candidate && generation === expectedGeneration
unfoldable pub is_current : Player → ℕ → ℕ → Bool
is_current p candidate expected =
    p.enabled && is_context p.context candidate && p.generation == expected

-- unlock after a resume has settled. With a context that runs it resolves to true at once.
unfoldable pub unlocked : Bool → ℕ → ℕ → Player → Bool
unfolding is_current
unlocked running candidate expected p = is_current p candidate expected && running

-- New tones with their numbers, from `n` on.
unfoldable pub new_tones : ℕ → List Tone → List (ℕ × Tone)
new_tones n [] = []
new_tones n (t ∷ ts) = (n, t) ∷ new_tones (n + 1) ts

-- scheduleRecipe: all tones are started, or those made so far are disposed of.
unfoldable pub schedule_recipe : Bool → List Tone → Player → Bool × Player
unfolding new_tones
schedule_recipe works tones p =
    let used = record p { next_tone = p.next_tone + length tones } in
    if works
    then (true, record used { live_tones = p.live_tones ++ new_tones p.next_tone tones })
    else (false, used)

-- playRecipe after its await: whether resumeContext resolved to true for all that it asks of the
-- context's state, and whether the tones can be scheduled. What resumeContext asks of the player is
-- asked again here, and was the less strict then, since the generation only grows.
unfoldable pub played : Bool → Bool → List Tone → ℕ → ℕ → Player → Bool × Player
unfolding is_current schedule_recipe
played running works tones candidate expected p =
    if is_current p candidate expected && running then schedule_recipe works tones p else (false, p)

-- A tone ends by itself.
unfoldable pub dispose_tone : ℕ → List (ℕ × Tone) → List (ℕ × Tone)
dispose_tone t [] = []
dispose_tone t (u ∷ us) = let rest = dispose_tone t us in if u.0 == t then rest else u ∷ rest

pub data Event : Type 0 where
  reloads toggles releases : Event
  sets : Js → Event
  unlocks : Browser → Browser → Event
  plays : Js → Browser → Browser → Event
  settles : Bool → Bool → List Tone → ℕ → ℕ → Event
  ends : ℕ → Event
  other_page : Js → Js → Event

abbrev set_or_kept : Player × Storage → Option (Player × Bool × Storage) → Player × Storage
set_or_kept before none = before
set_or_kept before (some (p, persisted, storage)) = (p, storage)

unfoldable pub handle : Event → Player × Storage → Player × Storage
handle reloads (p, storage) = reload p storage
handle toggles (p, storage) = set_or_kept (p, storage) (toggle p storage)
handle releases (p, storage) = (release p, storage)
handle (sets value) (p, storage) = set_or_kept (p, storage) (set_enabled value p storage)
handle (unlocks asked made) (p, storage) = ((unlock asked made p).1, storage)
handle (plays name asked made) (p, storage) = ((play name asked made p).1, storage)
handle (settles running works tones candidate expected) (p, storage) =
    ((played running works tones candidate expected p).1, storage)
handle (ends t) (p, storage) = (record p { live_tones = dispose_tone t p.live_tones }, storage)
handle (other_page current legacy) (p, storage) =
    (p, record storage { current = current; legacy = legacy })

unfoldable pub live : List Event → Player × Storage → Player × Storage
unfolding handle
live [] s = s
live (e ∷ es) s = live es (handle e s)
