-- ===== src/SoundCues/Quiet.antt =====
-- When no tone sounds, in cloudflare/public/sound-cues.js.
use non_stop_talk.Prelude.{
  ℕ, ◌≡◌, refl, Bool, true, false, List, [], ◌∷◌, Option, none, some, arith, if◌then◌else◌, not,
  ◌&&◌,
}
use non_stop_talk.Js.{Js, null, bool}
use non_stop_talk.SoundCues.{
  Cue, Tone, recipe, Player, Storage, fresh_player, release, apply_enabled, reload, reload_current,
  reload_legacy, set_enabled, toggle, Browser, ensure_context, ensure_from, make_context, unlock,
  recipe, play, cue_of, played, is_current, schedule_recipe, dispose_tone, Event, reloads, toggles,
  releases, sets, unlocks, plays, settles, ends, other_page, handle, live, is_off, Begun, misused,
  silent, begin_resume, drop_legacy, persist_preference,
}

-- Without a context no tone sounds, and a disabled player has none.
pub record IsQuiet (p : Player) : Type 0 where
  pub silent : p.context ≡ none → p.live_tones ≡ []
  pub off : p.enabled ≡ false → p.context ≡ none

release-IsQuiet : (p : Player) → IsQuiet (release p)
unfolding release
release-IsQuiet p = record { silent = λ e. refl; off = λ e. refl }

apply-IsQuiet : (enabled : Bool) (p : Player) → IsQuiet p → IsQuiet (apply_enabled enabled p)
unfolding apply_enabled
apply-IsQuiet true p h = record { silent = h.silent; off = λ e. cc e }
apply-IsQuiet false p h = release-IsQuiet (record p { enabled = false })

-- What both branches leave is left by the `if`.
pub either :
    (P : Player → Type 0) (b : Bool) (x y : Player × Storage)
    → P x.0
    → P y.0
    → P (if b then x else y).0
either P true x y h k = h
either P false x y h k = k

legacy-IsQuiet :
    (v : Js) (p : Player) (storage : Storage) → IsQuiet p → IsQuiet (reload_legacy v p storage).0
legacy-IsQuiet null p storage h = apply-IsQuiet true p h
legacy-IsQuiet v p storage h = apply-IsQuiet _ p h

current-IsQuiet :
    (v : Js) (p : Player) (storage : Storage) → IsQuiet p → IsQuiet (reload_current v p storage).0
current-IsQuiet null p storage h =
    either IsQuiet storage.get_legacy_throws (p, storage) (reload_legacy storage.legacy p storage) h
      (legacy-IsQuiet storage.legacy p storage h)
current-IsQuiet v p storage h =
    either IsQuiet (is_off v) (apply_enabled false p, drop_legacy storage)
      (apply_enabled true p, (persist_preference storage true).1) (apply-IsQuiet false p h)
      (apply-IsQuiet true p h)

reload-IsQuiet : (p : Player) (storage : Storage) → IsQuiet p → IsQuiet (reload p storage).0
unfolding reload
reload-IsQuiet p storage h =
    either IsQuiet (storage.available && not storage.get_throws)
      (reload_current storage.current p storage) (p, storage)
      (current-IsQuiet storage.current p storage h) h

set-IsQuiet :
    (v : Js) (p : Player) (storage : Storage) → IsQuiet p → IsQuiet (handle (sets v) (p, storage)).0
unfolding handle set_enabled
set-IsQuiet (bool b) p storage h = apply-IsQuiet b p h
set-IsQuiet _ p storage h = h

toggle-IsQuiet :
    (p : Player) (storage : Storage) → IsQuiet p → IsQuiet (handle toggles (p, storage)).0
unfolding handle toggle
toggle-IsQuiet p storage h = set-IsQuiet (bool (not p.enabled)) p storage h

make-IsQuiet :
    (makes : Bool) (p : Player) → p.enabled ≡ true → IsQuiet p → IsQuiet (make_context makes p).1
make-IsQuiet true p e h = record { silent = λ k. cc k; off = λ k. cc (e, k) }
make-IsQuiet false p e h = h

from-IsQuiet :
    (b : Browser) (o : Option ℕ) (p : Player)
    → p.enabled ≡ true
    → IsQuiet p
    → IsQuiet (ensure_from b o p).1
unfolding release
from-IsQuiet b none p e h = make-IsQuiet b.makes p e h
from-IsQuiet b (some c) p e h =
    ground (arith, h.silent, h.off, make-IsQuiet b.makes (release p) e (release-IsQuiet p))

ensure-IsQuiet : (b : Browser) (p : Player) → IsQuiet p → IsQuiet (ensure_context b p).1
unfolding ensure_context
ensure-IsQuiet b p h = go p.enabled refl
  where
    go :
        (on : Bool)
        → p.enabled ≡ on
        → IsQuiet (if on then ensure_from b p.context p else (none, p)).1
    go true e = from-IsQuiet b p.context p e h
    go false e = h

-- A call that goes on with a recipe, or does nothing while the player is disabled.
begin-IsQuiet :
    (asked made : Browser) (tones : List Tone) (p : Player)
    → IsQuiet p
    → IsQuiet
        (if p.enabled then begin_resume made tones (ensure_context asked p) else (silent, p)).1
begin-IsQuiet asked made tones p h =
    go p.enabled (ensure_context asked p) (ensure-IsQuiet asked p h)
  where
    go :
        (on : Bool) (o : Option ℕ × Player)
        → IsQuiet o.1
        → IsQuiet (if on then begin_resume made tones o else (silent, p)).1
    go true (none, q) k = k
    go true (some c, q) k = k
    go false o k = h

begun-IsQuiet : (asked made : Browser) (p : Player) → IsQuiet p → IsQuiet (unlock asked made p).1
unfolding unlock
begun-IsQuiet asked made p h = begin-IsQuiet asked made [] p h

play-IsQuiet :
    (name : Js) (asked made : Browser) (p : Player) → IsQuiet p → IsQuiet (play name asked made p).1
unfolding play
play-IsQuiet name asked made p h = go (cue_of name)
  where
    go :
        (o : Option Cue)
        → IsQuiet
            (elim o as (λ x. Begun × Player) [
              | none ↦ (misused, p)
              | some cue ↦
                  if p.enabled
                  then begin_resume made (recipe cue) (ensure_context asked p)
                  else (silent, p)
            ]).1
    go none = h
    go (some cue) = begin-IsQuiet asked made (recipe cue) p h

pub is_current_lem :
    (p : Player) (candidate expected : ℕ)
    → is_current p candidate expected ≡ true
    → (p.enabled ≡ true) × (p.context ≡ some candidate) × (p.generation ≡ expected)
unfolding is_current
is_current_lem p candidate expected h = ground (arith, h)

scheduled-IsQuiet :
    (works : Bool) (tones : List Tone) (p : Player) (c : ℕ)
    → p.enabled ≡ true
    → p.context ≡ some c
    → IsQuiet (schedule_recipe works tones p).1
unfolding schedule_recipe
scheduled-IsQuiet true tones p c e k = record { silent = λ n. cc (k, n); off = λ n. cc (e, n) }
scheduled-IsQuiet false tones p c e k = record { silent = λ n. cc (k, n); off = λ n. cc (e, n) }

played-IsQuiet :
    (running works : Bool) (tones : List Tone) (candidate expected : ℕ) (p : Player)
    → IsQuiet p
    → IsQuiet (played running works tones candidate expected p).1
unfolding played
played-IsQuiet running works tones candidate expected p h =
    go (is_current p candidate expected) running refl
  where
    go :
        (a b : Bool)
        → is_current p candidate expected ≡ a
        → IsQuiet (if a && b then schedule_recipe works tones p else (false, p)).1
    go true true e =
        let now = is_current_lem p candidate expected e in
        scheduled-IsQuiet works tones p candidate now.0 now.1
    go true false e = h
    go false b e = h

dispose-none : (t : ℕ) (ts : List (ℕ × Tone)) → ts ≡ [] → dispose_tone t ts ≡ []
unfolding dispose_tone
dispose-none t ts e = rw e

handle-IsQuiet :
    (e : Event) (p : Player) (storage : Storage) → IsQuiet p → IsQuiet (handle e (p, storage)).0
unfolding handle
handle-IsQuiet reloads p storage h = reload-IsQuiet p storage h
handle-IsQuiet toggles p storage h = toggle-IsQuiet p storage h
handle-IsQuiet releases p storage h = release-IsQuiet p
handle-IsQuiet (sets v) p storage h = set-IsQuiet v p storage h
handle-IsQuiet (unlocks a m) p storage h = begun-IsQuiet a m p h
handle-IsQuiet (plays n a m) p storage h = play-IsQuiet n a m p h
handle-IsQuiet (settles r w tones c g) p storage h = played-IsQuiet r w tones c g p h
handle-IsQuiet (ends t) p storage h = record {
  silent = λ e. dispose-none t p.live_tones (h.silent e);
  off = h.off;
}
handle-IsQuiet (other_page c l) p storage h = h

live-IsQuiet : (es : List Event) (s : Player × Storage) → IsQuiet s.0 → IsQuiet (live es s).0
unfolding live
live-IsQuiet [] s h = h
live-IsQuiet (e ∷ es) s h = live-IsQuiet es (handle e s) (handle-IsQuiet e s.0 s.1 h)

-- Whatever is called, in whatever order promises resolve, and whatever storage and the browser do: a
-- player that is disabled has no audio context, and one without a context sounds no tone.
pub every_player-IsQuiet :
    (es : List Event) (storage : Storage) → IsQuiet (live es (reload fresh_player storage)).0
every_player-IsQuiet es storage =
    live-IsQuiet es (reload fresh_player storage)
      (reload-IsQuiet fresh_player storage (record { silent = λ e. refl; off = λ e. refl }))
