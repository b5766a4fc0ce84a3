-- ===== src/SoundCues/Plays.antt =====
-- A cue that is heard, in cloudflare/public/sound-cues.js.
use non_stop_talk.Prelude.{
  ℕ, ◌≡◌, ◌≤◌, true, List, [], ◌∷◌, ◌++◌, map, All, ◌⊎◌, false, Option, some,
}
use non_stop_talk.Js.{Js}
use non_stop_talk.SoundCues.{
  Cue, start, tick, silence_warning, eliminated, completed, Tone, Player, Browser, play, played,
  ready, is_usable,
}

-- The frequencies of a cue's tones, in hertz.
abbrev pub frequencies : Cue → List ℕ
frequencies start = 660 ∷ 880 ∷ []
frequencies tick = 880 ∷ []
frequencies silence_warning = 440 ∷ []
frequencies eliminated = 220 ∷ 160 ∷ []
frequencies completed = 523 ∷ 659 ∷ 784 ∷ []

-- The tones of a cue, each of which has a length and a gain.
abbrev pub IsMelody : Cue → List Tone → Type 0
IsMelody cue tones =
    (map (λ (t : Tone). t.frequency) tones ≡ frequencies cue)
    × All (λ (t : Tone). (1 ≤ t.duration) × (1 ≤ t.gain)) tones

abbrev pub tones_of : List (ℕ × Tone) → List Tone
tones_of [] = []
tones_of ((n, t) ∷ rest) = t ∷ tones_of rest

-- The earlier tones sound on, unless the context was closed: then it was let go of, with them.
abbrev pub IsBeside : Browser → Player → Player → Type 0
IsBeside asked p q =
    (q.live_tones ≡ p.live_tones) ⊎ ((is_usable asked.state ≡ false) × (q.live_tones ≡ []))

-- What a call that makes or finds a context leaves.
abbrev Ensured : ℕ → Browser → Player → Option ℕ × Player → Type 0
Ensured c asked p x =
    (x.0 ≡ some c) × (x.1.context ≡ some c) × (x.1.enabled ≡ true) × IsBeside asked p x.1

-- What an enabled player does with a cue: it hands on the tones of the cue and is ready for a
-- context; when its promise resolves, with no other call in between, it resolves to true, and all of
-- the tones sound beside those that sounded when the context was ready.
abbrev pub IsHeard : Js → Cue → Browser → Browser → Player → Type 0
IsHeard name cue asked made p =
    (tones : List Tone) × (c : ℕ) × (q : Player) × (play name asked made p
      ≡ (ready tones c q.generation, q))
    × IsMelody cue tones
    × IsBeside asked p q
    × ((played true true tones c q.generation q).0 ≡ true)
    × (tones_of (played true true tones c q.generation q).1.live_tones
        ≡ tones_of q.live_tones ++ tones)
