-- ===== src/SoundCues/Stale.antt =====
-- Promises of play that resolve late, in cloudflare/public/sound-cues.js.
use non_stop_talk.Prelude.{ℕ, ◌≡◌, ◌≤◌, ◌<◌, true, false}
use non_stop_talk.Js.{Js, bool}
use non_stop_talk.SoundCues.{
  Player, Storage, reload, Event, reloads, toggles, releases, sets, Begun, misused, silent, ready,
  waits,
}

-- The generation is no less.
abbrev IsLater : ℕ → Player → Type 0
IsLater g p = g ≤ p.generation

-- A call that begins leaves the generation no less, and takes the one it leaves.
abbrev Begins : ℕ → Begun × Player → Type 0
Begins g (misused, p) = IsLater g p
Begins g (silent, p) = IsLater g p
Begins g (ready tones c e, p) = IsLater g p × (e ≡ p.generation)
Begins g (waits tones c e, p) = IsLater g p × (e ≡ p.generation)

-- A player that is disabled is of a later generation.
abbrev IsQuieted : Player → Player → Type 0
IsQuieted p q = q.enabled ≡ false → p.generation < q.generation

-- A player that was enabled, if it is disabled, is of a later generation.
abbrev IsSwitched : Player → Player × Storage → Type 0
IsSwitched p r = p.enabled ≡ true → IsQuieted p r.0

-- Calls that silence a player: release, setEnabled(false), and toggle and reload where they disable
-- a player that was enabled. No other call disables one.
abbrev pub IsSilencing : Event → Player × Storage → Type 0
IsSilencing releases s = Unit
IsSilencing (sets (bool false)) s = Unit
IsSilencing toggles s = s.0.enabled ≡ true
IsSilencing reloads s = (s.0.enabled ≡ true) × ((reload s.0 s.1).0.enabled ≡ false)
IsSilencing _ s = ⊥

-- The context and the generation that a call waits for.
abbrev pub IsPending : Begun → ℕ → ℕ → Type 0
IsPending (ready tones d h) c g = (d ≡ c) × (h ≡ g)
IsPending (waits tones d h) c g = (d ≡ c) × (h ≡ g)
IsPending _ c g = ⊥
