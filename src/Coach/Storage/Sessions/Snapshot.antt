-- ===== src/Coach/Storage/Sessions/Snapshot.antt =====
-- readCoachingProgressSnapshot of cloudflare/public/coach-storage.js: the summaries, and what the
-- recordings take.
use non_stop_talk.Prelude.{
  ℕ, ◌+◌, ◌-◌, ◌/◌, ◌%◌, Bool, true, false, List, [], ◌∷◌, Option, none, some, ltb, ◌==◌,
  if◌then◌else◌, length, ◌&&◌, ◌||◌, leb,
}
use non_stop_talk.Text.{Text}
use non_stop_talk.Js.{max_safe_integer}
use non_stop_talk.Room.Packs.{codes}
use non_stop_talk.Coach.Storage.{Key, text, Summary}
use non_stop_talk.Coach.Storage.Reconcile.{Stores, Retained, State, reconcile}
use non_stop_talk.Coach.Storage.Sessions.{
  Error, no_error, error, type_error, Call, Answer, returned, threw, transact,
}

abbrev range_error : Error
range_error = error (codes "RangeError") no_error

-- The UTF-16 code units of a text, by which `<` compares.
unfoldable pub units : Text → List ℕ
units [] = []
units (c ∷ s) =
    let rest = units s in
    if ltb c 0x10000
    then c ∷ rest
    else (0xd800 + (c - 0x10000) / 0x400) ∷ (0xdc00 + (c - 0x10000) % 0x400) ∷ rest

unfoldable pub units_lt : List ℕ → List ℕ → Bool
units_lt [] [] = false
units_lt [] (d ∷ t) = true
units_lt (c ∷ s) [] = false
units_lt (c ∷ s) (d ∷ t) = ltb c d || (c == d && units_lt s t)

-- left.id < right.id, of texts; what is retained has no other ids.
unfoldable pub id_lt : Key → Key → Bool
unfolding units units_lt
id_lt (text s) (text t) = units_lt (units s) (units t)
id_lt _ _ = false

-- Does the comparison of the sort put `a` in front of `b`?
unfoldable pub expires_first : Retained → Retained → Bool
unfolding id_lt
expires_first a b =
    ltb a.lifecycle.expires_at b.lifecycle.expires_at
    || (a.lifecycle.expires_at == b.lifecycle.expires_at && id_lt a.id b.id)

unfoldable pub insert_session : Retained → List Retained → List Retained
insert_session r [] = r ∷ []
insert_session r (x ∷ rest) =
    let more = insert_session r rest in if expires_first x r then x ∷ more else r ∷ x ∷ rest

unfoldable pub sort_sessions : List Retained → List Retained
unfolding insert_session
sort_sessions [] = []
sort_sessions (r ∷ rest) = insert_session r (sort_sessions rest)

-- artifactUsage, without the constant limit.
pub record Usage : Type 0 where
  pub logical_bytes : ℕ
  pub artifact_count : ℕ
  pub next_expires_at : Option ℕ
  pub legacy_grace_count : ℕ
  pub cleaned_count : ℕ
  pub sessions : List Retained

abbrev pub first_expiry : List Retained → Option ℕ
first_expiry [] = none
first_expiry (r ∷ rest) = some r.lifecycle.expires_at

unfoldable pub count_legacy : List Retained → ℕ
count_legacy [] = 0
count_legacy (r ∷ rest) =
    let more = count_legacy rest in if r.lifecycle.legacy_grace then more + 1 else more

unfoldable pub usage_of : State → Usage
unfolding sort_sessions count_legacy
usage_of state =
    let sessions = sort_sessions state.retained in
    record {
      logical_bytes = state.total_bytes;
      artifact_count = length sessions;
      next_expires_at = first_expiry sessions;
      legacy_grace_count = count_legacy sessions;
      cleaned_count = state.cleaned;
      sessions = sessions;
    }

-- The callback of reconcileArtifactState, and the read of the summaries after it.
abbrev pub snapshot_after : Option (State × Stores) → Answer ((List Summary × Usage) × Stores)
snapshot_after none = threw type_error
snapshot_after (some (state, t)) =
    if state.overflow then threw range_error else returned ((t.summaries, usage_of state), t)

-- readCoachingProgressSnapshot
unfoldable pub read_progress_snapshot : Call → Stores → Answer (List Summary × Usage) × Stores
unfolding transact usage_of
read_progress_snapshot call s = transact call.failure s (
    if leb call.now max_safe_integer
    then snapshot_after (reconcile call.now call.completed s)
    else threw type_error)
