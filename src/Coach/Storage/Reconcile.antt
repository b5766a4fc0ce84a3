-- ===== src/Coach/Storage/Reconcile.antt =====
-- reconcileArtifactState of cloudflare/public/coach-storage.js: one transaction over the summaries,
-- the recordings and their lifecycle rows. A store is a list of keys and values; the order in which
-- the requests of a transaction settle does not show in what they leave.
pub mod Facts
use non_stop_talk.Prelude.{
  ℕ, ◌+◌, max, Bool, true, false, not, ◌&&◌, ◌||◌, List, [], ◌∷◌, Option, none, some, ltb, leb,
  ◌==◌, if◌then◌else◌,
}
use non_stop_talk.Js.{max_safe_integer}
use non_stop_talk.Coach.Storage.{
  Key, same_key, is_id, Artifact, Row, Lifecycle, Metadata, Summary, empty_metadata,
  artifact_logical_bytes, lifecycle_of, artifact_summary_metadata, metadata_value,
  summary_has_artifact_metadata, summary_claims_artifacts,
}

pub record Stores : Type 0 where
  pub summaries : List Summary
  pub artifacts : List (Key × Artifact)
  pub lifecycle : List (Key × Row)

module _ {ℓ} {A : Type ℓ} where
  -- store.get(key)
  unfoldable pub value_at : Key → List (Key × A) → Option A
  value_at key [] = none
  value_at key ((k, a) ∷ rest) = if same_key k key then some a else value_at key rest

  -- store.delete(key)
  unfoldable pub delete_at : Key → List (Key × A) → List (Key × A)
  delete_at key [] = []
  delete_at key ((k, a) ∷ rest) =
      let kept = delete_at key rest in if same_key k key then kept else (k, a) ∷ kept

  -- store.put(value), which replaces the value of its key.
  unfoldable pub put_at : Key → A → List (Key × A) → List (Key × A)
  unfolding delete_at
  put_at key a rest = (key, a) ∷ delete_at key rest

unfoldable pub summary_at : Key → List Summary → Option Summary
summary_at key [] = none
summary_at key (s ∷ rest) = if same_key s.id key then some s else summary_at key rest

unfoldable pub put_summary : Summary → List Summary → List Summary
put_summary s [] = s ∷ []
put_summary s (t ∷ rest) = if same_key t.id s.id then s ∷ rest else t ∷ put_summary s rest

-- The entry of artifactDetailsById for a record of the artifact cursor.
pub record Details : Type 0 where
  pub logical_bytes : ℕ
  pub metadata : Metadata

abbrev pub with_size : Artifact → Option ℕ → Option Details
with_size a none = none
with_size a (some n) = some (record { logical_bytes = n; metadata = artifact_summary_metadata a })

unfoldable pub artifact_details : Key → Artifact → Option Details
artifact_details key a =
    if is_id key && same_key a.id key then with_size a (artifact_logical_bytes a) else none

abbrev pub details_of : Key → Option Artifact → Option Details
details_of key none = none
details_of key (some a) = artifact_details key a

-- artifactDetailsById.get(key)
unfoldable pub details_at : Key → List (Key × Artifact) → Option Details
details_at key artifacts = details_of key (value_at key artifacts)

-- artifactSummaryIds.has(key)
unfoldable pub is_claimed : Key → List Summary → Bool
is_claimed key [] = false
is_claimed key (s ∷ rest) =
    (same_key s.id key && is_id s.id && summary_claims_artifacts s) || is_claimed key rest

-- An entry of retainedById and of retainedLifecycleById.
pub record Retained : Type 0 where
  pub id : Key
  pub lifecycle : Lifecycle

module _ (now effective : ℕ) (s : Stores) where
  abbrev pub keep_with : Key → Option Lifecycle → Option Details → Option Retained
  keep_with key (some l) (some d) =
      if leb l.retained_at now
        && ltb effective l.expires_at
        && d.logical_bytes == l.logical_bytes
        && is_claimed key s.summaries
      then some (record { id = key; lifecycle = l })
      else none
  keep_with key _ _ = none

  -- The test of the loop over the lifecycle rows.
  unfoldable pub keep : Key → Row → Option Retained
  keep key row = keep_with key (lifecycle_of row key) (details_at key s.artifacts)

  abbrev is_expired : Option Lifecycle → Option Details → Bool
  is_expired (some l) (some d) = leb l.retained_at now && leb l.expires_at effective
  is_expired _ _ = false

  -- The rows that stay, what is retained, the expired ones.
  unfoldable pub kept_rows : List (Key × Row) → List (Key × Row)
  kept_rows [] = []
  kept_rows ((k, row) ∷ rest) =
      let more = kept_rows rest in elim (keep k row) [ none ↦ more | some r ↦ (k, row) ∷ more ]

  unfoldable pub retained_rows : List (Key × Row) → List Retained
  retained_rows [] = []
  retained_rows ((k, row) ∷ rest) =
      let more = retained_rows rest in elim (keep k row) [ none ↦ more | some r ↦ r ∷ more ]

  unfoldable pub expired_count : List (Key × Row) → ℕ
  expired_count [] = 0
  expired_count ((k, row) ∷ rest) =
      let more = expired_count rest in
      if is_expired (lifecycle_of row k) (details_at k s.artifacts) then more + 1 else more

-- retainedById.get(key)
unfoldable pub find_retained : Key → List Retained → Option Retained
find_retained key [] = none
find_retained key (r ∷ rest) = if same_key r.id key then some r else find_retained key rest

abbrev pub is_some {ℓ} : {A : Type ℓ} → Option A → Bool
is_some none = false
is_some (some a) = true

unfoldable pub kept_artifacts : List Retained → List (Key × Artifact) → List (Key × Artifact)
unfolding find_retained
kept_artifacts rs [] = []
kept_artifacts rs ((k, a) ∷ rest) =
    let more = kept_artifacts rs rest in
    if is_some (artifact_details k a) && is_some (find_retained k rs) then (k, a) ∷ more else more

-- The recordings that are deleted without having been retained.
unfoldable pub cleaned_count : List Retained → List (Key × Artifact) → ℕ
unfolding find_retained
cleaned_count rs [] = 0
cleaned_count rs ((k, a) ∷ rest) =
    let more = cleaned_count rs rest in
    if is_some (artifact_details k a) && is_some (find_retained k rs) then more else more + 1

abbrev metadata_for : Option Retained → Option Details → Metadata
metadata_for (some r) (some d) = d.metadata
metadata_for _ _ = empty_metadata

-- What the summary of an id says of its recording.
unfoldable pub expected_metadata : List Retained → List (Key × Artifact) → Key → Metadata
expected_metadata rs artifacts key = metadata_for (find_retained key rs) (details_at key artifacts)

-- A summary is written only if it says something else.
unfoldable pub reconciled_summary : List Retained → List (Key × Artifact) → Summary → Summary
unfolding metadata_value
reconciled_summary rs artifacts summary =
    let metadata = expected_metadata rs artifacts summary.id in
    if summary_has_artifact_metadata summary metadata
    then summary
    else record summary { artifacts = metadata_value metadata }

unfoldable pub reconciled_summaries :
    List Retained → List (Key × Artifact) → List Summary → List Summary
unfolding reconciled_summary
reconciled_summaries rs artifacts [] = []
reconciled_summaries rs artifacts (s ∷ rest) =
    reconciled_summary rs artifacts s ∷ reconciled_summaries rs artifacts rest

-- The sum of the retained recordings' sizes.
unfoldable pub retained_bytes : List Retained → ℕ
retained_bytes [] = 0
retained_bytes (r ∷ rest) = r.lifecycle.logical_bytes + retained_bytes rest

abbrev pub add_bytes : ℕ → ℕ × Bool → ℕ × Bool
add_bytes n (total, overflow) =
    if leb (total + n) max_safe_integer then (total + n, overflow) else (total, true)

-- retainedBytes and retainedBytesOverflow, from what they are so far.
unfoldable pub tally : ℕ × Bool → List Retained → ℕ × Bool
tally sum [] = sum
tally sum (r ∷ rest) = tally (add_bytes r.lifecycle.logical_bytes sum) rest

-- The argument of `done`.
pub record State : Type 0 where
  pub retained : List Retained
  pub total_bytes : ℕ
  pub overflow : Bool
  pub expired : ℕ
  pub cleaned : ℕ

-- reconcileArtifactState, with the time at which it began and the time that the reads completed,
-- which are the same if the expiry is not checked again. `none` is a TypeError, which aborts.
unfoldable pub reconcile : ℕ → ℕ → Stores → Option (State × Stores)
unfolding kept_rows retained_rows kept_artifacts reconciled_summaries tally
reconcile now completed s =
    let effective = max now completed in
    let rs = retained_rows now effective s s.lifecycle in
    if leb completed max_safe_integer
    then some (
      record {
        retained = rs;
        total_bytes = (tally (0, false) rs).0;
        overflow = (tally (0, false) rs).1;
        expired = expired_count now effective s s.lifecycle;
        cleaned = cleaned_count rs s.artifacts;
      },
      record {
        summaries = reconciled_summaries rs s.artifacts s.summaries;
        artifacts = kept_artifacts rs s.artifacts;
        lifecycle = kept_rows now effective s s.lifecycle;
      },
    )
    else none
