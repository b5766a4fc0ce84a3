-- ===== src/Coach/Storage/Sessions.antt =====
-- The operations of cloudflare/public/coach-storage.js on coaching sessions: each is a transaction,
-- given the time and how the transaction ends.
pub mod Bounds
pub mod Discarding
pub mod Reading
pub mod Stored
pub mod RoundTrip
pub mod Snapshot
pub mod Staying
pub mod Order
use non_stop_talk.Prelude.{
  ℕ, zero, suc, ◌+◌, ◌-◌, Bool, true, false, not, ◌&&◌, ◌||◌, List, [], ◌∷◌, Option, none, some,
  ltb, leb, ◌==◌, if◌then◌else◌,
}
use non_stop_talk.Text.{Text, same_text}
use non_stop_talk.Js.{max_safe_integer}
use non_stop_talk.Room.Packs.{codes}
use non_stop_talk.Coach.Storage.{
  Key, text, same_key, is_id, Artifact, Row, Lifecycle, Summary, artifact_max_logical_bytes,
  artifact_logical_bytes, artifact_lifecycle_record, active_lifecycle, summary_without_artifacts,
  summary_with_artifact_metadata, summary_claims_artifacts,
}
use non_stop_talk.Coach.Storage.Reconcile.{
  Stores, value_at, delete_at, put_at, summary_at, put_summary, Retained, find_retained, State,
  reconcile,
}

-- An error by its name, with its cause.
pub data Error : Type 0 where
  no_error : Error
  error : Text → Error → Error

abbrev pub type_error : Error
type_error = error (codes "TypeError") no_error

unfoldable pub is_quota_from : ℕ → Error → Bool
is_quota_from zero e = false
is_quota_from (suc n) no_error = false
is_quota_from (suc n) (error name cause) =
    let deeper = is_quota_from n cause in
    if same_text name (codes "QuotaExceededError") then true else deeper

-- isQuotaExceededError
unfoldable pub is_quota_exceeded : Error → Bool
unfolding is_quota_from
is_quota_exceeded e = is_quota_from 4 e

-- What a promise settles with.
pub data Answer {ℓ} (A : Type ℓ) : Type ℓ where
  returned : A → Answer A
  threw : Error → Answer A

-- withCoachTransaction, with what the callback does and the error, if any, that ends the
-- transaction otherwise. A transaction that does not complete leaves the stores as they were.
unfoldable pub transact {ℓ} :
    {A : Type ℓ} → Option Error → Stores → Answer (A × Stores) → Answer A × Stores
transact none s (returned (a, t)) = (returned a, t)
transact (some e) s (returned x) = (threw e, s)
transact failure s (threw e) = (threw e, s)

-- What an operation meets: the time when it begins, the time when its reads completed, and what
-- ends its transaction.
pub record Call : Type 0 where
  pub now : ℕ
  pub completed : ℕ
  pub failure : Option Error

-- The callback of an operation that begins with reconcileArtifactState; `done` is its last argument.
abbrev pub after_reconcile {ℓ} :
    {A : Type ℓ} → ℕ → ℕ → Stores → (State → Stores → A × Stores) → Answer (A × Stores)
after_reconcile now completed s done =
    if leb now max_safe_integer
    then elim (reconcile now completed s) [
      | none ↦ threw type_error
      | some x ↦ returned (done x.0 x.1)
    ]
    else threw type_error

abbrev pub put_without_artifact : Summary → Key → Stores → Stores
put_without_artifact summary id s = record {
  summaries = put_summary (summary_without_artifacts summary) s.summaries;
  artifacts = delete_at id s.artifacts;
  lifecycle = delete_at id s.lifecycle;
}

-- saveSummaryOnly
unfoldable pub save_summary_only : Call → Summary → Key → Stores → Answer (Unit {0}) × Stores
unfolding transact
save_summary_only call summary id s =
    transact call.failure s
      (after_reconcile call.now call.now s (λ state t. (tt, put_without_artifact summary id t)))

-- artifactStatus of the answer of saveCoachingSession.
pub data Status : Type 0 where
  not_requested stored app_limit browser_quota : Status

abbrev pub bytes_of : Option Retained → ℕ
bytes_of none = 0
bytes_of (some r) = r.lifecycle.logical_bytes

-- Is there room for a recording of so many bytes, next to the others?
unfoldable pub has_room : ℕ → Key → State → Bool
unfolding find_retained
has_room bytes id state =
    let replaced = bytes_of (find_retained id state.retained) in
    leb bytes artifact_max_logical_bytes
    && not state.overflow
    && leb replaced state.total_bytes
    && leb (state.total_bytes - replaced) (artifact_max_logical_bytes - bytes)

abbrev pub put_session : Summary → Artifact → Key → Row → Stores → Stores
put_session summary artifact id row s = record {
  summaries = put_summary summary s.summaries;
  artifacts = put_at id artifact s.artifacts;
  lifecycle = put_at id row s.lifecycle;
}

-- The argument `done` of saveCoachingSession.
unfoldable pub store_session : Summary → Artifact → Key → ℕ → Row → State → Stores → Status × Stores
unfolding has_room
store_session summary artifact id bytes row state s =
    if has_room bytes id state
    then (stored, put_session summary artifact id row s)
    else (app_limit, put_without_artifact summary id s)

-- The callback of saveCoachingSession, with the row of the recording and its bytes.
abbrev pub save_row :
    Call → Summary → Artifact → Key → Option ℕ → Option Row → Stores → Answer (Status × Stores)
save_row call summary artifact id (some bytes) (some row) s =
    after_reconcile call.now call.now s (store_session summary artifact id bytes row)
save_row call summary artifact id _ _ s = threw type_error

-- The first transaction of saveCoachingSession, with a recording.
unfoldable pub save_artifact : Call → Summary → Artifact → Key → Stores → Answer Status × Stores
unfolding transact store_session
save_artifact call summary artifact id s = transact call.failure s (
    save_row call summary artifact id (artifact_logical_bytes artifact)
      (artifact_lifecycle_record artifact id call.now false) s)

abbrev pub status_of : Status → Answer (Unit {0}) × Stores → Answer Status × Stores
status_of status (returned u, s) = (returned status, s)
status_of status (threw e, s) = (threw e, s)

abbrev pub or_summary_only : Call → Summary → Key → Answer Status × Stores → Answer Status × Stores
or_summary_only again summary id (returned status, s) = (returned status, s)
or_summary_only again summary id (threw e, s) =
    let fallback = status_of browser_quota (save_summary_only again summary id s) in
    if is_quota_exceeded e then fallback else (threw e, s)

-- saveCoachingSession, whose second transaction is for a browser's full quota.
unfoldable pub save_session :
    Call → Call → Summary → Option Artifact → Stores → Answer Status × Stores
unfolding save_artifact save_summary_only
save_session call again summary none s =
    if is_id summary.id
    then status_of not_requested (save_summary_only call summary summary.id s)
    else (threw type_error, s)
save_session call again summary (some artifact) s =
    let saved = summary_with_artifact_metadata summary artifact in
    if is_id summary.id && is_id artifact.id && same_key artifact.id summary.id
    then or_summary_only again saved summary.id (save_artifact call saved artifact summary.id s)
    else (threw type_error, s)

-- cleanupExpiredCoachingArtifacts
unfoldable pub cleanup : Call → Stores → Answer ℕ × Stores
unfolding transact
cleanup call s =
    transact call.failure s (after_reconcile call.now call.now s (λ state t. (state.expired, t)))

abbrev pub and_then {ℓ κ} :
    {A : Type ℓ} {B : Type κ} → Option Error → (Stores → B) → Answer A × Stores → Answer B × Stores
and_then none read (returned a, s) = (returned (read s), s)
and_then (some e) read (returned a, s) = (threw e, s)
and_then failure read (threw e, s) = (threw e, s)

-- readCoachingSummaries: the clean up, then a second transaction that may fail.
unfoldable pub read_summaries : Call → Option Error → Stores → Answer (List Summary) × Stores
unfolding cleanup
read_summaries call failure s = and_then failure (λ t. t.summaries) (cleanup call s)

-- readCoachingSummary
unfoldable pub read_summary : Call → Option Error → Text → Stores → Answer (Option Summary) × Stores
unfolding cleanup summary_at
read_summary call failure id s =
    and_then failure (λ t. summary_at (text id) t.summaries) (cleanup call s)

abbrev pub scrub : Option Summary → List Summary → List Summary
scrub none summaries = summaries
scrub (some s) summaries = put_summary (summary_without_artifacts s) summaries

-- discardArtifact with scrubSummaryArtifacts, and the callback of deleteCoachingArtifacts.
unfoldable pub discard : Key → Stores → Stores
unfolding delete_at put_summary summary_at
discard id s = record {
  summaries = scrub (summary_at id s.summaries) s.summaries;
  artifacts = delete_at id s.artifacts;
  lifecycle = delete_at id s.lifecycle;
}

-- deleteCoachingArtifacts
unfoldable pub delete_artifacts : Option Error → Text → Stores → Answer (Unit {0}) × Stores
unfolding transact discard
delete_artifacts failure id s = transact failure s (returned (tt, discard (text id) s))

-- clearCoachingSummaries
unfoldable pub clear : Option Error → Stores → Answer (Unit {0}) × Stores
unfolding transact
clear failure s =
    transact failure s (returned (tt, record { summaries = []; artifacts = []; lifecycle = [] }))

abbrev pub active_at : Option Row → Key → ℕ → Option Lifecycle
active_at none id now = none
active_at (some row) id now = active_lifecycle row id now

abbrev pub claims : Option Summary → Bool
claims none = false
claims (some s) = summary_claims_artifacts s

-- The recording, if its row, its summary and its size allow it.
abbrev pub checked :
    Key → Option Lifecycle → Option Lifecycle → Bool → Option Artifact → Option ℕ → Option Artifact
checked id (some before) (some after) true (some artifact) (some bytes) =
    if same_key artifact.id id && bytes == after.logical_bytes then some artifact else none
checked id _ _ _ _ _ = none

abbrev pub bytes_of_found : Option Artifact → Option ℕ
bytes_of_found none = none
bytes_of_found (some a) = artifact_logical_bytes a

-- What the checks of readCoachingArtifact leave of the recording.
unfoldable pub readable : Call → Key → Stores → Option Artifact
unfolding value_at summary_at
readable call id s =
    let row = value_at id s.lifecycle in
    let found = value_at id s.artifacts in
    checked id (active_at row id call.now) (active_at row id call.completed)
      (claims (summary_at id s.summaries)) found (bytes_of_found found)

abbrev pub or_discard : Key → Stores → Option Artifact → Option Artifact × Stores
or_discard id s none = (none, discard id s)
or_discard id s (some a) = (some a, s)

-- Does readCoachingArtifact come to its second look at the clock?
abbrev pub reaches_artifact : Call → Key → Stores → Bool
reaches_artifact call id s =
    let row = value_at id s.lifecycle in
    elim (active_at row id call.now) [ none ↦ false | some l ↦ claims (summary_at id s.summaries) ]

-- The callback of readCoachingArtifact with its requests. The second time counts only if it is
-- looked at.
abbrev pub reading : Call → Key → Stores → Answer (Option Artifact × Stores)
reading call id s =
    let body = or_discard id s (readable call id s) in
    if leb call.now max_safe_integer
      && (not (reaches_artifact call id s) || leb call.completed max_safe_integer)
    then returned body
    else threw type_error

-- readCoachingArtifact
unfoldable pub read_artifact : Call → Text → Stores → Answer (Option Artifact) × Stores
unfolding transact readable discard
read_artifact call id s = transact call.failure s (reading call (text id) s)
