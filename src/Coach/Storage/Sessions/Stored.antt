-- ===== src/Coach/Storage/Sessions/Stored.antt =====
-- A save of cloudflare/public/coach-storage.js that stores its recording, taken apart.
use non_stop_talk.Prelude.{
  ℕ, ◌≡◌, refl, ◌≢◌, ◌&&◌, true, false, Option, none, some, inl, inr, Option-cases, Bool-cases,
  arith,
}
use non_stop_talk.Coach.Storage.{
  Key, same_key, is_id, Artifact, Row, Summary, artifact_logical_bytes, artifact_lifecycle_record,
  summary_with_artifact_metadata,
}
use non_stop_talk.Coach.Storage.Reconcile.{Stores, State, reconcile}
use non_stop_talk.Coach.Storage.Sessions.{
  Error, Call, Answer, returned, threw, Status, stored, browser_quota, transact, has_room,
  store_session, put_session, save_row, save_artifact, save_summary_only, status_of,
  or_summary_only, save_session, is_quota_exceeded,
}

-- How a recording came to be stored: its bytes and row, and what the reconciliation left.
pub record IsStored (now : ℕ) (summary : Summary) (artifact : Artifact) (id : Key) (s t : Stores)
    : Type 0 where
  pub bytes : ℕ
  pub row : Row
  pub state : State
  pub before : Stores
  pub sized : artifact_logical_bytes artifact ≡ some bytes
  pub made : artifact_lifecycle_record artifact id now false ≡ some row
  pub reconciled : reconcile now now s ≡ some (state, before)
  pub fits : has_room bytes id state ≡ true
  pub put : t ≡ put_session summary artifact id row before

pub transact-returned {ℓ} :
    {A : Type ℓ} (failure : Option Error) (s : Stores) (body : Answer (A × Stores)) (a : A)
    (t : Stores)
    → transact failure s body ≡ (returned a, t)
    → body ≡ returned (a, t)
unfolding transact
transact-returned none s (returned x) a t h = ground (arith, h)
transact-returned none s (threw e) a t h = ground (arith, h)
transact-returned (some e) s (returned x) a t h = ground (arith, h)
transact-returned (some e) s (threw e') a t h = ground (arith, h)

module _ (call : Call) (summary : Summary) (artifact : Artifact) (id : Key) (s t : Stores) where
  store_session-stored :
      (bytes : ℕ) (row : Row) (state : State) (before : Stores)
      → store_session summary artifact id bytes row state before ≡ (stored, t)
      → (has_room bytes id state ≡ true) × (t ≡ put_session summary artifact id row before)
  unfolding store_session
  store_session-stored bytes row state before h = elim (Bool-cases (has_room bytes id state)) [
    | inl e ↦ ground (arith, e, h)
    | inr e ↦ ground (arith, e, h)
  ]

  save_row-stored :
      (bytes : Option ℕ) (row : Option Row)
      → artifact_logical_bytes artifact ≡ bytes
      → artifact_lifecycle_record artifact id call.now false ≡ row
      → save_row call summary artifact id bytes row s ≡ returned (stored, t)
      → IsStored call.now summary artifact id s t
  save_row-stored none row e f h = ground (arith, h)
  save_row-stored (some bytes) none e f h = ground (arith, h)
  save_row-stored (some bytes) (some row) e f h =
      elim (Option-cases (reconcile call.now call.now s)) [
        | inl g ↦ ground (arith, g, h)
        | inr ((state, before), g) ↦
            let last : store_session summary artifact id bytes row state before ≡ (stored, t) =
              ground (arith, g, h) in
            let x = store_session-stored bytes row state before last in
            record {
              bytes = bytes;
              row = row;
              state = state;
              before = before;
              sized = e;
              made = f;
              reconciled = g;
              fits = x.0;
              put = x.1;
            }
      ]

  save_artifact-stored :
      save_artifact call summary artifact id s ≡ (returned stored, t)
      → IsStored call.now summary artifact id s t
  unfolding save_artifact
  save_artifact-stored h =
      save_row-stored (artifact_logical_bytes artifact)
        (artifact_lifecycle_record artifact id call.now false) refl refl
        (transact-returned call.failure s _ stored t h)

status_of-ne_stored :
    (r : Answer (Unit {0}) × Stores) (t : Stores) → status_of browser_quota r ≢ (returned stored, t)
status_of-ne_stored (returned u, s) t h = ground (arith, h)
status_of-ne_stored (threw e, s) t h = ground (arith, h)

or_summary_only-stored :
    (again : Call) (summary : Summary) (id : Key) (r : Answer Status × Stores) (t : Stores)
    → or_summary_only again summary id r ≡ (returned stored, t)
    → r ≡ (returned stored, t)
or_summary_only-stored again summary id (returned status, s) t h = h
or_summary_only-stored again summary id (threw e, s) t h = elim (Bool-cases (is_quota_exceeded e)) [
  | inl q ↦
      elim (status_of-ne_stored (save_summary_only again summary id s) t (ground (arith, q, h))) [ ]
  | inr q ↦ ground (arith, q, h)
]

pub save_session-stored :
    (call again : Call) (summary : Summary) (artifact : Artifact) (s t : Stores)
    → save_session call again summary (some artifact) s ≡ (returned stored, t)
    → IsStored call.now (summary_with_artifact_metadata summary artifact) artifact summary.id s t
      × (same_key artifact.id summary.id ≡ true)
unfolding save_session
save_session-stored call again summary artifact s t h =
    let saved = summary_with_artifact_metadata summary artifact in
    let first = save_artifact call saved artifact summary.id s in
    elim (Bool-cases (is_id summary.id && is_id artifact.id && same_key artifact.id summary.id)) [
      | inl e ↦ (
        save_artifact-stored call saved artifact summary.id s t
            (or_summary_only-stored again saved summary.id first t (ground (arith, e, h))),
        ground (arith, e),
      )
      | inr e ↦ ground (arith, e, h)
    ]
