-- ===== src/Coach/Storage/Reconcile/Facts.antt =====
-- What reconcileArtifactState of cloudflare/public/coach-storage.js leaves of the recordings.
use non_stop_talk.Prelude.{
  ℕ, ◌≤◌, ◌<◌, max, ◌≡◌, refl, sym, true, List, [], ◌∷◌, Option, none, some, inl, inr, Option-cases,
  Bool-cases, arith,
}
use non_stop_talk.Coach.Storage.{
  Key, same_key, Artifact, Row, Lifecycle, artifact_logical_bytes, lifecycle_of,
}
use non_stop_talk.Coach.Storage.Records.{same_key_iff}
use non_stop_talk.Coach.Storage.Reconcile.{
  Stores, value_at, Details, artifact_details, details_at, is_claimed, Retained, keep, keep_with,
  kept_rows, retained_rows, find_retained, is_some, kept_artifacts, State, reconcile,
}

-- What a retained recording agrees with, at a key, in the stores s.
pub record Holds (now effective : ℕ) (s : Stores) (key : Key) (row : Row) (a : Artifact)
    : Type 0 where
  pub lifecycle : Lifecycle
  pub valid : lifecycle_of row key ≡ some lifecycle
  pub begun : lifecycle.retained_at ≤ now
  pub unexpired : effective < lifecycle.expires_at
  pub named : a.id ≡ key
  pub sized : artifact_logical_bytes a ≡ some lifecycle.logical_bytes
  pub claimed : is_claimed key s.summaries ≡ true

pub keep-lifecycle :
    (now effective : ℕ) (s : Stores) (k : Key) (row : Row) (r : Retained)
    → keep now effective s k row ≡ some r
    → (r.id ≡ k) × (lifecycle_of row k ≡ some r.lifecycle)
unfolding keep
keep-lifecycle now effective s k row r h = go (lifecycle_of row k) (details_at k s.artifacts) h
  where
    go :
        (l : Option Lifecycle) (d : Option Details)
        → keep_with now effective s k l d ≡ some r
        → (r.id ≡ k) × (l ≡ some r.lifecycle)
    go none d e = ground (arith, e)
    go (some l) none e = ground (arith, e)
    go (some l) (some d) e = ground (arith, e)

details_at-artifact :
    (key : Key) (artifacts : List (Key × Artifact)) (d : Details)
    → details_at key artifacts ≡ some d
    → (a : Artifact) × (value_at key artifacts ≡ some a) × (artifact_details key a ≡ some d)
unfolding details_at
details_at-artifact key artifacts d h = elim (Option-cases (value_at key artifacts)) [
  | inl e ↦ ground (arith, e, h)
  | inr (a, e) ↦ (a, e, ground (arith, e, h))
]

artifact_details-sized :
    (key : Key) (a : Artifact) (d : Details)
    → artifact_details key a ≡ some d
    → (a.id ≡ key) × (artifact_logical_bytes a ≡ some d.logical_bytes)
unfolding artifact_details
artifact_details-sized key a d h = elim (Option-cases (artifact_logical_bytes a)) [
  | inl e ↦ ground (arith, e, h)
  | inr (n, e) ↦ ground (arith, e, h, same_key_iff a.id key)
]

module _ (now effective : ℕ) (s : Stores) where
  kept_at :
      (key : Key) (rows : List (Key × Row)) (r : Retained)
      → find_retained key (retained_rows now effective s rows) ≡ some r
      → (row : Row) × (value_at key (kept_rows now effective s rows) ≡ some row)
        × (keep now effective s key row ≡ some r)
  unfolding find_retained retained_rows kept_rows value_at
  kept_at key [] r h = ground (arith, h)
  kept_at key ((k, row) ∷ rest) r h = elim (Option-cases (keep now effective s k row)) [
    | inl e ↦ let x = kept_at key rest r (ground (arith, e, h)) in (x.0, ground (arith, e, x), x.2)
    | inr (r', e) ↦
        let is : r'.id ≡ k = (keep-lifecycle now effective s k row r' e).0 in
        elim (Bool-cases (same_key k key)) [
          | inl same ↦
              (row, ground (arith, e, same), ground (arith, e, same, h, is, same_key_iff k key))
          | inr other ↦
              let x = kept_at key rest r (ground (arith, e, h, is, other)) in
              (x.0, ground (arith, e, other, x), x.2)
        ]
  ]

  pub keep-Holds :
      (key : Key) (row : Row) (r : Retained)
      → keep now effective s key row ≡ some r
      → (a : Artifact) × (value_at key s.artifacts ≡ some a)
        × (is_some (artifact_details key a) ≡ true)
        × Holds now effective s key row a
  unfolding keep
  keep-Holds key row r h = go (lifecycle_of row key) (details_at key s.artifacts) refl refl h
    where
      go :
          (l : Option Lifecycle) (d : Option Details)
          → lifecycle_of row key ≡ l
          → details_at key s.artifacts ≡ d
          → keep_with now effective s key l d ≡ some r
          → (a : Artifact) × (value_at key s.artifacts ≡ some a)
            × (is_some (artifact_details key a) ≡ true)
            × Holds now effective s key row a
      go none d e f k = ground (arith, k)
      go (some l) none e f k = ground (arith, k)
      go (some l) (some d) e f k =
          let x = details_at-artifact key s.artifacts d f in
          let y = artifact_details-sized key x.0 d x.2 in
          (
            x.0,
            x.1,
            ground (arith, x.2),
            record {
              lifecycle = l;
              valid = e;
              begun = ground (arith, k);
              unexpired = ground (arith, k);
              named = y.0;
              sized = ground (arith, k, y.1);
              claimed = ground (arith, k);
            },
          )

pub kept_first :
    (rs : List Retained) (key : Key) (artifacts : List (Key × Artifact)) (a : Artifact)
    → value_at key artifacts ≡ some a
    → is_some (artifact_details key a) ≡ true
    → is_some (find_retained key rs) ≡ true
    → value_at key (kept_artifacts rs artifacts) ≡ some a
unfolding value_at kept_artifacts
kept_first rs key [] a h d r = ground (arith, h)
kept_first rs key ((k, b) ∷ rest) a h d r = elim (Bool-cases (same_key k key)) [
  | inl e ↦
      let is : b ≡ a = ground (arith, e, h) in
      let at = (same_key_iff k key).0 e in ground (arith, e, is, at, d, r)
  | inr e ↦ let ih = kept_first rs key rest a (ground (arith, e, h)) d r in ground (arith, e, ih)
]

pub kept_artifacts-retained :
    (rs : List Retained) (key : Key) (artifacts : List (Key × Artifact)) (a : Artifact)
    → value_at key (kept_artifacts rs artifacts) ≡ some a
    → is_some (find_retained key rs) ≡ true
unfolding value_at kept_artifacts
kept_artifacts-retained rs key [] a h = ground (arith, h)
kept_artifacts-retained rs key ((k, b) ∷ rest) a h =
    let ih = kept_artifacts-retained rs key rest a in ground (arith, h, ih, same_key_iff k key)

-- Of every recording that reconcileArtifactState leaves, the lifecycle store keeps a valid row under
-- its key that began by now, is not expired at either time and has the recording's size; the
-- recording carries its key as id, and a summary claimed it. The three stores may have held anything.
pub reconcile-IsAccounted :
    (now completed : ℕ) (s t : Stores) (state : State) (key : Key) (a : Artifact)
    → reconcile now completed s ≡ some (state, t)
    → value_at key t.artifacts ≡ some a
    → (row : Row) × (value_at key t.lifecycle ≡ some row)
      × Holds now (max now completed) s key row a
unfolding reconcile
reconcile-IsAccounted now completed s t state key a h at =
    let effective = max now completed in
    let rs = retained_rows now effective s s.lifecycle in
    let left : t.artifacts ≡ kept_artifacts rs s.artifacts = ground (arith, h) in
    let rows : t.lifecycle ≡ kept_rows now effective s s.lifecycle = ground (arith, h) in
    let here : value_at key (kept_artifacts rs s.artifacts) ≡ some a = rw (sym left) at in
    elim (Option-cases (find_retained key rs)) [
      | inl e ↦ ground (arith, e, kept_artifacts-retained rs key s.artifacts a here)
      | inr (r, e) ↦
          let x = kept_at now effective s key s.lifecycle r e in
          let y = keep-Holds now effective s key x.0 r x.2 in
          let first = kept_first rs key s.artifacts y.0 y.1 y.2 (ground (arith, e)) in
          let is : y.0 ≡ a = ground (arith, first, here) in (x.0, rw rows x.1, rw (sym is) y.3)
    ]
