-- ===== src/Coach/Storage/Sessions/Staying.antt =====
-- The recordings that reconcileArtifactState of cloudflare/public/coach-storage.js counts, and those
-- that it leaves.
use non_stop_talk.Prelude.{
  ℕ, max, ◌≡◌, refl, sym, ap, ◌∙◌, true, List, [], ◌∷◌, Option, none, some, inl, inr, Bool-cases,
  All, All-imp, arith,
}
use non_stop_talk.Coach.Storage.{Key, same_key, Lifecycle, Artifact, Row, artifact_logical_bytes}
use non_stop_talk.Coach.Storage.Records.{same_key_refl}
use non_stop_talk.Coach.Storage.Reconcile.{
  Stores, value_at, Retained, keep, retained_rows, find_retained, is_some, kept_artifacts, State,
  reconcile,
}
use non_stop_talk.Coach.Storage.Reconcile.Facts.{
  keep-lifecycle, keep-Holds, kept_first, kept_artifacts-retained,
}
use non_stop_talk.Coach.Storage.Sessions.Snapshot.{expires_first, insert_session, sort_sessions}

-- There is a recording of an entry's id and size.
abbrev pub IsStored : List (Key × Artifact) → Retained → Type 0
IsStored artifacts r =
    (a : Artifact) × (value_at r.id artifacts ≡ some a)
    × (artifact_logical_bytes a ≡ some r.lifecycle.logical_bytes)

found_all : (rs : List Retained) → All (λ r. is_some (find_retained r.id rs) ≡ true) rs
unfolding find_retained
found_all [] = tt
found_all (r ∷ rs) =
    (rw (same_key_refl r.id) refl, All-imp _ _ rs (λ x h. ground (arith, h)) (found_all rs))

module _ (now effective : ℕ) (s : Stores) where
  kept-IsStored :
      (all : List Retained) (k : Key) (row : Row) (r : Retained)
      → keep now effective s k row ≡ some r
      → is_some (find_retained r.id all) ≡ true
      → IsStored (kept_artifacts all s.artifacts) r
  kept-IsStored all k row r h found =
      let (is, lifecycle) = keep-lifecycle now effective s k row r h in
      let (a, at, detailed, held) = keep-Holds now effective s k row r h in
      let same : held.lifecycle ≡ r.lifecycle = ground (arith, lifecycle, held.valid) in
      (
        a,
        rw is (kept_first all k s.artifacts a at detailed (rw (sym is) found)),
        held.sized ∙ ap (λ (l : Lifecycle). some l.logical_bytes) same,
      )

  rows-IsStored :
      (all : List Retained) (rows : List (Key × Row))
      → All (λ r. is_some (find_retained r.id all) ≡ true) (retained_rows now effective s rows)
      → All (IsStored (kept_artifacts all s.artifacts)) (retained_rows now effective s rows)
  unfolding retained_rows
  rows-IsStored all [] h = tt
  rows-IsStored all ((k, row) ∷ rest) h =
      go (keep now effective s k row) refl h (rows-IsStored all rest)
    where
      go :
          (o : Option Retained)
          → keep now effective s k row ≡ o
          → All
              (λ r. is_some (find_retained r.id all) ≡ true)
              (elim o [
                | none ↦ retained_rows now effective s rest
                | some r ↦ r ∷ retained_rows now effective s rest
              ])
          → (All (λ r. is_some (find_retained r.id all) ≡ true) (retained_rows now effective s rest)
              → All
                  (IsStored (kept_artifacts all s.artifacts))
                  (retained_rows now effective s rest))
          → All (IsStored (kept_artifacts all s.artifacts)) (elim o [
            | none ↦ retained_rows now effective s rest
            | some r ↦ r ∷ retained_rows now effective s rest
          ])
      go none e k' others = others k'
      go (some r) e k' others = (kept-IsStored all k row r e k'.0, others k'.1)

insert_session-All :
    (P : Retained → Type 0) (r : Retained) (rs : List Retained)
    → P r
    → All P rs
    → All P (insert_session r rs)
unfolding insert_session
insert_session-All P r [] h k = (h, tt)
insert_session-All P r (x ∷ rest) h k = elim (Bool-cases (expires_first x r)) [
  | inl e ↦ rw e (k.0, insert_session-All P r rest h k.1)
  | inr e ↦ rw e (h, k)
]

sort_sessions-All :
    (P : Retained → Type 0) (rs : List Retained) → All P rs → All P (sort_sessions rs)
unfolding sort_sessions
sort_sessions-All P [] h = tt
sort_sessions-All P (r ∷ rs) h = insert_session-All P r _ h.0 (sort_sessions-All P rs h.1)

insert_session-found :
    (key : Key) (r : Retained) (rs : List Retained)
    → is_some (find_retained key (r ∷ rs)) ≡ true
    → is_some (find_retained key (insert_session r rs)) ≡ true
unfolding insert_session find_retained
insert_session-found key r [] h = h
insert_session-found key r (x ∷ rest) h =
    let ih = insert_session-found key r rest in
    elim (Bool-cases (expires_first x r)) [
      | inr e ↦ rw e h
      | inl e ↦ elim (Bool-cases (same_key x.id key)) [
        | inl f ↦ rw (e, f) refl
        | inr f ↦ rw (e, f) (ih (rw f at h))
      ]
    ]

sort_sessions-found :
    (key : Key) (rs : List Retained)
    → is_some (find_retained key rs) ≡ true
    → is_some (find_retained key (sort_sessions rs)) ≡ true
unfolding sort_sessions find_retained
sort_sessions-found key [] h = h
sort_sessions-found key (r ∷ rs) h =
    insert_session-found key r (sort_sessions rs) (elim (Bool-cases (same_key r.id key)) [
      | inl e ↦ rw e refl
      | inr e ↦ rw e (sort_sessions-found key rs (rw e at h))
    ])

-- The sessions in their order are the recordings that are left: there is one for each of them, and
-- one of them for each.
pub reconcile-sessions :
    (now completed : ℕ) (s t : Stores) (state : State)
    → reconcile now completed s ≡ some (state, t)
    → All (IsStored t.artifacts) (sort_sessions state.retained)
      × ((key : Key) (a : Artifact)
          → value_at key t.artifacts ≡ some a
          → is_some (find_retained key (sort_sessions state.retained)) ≡ true)
unfolding reconcile
reconcile-sessions now completed s t state h =
    let rs = retained_rows now (max now completed) s s.lifecycle in
    let is : (state.retained ≡ rs) × (t.artifacts ≡ kept_artifacts rs s.artifacts) =
      ground (arith, h) in
    rw (is.0, is.1)
      (
        sort_sessions-All (IsStored (kept_artifacts rs s.artifacts)) rs
            (rows-IsStored now (max now completed) s rs s.lifecycle (found_all rs)),
        λ key a at. sort_sessions-found key rs (kept_artifacts-retained rs key s.artifacts a at),
      )
