-- ===== src/Coach/Storage/Sessions/Reading.antt =====
-- Which recordings readCoachingArtifact of cloudflare/public/coach-storage.js gives, and what it
-- does with the others.
use non_stop_talk.Prelude.{
  ℕ, ◌≤◌, ◌<◌, ◌≡◌, refl, sym, ap, Bool, true, false, Option, none, some, inl, inr, Option-cases,
  arith,
}
use non_stop_talk.Text.{Text}
use non_stop_talk.Coach.Storage.{
  Key, text, same_key, Artifact, Row, Lifecycle, Summary, artifact_logical_bytes, lifecycle_of,
  active_lifecycle, summary_claims_artifacts,
}
use non_stop_talk.Coach.Storage.Records.{same_key_iff}
use non_stop_talk.Coach.Storage.Reconcile.{Stores, value_at, summary_at}
use non_stop_talk.Coach.Storage.Sessions.Stored.{transact-returned}
use non_stop_talk.Coach.Storage.Sessions.{
  Call, returned, or_discard, reading, readable, checked, active_at, claims, bytes_of_found,
  read_artifact,
}
use non_stop_talk.Coach.Storage.Sessions.Discarding.{IsDiscarded, discard-IsDiscarded}

-- A recording that may be played: what the stores hold of it agrees, at both times.
pub record IsReadable (call : Call) (id : Key) (s : Stores) (a : Artifact) : Type 0 where
  pub row : Row
  pub lifecycle : Lifecycle
  pub summary : Summary
  pub found : value_at id s.artifacts ≡ some a
  pub named : a.id ≡ id
  pub found_row : value_at id s.lifecycle ≡ some row
  pub valid : lifecycle_of row id ≡ some lifecycle
  pub retained : (lifecycle.retained_at ≤ call.now) × (lifecycle.retained_at ≤ call.completed)
  pub unexpired : (call.now < lifecycle.expires_at) × (call.completed < lifecycle.expires_at)
  pub sized : artifact_logical_bytes a ≡ some lifecycle.logical_bytes
  pub summarised : summary_at id s.summaries ≡ some summary
  pub claimed : summary_claims_artifacts summary ≡ true

active-lifecycle :
    (row : Row) (id : Key) (now : ℕ) (l : Lifecycle)
    → active_lifecycle row id now ≡ some l
    → (lifecycle_of row id ≡ some l) × (l.retained_at ≤ now) × (now < l.expires_at)
unfolding active_lifecycle
active-lifecycle row id now l h = elim (Option-cases (lifecycle_of row id)) [
  | inl e ↦ ground (arith, e, h)
  | inr (l', e) ↦ ground (arith, e, h)
]

module _ (call : Call) (id : Key) (s : Stores) (a : Artifact) where
  agreeing :
      (row : Row) (m : Summary) (b : Artifact) (before after : Lifecycle) (bytes : ℕ)
      → value_at id s.lifecycle ≡ some row
      → summary_at id s.summaries ≡ some m
      → value_at id s.artifacts ≡ some b
      → active_lifecycle row id call.now ≡ some before
      → active_lifecycle row id call.completed ≡ some after
      → artifact_logical_bytes b ≡ some bytes
      → summary_claims_artifacts m ≡ true
      → checked id (some before) (some after) true (some b) (some bytes) ≡ some a
      → IsReadable call id s a
  agreeing row m b before after bytes at_row at_summary at_artifact first second size claim h =
      let x = active-lifecycle row id call.now before first in
      let y = active-lifecycle row id call.completed after second in
      let same : before ≡ after = ground (arith, x.0, y.0) in
      let is : (b ≡ a) × (same_key b.id id ≡ true) × (bytes ≡ after.logical_bytes) =
        ground (arith, h) in
      record {
        row = row;
        lifecycle = after;
        summary = m;
        found = ground (arith, at_artifact, is.0);
        named = ground (arith, is.0, is.1, same_key_iff b.id id);
        found_row = at_row;
        valid = y.0;
        retained = ground (arith, x, y, same);
        unexpired = ground (arith, x, y, same);
        sized = ground (arith, size, is);
        summarised = at_summary;
        claimed = claim;
      }

  found_all :
      (row : Row) (m : Summary) (b : Artifact) (before after : Option Lifecycle) (claim : Bool)
      (bytes : Option ℕ)
      → value_at id s.lifecycle ≡ some row
      → summary_at id s.summaries ≡ some m
      → value_at id s.artifacts ≡ some b
      → active_lifecycle row id call.now ≡ before
      → active_lifecycle row id call.completed ≡ after
      → summary_claims_artifacts m ≡ claim
      → artifact_logical_bytes b ≡ bytes
      → checked id before after claim (some b) bytes ≡ some a
      → IsReadable call id s a
  found_all row m b (some before) (some after) true (some bytes) e f g i j k l h =
      agreeing row m b before after bytes e f g i j l k h
  found_all row m b none after claim bytes e f g i j k l h = ground (arith, h)
  found_all row m b (some before) none claim bytes e f g i j k l h = ground (arith, h)
  found_all row m b (some before) (some after) false bytes e f g i j k l h = ground (arith, h)
  found_all row m b (some before) (some after) true none e f g i j k l h = ground (arith, h)

  readable-IsReadable : readable call id s ≡ some a → IsReadable call id s a
  unfolding readable
  readable-IsReadable =
      go (value_at id s.lifecycle) (summary_at id s.summaries) (value_at id s.artifacts) refl refl
        refl
    where
      go :
          (row : Option Row) (m : Option Summary) (found : Option Artifact)
          → value_at id s.lifecycle ≡ row
          → summary_at id s.summaries ≡ m
          → value_at id s.artifacts ≡ found
          → checked id
              (active_at row id call.now)
              (active_at row id call.completed)
              (claims m)
              found
              (bytes_of_found found)
            ≡ some a
          → IsReadable call id s a
      go none m found e f g h = ground (arith, h)
      go (some row) none found e f g h = ground (arith, h)
      go (some row) (some m) none e f g h = ground (arith, h)
      go (some row) (some m) (some b) e f g h =
          found_all row m b (active_lifecycle row id call.now)
            (active_lifecycle row id call.completed) (summary_claims_artifacts m)
            (artifact_logical_bytes b) e f g refl refl refl refl h

abbrev pub IsRead : Call → Key → Stores → Option Artifact → Stores → Type 0
IsRead call id s (some a) t = IsReadable call id s a × (t ≡ s)
IsRead call id s none t = IsDiscarded id s t

-- When readCoachingArtifact answers, then either with a recording that is stored under the id and
-- carries it, with a valid row that is active at both times and has its size, and with a summary that
-- claims it, and the stores stay; or with nothing, and then no recording, row or claim is left
-- under the id, and the recordings and rows of other ids stay.
pub read_artifact-IsRead :
    (call : Call) (id : Text) (s t : Stores) (found : Option Artifact)
    → read_artifact call id s ≡ (returned found, t)
    → IsRead call (text id) s found t
unfolding read_artifact
read_artifact-IsRead call id s t found h = go (readable call (text id) s) refl (body_of h)
  where
    body_of :
        read_artifact call id s ≡ (returned found, t)
        → or_discard (text id) s (readable call (text id) s) ≡ (found, t)
    body_of h =
        ground (arith, transact-returned call.failure s (reading call (text id) s) found t h)

    go :
        (r : Option Artifact)
        → readable call (text id) s ≡ r
        → or_discard (text id) s r ≡ (found, t)
        → IsRead call (text id) s found t
    go none e k =
        rw (sym (ap (λ x. x.0) k), sym (ap (λ x. x.1) k)) (discard-IsDiscarded (text id) s)
    go (some a) e k =
        rw (sym (ap (λ x. x.0) k)) (readable-IsReadable call (text id) s a e, sym (ap (λ x. x.1) k))
