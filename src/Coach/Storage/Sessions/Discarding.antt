-- ===== src/Coach/Storage/Sessions/Discarding.antt =====
-- What is left of a recording that cloudflare/public/coach-storage.js discards.
use non_stop_talk.Prelude.{
  ◌≡◌, ◌≢◌, refl, not, Bool, true, false, List, [], ◌∷◌, Option, none, some, inl, inr, Bool-cases,
  arith,
}
use non_stop_talk.Text.{same_text}
use non_stop_talk.Js.{field_of, fields_of}
use non_stop_talk.Coach.Storage.{
  Key, same_key, Summary, summary_without_artifacts, summary_claims_artifacts, metadata_value,
}
use non_stop_talk.Coach.Storage.Records.{same_key_refl, same_key_iff}
use non_stop_talk.Coach.Storage.Reconcile.{Stores, value_at, delete_at, summary_at, put_summary}
use non_stop_talk.Coach.Storage.Sessions.{discard, scrub}

module _ {ℓ} {A : Type ℓ} where
  value_at-delete_at : (id : Key) (s : List (Key × A)) → value_at id (delete_at id s) ≡ none
  unfolding value_at delete_at
  value_at-delete_at id [] = refl
  value_at-delete_at id ((k, a) ∷ rest) = elim (Bool-cases (same_key k id)) [
    | inl e ↦ ground (arith, e, value_at-delete_at id rest)
    | inr e ↦ ground (arith, e, value_at-delete_at id rest)
  ]

  value_at-delete_other :
      (id key : Key) (s : List (Key × A))
      → key ≢ id
      → value_at key (delete_at id s) ≡ value_at key s
  unfolding value_at delete_at
  value_at-delete_other id key [] h = refl
  value_at-delete_other id key ((k, a) ∷ rest) h =
      let ih = value_at-delete_other id key rest h in
      elim (Bool-cases (same_key k id)) [
        | inl e ↦ ground (arith, e, ih, h, same_key_iff k id, same_key_iff k key)
        | inr e ↦ ground (arith, e, ih, h)
      ]

-- The summary of an id, if there is one, claims no recording.
unfoldable pub claims_nothing : Key → List Summary → Bool
claims_nothing id summaries = elim (summary_at id summaries) [
  | none ↦ true
  | some s ↦ not (summary_claims_artifacts s)
]

summary_at-id :
    (id : Key) (summaries : List Summary) (s : Summary)
    → summary_at id summaries ≡ some s
    → s.id ≡ id
unfolding summary_at
summary_at-id id [] s h = ground (arith, h)
summary_at-id id (t ∷ rest) s h = elim (Bool-cases (same_key t.id id)) [
  | inl e ↦ ground (arith, e, h, same_key_iff t.id id)
  | inr e ↦ summary_at-id id rest s (ground (arith, e, h))
]

pub summary_at-put_summary :
    (s : Summary) (summaries : List Summary) → summary_at s.id (put_summary s summaries) ≡ some s
unfolding summary_at put_summary
summary_at-put_summary s [] = ground (arith, same_key_refl s.id)
summary_at-put_summary s (t ∷ rest) =
    let ih = summary_at-put_summary s rest in
    elim (Bool-cases (same_key t.id s.id)) [
      | inl e ↦ ground (arith, e, same_key_refl s.id)
      | inr e ↦ ground (arith, e, ih)
    ]

unclaimed : (s : Summary) → summary_claims_artifacts (summary_without_artifacts s) ≡ false
unfolding summary_claims_artifacts summary_without_artifacts metadata_value field_of fields_of
    same_text
unclaimed s = refl

scrubbed :
    (id : Key) (summaries : List Summary)
    → claims_nothing id (scrub (summary_at id summaries) summaries) ≡ true
unfolding claims_nothing summary_without_artifacts
scrubbed id summaries = go (summary_at id summaries) refl
  where
    go :
        (found : Option Summary)
        → summary_at id summaries ≡ found
        → claims_nothing id (scrub found summaries) ≡ true
    go none e = ground (arith, e)
    go (some s) e =
        let at = summary_at-id id summaries s e in
        let put = summary_at-put_summary (summary_without_artifacts s) summaries in
        ground (arith, at, put, unclaimed s)

-- Nothing is left of a recording, and the others are as they were.
pub record IsDiscarded (id : Key) (s t : Stores) : Type 0 where
  pub recording : value_at id t.artifacts ≡ none
  pub row : value_at id t.lifecycle ≡ none
  pub summary : claims_nothing id t.summaries ≡ true
  pub others :
      (key : Key)
      → key ≢ id
      → (value_at key t.artifacts ≡ value_at key s.artifacts)
        × (value_at key t.lifecycle ≡ value_at key s.lifecycle)

pub discard-IsDiscarded : (id : Key) (s : Stores) → IsDiscarded id s (discard id s)
unfolding discard
discard-IsDiscarded id s = record {
  recording = value_at-delete_at id s.artifacts;
  row = value_at-delete_at id s.lifecycle;
  summary = scrubbed id s.summaries;
  others = λ key h.
      (value_at-delete_other id key s.artifacts h, value_at-delete_other id key s.lifecycle h);
}
