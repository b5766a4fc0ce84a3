-- ===== src/CloudProgress/Merging.antt =====
-- mergeCoachingSummaries of cloudflare/public/cloud-progress.js, as a map from ids to summaries.
use non_stop_talk.Prelude.{
  ◌≡◌, refl, sym, ◌∙◌, Bool, true, false, List, [], ◌∷◌, Option, none, some, inl, inr,
  if◌then◌else◌, Bool-cases, arith,
}
use non_stop_talk.Text.{Text, same_text, is_empty}
use non_stop_talk.Text.Laws.{same_text_iff}
use non_stop_talk.CloudProgress.{
  Item, set_item, set_items, insert_item, sort_items, merge_summaries,
}

-- The summary of an id in a list, and the last one of several.
unfoldable pub find_item : Text → List Item → Option Item
find_item id [] = none
find_item id (x ∷ rest) = if same_text x.id id then some x else find_item id rest

abbrev pub prefer : Option Item → Option Item → Option Item
prefer none second = second
prefer (some x) second = some x

unfoldable pub last_item : Text → List Item → Option Item
last_item id [] = none
last_item id (x ∷ rest) = prefer (last_item id rest) (if same_text x.id id then some x else none)

abbrev IdsDiffer : List Item → Type 0
IdsDiffer [] = Unit
IdsDiffer (x ∷ rest) = (find_item x.id rest ≡ none) × IdsDiffer rest

find_item-set_item :
    (id : Text) (x : Item) (xs : List Item)
    → find_item id (set_item x xs) ≡ (if same_text x.id id then some x else find_item id xs)
unfolding find_item set_item
find_item-set_item id x [] = refl
find_item-set_item id x (y ∷ rest) =
    let ih = find_item-set_item id x rest in
    elim (Bool-cases (same_text y.id x.id)) [
      | inl e ↦ let same = (same_text_iff y.id x.id).0 e in ground (arith, e, same)
      | inr e ↦ elim (Bool-cases (same_text y.id id)) [
        | inl f ↦
            ground
              (arith, e, f, same_text_iff y.id id, same_text_iff x.id id, same_text_iff y.id x.id)
        | inr f ↦ ground (arith, e, f, ih)
      ]
    ]

set_item-IdsDiffer : (x : Item) (xs : List Item) → IdsDiffer xs → IdsDiffer (set_item x xs)
unfolding set_item find_item
set_item-IdsDiffer x [] h = (refl, tt)
set_item-IdsDiffer x (y ∷ rest) (h, k) = go (same_text y.id x.id) refl (set_item-IdsDiffer x rest k)
  where
    go :
        (b : Bool)
        → same_text y.id x.id ≡ b
        → IdsDiffer (set_item x rest)
        → IdsDiffer (if b then x ∷ rest else y ∷ set_item x rest)
    go true e ih = (rw (sym ((same_text_iff y.id x.id).0 e)) h, k)
    go false e ih = (
      find_item-set_item y.id x rest
          ∙ ground (arith, e, h, same_text_iff x.id y.id, same_text_iff y.id x.id),
      ih,
    )

set_items-IdsDiffer : (xs all : List Item) → IdsDiffer all → IdsDiffer (set_items xs all)
unfolding set_items
set_items-IdsDiffer [] all h = h
set_items-IdsDiffer (x ∷ rest) all h = go (is_empty x.id) (set_items-IdsDiffer rest)
  where
    go :
        (b : Bool)
        → ((all' : List Item) → IdsDiffer all' → IdsDiffer (set_items rest all'))
        → IdsDiffer (set_items rest (if b then all else set_item x all))
    go true ih = ih all h
    go false ih = ih (set_item x all) (set_item-IdsDiffer x all h)

find_item-set_items :
    (id : Text) (xs all : List Item)
    → is_empty id ≡ false
    → find_item id (set_items xs all) ≡ prefer (last_item id xs) (find_item id all)
unfolding set_items last_item
find_item-set_items id [] all h = refl
find_item-set_items id (x ∷ rest) all h =
    let put = find_item-set_item id x all in
    elim (Bool-cases (is_empty x.id)) [
      | inl e ↦
          let ih = find_item-set_items id rest all h in
          ground (arith, e, h, ih, same_text_iff x.id id)
      | inr e ↦
          let ih = find_item-set_items id rest (set_item x all) h in ground (arith, e, ih, put)
    ]

module _ (newer : Text → Text → Bool) where
  find_item-insert_item :
      (id : Text) (x : Item) (xs : List Item)
      → find_item x.id xs ≡ none
      → find_item id (insert_item newer x xs)
        ≡ (if same_text x.id id then some x else find_item id xs)
  unfolding find_item insert_item
  find_item-insert_item id x [] h = refl
  find_item-insert_item id x (y ∷ rest) h = elim (Bool-cases (same_text y.id x.id)) [
    | inl e ↦ ground (arith, e, h)
    | inr e ↦
        let ih = find_item-insert_item id x rest (ground (arith, e, h)) in
        ground (arith, e, ih, same_text_iff y.id id, same_text_iff x.id id, same_text_iff y.id x.id)
  ]

  find_item-sort_items :
      (id : Text) (xs : List Item)
      → IdsDiffer xs
      → find_item id (sort_items newer xs) ≡ find_item id xs
  unfolding find_item sort_items
  find_item-sort_items id [] h = refl
  find_item-sort_items id (x ∷ rest) (h, k) =
      let there = find_item-sort_items x.id rest k ∙ h in
      let ih = find_item-sort_items id rest k in
      find_item-insert_item id x (sort_items newer rest) there ∙ ground (arith, ih)

  -- The merged list has, for every id, the last summary that the browser has of it, or else the
  -- last one of the server's copies, or else none, however the sort compares dates.
  pub find_item-merge_summaries :
      (locals clouds : List Item) (id : Text)
      → is_empty id ≡ false
      → find_item id (merge_summaries newer locals clouds)
        ≡ prefer (last_item id locals) (last_item id clouds)
  unfolding merge_summaries find_item
  find_item-merge_summaries locals clouds id h =
      let base = set_items clouds [] in
      let differ = set_items-IdsDiffer locals base (set_items-IdsDiffer clouds [] tt) in
      let first = find_item-sort_items id (set_items locals base) differ in
      let second = find_item-set_items id locals base h in
      let third = find_item-set_items id clouds [] h in ground (arith, first, second, third)
