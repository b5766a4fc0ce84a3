-- ===== src/SetupKits/Store/Placing.antt =====
-- A kit placed in a list of kits, or taken out of it, by its name: the lists that save and remove of
-- cloudflare/public/setup-kits.js store.
use non_stop_talk.Prelude.{
  ℕ, zero, suc, ◌≡◌, ◌≢◌, ◌≤◌, ◌<◌, refl, ◌∙◌, sym, Bool, false, List, [], ◌∷◌, ◌++◌, length,
  length-append, length-set, arith, set, All, All-append, All-imp, none, some, inl, inr,
  Option-cases,
}
use non_stop_talk.Text.{Text, same_text}
use non_stop_talk.Text.Laws.{same_text_iff, same_text_refl}
use non_stop_talk.Js.{Builtins}
use non_stop_talk.Room.{remove_at}
use non_stop_talk.SetupKits.{ok, Kit, max_count}
use non_stop_talk.SetupKits.Store.{kit_index, find_kit, placed}
use non_stop_talk.SetupKits.Store.Reading.{NamesDiffer, NamesDiffer-push, IsNormal, IsStorable}

index_zero :
    (name : Text) (k : Kit) (ks : List Kit) → kit_index name (k ∷ ks) ≡ some zero → k.name ≡ name
unfolding kit_index
index_zero name k ks h = ground (arith, same_text_iff k.name name)

index_suc :
    (name : Text) (k : Kit) (ks : List Kit) (i : ℕ)
    → kit_index name (k ∷ ks) ≡ some (suc i)
    → (same_text k.name name ≡ false) × (kit_index name ks ≡ some i)
unfolding kit_index
index_suc name k ks i h = ground arith

index_none :
    (name : Text) (ks : List Kit) → kit_index name ks ≡ none → All (λ (j : Kit). name ≢ j.name) ks
unfolding kit_index
index_none name [] h = tt
index_none name (k ∷ ks) h =
    (λ same. ground (arith, h, same, same_text_iff k.name name), index_none name ks (ground arith))

find_none :
    (name : Text) (ks : List Kit) → All (λ (j : Kit). j.name ≢ name) ks → find_kit name ks ≡ none
unfolding find_kit
find_none name [] h = refl
find_none name (k ∷ ks) h = ground (arith, h.0, same_text_iff k.name name, find_none name ks h.1)

All-set : (P : Kit → Type 0) (ks : List Kit) (i : ℕ) (k : Kit) → P k → All P ks → All P (set ks i k)
All-set P [] i k p h = tt
All-set P (j ∷ ks) zero k p h = (p, h.1)
All-set P (j ∷ ks) (suc i) k p h = (h.0, All-set P ks i k p h.1)

All-remove_at : (P : Kit → Type 0) (ks : List Kit) (i : ℕ) → All P ks → All P (remove_at i ks)
unfolding remove_at
All-remove_at P [] i h = tt
All-remove_at P (j ∷ ks) zero h = h.1
All-remove_at P (j ∷ ks) (suc i) h = (h.0, All-remove_at P ks i h.1)

length-remove_at : (ks : List Kit) (i : ℕ) → length (remove_at i ks) ≤ length ks
unfolding remove_at
length-remove_at [] i = omega arith
length-remove_at (k ∷ ks) zero = omega arith
length-remove_at (k ∷ ks) (suc i) = omega (arith, length-remove_at ks i)

NamesDiffer-set :
    (ks : List Kit) (i : ℕ) (kit : Kit)
    → kit_index kit.name ks ≡ some i
    → NamesDiffer ks
    → NamesDiffer (set ks i kit)
NamesDiffer-set [] i kit h d = tt
NamesDiffer-set (k ∷ ks) zero kit h d =
    (All-imp _ _ ks (λ j apart same. apart (same ∙ sym (index_zero kit.name k ks h))) d.0, d.1)
NamesDiffer-set (k ∷ ks) (suc i) kit h d =
    let (apart, later) = index_suc kit.name k ks i h in
    (
      All-set _ ks i kit (λ same. ground (arith, apart, same, same_text_iff k.name kit.name)) d.0,
      NamesDiffer-set ks i kit later d.1,
    )

NamesDiffer-remove_at : (ks : List Kit) (i : ℕ) → NamesDiffer ks → NamesDiffer (remove_at i ks)
unfolding remove_at
NamesDiffer-remove_at [] i d = tt
NamesDiffer-remove_at (k ∷ ks) zero d = d.1
NamesDiffer-remove_at (k ∷ ks) (suc i) d =
    (All-remove_at _ ks i d.0, NamesDiffer-remove_at ks i d.1)

-- The kit that is found under each name after the write.
find-set :
    (ks : List Kit) (i : ℕ) (kit : Kit)
    → kit_index kit.name ks ≡ some i
    → find_kit kit.name (set ks i kit) ≡ some kit
unfolding find_kit kit_index
find-set [] i kit h = absurd (ground arith)
find-set (k ∷ ks) zero kit h = ground (arith, same_text_refl kit.name)
find-set (k ∷ ks) (suc i) kit h =
    let (apart, later) = index_suc kit.name k ks i h in rw apart (find-set ks i kit later)

find-set_other :
    (ks : List Kit) (i : ℕ) (kit : Kit) (name : Text)
    → kit_index kit.name ks ≡ some i
    → name ≢ kit.name
    → find_kit name (set ks i kit) ≡ find_kit name ks
unfolding find_kit
find-set_other [] i kit name h n = refl
find-set_other (k ∷ ks) zero kit name h n =
    ground
      (arith, n, index_zero kit.name k ks h, same_text_iff kit.name name, same_text_iff k.name name)
find-set_other (k ∷ ks) (suc i) kit name h n =
    rw (find-set_other ks i kit name (index_suc kit.name k ks i h).1 n) refl

find-push :
    (ks : List Kit) (kit : Kit)
    → All (λ (j : Kit). kit.name ≢ j.name) ks
    → find_kit kit.name (ks ++ kit ∷ []) ≡ some kit
unfolding find_kit
find-push [] kit h = ground (arith, same_text_refl kit.name)
find-push (k ∷ ks) kit h = ground (arith, h.0, same_text_iff k.name kit.name, find-push ks kit h.1)

find-push_other :
    (ks : List Kit) (kit : Kit) (name : Text)
    → name ≢ kit.name
    → find_kit name (ks ++ kit ∷ []) ≡ find_kit name ks
unfolding find_kit
find-push_other [] kit name n = ground (arith, n, same_text_iff kit.name name)
find-push_other (k ∷ ks) kit name n = rw (find-push_other ks kit name n) refl

-- The same after a kit is taken out.
pub find-remove_at :
    (ks : List Kit) (i : ℕ) (name : Text)
    → kit_index name ks ≡ some i
    → NamesDiffer ks
    → find_kit name (remove_at i ks) ≡ none
unfolding find_kit remove_at
find-remove_at [] i name h d = refl
find-remove_at (k ∷ ks) zero name h d = find_none name ks (rw (index_zero name k ks h) at d.0)
find-remove_at (k ∷ ks) (suc i) name h d =
    let (apart, later) = index_suc name k ks i h in rw apart (find-remove_at ks i name later d.1)

pub find-remove_at_other :
    (ks : List Kit) (i : ℕ) (name other : Text)
    → kit_index name ks ≡ some i
    → other ≢ name
    → find_kit other (remove_at i ks) ≡ find_kit other ks
unfolding find_kit remove_at
find-remove_at_other [] i name other h n = refl
find-remove_at_other (k ∷ ks) zero name other h n =
    ground (arith, n, index_zero name k ks h, same_text_iff k.name other)
find-remove_at_other (k ∷ ks) (suc i) name other h n =
    rw (find-remove_at_other ks i name other (index_suc name k ks i h).1 n) refl

module _ (js : Builtins) where
  -- What a list is after a kit is placed in it.
  pub record IsPlaced (kit : Kit) (kits kits' : List Kit) : Type 0 where
    pub storable : IsStorable js kits'
    pub found : find_kit kit.name kits' ≡ some kit
    pub others : (name : Text) → name ≢ kit.name → find_kit name kits' ≡ find_kit name kits

  overwritten :
      (kit : Kit) (kits : List Kit) (i : ℕ)
      → kit_index kit.name kits ≡ some i
      → IsStorable js kits
      → IsNormal js kit
      → IsPlaced kit kits (set kits i kit)
  overwritten kit kits i at h normal = record {
    storable = (
      All-set _ kits i kit normal h.0,
      NamesDiffer-set kits i kit at h.1,
      omega (arith, h.2, length-set kits i kit),
    );
    found = find-set kits i kit at;
    others = λ name n. find-set_other kits i kit name at n;
  }

  appended :
      (kit : Kit) (kits : List Kit)
      → kit_index kit.name kits ≡ none
      → length kits < max_count
      → IsStorable js kits
      → IsNormal js kit
      → IsPlaced kit kits (kits ++ kit ∷ [])
  appended kit kits new few h normal = record {
    storable = (
      All-append _ kits (kit ∷ []) h.0 (normal, tt),
      NamesDiffer-push kits kit h.1 (index_none kit.name kits new),
      omega (arith, few, length-append kits (kit ∷ [])),
    );
    found = find-push kits kit (index_none kit.name kits new);
    others = λ name n. find-push_other kits kit name n;
  }

  pub placed-IsPlaced :
      (kit : Kit) (overwrite : Bool) (kits kits' : List Kit)
      → placed kit overwrite kits ≡ ok kits'
      → IsStorable js kits
      → IsNormal js kit
      → IsPlaced kit kits kits'
  unfolding placed
  placed-IsPlaced kit overwrite kits kits' e h normal =
      elim (Option-cases (kit_index kit.name kits)) [
        | inl new ↦
            let same : kits' ≡ kits ++ kit ∷ [] = ground (arith, new) in
            rw same (appended kit kits new (ground (arith, new)) h normal)
        | inr (i, at) ↦
            let same : kits' ≡ set kits i kit = ground (arith, at) in
            rw same (overwritten kit kits i at h normal)
      ]

  pub remove_at-IsStorable :
      (kits : List Kit) (i : ℕ) → IsStorable js kits → IsStorable js (remove_at i kits)
  remove_at-IsStorable kits i h = (
    All-remove_at _ kits i h.0,
    NamesDiffer-remove_at kits i h.1,
    omega (arith, h.2, length-remove_at kits i),
  )
