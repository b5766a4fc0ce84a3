-- ===== src/Milestones/Receiver/Receipts/Once.antt =====
-- An event has its effect once, cloudflare/room-milestone-receiver.ts, receiveRoomMilestone.
use non_stop_talk.Prelude.{
  ℕ, ◌+◌, ◌≡◌, ◌⊎◌, refl, sym, ◌∙◌, ap, Bool, true, false, ◌&&◌, ◌∷◌, Option, none, some, leb, ◌==◌,
  if◌then◌else◌, Bool-cases, Option-cases, inl, inr, arith,
}
use non_stop_talk.Text.{Text, same_text}
use non_stop_talk.Milestones.{Checked, valid, invalid}
use non_stop_talk.Milestones.Contract.{Json, Payload, is_hex_256, decode_payload}
use non_stop_talk.Milestones.Receiver.{
  Service, Receipt, Database, Delivery, Outcome, applied, duplicate, conflict, invariant,
  is_receipt_time, is_unapplied, find_receipt, classify, batch, key_of, delivered, assert, received,
  receive, ◌>>=◌,
}
use non_stop_talk.Milestones.Receiver.Receipts.{
  IsSettled, events, settled, measured, batch-known, batch-new,
}

bound {ℓ κ} :
    {A : Type ℓ} {B : Type κ} (m : Option A) (f : A → Option B) (b : B)
    → (m >>= f) ≡ some b
    → (a : A) × (m ≡ some a) × (f a ≡ some b)
bound none f b h = ground (arith, h)
bound (some a) f b h = (a, refl, h)

asserted : (b : Bool) (u : Unit {0}) → assert b ≡ some u → b ≡ true
asserted true u h = refl
asserted false u h = ground (arith, h)

if-true {ℓ} : {A : Type ℓ} (b : Bool) (x y : A) → b ≡ true → (if b then x else y) ≡ x
if-true true x y h = refl
if-true false x y h = ground (arith, h)

module _ (s : Service) (json : Json) (hash_key : Option Text) (d : Delivery) where
  -- What a delivery needs, besides a database of the schema.
  pub record Ready (p : Payload) : Type 0 where
    pub decoded : delivered d.event_id (decode_payload json d.payload_json) ≡ some p
    pub hash : Text
    pub hashed : s.payload_hash d.payload_json ≡ some hash
    pub key : Option Text
    pub keyed : key_of s hash_key p.room_instance_id ≡ some key
    pub expiry : Text
    pub expires : s.fact_expiry p.fact.observed_at ≡ some expiry
    pub is_hash : is_hex_256 hash ≡ true

  abbrev pub the_batch : ℕ → (p : Payload) → Ready p → Database → Outcome × Database
  the_batch now p r db = batch s d.event_id r.hash r.key r.expiry now p db

  received-of :
      (now : ℕ) (p : Payload) (db : Database) (r : Outcome × Database)
      → delivered d.event_id (decode_payload json d.payload_json) ≡ some p
      → received s hash_key d now p db ≡ some r
      → (k : Ready p) × (the_batch now p k db ≡ r)
  unfolding received
  received-of now p db r decoded h =
      let (hash, hashed, h1) = bound (s.payload_hash d.payload_json) _ r h in
      let (key, keyed, h2) = bound (key_of s hash_key p.room_instance_id) _ r h1 in
      let (expiry, expires, h3) = bound (s.fact_expiry p.fact.observed_at) _ r h2 in
      let (u, is_hash, h4) = bound (assert (is_hex_256 hash)) _ r h3 in
      (
        record {
          decoded = decoded;
          hash = hash;
          hashed = hashed;
          key = key;
          keyed = keyed;
          expiry = expiry;
          expires = expires;
          is_hash = asserted (is_hex_256 hash) u is_hash;
        },
        ground (arith, h4),
      )

  received-Ready :
      (now : ℕ) (p : Payload) (db : Database) (k : Ready p)
      → received s hash_key d now p db ≡ some (the_batch now p k db)
  unfolding received
  received-Ready now p db k = rw (k.hashed, k.keyed, k.expires, k.is_hash) refl

  pub receive-of :
      (now : ℕ) (db : Database) (r : Outcome × Database)
      → receive s json hash_key d now db ≡ some r
      → (p : Payload) × (delivered d.event_id (decode_payload json d.payload_json) ≡ some p)
        × (((db.schema_version == 6 ≡ false) × (r ≡ (invariant, db)))
            ⊎ ((db.schema_version == 6 ≡ true) × (k : Ready p) × (the_batch now p k db ≡ r)))
  unfolding receive
  receive-of now db r h =
      let (p, decoded, h1) =
        bound (delivered d.event_id (decode_payload json d.payload_json)) _ r h in
      let (u, timed, h2) = bound (assert (is_receipt_time now)) _ r h1 in
      let (v, supported, h3) =
        bound (assert (leb 5 db.schema_version && leb db.schema_version 6)) _ r h2 in
      elim (Bool-cases (db.schema_version == 6)) [
        | inl e ↦
            let (k, is) = received-of now p db r decoded (ground (arith, e, h3)) in
            (p, decoded, inr (e, k, is))
        | inr e ↦ (p, decoded, inl (e, ground (arith, e, h3)))
      ]

  pub receive-Ready :
      (now : ℕ) (p : Payload) (db : Database) (k : Ready p)
      → is_receipt_time now ≡ true
      → db.schema_version == 6 ≡ true
      → receive s json hash_key d now db ≡ some (the_batch now p k db)
  unfolding receive
  receive-Ready now p db k t v =
      let supported : (leb 5 db.schema_version && leb db.schema_version 6) ≡ true =
        ground (arith, v) in
      let start : receive s json hash_key d now db ≡ (
          if db.schema_version == 6 then received s hash_key d now p db else some (invariant, db)) =
        rw (k.decoded, t, supported) refl in
      start
      ∙ if-true (db.schema_version == 6) _ (some (invariant, db)) v
      ∙ received-Ready now p db k

-- What an answer says of the tables before and after.
abbrev pub IsReceived : Json → Delivery → ℕ → Database → Outcome → Database → Type 0
IsReceived json d now db applied db' =
    (p : Payload) × (decode_payload json d.payload_json ≡ valid p)
    × (hash : Text) × (find_receipt d.event_id db.receipts ≡ none)
    × (db'.receipts ≡ settled d.event_id hash now ∷ db.receipts)
    × (events db'.analytics ≡ events db.analytics + measured p.analytics_metric)
    × (db'.schema_version ≡ db.schema_version)
IsReceived json d now db duplicate db' =
    (r : Receipt) × (find_receipt d.event_id db.receipts ≡ some r) × (db' ≡ db)
IsReceived json d now db conflict db' =
    (r : Receipt) × (find_receipt d.event_id db.receipts ≡ some r) × (db' ≡ db)
IsReceived json d now db invariant db' = db' ≡ db

delivered-valid :
    (id : Text) (c : Checked Payload) (p : Payload) → delivered id c ≡ some p → c ≡ valid p
delivered-valid id (invalid e) p h = ground (arith, h)
delivered-valid id (valid q) p h = elim (Bool-cases (is_hex_256 id)) [
  | inl e ↦ ground (arith, e, h)
  | inr e ↦ ground (arith, e, h)
]

-- The answers for a known event.
classify-known :
    (json : Json) (d : Delivery) (now : ℕ) (hash : Text) (db : Database) (r : Receipt)
    → find_receipt d.event_id db.receipts ≡ some r
    → IsReceived json d now db (classify 0 0 hash (some r)) db
unfolding classify
classify-known json d now hash db r f = elim (Bool-cases (is_hex_256 r.payload_hash)) [
  | inr x ↦ rw x refl
  | inl x ↦ elim (Bool-cases (same_text r.payload_hash hash)) [
    | inr e ↦ rw (x, e) (r, f, refl)
    | inl e ↦ elim (Bool-cases (is_unapplied r.applied_at)) [
      | inl u ↦ rw (x, e, u) refl
      | inr u ↦ rw (x, e, u) (r, f, refl)
    ]
  ]
]

module _ (s : Service) (json : Json) (hash_key : Option Text) where
  -- An answer other than `applied` leaves the tables as they were. The answer `applied` has one new
  -- receipt of an event that had none, and counts one more event if the payload has a metric. This
  -- is for a database whose receipts are applied.
  pub receive-IsReceived :
      (d : Delivery) (now : ℕ) (db db' : Database) (a : Outcome)
      → IsSettled db.receipts
      → receive s json hash_key d now db ≡ some (a, db')
      → IsReceived json d now db a db'
  receive-IsReceived d now db db' a h e =
      let (p, decoded, cases) = receive-of s json hash_key d now db (a, db') e in
      let whole = delivered-valid d.event_id (decode_payload json d.payload_json) p decoded in
      elim cases [
        | inl (v, is) ↦
            rw (ap (λ (x : Outcome × Database). x.0) is, ap (λ (x : Outcome × Database). x.1) is)
              refl
        | inr (v, k, is) ↦ elim (Option-cases (find_receipt d.event_id db.receipts)) [
          | inr (r, f) ↦
              let known =
                sym is ∙ batch-known s d.event_id k.hash k.key k.expiry now p db r v h f in
              rw
                (
                  ap (λ (x : Outcome × Database). x.0) known,
                  ap (λ (x : Outcome × Database). x.1) known,
                )
                (classify-known json d now k.hash db r f)
          | inl f ↦
              let b = batch-new s d.event_id k.hash k.key k.expiry now p db v h f k.is_hash in
              let first = ap (λ (x : Outcome × Database). x.0) is in
              let second = ap (λ (x : Outcome × Database). x.1) is in
              rw (sym first, b.0)
                (
                  p,
                  whole,
                  k.hash,
                  f,
                  ap (λ (x : Database). x.receipts) (sym second) ∙ b.1,
                  ap (λ (x : Database). events x.analytics) (sym second) ∙ b.2,
                  ap (λ (x : Database). x.schema_version) (sym second) ∙ b.3,
                )
        ]
      ]
