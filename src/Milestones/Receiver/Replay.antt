-- ===== src/Milestones/Receiver/Replay.antt =====
-- A delivery that comes again, cloudflare/room-milestone-receiver.ts, receiveRoomMilestone.
use non_stop_talk.Prelude.{
  ℕ, ◌≡◌, refl, sym, ◌∙◌, ap, true, false, List, [], ◌∷◌, Option, none, some, ◌==◌, Bool-cases, inl,
  inr, arith,
}
use non_stop_talk.Text.{Text, same_text}
use non_stop_talk.Text.Laws.{same_text_iff, same_text_refl}
use non_stop_talk.Milestones.Contract.{Json, is_hex_256}
use non_stop_talk.Milestones.Receiver.{
  Service, Receipt, Database, Delivery, Outcome, applied, duplicate, conflict, invariant,
  is_receipt_time, is_unapplied, find_receipt, classify, receive,
}
use non_stop_talk.Milestones.Receiver.Receipts.{
  IsSettled, settled, find_receipt-settled, batch-known, batch-new,
}
use non_stop_talk.Milestones.Receiver.Receipts.Once.{
  receive-of, receive-Ready, IsReceived, receive-IsReceived,
}

-- The tables after a call, which an exception leaves as they were.
abbrev after : Database → Option (Outcome × Database) → Database
after db none = db
after db (some (a, db')) = db'

module _ (s : Service) (json : Json) (hash_key : Option Text) where
  -- Deliveries that come one after the other.
  unfoldable pub receives : List (Delivery × ℕ) → Database → Database
  unfolding receive
  receives [] db = db
  receives ((d, now) ∷ ds) db = receives ds (after db (receive s json hash_key d now db))

-- An applied receipt of an event, with a hash.
record Holds (id hash : Text) (db : Database) : Type 0 where
  pub version : db.schema_version == 6 ≡ true
  pub settled : IsSettled db.receipts
  pub receipt : Receipt
  pub found : find_receipt id db.receipts ≡ some receipt
  pub same : receipt.payload_hash ≡ hash
  pub applied : is_unapplied receipt.applied_at ≡ false

module _ (id hash : Text) where
  find_receipt-other :
      (r x : Receipt) (rs : List Receipt)
      → find_receipt id rs ≡ some r
      → find_receipt x.event_id rs ≡ none
      → find_receipt id (x ∷ rs) ≡ some r
  unfolding find_receipt
  find_receipt-other r x rs h k = elim (Bool-cases (same_text x.event_id id)) [
    | inr f ↦ rw f h
    | inl t ↦
        let e = (same_text_iff x.event_id id).0 t in
        ground (arith, sym (ap (λ (i : Text). find_receipt i rs) e) ∙ k, h)
  ]

  Holds-IsReceived :
      (json : Json) (d : Delivery) (now : ℕ) (a : Outcome) (db db' : Database)
      → Holds id hash db
      → IsReceived json d now db a db'
      → Holds id hash db'
  Holds-IsReceived json d now applied db db' h (p, e, x, f, rs, n, v) = record {
    version = rw v h.version;
    settled = rw rs (refl, h.settled);
    receipt = h.receipt;
    found = rw rs (find_receipt-other h.receipt (settled d.event_id x now) db.receipts h.found f);
    same = h.same;
    applied = h.applied;
  }
  Holds-IsReceived json d now duplicate db db' h (r, f, e) = rw e h
  Holds-IsReceived json d now conflict db db' h (r, f, e) = rw e h
  Holds-IsReceived json d now invariant db db' h e = rw e h

  Holds-new :
      (now : ℕ) (db db' : Database)
      → db.schema_version == 6 ≡ true
      → IsSettled db.receipts
      → db'.receipts ≡ settled id hash now ∷ db.receipts
      → db'.schema_version ≡ db.schema_version
      → Holds id hash db'
  Holds-new now db db' v h rs e = record {
    version = rw e v;
    settled = rw rs (refl, h);
    receipt = settled id hash now;
    found = rw rs (find_receipt-settled id hash now db.receipts);
    same = refl;
    applied = refl;
  }

  Holds-after :
      (s : Service) (json : Json) (key : Option Text) (d : Delivery) (now : ℕ) (db : Database)
      → Holds id hash db
      → (r : Option (Outcome × Database)) → receive s json key d now db ≡ r
      → Holds id hash (after db r)
  Holds-after s json key d now db h none e = h
  Holds-after s json key d now db h (some (a, db')) e =
      Holds-IsReceived json d now a db db' h
        (receive-IsReceived s json key d now db db' a h.settled e)

  Holds-receives :
      (s : Service) (json : Json) (key : Option Text) (ds : List (Delivery × ℕ)) (db : Database)
      → Holds id hash db
      → Holds id hash (receives s json key ds db)
  unfolding receives
  Holds-receives s json key [] db h = h
  Holds-receives s json key ((d, now) ∷ ds) db h =
      Holds-receives s json key ds _ (Holds-after s json key d now db h _ refl)

classify-duplicate :
    (hash : Text) (r : Receipt)
    → is_hex_256 hash ≡ true
    → r.payload_hash ≡ hash
    → is_unapplied r.applied_at ≡ false
    → classify 0 0 hash (some r) ≡ duplicate
unfolding classify
classify-duplicate hash r x e u = rw (e, x, same_text_refl hash, u) (ground arith)

-- Once a delivery is applied, the same delivery is answered as a duplicate and changes no table, at
-- any time that has a receipt and whatever deliveries came between.
pub receive_again :
    (s : Service) (json : Json) (key : Option Text) (d : Delivery) (now later : ℕ)
    (ds : List (Delivery × ℕ)) (db db1 : Database)
    → IsSettled db.receipts
    → receive s json key d now db ≡ some (applied, db1)
    → is_receipt_time later ≡ true
    → receive s json key d later (receives s json key ds db1)
      ≡ some (duplicate, receives s json key ds db1)
receive_again s json key d now later ds db db1 h e t =
    let (p, decoded, cases) = receive-of s json key d now db (applied, db1) e in
    elim cases [
      | inl (v, is) ↦ ground (arith, ap (λ (x : Outcome × Database). x.0) is)
      | inr (v, k, is) ↦
          let received = receive-IsReceived s json key d now db db1 applied h e in
          let b = batch-new s d.event_id k.hash k.key k.expiry now p db v h received.3 k.is_hash in
          let same = ap (λ (x : Outcome × Database). x.1) is in
          let first =
            Holds-new d.event_id k.hash now db db1 v h
              (ap (λ (x : Database). x.receipts) (sym same) ∙ b.1)
              (ap (λ (x : Database). x.schema_version) (sym same) ∙ b.3) in
          let last = receives s json key ds db1 in
          let held = Holds-receives d.event_id k.hash s json key ds db1 first in
          let known =
            batch-known s d.event_id k.hash k.key k.expiry later p last held.receipt held.version
              held.settled held.found in
          let answer = classify-duplicate k.hash held.receipt k.is_hash held.same held.applied in
          receive-Ready s json key d later p last k t held.version
          ∙ ap some (known ∙ ap (λ (a : Outcome). (a, last)) answer)
    ]
