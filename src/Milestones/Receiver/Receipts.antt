-- ===== src/Milestones/Receiver/Receipts.antt =====
-- What one batch of cloudflare/room-milestone-receiver.ts does, when every receipt is applied.
pub mod Once
use non_stop_talk.Prelude.{
  ℕ, ◌+◌, ◌<◌, ◌≡◌, ◌⊎◌, refl, sym, ◌∙◌, ap, Bool, true, false, not, ◌&&◌, ◌||◌, List, [], ◌∷◌,
  Option, none, some, ltb, leb, ◌==◌, if◌then◌else◌, take, All, Bool-cases, Option-cases, inl, inr,
  arith,
}
use non_stop_talk.Text.{Text, same_text}
use non_stop_talk.Text.Laws.{same_text_refl}
use non_stop_talk.Milestones.{Number}
use non_stop_talk.Milestones.Contract.{Json, Payload, is_hex_256, decode_payload}
use non_stop_talk.Milestones.Receiver.{
  Service, Receipt, Tally, Database, Delivery, Outcome, applied, duplicate, conflict, invariant,
  retention_ms, is_receipt_time, is_unapplied, is_open, any_open, find_receipt, new_receipt,
  insert_receipt, write_fact, tally, value_of, write_tally, apply_receipts, apply_receipt,
  read_receipt, classify, batch, key_of, delivered, assert, received, receive, ◌>>=◌,
}

-- Each receipt is applied.
abbrev pub IsSettled : List Receipt → Type 0
IsSettled rs = All (λ r. is_unapplied r.applied_at ≡ false) rs

-- The events that the days count.
abbrev pub events : List Tally → ℕ
events [] = 0
events (t ∷ ts) = t.event_count + events ts

events-tally :
    (s : Service) (day metric : Text) (value : Number) (at : Text) (ts : List Tally)
    → events (tally s day metric value at ts) ≡ events ts + 1
unfolding tally
events-tally s day metric value at [] = refl
events-tally s day metric value at (t ∷ ts) = ground (arith, events-tally s day metric value at ts)

module _ (id hash : Text) (now : ℕ) where
  is_open-settled :
      (r : Receipt) → is_unapplied r.applied_at ≡ false → is_open id hash now r ≡ false
  unfolding is_open
  is_open-settled r h = ground (arith, h)

  any_open-settled : (rs : List Receipt) → IsSettled rs → any_open id hash now rs ≡ false
  unfolding any_open
  any_open-settled [] h = refl
  any_open-settled (r ∷ rs) h = ground (arith, is_open-settled r h.0, any_open-settled rs h.1)

  apply_receipts-settled :
      (rs : List Receipt) → IsSettled rs → apply_receipts id hash now rs ≡ (0, rs)
  unfolding apply_receipts
  apply_receipts-settled [] h = refl
  apply_receipts-settled (r ∷ rs) h = rw (is_open-settled r h.0, apply_receipts-settled rs h.1) refl

  -- The receipt that a batch leaves of a new event.
  abbrev pub settled : Receipt
  settled = record (new_receipt id hash now) { applied_at = some now }

  is_open-new : is_open id hash now (new_receipt id hash now) ≡ true
  unfolding is_open
  is_open-new = rw (same_text_refl id, same_text_refl hash) (ground arith)

  apply_receipts-new :
      (rs : List Receipt)
      → IsSettled rs
      → apply_receipts id hash now (new_receipt id hash now ∷ rs) ≡ (1, settled ∷ rs)
  unfolding apply_receipts
  apply_receipts-new rs h =
      let self : ltb now now ≡ false = ground arith in
      rw (is_open-new, apply_receipts-settled rs h, self) refl

  pub find_receipt-settled : (rs : List Receipt) → find_receipt id (settled ∷ rs) ≡ some settled
  unfolding find_receipt
  find_receipt-settled rs = rw (same_text_refl id) refl

-- The number of events that a payload is counted as.
abbrev pub measured : Option Text → ℕ
measured none = 0
measured (some metric) = 1

module _ (s : Service) (id hash : Text) (key : Option Text) (expiry : Text) (now : ℕ)
    (p : Payload) where
  -- The batch, from what its statements do.
  batch-of :
      (db db1 db2 db3 db4 : Database) (n m : ℕ)
      → insert_receipt id hash now db ≡ (n, db1)
      → write_fact key id hash now expiry p.fact db1 ≡ db2
      → write_tally s p.analytics_metric
          (value_of p.analytics_value)
          p.fact.observed_at
          id
          hash
          now
          db2
        ≡ db3
      → apply_receipt id hash now db3 ≡ (m, db4)
      → batch s id hash key expiry now p db ≡ (classify n m hash (read_receipt id db4), db4)
  unfolding batch
  batch-of db db1 db2 db3 db4 n m h1 h2 h3 h4 = rw (h1, h2, h3, h4) refl

  write_fact-closed :
      (k : Option Text) (db : Database)
      → any_open id hash now db.receipts ≡ false
      → write_fact k id hash now expiry p.fact db ≡ db
  unfolding write_fact
  write_fact-closed none db h = refl
  write_fact-closed (some k) db h = ground (arith, h)

  write_tally-closed :
      (metric : Option Text) (value : Number) (at : Text) (db : Database)
      → any_open id hash now db.receipts ≡ false
      → write_tally s metric value at id hash now db ≡ db
  unfolding write_tally
  write_tally-closed none value at db h = refl
  write_tally-closed (some m) value at db h = ground (arith, h)

  insert_receipt-known :
      (db : Database) (r : Receipt)
      → find_receipt id db.receipts ≡ some r
      → insert_receipt id hash now db ≡ (0, db)
  unfolding insert_receipt
  insert_receipt-known db r h = rw h (ground arith)

  apply_receipt-settled :
      (db : Database) → IsSettled db.receipts → apply_receipt id hash now db ≡ (0, db)
  unfolding apply_receipt
  apply_receipt-settled db h = elim (Bool-cases (db.schema_version == 6)) [
    | inl v ↦ rw (v, apply_receipts-settled id hash now db.receipts h) refl
    | inr v ↦ rw v refl
  ]

  -- A known event changes nothing.
  pub batch-known :
      (db : Database) (r : Receipt)
      → db.schema_version == 6 ≡ true
      → IsSettled db.receipts
      → find_receipt id db.receipts ≡ some r
      → batch s id hash key expiry now p db ≡ (classify 0 0 hash (some r), db)
  unfolding read_receipt
  batch-known db r v h f =
      let closed = any_open-settled id hash now db.receipts h in
      let at = p.fact.observed_at in
      let read : read_receipt id db ≡ some r = rw v f in
      batch-of db db db db db 0 0 (insert_receipt-known db r f) (write_fact-closed key db closed)
        (write_tally-closed p.analytics_metric (value_of p.analytics_value) at db closed)
        (apply_receipt-settled db h)
      ∙ ap (λ (x : Option Receipt). (classify 0 0 hash x, db)) read

  write_fact-keeps :
      (k : Option Text) (db : Database)
      → let db' = write_fact k id hash now expiry p.fact db in
        (db'.receipts ≡ db.receipts)
        × (db'.analytics ≡ db.analytics)
        × (db'.schema_version ≡ db.schema_version)
  unfolding write_fact
  write_fact-keeps none db = (refl, refl, refl)
  write_fact-keeps (some k) db =
      elim (Bool-cases (db.schema_version == 6 && any_open id hash now db.receipts)) [
        | inl t ↦ rw t (refl, refl, refl)
        | inr f ↦ rw f (refl, refl, refl)
      ]

  write_tally-open :
      (metric : Option Text) (value : Number) (at : Text) (db : Database)
      → (db.schema_version == 6 && any_open id hash now db.receipts) ≡ true
      → let db' = write_tally s metric value at id hash now db in
        (db'.receipts ≡ db.receipts)
        × (events db'.analytics ≡ events db.analytics + measured metric)
        × (db'.schema_version ≡ db.schema_version)
  unfolding write_tally
  write_tally-open none value at db t = (refl, omega arith, refl)
  write_tally-open (some m) value at db t =
      rw t (refl, events-tally s (take 10 at) m value at db.analytics, refl)

  any_open-new : (rs : List Receipt) → any_open id hash now (new_receipt id hash now ∷ rs) ≡ true
  unfolding any_open
  any_open-new rs = rw (is_open-new id hash now) refl

  insert_receipt-new :
      (db : Database)
      → db.schema_version == 6 ≡ true
      → find_receipt id db.receipts ≡ none
      → insert_receipt id hash now db
        ≡ (1, record db { receipts = new_receipt id hash now ∷ db.receipts })
  unfolding insert_receipt
  insert_receipt-new db v h = rw (v, h) refl

  apply_receipt-new :
      (db : Database) (rs : List Receipt)
      → db.schema_version == 6 ≡ true
      → IsSettled rs
      → db.receipts ≡ new_receipt id hash now ∷ rs
      → apply_receipt id hash now db ≡ (1, record db { receipts = settled id hash now ∷ rs })
  unfolding apply_receipt
  apply_receipt-new db rs v h e = rw (v, e, apply_receipts-new id hash now rs h) refl

  read_receipt-new :
      (db : Database) (rs : List Receipt)
      → db.schema_version == 6 ≡ true
      → db.receipts ≡ settled id hash now ∷ rs
      → read_receipt id db ≡ some (settled id hash now)
  unfolding read_receipt
  read_receipt-new db rs v e = rw (v, e) (find_receipt-settled id hash now rs)

  classify-new : is_hex_256 hash ≡ true → classify 1 1 hash (some (settled id hash now)) ≡ applied
  unfolding classify
  classify-new x = rw (x, same_text_refl hash) (ground arith)

  -- A new event: one receipt, and one event if it has a metric.
  pub batch-new :
      (db : Database)
      → db.schema_version == 6 ≡ true
      → IsSettled db.receipts
      → find_receipt id db.receipts ≡ none
      → is_hex_256 hash ≡ true
      → let r = batch s id hash key expiry now p db in
        (r.0 ≡ applied)
        × (r.1.receipts ≡ settled id hash now ∷ db.receipts)
        × (events r.1.analytics ≡ events db.analytics + measured p.analytics_metric)
        × (r.1.schema_version ≡ db.schema_version)
  batch-new db v h f x =
      let at = p.fact.observed_at in
      let db1 : Database = record db { receipts = new_receipt id hash now ∷ db.receipts } in
      let db2 = write_fact key id hash now expiry p.fact db1 in
      let db3 = write_tally s p.analytics_metric (value_of p.analytics_value) at id hash now db2 in
      let k = write_fact-keeps key db1 in
      let opened : (db2.schema_version == 6 && any_open id hash now db2.receipts) ≡ true =
        rw (k.2, k.0, v) (any_open-new db.receipts) in
      let t = write_tally-open p.analytics_metric (value_of p.analytics_value) at db2 opened in
      let db4 : Database = record db3 { receipts = settled id hash now ∷ db.receipts } in
      let last = apply_receipt-new db3 db.receipts (rw (t.2, k.2) v) h (t.0 ∙ k.0) in
      let all = batch-of db db1 db2 db3 db4 1 1 (insert_receipt-new db v f) refl refl last in
      let read = read_receipt-new db4 db.receipts (rw (t.2, k.2) v) refl in
      let answer : classify 1 1 hash (read_receipt id db4) ≡ applied = rw read (classify-new x) in
      let counted = t.1 ∙ ap (λ (ts : List Tally). events ts + measured p.analytics_metric) k.1 in
      rw all (answer, refl, counted, t.2 ∙ k.2)
