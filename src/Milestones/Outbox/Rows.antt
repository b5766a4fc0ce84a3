-- ===== src/Milestones/Outbox/Rows.antt =====
-- The rows that enqueueRoomMilestones of cloudflare/room-milestone-outbox.ts adds.
use non_stop_talk.Prelude.{
  ℕ, ◌+◌, ◌≤◌, ◌<◌, ◌≡◌, refl, sym, ap, ◌∙◌, true, not, ◌||◌, List, [], ◌∷◌, ◌++◌, some, length,
  length-append, All, All-append, All-imp, Bool-cases, Option-cases, inl, inr, arith,
}
use mathlib.Core.List.{append_assoc, append-nil}
use non_stop_talk.Text.{Text}
use non_stop_talk.Milestones.{valid}
use non_stop_talk.Milestones.Contract.{
  Json, Fact, Payload, is_hex_256, encode_payload, decode_payload,
}
use non_stop_talk.Milestones.Contract.Facts.{bound}
use non_stop_talk.Milestones.Outbox.{
  outbox_capacity, dead_letter_capacity, outbox_deadline_ms, max_attempts, Queued, Outbox, is_safe,
  encode_all, has_event_id, new_row, insert_all, is_consistent,
}

-- A row that has not failed for good: its times lie between its creation and its deadline.
pub record IsRow (q : Queued) : Type 0 where
  pub begun : q.created_at ≤ q.next_attempt_at
  pub due : q.next_attempt_at ≤ q.deadline_at
  pub deadline : q.deadline_at ≡ q.created_at + outbox_deadline_ms
  pub attempts : q.attempt_count < max_attempts

abbrev pub IsAscending : List Queued → Type 0
IsAscending [] = Unit
IsAscending (q ∷ qs) = All (λ x. q.sequence < x.sequence) qs × IsAscending qs

-- The tables within their limits, with the sequences in order.
pub record IsOutbox (o : Outbox) : Type 0 where
  pub size : length o.queue ≤ outbox_capacity
  pub ordered : IsAscending o.queue
  pub numbered : All (λ q. q.sequence < o.next_sequence) o.queue
  pub rows : All IsRow o.queue
  pub letters : length o.dead_letters ≤ dead_letter_capacity
  pub counted : is_consistent o.metadata ≡ true

append-IsAscending :
    (n : ℕ) (qs : List Queued) (row : Queued)
    → row.sequence ≡ n
    → All (λ q. q.sequence < n) qs
    → IsAscending qs
    → IsAscending (qs ++ row ∷ [])
append-IsAscending n [] row e h k = (tt, tt)
append-IsAscending n (q ∷ qs) row e h k = (
  All-append (λ x. q.sequence < x.sequence) qs (row ∷ []) k.0 (ground (arith, e, h.0), tt),
  append-IsAscending n qs row e h.1 k.1,
)

new_row-IsOutbox :
    (o : Outbox) (now : ℕ) (id : Text) (payload : Text × Text)
    → IsOutbox o
    → length o.queue < outbox_capacity
    → IsOutbox (record o {
      queue = o.queue ++ new_row o.next_sequence now id payload ∷ [];
      next_sequence = o.next_sequence + 1;
    })
new_row-IsOutbox o now id payload h k = record {
  size = omega (arith, length-append o.queue (new_row o.next_sequence now id payload ∷ []));
  ordered =
      append-IsAscending o.next_sequence o.queue (new_row o.next_sequence now id payload) refl
        h.numbered h.ordered;
  numbered =
      All-append _ o.queue (new_row o.next_sequence now id payload ∷ [])
        (All-imp _ _ o.queue (λ q l. omega arith) h.numbered) (omega arith, tt);
  rows = All-append IsRow o.queue (new_row o.next_sequence now id payload ∷ []) h.rows (
    record { begun = omega arith; due = omega arith; deadline = refl; attempts = omega arith },
    tt,
  );
  letters = h.letters;
  counted = h.counted;
}

pub insert_all-IsOutbox :
    (ids : ℕ → Text) (n now : ℕ) (payloads : List (Text × Text)) (o o' : Outbox)
    (rows : List Queued)
    → IsOutbox o
    → length o.queue + length payloads ≤ outbox_capacity
    → insert_all ids n now payloads o ≡ some (rows, o')
    → IsOutbox o'
unfolding insert_all
insert_all-IsOutbox ids n now [] o o' rows h k e =
    let same : o ≡ o' = ground (arith, e) in rw (sym same) h
insert_all-IsOutbox ids n now (payload ∷ rest) o o' rows h k e =
    let row = new_row o.next_sequence now (ids n) payload in
    let next : Outbox = record o {
      queue = o.queue ++ row ∷ [];
      next_sequence = o.next_sequence + 1;
    } in
    let kept = new_row-IsOutbox o now (ids n) payload h (omega arith) in
    elim (Bool-cases
      (has_event_id (ids n) o.queue || not (is_hex_256 (ids n)) || not (is_safe o.next_sequence))) [
        | inl t ↦ ground (arith, t, e)
        | inr f ↦ elim (Option-cases (insert_all ids (n + 1) now rest next)) [
          | inl g ↦ ground (arith, f, g, e)
          | inr ((more, last), g) ↦
              let same : last ≡ o' = ground (arith, f, g, e) in
              rw (sym same) (
                insert_all-IsOutbox ids (n + 1) now rest next last more kept
                  (omega (arith, length-append o.queue (row ∷ []))) g)
        ]
      ]

pub insert_all-appends :
    (ids : ℕ → Text) (n now : ℕ) (payloads : List (Text × Text)) (o o' : Outbox)
    (rows : List Queued)
    → insert_all ids n now payloads o ≡ some (rows, o')
    → (o'.queue ≡ o.queue ++ rows)
      × (length rows ≡ length payloads)
      × (o'.metadata ≡ o.metadata)
      × (o'.dead_letters ≡ o.dead_letters)
unfolding insert_all
insert_all-appends ids n now [] o o' rows e =
    let same : (o ≡ o') × (rows ≡ []) = ground (arith, e) in
    (
      rw (sym same.0, same.1) (sym (append-nil o.queue)),
      rw same.1 refl,
      rw (sym same.0) refl,
      rw (sym same.0) refl,
    )
insert_all-appends ids n now (payload ∷ rest) o o' rows e =
    let row = new_row o.next_sequence now (ids n) payload in
    let next : Outbox = record o {
      queue = o.queue ++ row ∷ [];
      next_sequence = o.next_sequence + 1;
    } in
    elim (Bool-cases
      (has_event_id (ids n) o.queue || not (is_hex_256 (ids n)) || not (is_safe o.next_sequence))) [
        | inl t ↦ ground (arith, t, e)
        | inr f ↦ elim (Option-cases (insert_all ids (n + 1) now rest next)) [
          | inl g ↦ ground (arith, f, g, e)
          | inr ((more, last), g) ↦
              let same : (last ≡ o') × (rows ≡ row ∷ more) = ground (arith, f, g, e) in
              let ih = insert_all-appends ids (n + 1) now rest next last more g in
              (
                rw (sym same.0, same.1) (ih.0 ∙ append_assoc o.queue (row ∷ []) more),
                rw same.1 (omega (arith, ih.1)),
                rw (sym same.0) ih.2,
                rw (sym same.0) ih.3,
              )
        ]
      ]

pub encode_all-length :
    (json : Json) (id : Text) (facts : List Fact) (payloads : List (Text × Text))
    → encode_all json id facts ≡ valid payloads
    → length payloads ≡ length facts
unfolding encode_all
encode_all-length json id [] payloads h = ground (arith, h)
encode_all-length json id (f ∷ fs) payloads h =
    let (s, e, h1) = bound (encode_payload json id f) _ payloads h in
    let (p, e2, h2) = bound (decode_payload json s) _ payloads h1 in
    let (rest, e3, h3) = bound (encode_all json id fs) _ payloads h2 in
    ground (arith, h3, encode_all-length json id fs rest e3)

-- A row has the payload of a fact, under its milestone, and is the one that an INSERT gives.
pub record IsRowOf (json : Json) (id : Text) (sequence now : ℕ) (event : Text) (f : Fact)
    (q : Queued) : Type 0 where
  pub encoded : encode_payload json id f ≡ valid q.payload_json
  pub payload : Payload
  pub decoded : decode_payload json q.payload_json ≡ valid payload
  pub milestone : q.milestone ≡ payload.fact.milestone
  pub numbered : q.sequence ≡ sequence
  pub identified : q.event_id ≡ event
  pub created : q.created_at ≡ now
  pub due : q.next_attempt_at ≡ now
  pub deadline : q.deadline_at ≡ now + outbox_deadline_ms
  pub attempts : q.attempt_count ≡ 0

-- One row for each fact, in their order, with sequences and event ids that follow each other.
abbrev pub AreRowsOf : Json → Text → (ℕ → Text) → ℕ → ℕ → ℕ → List Fact → List Queued → Type 0
AreRowsOf json id ids n now sequence [] [] = Unit
AreRowsOf json id ids n now sequence (f ∷ fs) (q ∷ qs) =
    IsRowOf json id sequence now (ids n) f q
    × AreRowsOf json id ids (n + 1) now (sequence + 1) fs qs
AreRowsOf json id ids n now sequence _ _ = ⊥

-- What the INSERTs add, one by one.
abbrev Inserted : (ℕ → Text) → ℕ → ℕ → ℕ → List (Text × Text) → List Queued → Type 0
Inserted ids n now sequence [] [] = Unit
Inserted ids n now sequence (p ∷ ps) (q ∷ qs) =
    (q ≡ new_row sequence now (ids n) p) × Inserted ids (n + 1) now (sequence + 1) ps qs
Inserted ids n now sequence _ _ = ⊥

pub insert_all-Inserted :
    (ids : ℕ → Text) (n now : ℕ) (payloads : List (Text × Text)) (o o' : Outbox)
    (rows : List Queued)
    → insert_all ids n now payloads o ≡ some (rows, o')
    → Inserted ids n now o.next_sequence payloads rows
unfolding insert_all
insert_all-Inserted ids n now [] o o' rows e =
    let same : rows ≡ [] = ground (arith, e) in rw same tt
insert_all-Inserted ids n now (payload ∷ rest) o o' rows e =
    let row = new_row o.next_sequence now (ids n) payload in
    let next : Outbox = record o {
      queue = o.queue ++ row ∷ [];
      next_sequence = o.next_sequence + 1;
    } in
    elim (Bool-cases
      (has_event_id (ids n) o.queue || not (is_hex_256 (ids n)) || not (is_safe o.next_sequence))) [
        | inl t ↦ ground (arith, t, e)
        | inr f ↦ elim (Option-cases (insert_all ids (n + 1) now rest next)) [
          | inl g ↦ ground (arith, f, g, e)
          | inr ((more, last), g) ↦
              let same : rows ≡ row ∷ more = ground (arith, f, g, e) in
              rw same (refl, insert_all-Inserted ids (n + 1) now rest next last more g)
        ]
      ]

pub Inserted-encoded :
    (json : Json) (id : Text) (ids : ℕ → Text) (n now sequence : ℕ) (facts : List Fact)
    (payloads : List (Text × Text)) (rows : List Queued)
    → encode_all json id facts ≡ valid payloads
    → Inserted ids n now sequence payloads rows
    → AreRowsOf json id ids n now sequence facts rows
unfolding encode_all
Inserted-encoded json id ids n now sequence [] [] [] h k = tt
Inserted-encoded json id ids n now sequence [] [] (q ∷ qs) h k = absurd k
Inserted-encoded json id ids n now sequence [] (p ∷ ps) rows h k = ground (arith, h)
Inserted-encoded json id ids n now sequence (f ∷ fs) payloads rows h k =
    let (s, e, h1) = bound (encode_payload json id f) _ payloads h in
    let (p, e2, h2) = bound (decode_payload json s) _ payloads h1 in
    let (rest, e3, h3) = bound (encode_all json id fs) _ payloads h2 in
    let same : payloads ≡ (s, p.fact.milestone) ∷ rest = ground (arith, h3) in
    go s p e e2 rest e3
      (λ qs. Inserted-encoded json id ids (n + 1) now (sequence + 1) fs rest qs e3) rows
      (rw same at k)
  where
    go :
        (s : Text) (p : Payload)
        → encode_payload json id f ≡ valid s
        → decode_payload json s ≡ valid p
        → (rest : List (Text × Text)) → encode_all json id fs ≡ valid rest
        → ((qs : List Queued)
            → Inserted ids (n + 1) now (sequence + 1) rest qs
            → AreRowsOf json id ids (n + 1) now (sequence + 1) fs qs)
        → (rows : List Queued) → Inserted ids n now sequence ((s, p.fact.milestone) ∷ rest) rows
        → AreRowsOf json id ids n now sequence (f ∷ fs) rows
    go s p e e2 rest e3 others [] k = absurd k
    go s p e e2 rest e3 others (q ∷ qs) k =
        let text_of : s ≡ q.payload_json = sym (ap (λ (x : Queued). x.payload_json) k.0) in
        (
          record {
            encoded = e ∙ ap valid text_of;
            payload = p;
            decoded = ap (decode_payload json) (sym text_of) ∙ e2;
            milestone = ap (λ (x : Queued). x.milestone) k.0;
            numbered = ap (λ (x : Queued). x.sequence) k.0;
            identified = ap (λ (x : Queued). x.event_id) k.0;
            created = ap (λ (x : Queued). x.created_at) k.0;
            due = ap (λ (x : Queued). x.next_attempt_at) k.0;
            deadline = ap (λ (x : Queued). x.deadline_at) k.0;
            attempts = ap (λ (x : Queued). x.attempt_count) k.0;
          },
          others qs k.1,
        )
