-- ===== src/Milestones/Outbox/Bounds.antt =====
-- The queue of cloudflare/room-milestone-outbox.ts within its limits, when milestones are added.
use non_stop_talk.Prelude.{
  ℕ, ◌+◌, ◌-◌, min, ◌≤◌, ◌≡◌, refl, ◌∙◌, max, true, List, ◌++◌, some, ltb, leb, ◌==◌, length,
  Bool-cases, Option-cases, inl, inr, arith,
}
use non_stop_talk.Text.{Text}
use non_stop_talk.Milestones.{Checked, valid, invalid}
use non_stop_talk.Milestones.Contract.{Json, Fact}
use non_stop_talk.Milestones.Outbox.{
  outbox_capacity, outbox_deadline_ms, drop_count_max, DropReason, capacity, canonicalization,
  Metadata, Outbox, Enqueued, queued, dropped, is_safe, count_drop, record_drop, encode_all,
  insert_all, insert_or_drop, is_consistent, enqueue,
}
use non_stop_talk.Milestones.Outbox.Rows.{
  IsOutbox, insert_all-IsOutbox, insert_all-appends, encode_all-length, AreRowsOf,
  insert_all-Inserted, Inserted-encoded,
}

-- What an answer of enqueueRoomMilestones says of the tables before and after.
abbrev pub IsEnqueued : Json → List Fact → ℕ → (ℕ → Text) → Outbox → Enqueued → Outbox → Type 0
IsEnqueued json facts now ids o (queued rows) o' =
    (o'.queue ≡ o.queue ++ rows)
    × (length rows ≡ length facts)
    × AreRowsOf json o.metadata.room_instance_id ids 0 now o.next_sequence facts rows
    × (o'.metadata ≡ o.metadata)
    × (o'.dead_letters ≡ o.dead_letters)
IsEnqueued json facts now ids o (dropped reason count) o' =
    (o'.queue ≡ o.queue)
    × (count ≡ max 1 (length facts))
    × (o'.metadata.dropped_total
        ≡ min drop_count_max (o.metadata.dropped_total + min drop_count_max count))
    × (o'.dead_letters ≡ o.dead_letters)

-- A change that keeps the limits, besides what its answer says.
abbrev Keeps : Json → List Fact → ℕ → (ℕ → Text) → Outbox → Enqueued → Outbox → Type 0
Keeps json facts now ids o answer o' =
    IsEnqueued json facts now ids o answer o' × (IsOutbox o → IsOutbox o')

count_drop-total :
    (reason : DropReason) (n now : ℕ) (m : Metadata)
    → (count_drop reason n now m).dropped_total ≡ min drop_count_max (m.dropped_total + n)
count_drop-total capacity n now m = refl
count_drop-total canonicalization n now m = refl

count_drop-consistent :
    (reason : DropReason) (n now : ℕ) (m : Metadata)
    → is_consistent m ≡ true
    → is_consistent (count_drop reason n now m) ≡ true
unfolding is_consistent
count_drop-consistent capacity n now m h = ground (arith, h)
count_drop-consistent canonicalization n now m h = ground (arith, h)

count_drop-IsOutbox :
    (reason : DropReason) (n now : ℕ) (o : Outbox)
    → IsOutbox o
    → IsOutbox (record o { metadata = count_drop reason n now o.metadata })
count_drop-IsOutbox reason n now o k = record {
  size = k.size;
  ordered = k.ordered;
  numbered = k.numbered;
  rows = k.rows;
  letters = k.letters;
  counted = count_drop-consistent reason n now o.metadata k.counted;
}

record_drop-Keeps :
    (json : Json) (facts : List Fact) (ids : ℕ → Text) (reason : DropReason) (count now : ℕ)
    (o o' : Outbox) (answer : Enqueued)
    → count ≡ max 1 (length facts)
    → record_drop reason count now o ≡ some (answer, o')
    → Keeps json facts now ids o answer o'
unfolding record_drop
record_drop-Keeps json facts ids reason count now o o' answer c h =
    let counted = count_drop reason (min drop_count_max count) now o.metadata in
    let is : (answer ≡ dropped reason count) × (o' ≡ record o { metadata = counted }) =
      ground (arith, h) in
    rw is.0 (
      rw is.1 (
        (refl, c, count_drop-total reason (min drop_count_max count) now o.metadata, refl),
        λ k. count_drop-IsOutbox reason (min drop_count_max count) now o k,
      ))

insert_or_drop-Keeps :
    (json : Json) (facts : List Fact) (ids : ℕ → Text) (now : ℕ)
    (payloads : Checked (List (Text × Text))) (o o' : Outbox) (answer : Enqueued)
    → length facts ≡ max 1 (length facts)
    → encode_all json o.metadata.room_instance_id facts ≡ payloads
    → length o.queue + length facts ≤ outbox_capacity
    → insert_or_drop ids now (length facts) payloads o ≡ some (answer, o')
    → Keeps json facts now ids o answer o'
insert_or_drop-Keeps json facts ids now (invalid e) o o' answer pos enc fits h =
    record_drop-Keeps json facts ids canonicalization (length facts) now o o' answer pos h
insert_or_drop-Keeps json facts ids now (valid ps) o o' answer pos enc fits h =
    elim (Bool-cases (is_safe (now + outbox_deadline_ms))) [
      | inr f ↦ ground (arith, f, h)
      | inl t ↦ elim (Option-cases (insert_all ids 0 now ps o)) [
        | inl g ↦ ground (arith, t, g, h)
        | inr ((rows, last), g) ↦
            let is : (answer ≡ queued rows) × (o' ≡ last) = ground (arith, t, g, h) in
            let x = insert_all-appends ids 0 now ps o last rows g in
            let id = o.metadata.room_instance_id in
            let n_is = encode_all-length json id facts ps enc in
            let each =
              Inserted-encoded json id ids 0 now o.next_sequence facts ps rows enc
                (insert_all-Inserted ids 0 now ps o last rows g) in
            rw is.0 (
              rw is.1 (
                (x.0, x.1 ∙ n_is, each, x.2, x.3),
                λ k. insert_all-IsOutbox ids 0 now ps o last rows k (omega arith) g,
              ))
      ]
    ]

enqueue-Keeps :
    (json : Json) (facts : List Fact) (now : ℕ) (ids : ℕ → Text) (o o' : Outbox) (answer : Enqueued)
    → enqueue json facts now ids o ≡ some (answer, o')
    → Keeps json facts now ids o answer o'
unfolding enqueue
enqueue-Keeps json facts now ids o o' answer h = elim (Bool-cases (is_safe now)) [
  | inr f ↦ ground (arith, f, h)
  | inl t ↦ elim (Bool-cases (length facts == 0)) [
    | inl z ↦
        record_drop-Keeps json facts ids canonicalization 1 now o o' answer (ground (arith, z))
          (ground (arith, t, z, h))
    | inr nz ↦ elim (Bool-cases (leb (length o.queue) outbox_capacity)) [
      | inr f ↦ ground (arith, t, nz, f, h)
      | inl s ↦ elim (Bool-cases (ltb (outbox_capacity - length o.queue) (length facts))) [
        | inl full ↦
            record_drop-Keeps json facts ids capacity (length facts) now o o' answer
              (ground (arith, nz)) (ground (arith, t, nz, s, full, h))
        | inr fits ↦ elim (Bool-cases (is_consistent o.metadata)) [
          | inr c ↦ ground (arith, t, nz, s, fits, c, h)
          | inl c ↦
              insert_or_drop-Keeps json facts ids now
                (encode_all json o.metadata.room_instance_id facts) o o' answer (ground (arith, nz))
                refl (ground (arith, fits, s)) (ground (arith, t, nz, s, fits, c, h))
        ]
      ]
    ]
  ]
]

pub record_drop-IsOutbox :
    (reason : DropReason) (count now : ℕ) (o o' : Outbox) (answer : Enqueued)
    → record_drop reason count now o ≡ some (answer, o')
    → IsOutbox o
    → IsOutbox o'
unfolding record_drop
record_drop-IsOutbox reason count now o o' answer h k =
    let counted = count_drop reason (min drop_count_max count) now o.metadata in
    let is : o' ≡ record o { metadata = counted } = ground (arith, h) in
    rw is (count_drop-IsOutbox reason (min drop_count_max count) now o k)

pub enqueue-IsOutbox :
    (json : Json) (facts : List Fact) (now : ℕ) (ids : ℕ → Text) (o o' : Outbox) (answer : Enqueued)
    → enqueue json facts now ids o ≡ some (answer, o')
    → IsOutbox o
    → IsOutbox o'
enqueue-IsOutbox json facts now ids o o' answer h =
    (enqueue-Keeps json facts now ids o o' answer h).1

-- enqueueRoomMilestones queues all of its facts, in one piece behind what is queued, or none of
-- them; then it counts them as dropped, up to the maximum of the counter. The rows are those of the
-- facts, in their order: each has the encoding of its fact as its payload, the milestone that this
-- decodes to, the next sequence and the next event id, is due at once and has not failed yet.
pub enqueue-IsEnqueued :
    (json : Json) (facts : List Fact) (now : ℕ) (ids : ℕ → Text) (o o' : Outbox) (answer : Enqueued)
    → enqueue json facts now ids o ≡ some (answer, o')
    → IsEnqueued json facts now ids o answer o'
enqueue-IsEnqueued json facts now ids o o' answer h =
    (enqueue-Keeps json facts now ids o o' answer h).0
