-- ===== src/Coach/Storage/Sessions/Bounds.antt =====
-- The limit on what the recordings take, in saveCoachingSession of
-- cloudflare/public/coach-storage.js.
use non_stop_talk.Prelude.{
  ℕ, inl, inr, ◌+◌, ◌≤◌, ◌≡◌, Bool, true, false, List, [], ◌∷◌, Option, none, some, leb, max,
  Option-cases, Bool-cases, arith,
}
use non_stop_talk.Js.{max_safe_integer}
use non_stop_talk.Coach.Storage.{
  Key, Artifact, Row, Lifecycle, Summary, artifact_max_logical_bytes, lifecycle_of,
}
use non_stop_talk.Coach.Storage.Reconcile.{
  Stores, delete_at, put_at, Retained, keep, kept_rows, retained_rows, find_retained,
  retained_bytes, tally, State, put_at, reconcile,
}
use non_stop_talk.Coach.Storage.Records.{new_row_read_back}
use non_stop_talk.Coach.Storage.Sessions.{Call, returned, stored, has_room, bytes_of, save_session}
use non_stop_talk.Coach.Storage.Reconcile.Facts.{keep-lifecycle}
use non_stop_talk.Coach.Storage.Sessions.Stored.{save_session-stored}

abbrev size_of : Option Lifecycle → ℕ
size_of none = 0
size_of (some l) = l.logical_bytes

-- What the valid rows of a lifecycle store say that their recordings take.
unfoldable pub claimed_bytes : List (Key × Row) → ℕ
claimed_bytes [] = 0
claimed_bytes ((k, row) ∷ rest) = size_of (lifecycle_of row k) + claimed_bytes rest

-- The rows that stay, but for the one of an id, and what is retained of that id.
others_fit :
    (now effective : ℕ) (s : Stores) (id : Key) (rows : List (Key × Row))
    → claimed_bytes (delete_at id (kept_rows now effective s rows))
        + bytes_of (find_retained id (retained_rows now effective s rows))
      ≤ retained_bytes (retained_rows now effective s rows)
unfolding claimed_bytes delete_at kept_rows retained_rows retained_bytes find_retained
others_fit now effective s id [] = ground arith
others_fit now effective s id ((k, row) ∷ rest) = elim (Option-cases (keep now effective s k row)) [
  | inl e ↦ ground (arith, e, others_fit now effective s id rest)
  | inr (r, e) ↦
      let ih = others_fit now effective s id rest in
      let at = keep-lifecycle now effective s k row r e in ground (arith, ih, at, e)
]

pub tally-exact :
    (total : ℕ) (overflow : Bool) (rs : List Retained)
    → (tally (total, overflow) rs).1 ≡ false
    → ((tally (total, overflow) rs).0 ≡ total + retained_bytes rs) × (overflow ≡ false)
unfolding tally retained_bytes
tally-exact total overflow [] h = ground (arith, h)
tally-exact total overflow (r ∷ rest) h =
    elim (Bool-cases (leb (total + r.lifecycle.logical_bytes) max_safe_integer)) [
      | inl e ↦ ground (arith, e, h, tally-exact (total + r.lifecycle.logical_bytes) overflow rest)
      | inr e ↦ ground (arith, e, h, tally-exact total true rest)
    ]

-- What the others take and the new recording, if there is room.
room_fits :
    (now bytes : ℕ) (id : Key) (s before : Stores) (state : State)
    → reconcile now now s ≡ some (state, before)
    → has_room bytes id state ≡ true
    → claimed_bytes (delete_at id before.lifecycle) + bytes ≤ artifact_max_logical_bytes
unfolding reconcile has_room
room_fits now bytes id s before state h fits =
    let others = others_fit now (max now now) s id s.lifecycle in
    let exact = tally-exact 0 false (retained_rows now (max now now) s s.lifecycle) in
    ground (arith, h, fits, others, exact)

-- When saveCoachingSession answers that it stored the recording, the recordings that the valid
-- lifecycle rows stand for take no more than 128 MiB together, whatever was in the stores before.
pub stored_sessions_fit :
    (call again : Call) (summary : Summary) (artifact : Artifact) (s t : Stores)
    → save_session call again summary (some artifact) s ≡ (returned stored, t)
    → claimed_bytes t.lifecycle ≤ artifact_max_logical_bytes
unfolding claimed_bytes put_at delete_at
stored_sessions_fit call again summary artifact s t h =
    let x = (save_session-stored call again summary artifact s t h).0 in
    let room = room_fits call.now x.bytes summary.id s x.before x.state x.reconciled x.fits in
    let back =
      new_row_read_back artifact summary.id call.now x.bytes false x.row x.sized x.made
        (ground (arith, room)) in
    rw (x.put, back) (ground (arith, room))
