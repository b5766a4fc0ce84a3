-- ===== src/Room/Host.antt =====
-- Who hosts a room: transfer-host and claim-host of applyAction, and setHostOnline, in
-- cloudflare/game.ts, and refreshHTTPHostPresence of cloudflare/worker.ts.
use non_stop_talk.Prelude.{
  ℕ, ◌+◌, ◌*◌, Bool, true, false, not, ◌||◌, Option, none, some, ltb, leb, ◌==◌, if◌then◌else◌, ◌/◌,
}
use non_stop_talk.Text.{Text, is_empty, same_text}
use non_stop_talk.Js.{Js, text}
use non_stop_talk.Room.{
  Room, Request, Outcome, require, done, only_host, target_not_remote, target_offline,
  claim_without_seat, host_still_here, is_host, player_id_of, token_of, text_or_empty,
  contains_text, touch,
}

abbrev pub host_claim_grace_ms : ℕ
host_claim_grace_ms = 30000

unfoldable pub transfer_host : Request → Js → Room → Outcome
transfer_host req id room =
    let target = text_or_empty (token_of (text id) room.members) in
    require (is_host req room) only_host room (
      require (not (is_empty target)) target_not_remote room (
        require (contains_text target req.online) target_offline room
          (done (record room { host_token = target; host_disconnected_at = none }))))

-- hostDisconnectedAt === null || now - hostDisconnectedAt < HOST_CLAIM_GRACE_MS
unfoldable pub host_is_here : ℕ → Option ℕ → Bool
host_is_here now none = true
host_is_here now (some since) = ltb now (since + host_claim_grace_ms)

unfoldable pub claim_host : Request → Room → Outcome
unfolding host_is_here
claim_host req room = require (not (is_empty (player_id_of req room))) claim_without_seat room (
    require (not (host_is_here req.now room.host_disconnected_at)) host_still_here room
      (done (record room { host_token = req.token; host_disconnected_at = none })))

abbrev next_disconnected : Bool → ℕ → Option ℕ → Option ℕ
next_disconnected true now since = none
next_disconnected false now none = some now
next_disconnected false now (some since) = some since

abbrev same_time : Option ℕ → Option ℕ → Bool
same_time none none = true
same_time (some a) (some b) = a == b
same_time _ _ = false

-- The new state, and whether it changed.
unfoldable pub set_host_online : Room → Bool → ℕ → Room × Bool
set_host_online room online now =
    let next = next_disconnected online now room.host_disconnected_at in
    if same_time room.host_disconnected_at next
    then (room, false)
    else (touch now (record room { host_disconnected_at = next }), true)

abbrev host_http_presence_bucket_ms : ℕ
host_http_presence_bucket_ms = 15000

-- The end of the time slot that follows now's.
abbrev presence_lease : ℕ → ℕ
presence_lease now = (now / host_http_presence_bucket_ms + 1) * host_http_presence_bucket_ms

-- hostDisconnectedAt !== null && hostDisconnectedAt >= presenceLease
unfoldable pub is_leased : Option ℕ → ℕ → Bool
is_leased none lease = false
is_leased (some since) lease = leb lease since

-- The new state, and whether it changed.
unfoldable pub refresh_http_host_presence : Room → Text → Bool → ℕ → Room × Bool
unfolding is_leased
refresh_http_host_presence room token has_open_socket now =
    if not (same_text token room.host_token) || has_open_socket
    then (room, false)
    else if is_leased room.host_disconnected_at (presence_lease now)
    then (room, false)
    else (touch now (record room { host_disconnected_at = some (presence_lease now) }), true)
