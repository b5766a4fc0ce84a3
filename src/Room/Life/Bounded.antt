-- ===== src/Room/Life/Bounded.antt =====
-- Every room that a server can reach is within its limits.
use non_stop_talk.Prelude.{ℕ, List, [], ◌∷◌, arith}
use non_stop_talk.Text.{Text}
use non_stop_talk.Room.{Room, touch}
use non_stop_talk.Room.Seats.{seat_player}
use non_stop_talk.Room.Host.{set_host_online, refresh_http_host_presence}
use non_stop_talk.Room.Actions.{create_room_state}
use non_stop_talk.Room.Actions.Bounds.{
  IsBounded, apply_action-IsBounded, join_room-IsBounded, generation-IsBounded,
}
use non_stop_talk.Room.Life.{Event, act, join, generate, presence, poll, handle, live}

pub handle-IsBounded : (e : Event) (room : Room) → IsBounded room → IsBounded (handle e room)
unfolding handle set_host_online refresh_http_host_presence touch
handle-IsBounded (act req action) room h = apply_action-IsBounded req room h action
handle-IsBounded (join req name) room h = join_room-IsBounded req room h name
handle-IsBounded (generate req) room h = generation-IsBounded req room h
handle-IsBounded (presence online now) room h = ground arith
handle-IsBounded (poll token has_socket now) room h = ground arith

live-IsBounded : (es : List Event) (room : Room) → IsBounded room → IsBounded (live es room)
unfolding live
live-IsBounded [] room h = h
live-IsBounded (e ∷ es) room h = live-IsBounded es (handle e room) (handle-IsBounded e room h)

pub create-IsBounded :
    (code host_token host_name : Text) (now : ℕ)
    → IsBounded (create_room_state code host_token host_name now)
unfolding create_room_state seat_player
create-IsBounded code host_token host_name now = ground arith

-- Whatever calls reach a room after its creation, with whatever tokens, times and random numbers,
-- it has at most 12 players and 20 archived games, settings within 10-300 seconds, 1-10 seconds of
-- silence and 1-10 rounds, and at least one topic.
pub every_room-IsBounded :
    (code host_token host_name : Text) (now : ℕ) (es : List Event)
    → IsBounded (live es (create_room_state code host_token host_name now))
every_room-IsBounded code host_token host_name now es =
    live-IsBounded es _ (create-IsBounded code host_token host_name now)
