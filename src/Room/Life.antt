-- ===== src/Room/Life.antt =====
-- The life of a room as its server drives it: what cloudflare/worker.ts calls on a stored room, in
-- any order, each call with its own token, time and random numbers.
pub mod Bounded
pub mod Games
use non_stop_talk.Prelude.{ℕ, Bool, List, [], ◌∷◌}
use non_stop_talk.Text.{Text}
use non_stop_talk.Room.{Room, Request, room_of}
use non_stop_talk.Room.Seats.{join_room}
use non_stop_talk.Room.Setup.{begin_topic_generation}
use non_stop_talk.Room.Host.{set_host_online, refresh_http_host_presence}
use non_stop_talk.Room.Actions.{Action, apply_action}

pub data Event : Type 0 where
  act : Request → Action → Event
  join : Request → Text → Event
  generate : Request → Event
  presence : Bool → ℕ → Event
  poll : Text → Bool → ℕ → Event

-- The room that is stored after a call, also after one that threw.
unfoldable pub handle : Event → Room → Room
handle (act req action) room = room_of (apply_action req action room)
handle (join req name) room = room_of (join_room req name room)
handle (generate req) room = room_of (begin_topic_generation req room)
handle (presence online now) room = (set_host_online room online now).0
handle (poll token has_socket now) room = (refresh_http_host_presence room token has_socket now).0

unfoldable pub live : List Event → Room → Room
unfolding handle
live [] room = room
live (e ∷ es) room = live es (handle e room)
