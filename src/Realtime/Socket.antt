-- ===== src/Realtime/Socket.antt =====
-- `project_websocket` of backend/app/api/routers/ws.py, once the dependencies have let the user in.
-- What a client sends is read and dropped, so its life is an opening and a closing.
pub mod Laws
use collabflow.Common.{◌==◌, ℕ, zero, suc, Bool, true, false, some, none, List, [], ◌∷◌, ◌++◌}
use collabflow.Models.{WsEventType}
use collabflow.World.{Message, EventData, user_data, project_channel}
use collabflow.Realtime.Connections.{Connections, connect, disconnect}
use collabflow.Realtime.Presence.{
  Hashes, ℤ, pos, negsuc, join, leave, online_user_ids, is_not_positive,
}

-- This process's connections, the presence hashes, and what was sent: the snapshots to sockets and
-- the messages to Redis, newest first.
pub record Live : Type 0 where
  pub connections : Connections
  pub hashes : Hashes
  pub snapshots : List (ℕ × List ℕ)
  pub published : List Message

-- publish_event with the presence events
abbrev pub presence_event : WsEventType → (project_id user_id : ℕ) → Message
presence_event type project_id user_id = record {
  channel = project_channel project_id;
  type = type;
  project_id = some project_id;
  actor_id = some user_id;
  payload = user_data user_id;
}

abbrev pub publish_if : Bool → Message → List Message → List Message
publish_if true m ms = m ∷ ms
publish_if false m ms = ms

-- connection_count == 1
abbrev pub is_one : ℤ → Bool
is_one (pos n) = n == 1
is_one (negsuc n) = false

-- After `presence.join`: `sent` says whether the snapshot's `send_json` returned. If it raises, the
-- handler ends there, in front of its `try`.
abbrev pub greet : (sent : Bool) → (project_id user_id websocket : ℕ) → ℤ → Live → Bool × Live
greet false project_id user_id websocket count s = (false, s)
greet true project_id user_id websocket count s = (
  true,
  record s {
    snapshots = (websocket, online_user_ids project_id s.hashes) ∷ s.snapshots;
    published =
        publish_if (is_one count) (presence_event WsEventType.presence_joined project_id user_id)
          s.published;
  },
)

-- Up to the `try`; the flag says whether the handler got there.
unfoldable pub open_socket : (sent : Bool) → (project_id user_id websocket : ℕ) → Live → Bool × Live
unfolding connect join online_user_ids
open_socket sent project_id user_id websocket s =
    let (count, hashes) = join project_id user_id s.hashes in
    greet sent project_id user_id websocket count (record s {
      connections = connect project_id user_id websocket s.connections;
      hashes = hashes;
    })

-- The `finally`.
unfoldable pub close_socket : (project_id user_id websocket : ℕ) → Live → Live
unfolding disconnect leave
close_socket project_id user_id websocket s =
    let (remaining, hashes) = leave project_id user_id s.hashes in
    record s {
      connections = disconnect project_id user_id websocket s.connections;
      hashes = hashes;
      published =
          publish_if (is_not_positive remaining)
            (presence_event WsEventType.presence_left project_id user_id) s.published;
    }
