-- ===== src/Realtime/NotificationConnections.antt =====
-- `NotificationConnectionManager` of backend/app/ws/notification_manager.py: user -> set of sockets.
pub mod Laws
use collabflow.Common.{ℕ, Bool, not, Option, none, some, List, [], ◌∷◌, select}
use collabflow.Realtime.Dict.{get, put, del, add, discard}
use collabflow.Realtime.Connections.{UserConns, or_empty, keep_user}

unfoldable pub connect : (user_id websocket : ℕ) → UserConns → UserConns
unfolding get put add
connect user_id websocket conns = put user_id (add websocket (or_empty (get user_id conns))) conns

abbrev pub disconnect_from : (user_id websocket : ℕ) → Option (List ℕ) → UserConns → UserConns
disconnect_from user_id websocket none conns = conns
disconnect_from user_id websocket (some connections) conns =
    keep_user user_id (discard websocket connections) conns

unfoldable pub disconnect : (user_id websocket : ℕ) → UserConns → UserConns
unfolding get put del discard
disconnect user_id websocket conns = disconnect_from user_id websocket (get user_id conns) conns

-- `for websocket in dead: self.disconnect(user_id, websocket)`
unfoldable pub drop_dead : (user_id : ℕ) → List ℕ → UserConns → UserConns
unfolding disconnect
drop_dead user_id [] conns = conns
drop_dead user_id (websocket ∷ dead) conns =
    drop_dead user_id dead (disconnect user_id websocket conns)

-- As `send_to_project`: the sockets that got the message, and the connections afterwards.
unfoldable pub send_to_user :
    (alive : ℕ → Bool)
    → (between : UserConns → UserConns) → (user_id : ℕ) → UserConns
    → List ℕ × UserConns
unfolding get drop_dead
send_to_user alive between user_id conns =
    let sockets = or_empty (get user_id conns) in
    (select alive sockets, drop_dead user_id (select (λ s. not (alive s)) sockets) (between conns))

-- `notifications_websocket` of api/routers/ws.py, once the dependency has let the user in: up to its
-- `try`, and its `finally`.
unfoldable pub open_notifications : (user_id websocket : ℕ) → UserConns → UserConns
unfolding connect
open_notifications user_id websocket conns = connect user_id websocket conns

unfoldable pub close_notifications : (user_id websocket : ℕ) → UserConns → UserConns
unfolding disconnect
close_notifications user_id websocket conns = disconnect user_id websocket conns
