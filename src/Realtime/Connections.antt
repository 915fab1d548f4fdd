-- ===== src/Realtime/Connections.antt =====
-- `ConnectionManager` of backend/app/ws/connection_manager.py: project -> user -> set of sockets.
pub mod Send
pub mod Laws
pub mod Keyed
pub mod Refinement
pub mod Tidy
use collabflow.Common.{
  ℕ, Bool, true, false, Option, none, some, List, [], ◌∷◌, ◌++◌, map, select, not,
}
use collabflow.Realtime.Dict.{Dict, get, put, del, add, discard}

abbrev pub UserConns : Type 0
UserConns = Dict (List ℕ)

-- `self._connections`
abbrev pub Connections : Type 0
Connections = Dict UserConns

-- `defaultdict`: what an absent key stands for
abbrev pub or_empty : {A : Type 0} → Option (List A) → List A
or_empty none = []
or_empty (some s) = s

unfoldable pub connect : (project_id user_id websocket : ℕ) → Connections → Connections
unfolding get put add
connect project_id user_id websocket conns =
    let project_conns = or_empty (get project_id conns) in
    let sockets = or_empty (get user_id project_conns) in
    put project_id (put user_id (add websocket sockets) project_conns) conns

-- `if not user_conns: del project_conns[user_id]`
abbrev pub keep_user : (user_id : ℕ) → List ℕ → UserConns → UserConns
keep_user user_id [] project_conns = del user_id project_conns
keep_user user_id (s ∷ sockets) project_conns = put user_id (s ∷ sockets) project_conns

-- `if not project_conns: del self._connections[project_id]`
abbrev pub keep_project : (project_id : ℕ) → UserConns → Connections → Connections
keep_project project_id [] conns = del project_id conns
keep_project project_id (c ∷ project_conns) conns = put project_id (c ∷ project_conns) conns

-- From the user's sockets on.
abbrev pub disconnect_user :
    (project_id user_id websocket : ℕ) → UserConns → Option (List ℕ) → Connections → Connections
disconnect_user project_id user_id websocket project_conns none conns = conns
disconnect_user project_id user_id websocket project_conns (some user_conns) conns =
    keep_project project_id (keep_user user_id (discard websocket user_conns) project_conns) conns

-- From the project's users on.
abbrev pub disconnect_project :
    (project_id user_id websocket : ℕ) → Option UserConns → Connections → Connections
disconnect_project project_id user_id websocket none conns = conns
disconnect_project project_id user_id websocket (some project_conns) conns =
    disconnect_user project_id user_id websocket project_conns (get user_id project_conns) conns

unfoldable pub disconnect : (project_id user_id websocket : ℕ) → Connections → Connections
unfolding get put del discard
disconnect project_id user_id websocket conns =
    disconnect_project project_id user_id websocket (get project_id conns) conns

abbrev pub keys : {V : Type 0} → Dict V → List ℕ
keys = map (λ e. e.0)

unfoldable pub online_user_ids : (project_id : ℕ) → Connections → List ℕ
unfolding get
online_user_ids project_id conns = keys (or_empty (get project_id conns))

-- [(user_id, list(sockets)) …] as one list of pairs, in the order of the two loops
unfoldable pub snapshot : UserConns → List (ℕ × ℕ)
snapshot [] = []
snapshot ((user_id, sockets) ∷ conns) = map (λ s. (user_id, s)) sockets ++ snapshot conns

-- `for user_id, websocket in dead: self.disconnect(…)`
unfoldable pub drop_dead : (project_id : ℕ) → List (ℕ × ℕ) → Connections → Connections
unfolding disconnect
drop_dead project_id [] conns = conns
drop_dead project_id ((user_id, websocket) ∷ dead) conns =
    drop_dead project_id dead (disconnect project_id user_id websocket conns)

-- `alive` says of each socket whether its `send_json` returns; the sockets that got the message come
-- first. While a send is awaited other tasks may change the connections: `between` is what they do
-- from the snapshot to the last send.
unfoldable pub send_to_project :
    (alive : ℕ → Bool)
    → (between : Connections → Connections) → (project_id : ℕ) → Connections
    → List ℕ × Connections
unfolding get snapshot drop_dead
send_to_project alive between project_id conns =
    let targets = snapshot (or_empty (get project_id conns)) in
    (
      map (λ (t : ℕ × ℕ). t.1) (select (λ (t : ℕ × ℕ). alive t.1) targets),
      drop_dead project_id (select (λ (t : ℕ × ℕ). not (alive t.1)) targets) (between conns),
    )
