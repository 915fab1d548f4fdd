-- ===== src/Realtime/Connections/Send.antt =====
-- Sending to the sockets of a project.
use collabflow.Common.{
  ◌==◌, ==_iff, ℕ, ◌≡◌, refl, Bool, false, not, ◌&&◌, List, [], ◌∷◌, arith, select, any,
  if◌then◌else◌,
}
use collabflow.Realtime.Dict.{get}
use collabflow.Realtime.Connections.{
  Connections, disconnect, drop_dead, send_to_project, snapshot, or_empty,
}
use collabflow.Realtime.Connections.Laws.{is_connected, is_connected-disconnect}

abbrev pub is_target : (user_id websocket : ℕ) → ℕ × ℕ → Bool
is_target v t (u, s) = (u == v) && (s == t)

pub is_connected-drop_dead :
    (p q v t : ℕ) (dead : List (ℕ × ℕ)) (conns : Connections)
    → is_connected q v t (drop_dead p dead conns)
      ≡ (if (p == q) && any (is_target v t) dead then false else is_connected q v t conns)
unfolding drop_dead any
is_connected-drop_dead p q v t [] conns = ground arith
is_connected-drop_dead p q v t ((u, s) ∷ dead) conns = ground (
  arith,
  is_connected-drop_dead p q v t dead (disconnect p u s conns),
  is_connected-disconnect p u s q v t conns,
)

any-dead :
    (v t : ℕ) (alive : ℕ → Bool) (targets : List (ℕ × ℕ))
    → any (is_target v t) (select (λ (x : ℕ × ℕ). not (alive x.1)) targets)
      ≡ (any (is_target v t) targets && not (alive t))
unfolding any select
any-dead v t alive [] = refl
any-dead v t alive ((u, s) ∷ targets) = ground (arith, any-dead v t alive targets, ==_iff s t)

-- After a message to a project, a connection is kept unless it was one of the targets and its socket
-- is dead, whatever the other tasks did to the connections meanwhile.
pub is_connected-send_to_project :
    (alive : ℕ → Bool) (between : Connections → Connections) (p q v t : ℕ) (conns : Connections)
    → is_connected q v t (send_to_project alive between p conns).1 ≡ (
        if (p == q) && any (is_target v t) (snapshot (or_empty (get p conns))) && not (alive t)
        then false
        else is_connected q v t (between conns))
unfolding send_to_project
is_connected-send_to_project alive between p q v t conns = ground (
  arith,
  is_connected-drop_dead p q v t
      (select (λ (x : ℕ × ℕ). not (alive x.1)) (snapshot (or_empty (get p conns)))) (between conns),
  any-dead v t alive (snapshot (or_empty (get p conns))),
)
