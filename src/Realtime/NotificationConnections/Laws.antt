-- ===== src/Realtime/NotificationConnections/Laws.antt =====
-- The dict of sockets as a set of connections, and the life of the notification sockets.
use collabflow.Common.{
  ◌==◌, ==_iff, ℕ, ◌≡◌, Bool, true, false, not, ◌&&◌, List, [], ◌∷◌, arith, contains, select,
  if◌then◌else◌, Option-cases, inl, inr,
}
use collabflow.Realtime.Dict.{get, add, discard, get-put, get-del, contains-add, contains-discard}
use collabflow.Realtime.Connections.{UserConns, or_empty, keep_user}
use collabflow.Realtime.NotificationConnections.{connect, disconnect, drop_dead, send_to_user}

unfoldable pub is_subscribed : (user_id websocket : ℕ) → UserConns → Bool
is_subscribed u s conns = contains (or_empty (get u conns)) s

pub is_subscribed-connect :
    (u s v t : ℕ) (conns : UserConns)
    → is_subscribed v t (connect u s conns)
      ≡ (if (u == v) && (s == t) then true else is_subscribed v t conns)
unfolding is_subscribed connect
is_subscribed-connect u s v t conns = ground (
  arith,
  get-put u v (add s (or_empty (get u conns))) conns,
  contains-add s t (or_empty (get u conns)),
  ==_iff u v,
)

or_empty-keep_user :
    (u v : ℕ) (sockets : List ℕ) (conns : UserConns)
    → or_empty (get v (keep_user u sockets conns))
      ≡ (if u == v then sockets else or_empty (get v conns))
or_empty-keep_user u v [] conns = ground (arith, get-del u v conns)
or_empty-keep_user u v (s ∷ sockets) conns = ground (arith, get-put u v (s ∷ sockets) conns)

pub is_subscribed-disconnect :
    (u s v t : ℕ) (conns : UserConns)
    → is_subscribed v t (disconnect u s conns)
      ≡ (if (u == v) && (s == t) then false else is_subscribed v t conns)
unfolding is_subscribed disconnect contains
is_subscribed-disconnect u s v t conns = elim (Option-cases (get u conns)) [
  | inl e ↦ rw e (ground (arith, e, ==_iff u v))
  | inr (sockets, e) ↦ rw e (
      ground (
        arith,
        e,
        or_empty-keep_user u v (discard s sockets) conns,
        contains-discard s t sockets,
        ==_iff u v,
      ))
]

is_subscribed-drop_dead :
    (u v t : ℕ) (dead : List ℕ) (conns : UserConns)
    → is_subscribed v t (drop_dead u dead conns)
      ≡ (if (u == v) && contains dead t then false else is_subscribed v t conns)
unfolding drop_dead contains
is_subscribed-drop_dead u v t [] conns = ground arith
is_subscribed-drop_dead u v t (s ∷ dead) conns = ground (
  arith,
  is_subscribed-drop_dead u v t dead (disconnect u s conns),
  is_subscribed-disconnect u s v t conns,
)

contains-dead :
    (alive : ℕ → Bool) (t : ℕ) (s : List ℕ)
    → contains (select (λ x. not (alive x)) s) t ≡ (not (alive t) && contains s t)
unfolding contains select
contains-dead alive t [] = ground arith
contains-dead alive t (x ∷ s) = ground (arith, contains-dead alive t s, ==_iff x t)

-- After a notification to a user, a socket is kept unless it was one of the user's and is dead,
-- whatever the other tasks did to the sockets meanwhile.
pub is_subscribed-send_to_user :
    (alive : ℕ → Bool) (between : UserConns → UserConns) (u v t : ℕ) (conns : UserConns)
    → is_subscribed v t (send_to_user alive between u conns).1 ≡ (
        if (u == v) && not (alive t) && is_subscribed u t conns
        then false
        else is_subscribed v t (between conns))
unfolding send_to_user is_subscribed
is_subscribed-send_to_user alive between u v t conns = ground (
  arith,
  is_subscribed-drop_dead u v t (select (λ x. not (alive x)) (or_empty (get u conns)))
      (between conns),
  contains-dead alive t (or_empty (get u conns)),
)
