-- ===== src/Realtime/Connections/Laws.antt =====
-- The two nested dicts as a set of connections.
use collabflow.Common.{
  ◌==◌, ==_iff, ℕ, ◌≡◌, refl, Bool, true, false, ◌&&◌, Option, none, some, List, [], ◌∷◌, arith,
  contains, if◌then◌else◌, Option-cases, inl, inr,
}
use collabflow.Realtime.Dict.{
  get, put, add, discard, get-put, get-del, contains-add, contains-discard,
}
use collabflow.Realtime.Connections.{
  UserConns, Connections, or_empty, connect, disconnect, keep_user, keep_project, disconnect_user,
}

abbrev pub sockets_of : (user_id : ℕ) → Option UserConns → List ℕ
sockets_of u none = []
sockets_of u (some project_conns) = or_empty (get u project_conns)

-- Whether the socket is registered for the user in the project.
unfoldable pub is_connected : (project_id user_id websocket : ℕ) → Connections → Bool
is_connected p u s conns = contains (sockets_of u (get p conns)) s

abbrev pub same_connection : (p u s q v t : ℕ) → Bool
same_connection p u s q v t = (p == q) && (u == v) && (s == t)

-- `connect` adds the one connection to those that are registered and leaves all others.
pub is_connected-connect :
    (p u s q v t : ℕ) (conns : Connections)
    → is_connected q v t (connect p u s conns)
      ≡ (if same_connection p u s q v t then true else is_connected q v t conns)
unfolding is_connected connect contains get
is_connected-connect p u s q v t conns = ground (
  arith,
  get-put p q (put u (add s (or_empty (get u (or_empty (get p conns))))) (or_empty (get p conns)))
      conns,
  get-put u v (add s (or_empty (get u (or_empty (get p conns))))) (or_empty (get p conns)),
  contains-add s t (or_empty (get u (or_empty (get p conns)))),
  ==_iff p q,
  ==_iff u v,
)

-- What a key holds after its list was left: an empty list goes.
abbrev pub kept : {A : Type 0} → List A → Option (List A)
kept [] = none
kept (x ∷ xs) = some (x ∷ xs)

pub get-keep_user :
    (u v : ℕ) (sockets : List ℕ) (conns : UserConns)
    → get v (keep_user u sockets conns) ≡ (if u == v then kept sockets else get v conns)
get-keep_user u v [] conns = get-del u v conns
get-keep_user u v (s ∷ sockets) conns = get-put u v (s ∷ sockets) conns

pub get-keep_project :
    (p q : ℕ) (users : UserConns) (conns : Connections)
    → get q (keep_project p users conns) ≡ (if p == q then kept users else get q conns)
get-keep_project p q [] conns = get-del p q conns
get-keep_project p q (c ∷ users) conns = get-put p q (c ∷ users) conns

pub or_empty-kept : {A : Type 0} (xs : List A) → or_empty (kept xs) ≡ xs
or_empty-kept [] = refl
or_empty-kept (x ∷ xs) = refl

sockets_of-kept : (u : ℕ) (users : UserConns) → sockets_of u (kept users) ≡ or_empty (get u users)
unfolding get
sockets_of-kept u [] = refl
sockets_of-kept u (x ∷ xs) = refl

is_connected-disconnect_user :
    (p u s q v t : ℕ) (users : UserConns) (found : Option (List ℕ)) (conns : Connections)
    → get p conns ≡ some users
    → get u users ≡ found
    → is_connected q v t (disconnect_user p u s users found conns)
      ≡ (if same_connection p u s q v t then false else is_connected q v t conns)
unfolding is_connected contains
is_connected-disconnect_user p u s q v t users none conns h k =
    ground (arith, ==_iff p q, ==_iff u v)
is_connected-disconnect_user p u s q v t users (some sockets) conns h k = ground (
  arith,
  get-keep_project p q (keep_user u (discard s sockets) users) conns,
  get-keep_user u v (discard s sockets) users,
  or_empty-kept (discard s sockets),
  sockets_of-kept v (keep_user u (discard s sockets) users),
  contains-discard s t sockets,
  ==_iff p q,
  ==_iff u v,
)

-- `disconnect` removes the one connection from those that are registered, whether or not it was
-- there, and leaves all others.
pub is_connected-disconnect :
    (p u s q v t : ℕ) (conns : Connections)
    → is_connected q v t (disconnect p u s conns)
      ≡ (if same_connection p u s q v t then false else is_connected q v t conns)
unfolding disconnect
is_connected-disconnect p u s q v t conns = elim (Option-cases (get p conns)) [
  | inl e ↦ rw e (unfold is_connected contains in ground (arith, e, ==_iff p q))
  | inr (users, e) ↦
      rw e (is_connected-disconnect_user p u s q v t users (get u users) conns e refl)
]
