-- ===== src/Realtime/Connections/Keyed.antt =====
-- The dicts of the connection manager have each key once, so that a snapshot holds a connection exactly if
-- it is registered.
use collabflow.Common.{
  any-append, ◌==◌, ==_iff, ℕ, ◌≡◌, refl, ap, Bool, true, false, not, ◌&&◌, ◌||◌, Option, none,
  some, List, [], ◌∷◌, arith, contains, any, map, Option-cases, inl, inr,
}
use collabflow.Realtime.Dict.{Dict, get, put, del, discard, add, get-put}
use collabflow.Realtime.Connections.{
  UserConns, Connections, or_empty, connect, disconnect, disconnect_user, drop_dead, snapshot, keys,
  keep_user,
}
use collabflow.Realtime.Connections.Laws.{get-keep_project, or_empty-kept}
use collabflow.Realtime.Connections.Send.{is_target}

module _ {V : Type 0} where
  unfoldable pub distinct : Dict V → Bool
  distinct [] = true
  distinct ((j, v) ∷ d) = not (contains (keys d) j) && distinct d

  contains-keys-put :
      (k j : ℕ) (v : V) (d : Dict V)
      → contains (keys (put k v d)) j ≡ ((k == j) || contains (keys d) j)
  unfolding contains put
  contains-keys-put k j v [] = refl
  contains-keys-put k j v ((i, w) ∷ d) = ground (arith, contains-keys-put k j v d)

  contains-keys-del :
      (k j : ℕ) (d : Dict V) → contains (keys d) j ≡ false → contains (keys (del k d)) j ≡ false
  unfolding contains del
  contains-keys-del k j [] h = refl
  contains-keys-del k j ((i, w) ∷ d) h = ground (arith, contains-keys-del k j d, h)

  distinct-put : (k : ℕ) (v : V) (d : Dict V) → distinct d ≡ true → distinct (put k v d) ≡ true
  unfolding distinct put contains
  distinct-put k v [] h = refl
  distinct-put k v ((i, w) ∷ d) h =
      ground (arith, h, distinct-put k v d, contains-keys-put k i v d, ==_iff i k)

  distinct-del : (k : ℕ) (d : Dict V) → distinct d ≡ true → distinct (del k d) ≡ true
  unfolding distinct del
  distinct-del k [] h = refl
  distinct-del k ((i, w) ∷ d) h = ground (arith, h, distinct-del k d, contains-keys-del k i d)

  -- A key that is not listed is absent.
  get-absent : (k : ℕ) (d : Dict V) → contains (keys d) k ≡ false → get k d ≡ none
  unfolding get contains
  get-absent k [] h = refl
  get-absent k ((j, v) ∷ d) h = ground (arith, get-absent k d, h)

any-own :
    (u v t : ℕ) (sockets : List ℕ)
    → any (is_target v t) (map (λ s. (u, s)) sockets) ≡ ((u == v) && contains sockets t)
unfolding any contains
any-own u v t [] = ground arith
any-own u v t (s ∷ sockets) = ground (arith, any-own u v t sockets)

pub any-snapshot :
    (v t : ℕ) (users : UserConns)
    → distinct users ≡ true
    → any (is_target v t) (snapshot users) ≡ contains (or_empty (get v users)) t
unfolding snapshot get contains any distinct
any-snapshot v t [] h = refl
any-snapshot v t ((u, sockets) ∷ users) h = ground (
  arith,
  h,
  any-snapshot v t users,
  any-own u v t sockets,
  any-append (is_target v t) (map (λ s. (u, s)) sockets) (snapshot users),
  get-absent u users,
  ==_iff u v,
)

-- Each user of a project is a key once.
unfoldable pub IsKeyed : Connections → Type 0
IsKeyed conns = (p : ℕ) → distinct (or_empty (get p conns)) ≡ true

pub connect-IsKeyed :
    (p u s : ℕ) (conns : Connections) → IsKeyed conns → IsKeyed (connect p u s conns)
unfolding IsKeyed connect
connect-IsKeyed p u s conns keyed q =
    let users = or_empty (get p conns) in
    let sockets = add s (or_empty (get u users)) in
    ground (
      arith,
      keyed q,
      get-put p q (put u sockets users) conns,
      distinct-put u sockets users (keyed p),
    )

distinct-keep_user :
    (u : ℕ) (sockets : List ℕ) (users : UserConns)
    → distinct users ≡ true
    → distinct (keep_user u sockets users) ≡ true
distinct-keep_user u [] users h = distinct-del u users h
distinct-keep_user u (s ∷ sockets) users h = distinct-put u (s ∷ sockets) users h

disconnect_user-IsKeyed :
    (p u s : ℕ) (users : UserConns) (found : Option (List ℕ)) (conns : Connections)
    → get p conns ≡ some users
    → IsKeyed conns
    → IsKeyed (disconnect_user p u s users found conns)
unfolding IsKeyed
disconnect_user-IsKeyed p u s users none conns h keyed q = keyed q
disconnect_user-IsKeyed p u s users (some sockets) conns h keyed q = ground (
  arith,
  keyed q,
  get-keep_project p q (keep_user u (discard s sockets) users) conns,
  or_empty-kept (keep_user u (discard s sockets) users),
  distinct-keep_user u (discard s sockets) users,
  ap (λ o. distinct (or_empty o)) h,
  keyed p,
)

pub disconnect-IsKeyed :
    (p u s : ℕ) (conns : Connections) → IsKeyed conns → IsKeyed (disconnect p u s conns)
unfolding disconnect
disconnect-IsKeyed p u s conns keyed = elim (Option-cases (get p conns)) [
  | inl e ↦ rw e keyed
  | inr (users, e) ↦ rw e (disconnect_user-IsKeyed p u s users (get u users) conns e keyed)
]

pub drop_dead-IsKeyed :
    (p : ℕ) (dead : List (ℕ × ℕ)) (conns : Connections)
    → IsKeyed conns
    → IsKeyed (drop_dead p dead conns)
unfolding drop_dead
drop_dead-IsKeyed p [] conns keyed = keyed
drop_dead-IsKeyed p ((u, s) ∷ dead) conns keyed =
    drop_dead-IsKeyed p dead (disconnect p u s conns) (disconnect-IsKeyed p u s conns keyed)
