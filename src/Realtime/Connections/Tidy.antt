-- ===== src/Realtime/Connections/Tidy.antt =====
-- The connection manager keeps no empty set, and lists exactly the users with a socket.
use collabflow.Common.{
  ◌≢◌, ◌==◌, ==_iff, ==_refl, ℕ, ◌≡◌, ◌↔◌, refl, sym, ap, ◌∙◌, true, false, not, Option, none, some,
  List, [], ◌∷◌, arith, contains, select, Option-cases, Bool-cases, inl, inr,
}
use collabflow.Realtime.Dict.{contains-add, get, put, add, discard, get-put}
use collabflow.Realtime.Connections.{
  UserConns, Connections, or_empty, connect, disconnect, disconnect_user, drop_dead,
  send_to_project, snapshot, online_user_ids, keys, keep_user,
}
use collabflow.Realtime.Connections.Laws.{
  kept, get-keep_user, get-keep_project, or_empty-kept, sockets_of, is_connected,
}
use collabflow.Realtime.Connections.Refinement.{
  Change, connects, disconnects, Call, changes, sends, change, change_all, call, calls, effects,
  calls-effects,
}
use collabflow.Realtime.Connections.Keyed.{IsKeyed, distinct}

-- No set of sockets in the two dicts is empty.
unfoldable pub IsTidy : Connections → Type 0
IsTidy conns = (p u : ℕ) → get u (or_empty (get p conns)) ≢ some []

add-ne-nil : (s : ℕ) (sockets : List ℕ) → add s sockets ≢ []
unfolding contains
add-ne-nil s sockets e =
    ground (arith, ap (λ l. contains l s) e, contains-add s s sockets, ==_refl s)

kept-ne-some_nil : (sockets : List ℕ) → kept sockets ≢ some []
kept-ne-some_nil [] e = cc
kept-ne-some_nil (s ∷ sockets) e = cc

connect-IsTidy : (p u s : ℕ) (conns : Connections) → IsTidy conns → IsTidy (connect p u s conns)
unfolding IsTidy connect
connect-IsTidy p u s conns tidy q v e = ground (
  arith,
  tidy q v,
  e,
  get-put p q (put u (add s (or_empty (get u (or_empty (get p conns))))) (or_empty (get p conns)))
      conns,
  get-put u v (add s (or_empty (get u (or_empty (get p conns))))) (or_empty (get p conns)),
  add-ne-nil s (or_empty (get u (or_empty (get p conns)))),
  ==_iff p q,
)

disconnect_user-IsTidy :
    (p u s : ℕ) (users : UserConns) (found : Option (List ℕ)) (conns : Connections)
    → get p conns ≡ some users
    → get u users ≡ found
    → IsTidy conns
    → IsTidy (disconnect_user p u s users found conns)
unfolding IsTidy
disconnect_user-IsTidy p u s users none conns h k tidy q v e = tidy q v e
disconnect_user-IsTidy p u s users (some sockets) conns h k tidy q v e = ground (
  arith,
  tidy q v,
  e,
  h,
  get-keep_project p q (keep_user u (discard s sockets) users) conns,
  or_empty-kept (keep_user u (discard s sockets) users),
  get-keep_user u v (discard s sockets) users,
  kept-ne-some_nil (discard s sockets),
  ==_iff p q,
)

disconnect-IsTidy :
    (p u s : ℕ) (conns : Connections) → IsTidy conns → IsTidy (disconnect p u s conns)
unfolding disconnect
disconnect-IsTidy p u s conns tidy = elim (Option-cases (get p conns)) [
  | inl e ↦ rw e tidy
  | inr (users, e) ↦ rw e (disconnect_user-IsTidy p u s users (get u users) conns e refl tidy)
]

drop_dead-IsTidy :
    (p : ℕ) (dead : List (ℕ × ℕ)) (conns : Connections)
    → IsTidy conns
    → IsTidy (drop_dead p dead conns)
unfolding drop_dead
drop_dead-IsTidy p [] conns tidy = tidy
drop_dead-IsTidy p ((u, s) ∷ dead) conns tidy =
    drop_dead-IsTidy p dead (disconnect p u s conns) (disconnect-IsTidy p u s conns tidy)

change_all-IsTidy :
    (cs : List Change) (conns : Connections) → IsTidy conns → IsTidy (change_all cs conns)
unfolding change_all change
change_all-IsTidy [] conns tidy = tidy
change_all-IsTidy (connects p u s ∷ cs) conns tidy =
    change_all-IsTidy cs (connect p u s conns) (connect-IsTidy p u s conns tidy)
change_all-IsTidy (disconnects p u s ∷ cs) conns tidy =
    change_all-IsTidy cs (disconnect p u s conns) (disconnect-IsTidy p u s conns tidy)

call-IsTidy : (c : Call) (conns : Connections) → IsTidy conns → IsTidy (call c conns)
unfolding call change send_to_project
call-IsTidy (changes (connects p u s)) conns tidy = connect-IsTidy p u s conns tidy
call-IsTidy (changes (disconnects p u s)) conns tidy = disconnect-IsTidy p u s conns tidy
call-IsTidy (sends alive meanwhile p) conns tidy =
    drop_dead-IsTidy p (select (λ (t : ℕ × ℕ). not (alive t.1)) (snapshot (or_empty (get p conns))))
      (change_all meanwhile conns) (change_all-IsTidy meanwhile conns tidy)

calls-IsTidy : (cs : List Call) (conns : Connections) → IsTidy conns → IsTidy (calls cs conns)
unfolding calls
calls-IsTidy [] conns tidy = tidy
calls-IsTidy (c ∷ cs) conns tidy = calls-IsTidy cs (call c conns) (call-IsTidy c conns tidy)

-- A user is listed in a tidy manager exactly with a registered socket.
contains-keys :
    (v : ℕ) (users : UserConns)
    → (contains (keys users) v ≡ true) ↔ ((sockets : List ℕ) × (get v users ≡ some sockets))
unfolding contains get
contains-keys v [] = (λ h. ground (arith, h), λ (sockets, e). ground (arith, e))
contains-keys v ((u, sockets) ∷ users) = elim (Bool-cases (u == v)) [
  | inl own ↦ rw own (λ h. (sockets, refl), λ found. refl)
  | inr other ↦ rw other (contains-keys v users)
]

-- A set that is not empty has a member.
member : (sockets : List ℕ) → sockets ≢ [] → (s : ℕ) × (contains sockets s ≡ true)
unfolding contains
member [] h = absurd (h refl)
member (s ∷ sockets) h = (s, ground (arith, ==_refl s))

sockets_of-or_empty :
    (u : ℕ) (found : Option UserConns) → sockets_of u found ≡ or_empty (get u (or_empty found))
unfolding get
sockets_of-or_empty u none = refl
sockets_of-or_empty u (some users) = refl

listed :
    (p u : ℕ) (conns : Connections)
    → IsTidy conns
    → contains (online_user_ids p conns) u ≡ true
    → (s : ℕ) × (is_connected p u s conns ≡ true)
unfolding online_user_ids IsTidy is_connected
listed p u conns tidy h =
    let (sockets, found) = (contains-keys u (or_empty (get p conns))).0 h in
    let (s, e) = member sockets (λ nil. tidy p u (found ∙ ap some nil)) in
    (s, ap (λ l. contains l s) (sockets_of-or_empty u (get p conns) ∙ ap or_empty found) ∙ e)

registered :
    (p u s : ℕ) (conns : Connections)
    → is_connected p u s conns ≡ true
    → contains (online_user_ids p conns) u ≡ true
unfolding online_user_ids is_connected contains
registered p u s conns h = elim (Option-cases (get u (or_empty (get p conns)))) [
  | inl e ↦ ground (arith, h, e, sockets_of-or_empty u (get p conns))
  | inr (sockets, e) ↦ (contains-keys u (or_empty (get p conns))).1 (sockets, e)
]

-- Whatever calls are made of a new connection manager, and whatever other tasks connect and disconnect
-- while the sends among them are awaited, its two dicts hold exactly the connections of the set on which
-- the calls act as insertions and removals; it keeps no empty set of sockets, and it lists as online exactly
-- the users with a connection.
pub calls-refine :
    (cs : List Call) (p u s : ℕ)
    → (is_connected p u s (calls cs []) ≡ effects cs (λ q v t. false) p u s)
      × (get u (or_empty (get p (calls cs []))) ≢ some [])
      × ((contains (online_user_ids p (calls cs [])) u ≡ true)
          ↔ ((t : ℕ) × (effects cs (λ q v t. false) p u t ≡ true)))
unfolding IsTidy IsKeyed distinct is_connected get contains
calls-refine cs p u s =
    let tidy = calls-IsTidy cs [] (λ q v e. ground (arith, e)) in
    let same = λ (t : ℕ). calls-effects cs [] (λ q v t. false) (λ q. refl) (λ q v t. refl) p u t in
    (
      same s,
      tidy p u,
      (
        λ h. let (t, e) = listed p u (calls cs []) tidy h in (t, sym (same t) ∙ e),
        λ (t, e). registered p u t (calls cs []) (same t ∙ e),
      ),
    )
