-- ===== src/Realtime/Life/Laws.antt =====
-- What holds through the life of the sockets, and that it ends with nobody online.
use collabflow.Common.{
  ◌==◌, ==_refl, ==_iff, ℕ, ◌≡◌, refl, ap, sym, inl, inr, Bool-cases, ◌∙◌, ◌+◌, any-append,
  if◌then◌else◌, zero, suc, ◌<◌, ltb, Bool, true, false, ◌&&◌, ◌||◌, List, [], ◌∷◌, ◌++◌, any,
  arith, contains,
}
use collabflow.Realtime.Dict.{get}
use collabflow.Realtime.Connections.Laws.{
  is_connected, is_connected-connect, is_connected-disconnect,
}
use collabflow.Realtime.Connections.Send.{is_connected-send_to_project}
use collabflow.Realtime.Presence.{ℤ, pos, count_of, hincrby, decrement, is_not_positive}
use collabflow.Realtime.Presence.Laws.{opened, closed, same_key}
use collabflow.Realtime.Socket.{open_socket}
use collabflow.Realtime.Life.Fields.{
  field_of, fields-join, fields-leave, fields-delete, pending_after, leave_count,
}
use collabflow.Realtime.Life.{
  Opened, System, start, is_handler_of, after_open, after_unsent, after_leave, after_delete,
  after_send, opens, opens_unsent, sends, leaves, deletes, Steps, done, next,
}

unfoldable pub open_count : List Opened → (project_id user_id : ℕ) → ℕ
open_count [] = λ p u. 0
open_count (h ∷ hs) = opened h.project_id h.user_id (open_count hs)

abbrev pub is_handler : (project_id user_id websocket : ℕ) → Opened → Bool
is_handler p u s h = (h.project_id == p) && (h.user_id == u) && (h.websocket == s)

pub open_count-any :
    (hs : List Opened) (p u : ℕ) → ltb 0 (open_count hs p u) ≡ any (is_handler_of p u) hs
unfolding open_count any
open_count-any [] p u = ground arith
open_count-any (h ∷ hs) p u = ground (arith, open_count-any hs p u)

-- Whom the hashes count: the waiting handlers and the stuck openings.
abbrev pub counted : System → List Opened
counted s = s.handlers ++ s.stuck

-- The hashes hold the numbers of the counted sockets; at most one leave of a user and project is
-- pending, and then none is counted; and a registered connection is counted.
unfoldable pub IsSettled : System → Type 0
IsSettled s =
    ((p u : ℕ)
      → count_of p u s.live.hashes
        ≡ field_of (open_count s.leaving p u) (open_count (counted s) p u))
    × ((p u : ℕ)
        → 0 < open_count s.leaving p u
        → (open_count s.leaving p u ≡ 1) × (open_count (counted s) p u ≡ 0))
    × ((p u t : ℕ)
        → is_connected p u t s.live.connections ≡ true
        → any (is_handler p u t) (counted s) ≡ true)

open_count-without :
    (earlier : List Opened) (h : Opened) (later : List Opened) (p u : ℕ)
    → open_count (earlier ++ h ∷ later) p u
      ≡ opened h.project_id h.user_id (open_count (earlier ++ later)) p u
unfolding open_count
open_count-without [] h later p u = refl
open_count-without (g ∷ earlier) h later p u =
    ground (arith, open_count-without earlier h later p u)

any-without :
    (earlier : List Opened) (h : Opened) (later : List Opened) (p u t : ℕ)
    → any (is_handler p u t) (earlier ++ h ∷ later)
      ≡ (is_handler p u t h || any (is_handler p u t) (earlier ++ later))
unfolding any
any-without [] h later p u t = refl
any-without (g ∷ earlier) h later p u t = ground (arith, any-without earlier h later p u t)

start-IsSettled : IsSettled start
unfolding IsSettled count_of open_count is_connected contains get
start-IsSettled = (λ p u. refl, λ p u h. ground (arith, h), λ p u t h. ground (arith, h))

none_pending :
    (h : Opened) (s : System)
    → any (is_handler_of h.project_id h.user_id) s.leaving ≡ false
    → open_count s.leaving h.project_id h.user_id ≡ 0
none_pending h s free = ground (arith, open_count-any s.leaving h.project_id h.user_id, free)

opens-IsSettled :
    (h : Opened) (s : System)
    → any (is_handler_of h.project_id h.user_id) s.leaving ≡ false
    → IsSettled s
    → IsSettled (after_open h s)
unfolding IsSettled after_open open_socket open_count any
opens-IsSettled h s free (fields, one, handled) = (
  fields-join h.project_id h.user_id s.live.hashes (open_count s.leaving) (open_count (counted s))
      fields (none_pending h s free),
  λ p u k.
      ground (arith, one p u k, none_pending h s free, ==_iff h.project_id p, ==_iff h.user_id u),
  λ p u t e. ground (
    arith,
    e,
    handled p u t,
    is_connected-connect h.project_id h.user_id h.websocket p u t s.live.connections,
  ),
)

unsent-IsSettled :
    (h : Opened) (s : System)
    → any (is_handler_of h.project_id h.user_id) s.leaving ≡ false
    → IsSettled s
    → IsSettled (after_unsent h s)
unfolding IsSettled after_unsent open_socket open_count any
unsent-IsSettled h s free (fields, one, handled) = (
  λ p u.
      fields-join h.project_id h.user_id s.live.hashes (open_count s.leaving)
        (open_count (counted s)) fields (none_pending h s free) p u
      ∙ ap (field_of (open_count s.leaving p u))
          (sym (open_count-without s.handlers h s.stuck p u)),
  λ p u k. ground (
    arith,
    one p u k,
    none_pending h s free,
    open_count-without s.handlers h s.stuck p u,
    ==_iff h.project_id p,
    ==_iff h.user_id u,
  ),
  λ p u t e. ground (
    arith,
    e,
    handled p u t,
    any-without s.handlers h s.stuck p u t,
    is_connected-connect h.project_id h.user_id h.websocket p u t s.live.connections,
  ),
)

sends-IsSettled :
    (alive : ℕ → Bool) (project_id : ℕ) (s : System)
    → IsSettled s
    → IsSettled (after_send alive project_id s)
unfolding IsSettled after_send
sends-IsSettled alive project_id s (fields, one, handled) = (
  fields,
  one,
  λ p u t e. ground (
    arith,
    e,
    handled p u t,
    is_connected-send_to_project alive (λ c. c) project_id p u t s.live.connections,
  ),
)

open_count-append :
    (hs gs : List Opened) (p u : ℕ)
    → open_count (hs ++ gs) p u ≡ open_count hs p u + open_count gs p u
unfolding open_count
open_count-append [] gs p u = omega arith
open_count-append (h ∷ hs) gs p u = ground (arith, open_count-append hs gs p u)

-- What one socket more or less than a number stands for.
closed-opened :
    (h : Opened) (c : ℕ → ℕ → ℕ) (p u : ℕ)
    → closed h.project_id h.user_id (opened h.project_id h.user_id c) p u ≡ c p u
closed-opened h c p u = ground arith

closed-same :
    (h : Opened) (c d : ℕ → ℕ → ℕ)
    → ((p u : ℕ) → c p u ≡ opened h.project_id h.user_id d p u)
    → (p u : ℕ) → closed h.project_id h.user_id c p u ≡ d p u
closed-same h c d same p u = ground (arith, same p u)

pending-if :
    (n : ℤ) (h : Opened) (hs : List Opened) (p u : ℕ)
    → open_count (if is_not_positive n then h ∷ hs else hs) p u
      ≡ pending_after n h.project_id h.user_id (open_count hs) p u
unfolding open_count
pending-if n h hs p u = elim (Bool-cases (is_not_positive n)) [
  | inl last ↦ rw last refl
  | inr more ↦ rw more refl
]

-- A leave is pending only where nothing is counted any more.
pending_one :
    (n : ℕ) (key : Bool) (k c c' : ℕ)
    → (0 < k → (k ≡ 1) × (c ≡ 0))
    → (key ≡ true → (k ≡ 0) × (c' ≡ n))
    → c ≡ (if key then suc c' else c')
    → let k' = if is_not_positive (pos n) then (if key then suc k else k) else k in
      0 < k' → (k' ≡ 1) × (c' ≡ 0)
pending_one zero key k c c' one at_key e = λ h. ground (arith, one, at_key, e, h)
pending_one (suc n) key k c c' one at_key e = λ h. ground (arith, one, at_key, e, h)

module _ (earlier : List Opened) (h : Opened) (later : List Opened) (s : System) where
  abbrev rest : List Opened
  rest = (earlier ++ later) ++ s.stuck

  counted-leave :
      s.handlers ≡ earlier ++ h ∷ later
      → (p u : ℕ) → open_count (counted s) p u ≡ opened h.project_id h.user_id (open_count rest) p u
  counted-leave at_h p u = ground (
    arith,
    ap (λ hs. open_count hs p u) at_h,
    open_count-append s.handlers s.stuck p u,
    open_count-append (earlier ++ later) s.stuck p u,
    open_count-without earlier h later p u,
  )

  any-leave :
      s.handlers ≡ earlier ++ h ∷ later
      → (p u t : ℕ)
      → any (is_handler p u t) (counted s) ≡ (is_handler p u t h || any (is_handler p u t) rest)
  any-leave at_h p u t = ground (
    arith,
    ap (any (is_handler p u t)) at_h,
    any-append (is_handler p u t) s.handlers s.stuck,
    any-append (is_handler p u t) (earlier ++ later) s.stuck,
    any-without earlier h later p u t,
  )

  leaves-IsSettled :
      s.handlers ≡ earlier ++ h ∷ later
      → IsSettled s
      → IsSettled (after_leave h (earlier ++ later) s)
  unfolding IsSettled after_leave
  leaves-IsSettled at_h (fields, one, handled) =
      let here = counted-leave at_h h.project_id h.user_id in
      let n = open_count rest h.project_id h.user_id in
      let e : open_count (counted s) h.project_id h.user_id ≡ suc n =
        ground (arith, here, ==_refl h.project_id, ==_refl h.user_id) in
      let free : open_count s.leaving h.project_id h.user_id ≡ 0 =
        ground (arith, one h.project_id h.user_id, e) in
      let count = (hincrby decrement h.project_id h.user_id s.live.hashes).0 in
      let at_n : count ≡ pos n =
        leave_count h.project_id h.user_id s.live.hashes (open_count s.leaving)
          (open_count (counted s)) fields n e free in
      (
        λ p u.
            fields-leave h.project_id h.user_id s.live.hashes (open_count s.leaving)
              (open_count (counted s)) fields n e free p u
            ∙ ap (λ k. field_of k (closed h.project_id h.user_id (open_count (counted s)) p u))
                (sym (pending-if count h s.leaving p u))
            ∙ ap
                (field_of
                  (open_count (if is_not_positive count then h ∷ s.leaving else s.leaving) p u))
                (closed-same h (open_count (counted s)) (open_count rest) (counted-leave at_h) p u),
        λ p u k. rw (pending-if count h s.leaving p u) (
            rw at_n (
              pending_one n (same_key h.project_id h.user_id p u) (open_count s.leaving p u)
                (open_count (counted s) p u) (open_count rest p u) (one p u)
                (λ key. ground (arith, key, free, ==_iff h.project_id p, ==_iff h.user_id u))
                (counted-leave at_h p u)
                (rw at_n at (rw (pending-if count h s.leaving p u) at k)))),
        λ p u t e. ground (
          arith,
          e,
          handled p u t,
          any-leave at_h p u t,
          is_connected-disconnect h.project_id h.user_id h.websocket p u t s.live.connections,
        ),
      )

  deletes-IsSettled :
      s.leaving ≡ earlier ++ h ∷ later
      → IsSettled s
      → IsSettled (after_delete h (earlier ++ later) s)
  unfolding IsSettled after_delete
  deletes-IsSettled at_h (fields, one, handled) =
      let pending : (p u : ℕ)
          → open_count s.leaving p u
            ≡ opened h.project_id h.user_id (open_count (earlier ++ later)) p u =
        λ p u. ap (λ hs. open_count hs p u) at_h ∙ open_count-without earlier h later p u in
      let some_pending : 0 < open_count s.leaving h.project_id h.user_id =
        ground (arith, pending h.project_id h.user_id, ==_refl h.project_id, ==_refl h.user_id) in
      let (only, none_left) = one h.project_id h.user_id some_pending in
      (
        λ p u.
            fields-delete h.project_id h.user_id s.live.hashes (open_count s.leaving)
              (open_count (counted s)) fields only none_left p u
            ∙ ap (λ k. field_of k (open_count (counted s) p u))
                (closed-same h (open_count s.leaving) (open_count (earlier ++ later)) pending p u),
        λ p u k.
            ground
              (arith, one p u, k, pending p u, only, ==_iff h.project_id p, ==_iff h.user_id u),
        handled,
      )

pub Steps-IsSettled : (s : System) → Steps start s → IsSettled s
Steps-IsSettled _ done = start-IsSettled
Steps-IsSettled _ (next before (opens h free)) = opens-IsSettled h _ free (Steps-IsSettled _ before)
Steps-IsSettled _ (next before (opens_unsent h free)) =
    unsent-IsSettled h _ free (Steps-IsSettled _ before)
Steps-IsSettled _ (next before (sends alive p)) =
    sends-IsSettled alive p _ (Steps-IsSettled _ before)
Steps-IsSettled _ (next before (leaves earlier h later at_h)) =
    leaves-IsSettled earlier h later _ at_h (Steps-IsSettled _ before)
Steps-IsSettled _ (next before (deletes earlier h later at_h)) =
    deletes-IsSettled earlier h later _ at_h (Steps-IsSettled _ before)
