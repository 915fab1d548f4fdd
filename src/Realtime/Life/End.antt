-- ===== src/Realtime/Life/End.antt =====
-- Presence at every moment of the sockets' life, and its end.
use collabflow.Common.{
  ℕ, ◌≡◌, refl, ap, sym, ◌∙◌, false, not, ◌&&◌, List, [], ◌∷◌, ◌++◌, any, any-append, arith,
  contains,
}
use collabflow.Realtime.Connections.Laws.{is_connected}
use collabflow.Realtime.Presence.{online_user_ids}
use collabflow.Realtime.Presence.Laws.{contains-online}
use collabflow.Realtime.Life.{
  Opened, System, start, is_handler_of, after_leave, after_delete, leaves, deletes, Steps, done,
  next,
}
use collabflow.Realtime.Life.Laws.{open_count-any, counted, is_handler, IsSettled, Steps-IsSettled}

-- At every moment of the sockets' life a user is online in a project exactly if a handler of theirs waits
-- there, or an opening of theirs there is stuck whose snapshot could not be sent, or a leave of theirs is
-- between its two commands; and a registered socket is that of a waiting handler or of a stuck opening. A
-- socket opens only while no leave of the same user and project is between its two commands.
pub Steps-online :
    (s : System) (p u w : ℕ)
    → Steps start s
    → (contains (online_user_ids p s.live.hashes) u
        ≡ any (is_handler_of p u) (s.leaving ++ s.handlers ++ s.stuck))
      × ((is_connected p u w s.live.connections
            && not (any (is_handler p u w) (s.handlers ++ s.stuck)))
          ≡ false)
unfolding IsSettled
Steps-online s p u w before =
    let settled = Steps-IsSettled s before in
    (
      ground (
        arith,
        contains-online p u s.live.hashes,
        settled.0 p u,
        open_count-any s.leaving p u,
        open_count-any (counted s) p u,
        any-append (is_handler_of p u) (s.leaving ++ s.handlers) s.stuck,
        any-append (is_handler_of p u) s.leaving s.handlers,
        any-append (is_handler_of p u) s.handlers s.stuck,
      ),
      ground (arith, settled.2 p u w),
    )

-- The pending leaves end.
end_leaves :
    (hs : List Opened) (r s : System)
    → s.leaving ≡ hs
    → Steps r s
    → (t : System) × Steps r t × (t.leaving ≡ []) × (t.handlers ≡ s.handlers) × (t.stuck ≡ s.stuck)
unfolding after_delete
end_leaves [] r s e before = (s, before, e, refl, refl)
end_leaves (h ∷ hs) r s e before =
    end_leaves hs r (after_delete h hs s) refl (next before (deletes [] h hs e))

-- The waiting handlers begin to leave.
end_handlers :
    (hs : List Opened) (r s : System)
    → s.handlers ≡ hs
    → Steps r s
    → (t : System) × Steps r t × (t.handlers ≡ []) × (t.stuck ≡ s.stuck)
unfolding after_leave
end_handlers [] r s e before = (s, before, e, refl)
end_handlers (h ∷ hs) r s e before =
    end_handlers hs r (after_leave h hs s) refl (next before (leaves [] h hs e))

Steps-append : {r s t : System} → Steps r s → Steps s t → Steps r t
Steps-append before done = before
Steps-append before (next after step) = next (Steps-append before after) step

-- From every moment of the sockets' life the waiting handlers can close and the leaves can end. Then no
-- handler waits and no leave is pending, and a user is online in a project exactly if an opening of theirs
-- there is stuck whose snapshot could not be sent; only the sockets of those are registered.
pub Steps-quiet :
    (s : System)
    → Steps start s
    → (t : System) × Steps s t
      × (t.handlers ≡ [])
      × (t.leaving ≡ [])
      × ((p u : ℕ) → contains (online_user_ids p t.live.hashes) u ≡ any (is_handler_of p u) s.stuck)
      × ((p u w : ℕ)
          → (is_connected p u w t.live.connections && not (any (is_handler p u w) s.stuck)) ≡ false)
Steps-quiet s before =
    let (r, left, none_wait, stuck_r) = end_handlers s.handlers s s refl done in
    let (t, ended, none_leave, waiting, stuck_t) = end_leaves r.leaving s r refl left in
    let none_there = waiting ∙ none_wait in
    let from_start = Steps-append before ended in
    let only_stuck : t.handlers ++ t.stuck ≡ s.stuck =
      ap (λ hs. hs ++ t.stuck) none_there ∙ stuck_t ∙ stuck_r in
    (
      t,
      ended,
      none_there,
      none_leave,
      λ p u.
          (Steps-online t p u 0 from_start).0
          ∙ ap (λ hs. any (is_handler_of p u) (hs ++ t.handlers ++ t.stuck)) none_leave
          ∙ ap (any (is_handler_of p u)) only_stuck,
      λ p u w.
          ap (λ hs. is_connected p u w t.live.connections && not (any (is_handler p u w) hs))
            (sym only_stuck)
          ∙ (Steps-online t p u w from_start).1,
    )
