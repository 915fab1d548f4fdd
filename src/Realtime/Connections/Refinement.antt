-- ===== src/Realtime/Connections/Refinement.antt =====
-- The connection manager as what it stands for: a set of connections, over any sequence of calls.
use collabflow.Common.{
  select, not, ap, ◌==◌, ==_iff, ℕ, ◌≡◌, ◌∙◌, Bool, true, false, not, ◌&&◌, List, [], ◌∷◌, arith,
  contains, any, if◌then◌else◌, Option-cases, inl, inr,
}
use collabflow.Realtime.Dict.{get}
use collabflow.Realtime.Connections.{
  Connections, or_empty, connect, disconnect, send_to_project, snapshot,
}
use collabflow.Realtime.Connections.Laws.{
  is_connected, same_connection, is_connected-connect, is_connected-disconnect,
}
use collabflow.Realtime.Connections.Keyed.{
  IsKeyed, connect-IsKeyed, disconnect-IsKeyed, drop_dead-IsKeyed, any-snapshot,
}
use collabflow.Realtime.Connections.Send.{is_target, is_connected-send_to_project}

-- What other tasks do to the manager while a send is awaited. The end of another send is the
-- disconnections of its dead sockets.
pub data Change : Type 0 where
  connects disconnects : (project_id user_id websocket : ℕ) → Change

-- A call of the manager.
pub data Call : Type 0 where
  changes : Change → Call
  sends : (alive : ℕ → Bool) → (meanwhile : List Change) → (project_id : ℕ) → Call

unfoldable pub change : Change → Connections → Connections
unfolding connect disconnect
change (connects p u s) conns = connect p u s conns
change (disconnects p u s) conns = disconnect p u s conns

unfoldable pub change_all : List Change → Connections → Connections
unfolding change
change_all [] conns = conns
change_all (c ∷ cs) conns = change_all cs (change c conns)

unfoldable pub call : Call → Connections → Connections
unfolding change change_all send_to_project
call (changes c) conns = change c conns
call (sends alive meanwhile p) conns = (send_to_project alive (change_all meanwhile) p conns).1

unfoldable pub calls : List Call → Connections → Connections
unfolding call
calls [] conns = conns
calls (c ∷ cs) conns = calls cs (call c conns)

-- The set of the connections, by its characteristic function, and the same calls on it: a send takes
-- away the dead ones among those that were there at its start.
abbrev pub Room : Type 0
Room = (project_id user_id websocket : ℕ) → Bool

abbrev pub effect : Change → Room → Room
effect (connects p u s) room q v t = if same_connection p u s q v t then true else room q v t
effect (disconnects p u s) room q v t = if same_connection p u s q v t then false else room q v t

unfoldable pub effect_all : List Change → Room → Room
effect_all [] room = room
effect_all (c ∷ cs) room = effect_all cs (effect c room)

unfoldable pub call_effect : Call → Room → Room
unfolding effect_all
call_effect (changes c) room q v t = effect c room q v t
call_effect (sends alive meanwhile p) room q v t =
    if (p == q) && room q v t && not (alive t) then false else effect_all meanwhile room q v t

unfoldable pub effects : List Call → Room → Room
unfolding call_effect
effects [] room = room
effects (c ∷ cs) room = effects cs (call_effect c room)

-- The manager holds the connections of the room.
abbrev pub Stands : Connections → Room → Type 0
Stands conns room = (q v t : ℕ) → is_connected q v t conns ≡ room q v t

change-effect :
    (c : Change) (conns : Connections) (room : Room)
    → Stands conns room
    → Stands (change c conns) (effect c room)
unfolding change
change-effect (connects p u s) conns room same q v t =
    is_connected-connect p u s q v t conns
    ∙ ap (λ b. if same_connection p u s q v t then true else b) (same q v t)
change-effect (disconnects p u s) conns room same q v t =
    is_connected-disconnect p u s q v t conns
    ∙ ap (λ b. if same_connection p u s q v t then false else b) (same q v t)

change_all-effect :
    (cs : List Change) (conns : Connections) (room : Room)
    → Stands conns room
    → Stands (change_all cs conns) (effect_all cs room)
unfolding change_all effect_all
change_all-effect [] conns room same = same
change_all-effect (c ∷ cs) conns room same =
    change_all-effect cs (change c conns) (effect c room) (change-effect c conns room same)

-- A connection is a target of a send to its project exactly if it is registered.
any-target :
    (p v t : ℕ) (conns : Connections)
    → IsKeyed conns
    → any (is_target v t) (snapshot (or_empty (get p conns))) ≡ is_connected p v t conns
unfolding is_connected IsKeyed contains get
any-target p v t conns keyed = elim (Option-cases (get p conns)) [
  | inl e ↦ ground (arith, e, any-snapshot v t (or_empty (get p conns)) (keyed p))
  | inr (users, e) ↦ ground (arith, e, any-snapshot v t (or_empty (get p conns)) (keyed p))
]

call-effect :
    (c : Call) (conns : Connections) (room : Room)
    → IsKeyed conns
    → Stands conns room
    → Stands (call c conns) (call_effect c room)
unfolding call call_effect
call-effect (changes c) conns room keyed same q v t = change-effect c conns room same q v t
call-effect (sends alive meanwhile p) conns room keyed same q v t = ground (
  arith,
  is_connected-send_to_project alive (change_all meanwhile) p q v t conns,
  any-target p v t conns keyed,
  same p v t,
  same q v t,
  change_all-effect meanwhile conns room same q v t,
  ==_iff p q,
)

change_all-IsKeyed :
    (cs : List Change) (conns : Connections) → IsKeyed conns → IsKeyed (change_all cs conns)
unfolding change_all change
change_all-IsKeyed [] conns keyed = keyed
change_all-IsKeyed (connects p u s ∷ cs) conns keyed =
    change_all-IsKeyed cs (connect p u s conns) (connect-IsKeyed p u s conns keyed)
change_all-IsKeyed (disconnects p u s ∷ cs) conns keyed =
    change_all-IsKeyed cs (disconnect p u s conns) (disconnect-IsKeyed p u s conns keyed)

call-IsKeyed : (c : Call) (conns : Connections) → IsKeyed conns → IsKeyed (call c conns)
unfolding call change send_to_project
call-IsKeyed (changes (connects p u s)) conns keyed = connect-IsKeyed p u s conns keyed
call-IsKeyed (changes (disconnects p u s)) conns keyed = disconnect-IsKeyed p u s conns keyed
call-IsKeyed (sends alive meanwhile p) conns keyed =
    drop_dead-IsKeyed p
      (select (λ (t : ℕ × ℕ). not (alive t.1)) (snapshot (or_empty (get p conns))))
      (change_all meanwhile conns) (change_all-IsKeyed meanwhile conns keyed)

pub calls-effects :
    (cs : List Call) (conns : Connections) (room : Room)
    → IsKeyed conns
    → Stands conns room
    → Stands (calls cs conns) (effects cs room)
unfolding calls effects
calls-effects [] conns room keyed same = same
calls-effects (c ∷ cs) conns room keyed same =
    calls-effects cs (call c conns) (call_effect c room) (call-IsKeyed c conns keyed)
      (call-effect c conns room keyed same)
