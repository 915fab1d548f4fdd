-- ===== src/Realtime/Life.antt =====
-- The project sockets of one process through time: they open, they close in any order, in the two
-- commands of `presence.leave`, and between all these the rooms are sent messages.
pub mod Fields
pub mod Laws
pub mod End
use collabflow.Common.{
  ◌==◌, ℕ, Bool, true, false, ◌&&◌, ◌≡◌, refl, List, [], ◌∷◌, ◌++◌, any, if◌then◌else◌, inl, inr,
  Bool-cases,
}
use collabflow.Models.{WsEventType}
use collabflow.Realtime.Connections.{disconnect, send_to_project}
use collabflow.Realtime.Presence.{hincrby, decrement, leave_end, pos, is_not_positive}
use collabflow.Realtime.Socket.{Live, open_socket, close_socket, presence_event}

-- A socket that was opened.
pub record Opened : Type 0 where
  pub project_id : ℕ
  pub user_id : ℕ
  pub websocket : ℕ

pub record System : Type 0 where
  pub live : Live
  -- the handlers that wait in their loops
  pub handlers : List Opened
  -- the openings whose snapshot could not be sent, and whose handlers have ended without `finally`
  pub stuck : List Opened
  -- the handlers between the two commands of `presence.leave`
  pub leaving : List Opened

abbrev pub start : System
start = record {
  live = record { connections = []; hashes = []; snapshots = []; published = [] };
  handlers = [];
  stuck = [];
  leaving = [];
}

abbrev pub is_handler_of : (project_id user_id : ℕ) → Opened → Bool
is_handler_of p u h = (h.project_id == p) && (h.user_id == u)

unfoldable pub after_open : Opened → System → System
unfolding open_socket
after_open h s = record s {
  live = (open_socket true h.project_id h.user_id h.websocket s.live).1;
  handlers = h ∷ s.handlers;
}

unfoldable pub after_unsent : Opened → System → System
unfolding open_socket
after_unsent h s = record s {
  live = (open_socket false h.project_id h.user_id h.websocket s.live).1;
  stuck = h ∷ s.stuck;
}

-- The `finally` up to the HINCRBY of `leave`. If the count is not positive, the HDEL is still to come.
unfoldable pub after_leave : Opened → (rest : List Opened) → System → System
unfolding disconnect hincrby
after_leave h rest s =
    let (remaining, hashes) = hincrby decrement h.project_id h.user_id s.live.hashes in
    record s {
      live = record s.live {
        connections = disconnect h.project_id h.user_id h.websocket s.live.connections;
        hashes = hashes;
      };
      handlers = rest;
      leaving = if is_not_positive remaining then h ∷ s.leaving else s.leaving;
    }

-- The HDEL, and the event that follows it.
unfoldable pub after_delete : Opened → (rest : List Opened) → System → System
unfolding leave_end
after_delete h rest s = record s {
  live = record s.live {
    hashes = leave_end h.project_id h.user_id (pos 0) s.live.hashes;
    published = presence_event WsEventType.presence_left h.project_id h.user_id ∷ s.live.published;
  };
  leaving = rest;
}

unfoldable pub after_send : (alive : ℕ → Bool) → (project_id : ℕ) → System → System
unfolding send_to_project
after_send alive project_id s = record s {
  live = record s.live {
    connections = (send_to_project alive (λ c. c) project_id s.live.connections).1;
  };
}

-- Run without a break, the two parts of a closing are `close_socket`.
after_leave-close_socket :
    (h : Opened) (rest : List Opened) (s : System)
    → let t = after_leave h rest s in
      let (remaining, _) = hincrby decrement h.project_id h.user_id s.live.hashes in
      (if is_not_positive remaining then after_delete h s.leaving t else t).live
      ≡ close_socket h.project_id h.user_id h.websocket s.live
unfolding after_leave after_delete close_socket
after_leave-close_socket h rest s =
    elim (Bool-cases (is_not_positive (hincrby decrement h.project_id h.user_id s.live.hashes).0)) [
      | inl last ↦ rw last refl
      | inr more ↦ rw more refl
    ]

-- A socket of a user opens in a project only while no leave of the same user and project is between its
-- two commands. A send drops the dead sockets at once, their handlers close later.
pub data Step (s : System) : System → Type 0 where
  opens :
      (h : Opened)
      → any (is_handler_of h.project_id h.user_id) s.leaving ≡ false
      → Step s (after_open h s)
  opens_unsent :
      (h : Opened)
      → any (is_handler_of h.project_id h.user_id) s.leaving ≡ false
      → Step s (after_unsent h s)
  sends : (alive : ℕ → Bool) (project_id : ℕ) → Step s (after_send alive project_id s)
  leaves :
      (earlier : List Opened) (h : Opened) (later : List Opened)
      → s.handlers ≡ earlier ++ h ∷ later
      → Step s (after_leave h (earlier ++ later) s)
  deletes :
      (earlier : List Opened) (h : Opened) (later : List Opened)
      → s.leaving ≡ earlier ++ h ∷ later
      → Step s (after_delete h (earlier ++ later) s)

pub data Steps (s : System) : System → Type 0 where
  done : Steps s s
  next : {t u : System} → Steps s t → Step t u → Steps s u
