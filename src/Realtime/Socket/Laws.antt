-- ===== src/Realtime/Socket/Laws.antt =====
-- A project socket from its opening to its closing.
use collabflow.Common.{
  ◌==◌, ==_refl, ℕ, suc, ◌≡◌, refl, true, false, ◌∷◌, arith, contains, if◌then◌else◌,
}
use collabflow.Models.{WsEventType}
use collabflow.Realtime.Connections.Laws.{is_connected, is_connected-connect}
use collabflow.Realtime.Presence.{join, online_user_ids}
use collabflow.Realtime.Presence.Laws.{
  Counts, opened, closed, join-count, Counts-join, leave-count, Counts-leave, online_iff_open,
}
use collabflow.Realtime.Socket.{Live, open_socket, close_socket, presence_event}

module _ (p u s : ℕ) (live : Live) (c : ℕ → ℕ → ℕ) (h : Counts live.hashes c) where
  -- Where the hashes hold the numbers of open connections: a socket that opens adds one to its
  -- user's, and PRESENCE_JOINED goes out exactly for the user's first connection to the project.
  pub open_socket-joined :
      (Counts (open_socket true p u s live).1.hashes (opened p u c))
      × ((open_socket true p u s live).1.published ≡ (
          if c p u == 0
          then presence_event WsEventType.presence_joined p u ∷ live.published
          else live.published))
  unfolding open_socket
  open_socket-joined =
      (Counts-join p u live.hashes c h, ground (arith, join-count p u live.hashes c h))

  -- Where they hold them and the user has a connection: a socket that closes takes one from its
  -- user's, and PRESENCE_LEFT goes out exactly for the user's last connection to the project.
  pub close_socket-left :
      (n : ℕ)
      → c p u ≡ suc n
      → (Counts (close_socket p u s live).hashes (closed p u c))
        × ((close_socket p u s live).published ≡ (
            if n == 0
            then presence_event WsEventType.presence_left p u ∷ live.published
            else live.published))
  unfolding close_socket
  close_socket-left n e =
      (Counts-leave p u live.hashes c h n e, ground (arith, leave-count p u live.hashes c h n e))

-- Where the hashes hold the numbers of open connections: if the snapshot cannot be sent, the
-- handler ends in front of its `try`, nothing is published, the connection stays registered and
-- its user online.
pub open_socket-unsent :
    (p u s : ℕ) (live : Live) (c : ℕ → ℕ → ℕ)
    → Counts live.hashes c
    → ((open_socket false p u s live).0 ≡ false)
      × (is_connected p u s (open_socket false p u s live).1.connections ≡ true)
      × (contains (online_user_ids p (open_socket false p u s live).1.hashes) u ≡ true)
      × ((open_socket false p u s live).1.published ≡ live.published)
unfolding open_socket
open_socket-unsent p u s live c h = (
  refl,
  ground
      (arith, is_connected-connect p u s p u s live.connections, ==_refl p, ==_refl u, ==_refl s),
  ground (
    arith,
    online_iff_open p u (join p u live.hashes).1 (opened p u c) (Counts-join p u live.hashes c h),
    ==_refl p,
    ==_refl u,
  ),
  refl,
)
