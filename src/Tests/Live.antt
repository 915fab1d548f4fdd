-- ===== src/Tests/Live.antt =====
-- Connections and presence at work.
use collabflow.Common.{ℕ, ◌<◌, arith, ◌≡◌, refl, true, false, some, List, [], ◌∷◌, contains}
use collabflow.Realtime.Connections.{Connections}
use collabflow.Realtime.Connections.Laws.{is_connected}
use collabflow.Realtime.Presence.{Hashes, pos, count_of, join, leave, online_user_ids}
use collabflow.Realtime.Presence.Laws.{Counts}
use collabflow.Realtime.Presence.History.{
  Move, joins, leaves, leave_around_join, leave_around_join_loses,
}
use collabflow.Realtime.Socket.{Live, open_socket}
use collabflow.Realtime.Socket.Laws.{open_socket-unsent}

-- Socket 7 of user 1 in project 6.
abbrev one_socket : Connections
one_socket = (6, (1, 7 ∷ []) ∷ []) ∷ []

abbrev comings : List Move
comings = joins 6 1 ∷ joins 6 1 ∷ joins 6 2 ∷ leaves 6 1 ∷ []

one_open : 0 < 2
one_open = omega arith

abbrev one_present : Hashes
one_present = record { project_id = 6; user_id = 1; count = pos 1 } ∷ []

one_counted : count_of 6 1 one_present ≡ some (pos 1)
unfolding count_of
one_counted = refl

leave_around_join_loses_example :
    (contains (online_user_ids 6 (leave_around_join 6 1 one_present)) 1 ≡ false)
    × (contains (online_user_ids 6 (join 6 1 (leave 6 1 one_present).1).1) 1 ≡ true)
leave_around_join_loses_example = leave_around_join_loses 6 1 one_present one_counted

abbrev nobody : ℕ → ℕ → ℕ
nobody p u = 0

abbrev empty_live : Live
empty_live = record { connections = []; hashes = []; snapshots = []; published = [] }

nobody_counted : Counts empty_live.hashes nobody
unfolding count_of
nobody_counted p u = refl

open_socket-unsent_example :
    ((open_socket false 6 1 7 empty_live).0 ≡ false)
    × (is_connected 6 1 7 (open_socket false 6 1 7 empty_live).1.connections ≡ true)
    × (contains (online_user_ids 6 (open_socket false 6 1 7 empty_live).1.hashes) 1 ≡ true)
    × ((open_socket false 6 1 7 empty_live).1.published ≡ empty_live.published)
open_socket-unsent_example = open_socket-unsent 6 1 7 empty_live nobody nobody_counted
