-- ===== src/Tests/Rooms.antt =====
-- The listener and the life of the sockets at work.
use collabflow.Common.{
  ℕ, ◌≡◌, ◌≢◌, ◌↔◌, refl, Bool, true, false, not, ◌&&◌, some, Text, List, [], ◌∷◌, ◌++◌, any,
  contains, codes,
}
use collabflow.Channels.{channel_name}
use collabflow.Realtime.Dict.{get}
use collabflow.Realtime.Connections.{Connections, or_empty, send_to_project}
use collabflow.Realtime.Connections
use collabflow.Realtime.Connections.Laws.{is_connected}
use collabflow.Realtime.Connections.Refinement.{
  Call, connects, disconnects, changes, sends, calls, effects,
}
use collabflow.Realtime.Connections.Tidy.{calls-refine}
use collabflow.Realtime.Presence.{online_user_ids}
use collabflow.Realtime.Listener.{
  Json, Event, message, lost, run_pattern_listener, project_listener, notification_listener,
  receipts,
}
use collabflow.Realtime.Listener.Laws.{
  run_pattern_listener-deliveries, status_after, deliver_all, deliveries,
}
use collabflow.Realtime.Listener.Delivery.{published, is_in_room, project_listener-published}
use collabflow.Realtime.Life.{
  Opened, System, start, after_open, after_unsent, is_handler_of, Steps, done, next, opens,
  opens_unsent,
}
use collabflow.Realtime.Life.Laws.{is_handler}
use collabflow.Realtime.Life.End.{Steps-online, Steps-quiet}
use collabflow.Tests.Libraries.{plain_runtime, plain_uuids}

abbrev pub plain_json : Json
plain_json = record { Payload = Text; dumps = λ t. t; loads = some; loads-dumps = λ t. refl }

-- Sockets 7 and 8 of the users 1 and 2 in project 6, of which 8 is dead.
abbrev two_sockets : Connections
two_sockets = (6, (1, 7 ∷ []) ∷ (2, 8 ∷ []) ∷ []) ∷ []

abbrev is_seven : ℕ → Bool
is_seven s = contains (7 ∷ []) s

abbrev hello : Text
hello = codes "{}"

project_listener-published_example :
    (sockets : List ℕ) × (project_listener plain_runtime plain_json is_seven
        (λ c. c)
        (published plain_json (channel_name plain_runtime 6) hello ∷ lost ∷ [])
        ([], two_sockets)
      ≡ project_listener plain_runtime plain_json is_seven
          (λ c. c)
          (lost ∷ [])
          (
            receipts plain_runtime plain_json is_seven hello sockets ++ [],
            (send_to_project is_seven (λ c. c) 6 two_sockets).1,
          ))
    × ((t : ℕ) → contains sockets t ≡ (is_seven t && is_in_room 6 t two_sockets))
    × (notification_listener plain_runtime plain_json is_seven
          (λ c. c)
          (published plain_json (channel_name plain_runtime 6) hello ∷ lost ∷ [])
          ([], [])
        ≡ notification_listener plain_runtime plain_json is_seven (λ c. c) (lost ∷ []) ([], []))
project_listener-published_example =
    project_listener-published plain_runtime plain_uuids plain_json is_seven (λ c. c) (λ c. c) 6
      hello (lost ∷ []) [] two_sockets ([], [])

-- A message of another type, one that asks for a delivery, and the end of the connection.
abbrev stream : List Event
stream =
    message (record { type = codes "psubscribe"; channel = codes "project:*:events"; body = [] })
    ∷ message (record { type = codes "pmessage"; channel = codes "c"; body = hello })
    ∷ lost
    ∷ []

abbrev keep_bodies : ℕ → Text → List Text → List Text
keep_bodies id body bodies = body ∷ bodies

run_pattern_listener-deliveries_example :
    run_pattern_listener plain_json (λ c. some 6) keep_bodies stream [] ≡ (
      status_after plain_json (λ c. some 6) stream,
      deliver_all plain_json
          (λ c. some 6)
          keep_bodies
          (deliveries plain_json (λ c. some 6) stream)
          [],
    )
run_pattern_listener-deliveries_example =
    run_pattern_listener-deliveries plain_json (λ c. some 6) keep_bodies stream []

-- Two tabs of user 1 and one of user 2, of which the second and the third are gone when a message is sent;
-- meanwhile a third tab connects and the second disconnects.
abbrev tabs : List Call
tabs =
    changes (connects 6 1 7)
    ∷ changes (connects 6 1 8)
    ∷ changes (connects 6 2 9)
    ∷ sends is_seven (connects 6 1 10 ∷ disconnects 6 1 8 ∷ []) 6
    ∷ []

calls-refine_example :
    (is_connected 6 1 7 (calls tabs []) ≡ effects tabs (λ q v t. false) 6 1 7)
    × (get 1 (or_empty (get 6 (calls tabs []))) ≢ some [])
    × ((contains (Connections.online_user_ids 6 (calls tabs [])) 1 ≡ true)
        ↔ ((t : ℕ) × (effects tabs (λ q v t. false) 6 1 t ≡ true)))
calls-refine_example = calls-refine tabs 6 1 7

abbrev first_handler : Opened
first_handler = record { project_id = 6; user_id = 1; websocket = 7 }

abbrev second_handler : Opened
second_handler = record { project_id = 6; user_id = 2; websocket = 8 }

abbrev stuck_opening : Opened
stuck_opening = record { project_id = 6; user_id = 3; websocket = 9 }

-- Two sockets are open, and the snapshot of a third could not be sent.
abbrev pub both_open : System
both_open = after_unsent stuck_opening (after_open second_handler (after_open first_handler start))

pub opening_both : Steps start both_open
unfolding after_open any
opening_both =
    next (next (next done (opens first_handler refl)) (opens second_handler refl))
      (opens_unsent stuck_opening refl)

Steps-online_example :
    (contains (online_user_ids 6 both_open.live.hashes) 1
      ≡ any (is_handler_of 6 1) (both_open.leaving ++ both_open.handlers ++ both_open.stuck))
    × ((is_connected 6 1 7 both_open.live.connections
          && not (any (is_handler 6 1 7) (both_open.handlers ++ both_open.stuck)))
        ≡ false)
Steps-online_example = Steps-online both_open 6 1 7 opening_both

Steps-quiet_example :
    (t : System) × Steps both_open t
    × (t.handlers ≡ [])
    × (t.leaving ≡ [])
    × ((p u : ℕ)
        → contains (online_user_ids p t.live.hashes) u ≡ any (is_handler_of p u) both_open.stuck)
    × ((p u w : ℕ)
        → (is_connected p u w t.live.connections && not (any (is_handler p u w) both_open.stuck))
          ≡ false)
Steps-quiet_example = Steps-quiet both_open opening_both
