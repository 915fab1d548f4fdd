-- ===== src/Realtime/Listener/Delivery.antt =====
-- From a published event to the sockets.
use collabflow.Common.{
  ==_iff, ℕ, ◌≡◌, refl, Bool, ◌&&◌, ◌||◌, Text, List, [], ◌∷◌, ◌++◌, codes, text_eq, arith, map,
  select, any, contains,
}
use collabflow.Runtime.{Runtime, UuidLaws}
use collabflow.Channels.{channel_name, notification_channel_name}
use collabflow.Channels.Laws.{project_id-channel_name, user_id-notification_channel_name}
use collabflow.Realtime.Dict.{get}
use collabflow.Realtime.Connections.{UserConns, Connections, or_empty, snapshot, send_to_project}
use collabflow.Realtime.NotificationConnections.{send_to_user}
use collabflow.Realtime.Listener.{
  Json, Event, message, Receipts, receipts, to_project, to_user, project_listener,
  notification_listener, on_message, run_pattern_listener,
}

-- What a subscriber of the pattern gets of `redis.publish(channel, json.dumps(payload))`.
abbrev pub published : (json : Json) → (channel : Text) → json.Payload → Event
published json channel payload =
    message (record { type = codes "pmessage"; channel = channel; body = json.dumps payload })

-- Whether the socket is registered in the project, for whichever user.
abbrev pub is_in_room : (project_id websocket : ℕ) → Connections → Bool
is_in_room p t conns = any (λ (e : ℕ × List ℕ). contains e.1 t) (or_empty (get p conns))

contains-snapshot :
    (alive : ℕ → Bool) (t u : ℕ) (sockets : List ℕ) (rest : List (ℕ × ℕ))
    → contains
        (map
          (λ (x : ℕ × ℕ). x.1)
          (select (λ (x : ℕ × ℕ). alive x.1) (map (λ s. (u, s)) sockets ++ rest)))
        t
      ≡ ((alive t && contains sockets t)
          || contains (map (λ (x : ℕ × ℕ). x.1) (select (λ (x : ℕ × ℕ). alive x.1) rest)) t)
unfolding contains select
contains-snapshot alive t u [] rest = ground arith
contains-snapshot alive t u (s ∷ sockets) rest =
    ground (arith, contains-snapshot alive t u sockets rest, ==_iff s t)

contains-targets :
    (alive : ℕ → Bool) (t : ℕ) (users : UserConns)
    → contains (map (λ (x : ℕ × ℕ). x.1) (select (λ (x : ℕ × ℕ). alive x.1) (snapshot users))) t
      ≡ (alive t && any (λ (e : ℕ × List ℕ). contains e.1 t) users)
unfolding snapshot any select contains
contains-targets alive t [] = ground arith
contains-targets alive t ((u, sockets) ∷ users) =
    ground
      (arith, contains-targets alive t users, contains-snapshot alive t u sockets (snapshot users))

contains-select :
    (p : ℕ → Bool) (t : ℕ) (s : List ℕ) → contains (select p s) t ≡ (p t && contains s t)
unfolding contains select
contains-select p t [] = ground arith
contains-select p t (x ∷ s) = ground (arith, contains-select p t s, ==_iff x t)

module _ (rt : Runtime) (laws : UuidLaws rt) (json : Json) (alive : ℕ → Bool) where
  -- An event that is published for a project reaches, in this process, exactly the sockets that are
  -- registered in the project's room and whose `send_json` returns; the listener goes on with the
  -- connections that the sending leaves, and the listener of the notifications passes the event over.
  pub project_listener-published :
      (between : Connections → Connections) (aside : UserConns → UserConns) (p : ℕ)
      (payload : json.Payload) (events : List Event) (got : Receipts rt json alive)
      (conns : Connections) (theirs : Receipts rt json alive × UserConns)
      → (sockets : List ℕ) × (project_listener rt json alive between
            (published json (channel_name rt p) payload ∷ events)
            (got, conns)
          ≡ project_listener rt json alive between events (
            receipts rt json alive payload sockets ++ got,
            (send_to_project alive between p conns).1,
          ))
        × ((t : ℕ) → contains sockets t ≡ (alive t && is_in_room p t conns))
        × (notification_listener rt json alive aside
              (published json (channel_name rt p) payload ∷ events)
              theirs
            ≡ notification_listener rt json alive aside events theirs)
  unfolding project_listener notification_listener run_pattern_listener on_message text_eq
      to_project send_to_project
  project_listener-published between aside p payload events got conns theirs =
      let name = project_id-channel_name rt laws p in
      (
        (send_to_project alive between p conns).0,
        rw name.0 (rw (json.loads-dumps payload) refl),
        λ t. contains-targets alive t (or_empty (get p conns)),
        rw name.1 refl,
      )

  -- A notification that is published for a user reaches, in this process, exactly the sockets that the
  -- user has registered and whose `send_json` returns, and the listener of the projects passes it over.
  pub notification_listener-published :
      (between : UserConns → UserConns) (aside : Connections → Connections) (u : ℕ)
      (payload : json.Payload) (events : List Event) (got : Receipts rt json alive)
      (conns : UserConns) (theirs : Receipts rt json alive × Connections)
      → (sockets : List ℕ) × (notification_listener rt json alive between
            (published json (notification_channel_name rt u) payload ∷ events)
            (got, conns)
          ≡ notification_listener rt json alive between events (
            receipts rt json alive payload sockets ++ got,
            (send_to_user alive between u conns).1,
          ))
        × ((t : ℕ) → contains sockets t ≡ (alive t && contains (or_empty (get u conns)) t))
        × (project_listener rt json alive aside
              (published json (notification_channel_name rt u) payload ∷ events)
              theirs
            ≡ project_listener rt json alive aside events theirs)
  unfolding project_listener notification_listener run_pattern_listener on_message text_eq to_user
      send_to_user
  notification_listener-published between aside u payload events got conns theirs =
      let name = user_id-notification_channel_name rt laws u in
      (
        (send_to_user alive between u conns).0,
        rw name.0 (rw (json.loads-dumps payload) refl),
        λ t. contains-select alive t (or_empty (get u conns)),
        rw name.1 refl,
      )
