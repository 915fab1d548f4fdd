-- ===== src/Realtime/Listener.antt =====
-- backend/app/ws/redis_listener.py: the task that relays what Redis publishes to the sockets of this
-- process, and its two instances in backend/app/main.py.
pub mod Laws
pub mod Delivery
use collabflow.Common.{
  ℕ, ◌≡◌, Bool, not, Option, none, some, Text, List, [], ◌∷◌, ◌++◌, map, codes, text_eq,
  if◌then◌else◌,
}
use collabflow.Runtime.{Runtime}
use collabflow.Channels.{project_id_from_channel, user_id_from_notification_channel}
use collabflow.Realtime.Connections.{UserConns, Connections, send_to_project}
use collabflow.Realtime.NotificationConnections.{send_to_user}

-- json.dumps, and json.loads, where `none` is a JSONDecodeError
pub record Json : Type 1 where
  pub Payload : Type 0
  pub dumps : Payload → Text
  pub loads : Text → Option Payload
  pub loads-dumps : (payload : Payload) → loads (dumps payload) ≡ some payload

-- A message of the subscription; `body` is its `data`.
pub record Message : Type 0 where
  pub type : Text
  pub channel : Text
  pub body : Text

-- What `pubsub.listen()` comes back with at each turn: a message, an exception of the connection, or
-- the cancellation of the task.
pub data Event : Type 0 where
  message : Message → Event
  lost cancelled : Event

-- How the task stands: it waits for the next message, it was cancelled and has unsubscribed, or an
-- exception has ended it.
pub data Status : Type 0 where
  waiting unsubscribed failed : Status

module _ (json : Json) {State : Type 0} (extract_id : Text → Option ℕ)
    (deliver : ℕ → json.Payload → State → State) where
  abbrev pub deliver_loaded : ℕ → Option json.Payload → State → State
  deliver_loaded entity_id none s = s
  deliver_loaded entity_id (some payload) s = deliver entity_id payload s

  abbrev pub deliver_extracted : Option ℕ → (body : Text) → State → State
  deliver_extracted none body s = s
  deliver_extracted (some entity_id) body s = deliver_loaded entity_id (json.loads body) s

  -- The body of the loop.
  unfoldable pub on_message : Message → State → State
  on_message m s =
      if not (text_eq m.type (codes "pmessage"))
      then s
      else deliver_extracted (extract_id m.channel) m.body s

  unfoldable pub run_pattern_listener : List Event → State → Status × State
  unfolding on_message
  run_pattern_listener [] s = (waiting, s)
  run_pattern_listener (message m ∷ events) s = run_pattern_listener events (on_message m s)
  run_pattern_listener (lost ∷ events) s = (failed, s)
  run_pattern_listener (cancelled ∷ events) s = (unsubscribed, s)

module _ (rt : Runtime) (json : Json) (alive : ℕ → Bool) where
  -- The sockets that got something, with what they got, the last first.
  abbrev pub Receipts : Type 0
  Receipts = List (ℕ × json.Payload)

  abbrev pub receipts : json.Payload → List ℕ → Receipts
  receipts payload sockets = map (λ s. (s, payload)) sockets

  -- deliver=connection_manager.send_to_project
  unfoldable pub to_project :
      (between : Connections → Connections)
      → ℕ
      → json.Payload
      → Receipts × Connections
      → Receipts × Connections
  unfolding send_to_project
  to_project between project_id payload s =
      let sent = send_to_project alive between project_id s.1 in
      (receipts payload sent.0 ++ s.0, sent.1)

  -- deliver=notification_manager.send_to_user
  unfoldable pub to_user :
      (between : UserConns → UserConns)
      → ℕ
      → json.Payload
      → Receipts × UserConns
      → Receipts × UserConns
  unfolding send_to_user
  to_user between user_id payload s =
      let sent = send_to_user alive between user_id s.1 in (receipts payload sent.0 ++ s.0, sent.1)

  unfoldable pub project_listener :
      (between : Connections → Connections)
      → List Event
      → Receipts × Connections
      → Status × (Receipts × Connections)
  unfolding project_id_from_channel run_pattern_listener to_project
  project_listener between =
      run_pattern_listener json (project_id_from_channel rt) (to_project between)

  unfoldable pub notification_listener :
      (between : UserConns → UserConns)
      → List Event
      → Receipts × UserConns
      → Status × (Receipts × UserConns)
  unfolding user_id_from_notification_channel run_pattern_listener to_user
  notification_listener between =
      run_pattern_listener json (user_id_from_notification_channel rt) (to_user between)
