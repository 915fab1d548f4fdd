-- ===== src/Service/Events.antt =====
-- `publish_event` and `publish_notification_event` of backend/app/ws/events.py.
use collabflow.Common.{ℕ, Option, none, some}
use collabflow.Models.{WsEventType}
use collabflow.World.{Exec, EventData, project_channel, user_channel, publish}

unfoldable pub publish_event :
    (project_id : ℕ) → WsEventType → EventData → (actor_id : Option ℕ) → Exec (Unit {0})
unfolding publish
publish_event project_id event_type payload actor_id = publish (record {
  channel = project_channel project_id;
  type = event_type;
  project_id = some project_id;
  actor_id = actor_id;
  payload = payload;
})

unfoldable pub publish_notification_event : (user_id : ℕ) → EventData → Exec (Unit {0})
unfolding publish
publish_notification_event user_id notification = publish (record {
  channel = user_channel user_id;
  type = WsEventType.notification;
  project_id = none;
  actor_id = none;
  payload = notification;
})
