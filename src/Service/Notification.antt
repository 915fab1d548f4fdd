-- ===== src/Service/Notification.antt =====
-- backend/app/services/notification_service.py
pub mod Laws
pub mod Notes
use collabflow.Common.{ℕ, Option, none, some, Text}
use collabflow.Models.{User, Notification, NotificationType}
use collabflow.World.{Exec, ◌>>=◌, ◌>>◌, pure, commit, delay, notification_data}
use collabflow.Crud.Notification
use collabflow.Crud.User
use collabflow.Service.Events.{publish_notification_event}

-- `if recipient is not None`
unfoldable pub email_recipient : Option User → (title body : Text) → Exec (Unit {0})
unfolding delay
email_recipient none title body = pure tt
email_recipient (some recipient) title body =
    delay (record { to_email = recipient.email; subject = title; body = body })

unfoldable pub create_and_dispatch :
    (user_id : ℕ)
    → NotificationType
    → (title body : Text) → (project_id task_id : Option ℕ) → Exec Notification
unfolding Notification.create commit publish_notification_event User.get_by_id email_recipient
create_and_dispatch user_id type title body project_id task_id = do
  notification ← Notification.create user_id type title body project_id task_id
  commit
  publish_notification_event user_id
      (notification_data notification.id type title body project_id task_id notification.created_at)
  recipient ← User.get_by_id user_id
  email_recipient recipient title body
  pure notification
