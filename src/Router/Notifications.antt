-- ===== src/Router/Notifications.antt =====
-- backend/app/api/routers/notifications.py
use collabflow.Common.{◌==◌, ℕ, not, Option, none, some, Text}
use collabflow.Models.{Notification}
use collabflow.Runtime.{Runtime}
use collabflow.World.{◌>>◌, ◌>>=◌, Exec, pure, raise, raise_if, commit, request, http_error, Error}
use collabflow.Crud.Postgres.{Postgres}
use collabflow.Responses.{notification_read}
use collabflow.Responses.Listing.{NotificationListResponse, list_response}
use collabflow.Crud.Notification
use collabflow.Deps.{get_current_user}

abbrev pub not_found : Error
not_found = http_error 404 "Notification not found"

-- notification is None or notification.user_id != current_user.id
abbrev pub require_of_user : (user_id : ℕ) → Option Notification → Exec Notification
require_of_user user_id none = raise not_found
require_of_user user_id (some notification) = do
  raise_if (not (notification.user_id == user_id)) not_found
  pure notification

module _ (rt : Runtime) (token : Text) where
  unfoldable pub list_notifications :
      Postgres → (page page_size : ℕ) → Exec NotificationListResponse
  unfolding request
  list_notifications pg page page_size = request (do
    current_user ← get_current_user rt token
    found ← Notification.list_by_user pg current_user.id page page_size
    pure (list_response notification_read page page_size found))

  unfoldable pub get_unread_count : Exec ℕ
  unfolding request
  get_unread_count =
      request
        (do current_user ← get_current_user rt token; Notification.unread_count current_user.id)

  unfoldable pub mark_all_read : Exec ℕ
  unfolding request
  mark_all_read = request (do
    current_user ← get_current_user rt token
    count ← Notification.mark_all_read current_user.id
    commit
    pure count)

  unfoldable pub mark_notification_read : (notification_id : ℕ) → Exec Notification
  unfolding request
  mark_notification_read notification_id = request (do
    current_user ← get_current_user rt token
    found ← Notification.get_by_id notification_id
    notification ← require_of_user current_user.id found
    read ← Notification.mark_read notification
    commit
    pure read)
