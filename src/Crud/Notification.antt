-- ===== src/Crud/Notification.antt =====
-- backend/app/crud/notification.py
pub mod Laws
use collabflow.Common.{
  ◌==◌, ℕ, Bool, not, ◌&&◌, ◌∷◌, List, map, Option, none, some, Text, leb, find, select, is_some,
  length, if◌then◌else◌,
}
use collabflow.Models.{Notification, NotificationType}
use collabflow.World.{Exec, ◌>>=◌, ◌>>◌, query, write, uuid4, now, pure}
use collabflow.Crud.Postgres.{Postgres, page_of}

unfoldable pub create :
    (user_id : ℕ)
    → NotificationType
    → (title body : Text) → (project_id task_id : Option ℕ) → Exec Notification
create user_id type title body project_id task_id = do
  id ← uuid4
  created_at ← now
  let notification : Notification = record {
    id = id;
    user_id = user_id;
    type = type;
    title = title;
    body = body;
    project_id = project_id;
    task_id = task_id;
    read_at = none;
    created_at = created_at;
  }
  write (λ db. record db { notifications = notification ∷ db.notifications })
  pure notification

unfoldable pub get_by_id : ℕ → Exec (Option Notification)
get_by_id notification_id = query λ db. find (λ n. n.id == notification_id) db.notifications

unfoldable pub list_by_user : Postgres → (user_id page page_size : ℕ) → Exec (List Notification × ℕ)
list_by_user pg user_id page page_size = query λ db.
    let rows = select (λ (n : Notification). n.user_id == user_id) db.notifications in
    let sorted = pg.order_by Notification (λ a b. leb b.created_at a.created_at) rows in
    (page_of page page_size sorted, length rows)

-- Notification.user_id == user_id, Notification.read_at.is_(None)
unfoldable pub is_unread_of : ℕ → Notification → Bool
is_unread_of user_id n = (n.user_id == user_id) && not (is_some n.read_at)

unfoldable pub unread_count : ℕ → Exec ℕ
unread_count user_id = query λ db. length (select (is_unread_of user_id) db.notifications)

unfoldable pub mark_read : Notification → Exec Notification
mark_read notification = do
  time ← now
  let read : Notification = record notification { read_at = some time }
  write (λ db. record db {
    notifications = map (λ n. if n.id == notification.id then read else n) db.notifications;
  })
  pure read

unfoldable pub mark_all_read : ℕ → Exec ℕ
mark_all_read user_id = do
  unread ← query (λ db. select (is_unread_of user_id) db.notifications)
  time ← now
  write (λ db. record db {
    notifications =
        map (λ n. if is_unread_of user_id n then record n { read_at = some time } else n)
          db.notifications;
  })
  pure (length unread)
