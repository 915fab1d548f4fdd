-- ===== src/Service/Notification/Notes.antt =====
-- Notifications without their texts, ids and times.
use collabflow.Common.{ℕ, Option, List, map}
use collabflow.Models.{Notification, NotificationType}
use collabflow.World.{Db}

-- What a notification tells: its user, its type, its task, and when it was read.
pub record Note : Type 0 where
  pub user_id : ℕ
  pub type : NotificationType
  pub task_id : Option ℕ
  pub read_at : Option ℕ

abbrev pub note_of : Notification → Note
note_of n = record { user_id = n.user_id; type = n.type; task_id = n.task_id; read_at = n.read_at }

abbrev pub notes : Db → List Note
notes db = map note_of db.notifications
