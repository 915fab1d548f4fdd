-- ===== src/Crud/Task/Delete.antt =====
-- `delete` of backend/app/crud/task.py, with the cascades that models/task.py, models/attachment.py,
-- models/activity.py and models/notification.py declare.
pub mod Laws
use collabflow.Common.{
  ◌==◌, ℕ, Bool, true, false, not, ◌∷◌, [], List, map, Option, none, some, select, contains,
  if◌then◌else◌,
}
use collabflow.Models.{Task, TaskLabel, Comment, ActivityLog, Notification, Attachment}
use collabflow.World.{Db, Exec, write}

-- The parent of a task is among the ids.
abbrev pub parent_in : List ℕ → Option ℕ → Bool
parent_in ids none = false
parent_in ids (some p) = contains ids p

-- The ids that go when `task_id` goes: `cascade="all, delete-orphan"` on `Task.subtasks`. A subtask
-- is newer than its parent, so one pass from the oldest row up finds subtasks at every depth.
unfoldable pub doomed : ℕ → List Task → List ℕ
doomed task_id [] = task_id ∷ []
doomed task_id (t ∷ tasks) =
    let below = doomed task_id tasks in
    if parent_in below t.parent_task_id then t.id ∷ below else below

-- ON DELETE SET NULL
abbrev pub set_null : List ℕ → Option ℕ → Option ℕ
set_null ids none = none
set_null ids (some a) = if contains ids a then none else some a

abbrev pub forget_entry : List ℕ → ActivityLog → ActivityLog
forget_entry ids e = record e { task_id = set_null ids e.task_id }

abbrev pub forget_notification : List ℕ → Notification → Notification
forget_notification ids n = record n { task_id = set_null ids n.task_id }

-- The rows that a deletion of the tasks `ids` leaves: comments and label links go by the ORM,
-- attachments by ON DELETE CASCADE; log entries and notifications lose their reference.
unfoldable pub without_tasks : List ℕ → Db → Db
without_tasks ids db = record db {
  tasks = select (λ t. not (contains ids t.id)) db.tasks;
  comments = select (λ c. not (contains ids c.task_id)) db.comments;
  task_labels = select (λ r. not (contains ids r.task_id)) db.task_labels;
  attachments = select (λ a. not (contains ids a.task_id)) db.attachments;
  activity_logs = map (forget_entry ids) db.activity_logs;
  notifications = map (forget_notification ids) db.notifications;
}

unfoldable pub delete : Task → Exec (Unit {0})
unfolding doomed without_tasks
delete task = write λ db. without_tasks (doomed task.id db.tasks) db
