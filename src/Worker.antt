-- ===== src/Worker.antt =====
-- backend/app/workers/tasks.py: the daily reminders.
pub mod Laws
pub mod Days
pub mod Schedule
use collabflow.Common.{ℕ, ◌+◌, Option, none, some, Text, List, [], ◌∷◌, format, ◌++◌, codes}
use collabflow.Models.{Task, NotificationType}
use collabflow.World.{Exec, ◌>>=◌, ◌>>◌, pure, request}
use collabflow.Crud.Task
use collabflow.Service.Notification.{create_and_dispatch}

-- `date_text` is `date.isoformat`. The query gives assigned tasks with a due date only.
module _ (date_text : ℕ → Text) where
  abbrev pub due_text : Option ℕ → Text
  due_text none = []
  due_text (some due_date) = date_text due_date

  abbrev pub remind : Task → Option ℕ → Exec (Unit {0})
  remind task none = pure tt
  remind task (some assignee_id) = do
    _ ←
        create_and_dispatch assignee_id NotificationType.task_due_soon
          (format "'" task.title "' is due tomorrow")
          (format "Task '" task.title "' is due on " ++ due_text task.due_date ++ codes ".")
          (some task.project_id) (some task.id)
    pure tt

  -- for task in due_soon
  unfoldable pub remind_all : List Task → Exec (Unit {0})
  remind_all [] = pure tt
  remind_all (task ∷ tasks) = do remind task task.assignee_id; remind_all tasks

  -- `today` is `date.today()`, counted in days.
  unfoldable pub send_due_soon_reminders : (today : ℕ) → Exec (Unit {0})
  unfolding request Task.list_due_on
  send_due_soon_reminders today =
      request (do due_soon ← Task.list_due_on (today + 1); remind_all due_soon)
