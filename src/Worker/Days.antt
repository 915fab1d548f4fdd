-- ===== src/Worker/Days.antt =====
-- The daily job over several days (beat_schedule of workers/celery_app.py): who is reminded how often.
use collabflow.Common.{
  ℕ, zero, suc, ◌+◌, Bool, true, false, not, ◌&&◌, Option, none, some, Text, List, select, length,
  ltb, leb, is_some, is_some_of,
}
use collabflow.Models.{Task, NotificationType, TaskStatus, status_eq}
use collabflow.World.{World}
use collabflow.Service.Notification.Notes.{Note}
use collabflow.Worker.{send_due_soon_reminders}

abbrev pub is_due_soon : NotificationType → Bool
is_due_soon NotificationType.task_due_soon = true
is_due_soon _ = false

-- The reminders of a task.
unfoldable pub is_reminder_of : (task_id : ℕ) → Note → Bool
is_reminder_of task_id n = is_due_soon n.type && is_some_of n.task_id task_id

abbrev pub reminders : (task_id : ℕ) → List Note → ℕ
reminders task_id ns = length (select (is_reminder_of task_id) ns)

-- Assigned, not done, and due after `today`, at most `days` days later.
abbrev pub is_within : (today days : ℕ) → Option ℕ → Bool
is_within today days none = false
is_within today days (some due) = ltb today due && leb due (today + days)

unfoldable pub is_due_within : (today days : ℕ) → Task → Bool
is_due_within today days t =
    is_within today days t.due_date
    && is_some t.assignee_id
    && not (status_eq t.status TaskStatus.done)

-- One run of the job on each of `days` days from `today` on.
unfoldable pub run_daily : (date_text : ℕ → Text) → (days today : ℕ) → World → World
run_daily date_text zero today w = w
run_daily date_text (suc days) today w =
    run_daily date_text days (today + 1) (send_due_soon_reminders date_text today w).1

abbrev passes : (Task → Bool) → Task → Option Task → Bool
passes p u none = p u
passes p u (some t) = p t
