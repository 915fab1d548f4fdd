-- ===== src/Worker/Schedule.antt =====
-- workers/celery_app.py: the configuration of Celery and the schedule of its beat, and the names under
-- which workers/tasks.py registers its tasks.
use collabflow.Common.{Bool, true, ℕ, Text, List, [], ◌∷◌, codes}

pub record Conf : Type 0 where
  pub task_serializer : Text
  pub accept_content : List Text
  pub result_serializer : Text
  pub timezone : Text
  pub enable_utc : Bool

-- celery_app.conf.update
abbrev pub celery_conf : Conf
celery_conf = record {
  task_serializer = codes "json";
  accept_content = codes "json" ∷ [];
  result_serializer = codes "json";
  timezone = codes "UTC";
  enable_utc = true;
}

-- An entry of the schedule, by crontab(hour=…, minute=…).
pub record Entry : Type 0 where
  pub name : Text
  pub task : Text
  pub hour : ℕ
  pub minute : ℕ

abbrev pub beat_schedule : List Entry
beat_schedule =
    record {
      name = codes "send-due-soon-reminders";
      task = codes "app.workers.tasks.send_due_soon_reminders";
      hour = 8;
      minute = 0;
    }
    ∷ []

-- The names in the `celery_app.task` decorators.
abbrev pub registered : List Text
registered =
    codes "app.workers.tasks.send_notification_email"
    ∷ codes "app.workers.tasks.send_due_soon_reminders"
    ∷ []
