-- ===== src/Models/Enums.antt =====
-- The enumerations of backend/app/models and backend/app/ws/events.py.
use mathlib.Core.Bool.{Bool}
use Prim.Native.Nat.{ℕ}
use collabflow.Common.{◌==◌}

-- models/roles.py
pub data Role : Type 0 where
  owner admin member : Role

-- ROLE_RANK
abbrev pub role_rank : Role → ℕ
role_rank Role.member = 0
role_rank Role.admin = 1
role_rank Role.owner = 2

-- models/task.py
pub data TaskStatus : Type 0 where
  todo in_progress in_review done : TaskStatus

pub data TaskPriority : Type 0 where
  low medium high urgent : TaskPriority

-- The place of a value in its Postgres enum type, by which the database compares.
abbrev pub status_rank : TaskStatus → ℕ
status_rank TaskStatus.todo = 0
status_rank TaskStatus.in_progress = 1
status_rank TaskStatus.in_review = 2
status_rank TaskStatus.done = 3

abbrev pub priority_rank : TaskPriority → ℕ
priority_rank TaskPriority.low = 0
priority_rank TaskPriority.medium = 1
priority_rank TaskPriority.high = 2
priority_rank TaskPriority.urgent = 3

abbrev pub status_eq : TaskStatus → TaskStatus → Bool
status_eq a b = status_rank a == status_rank b

abbrev pub priority_eq : TaskPriority → TaskPriority → Bool
priority_eq a b = priority_rank a == priority_rank b

-- models/activity.py
pub data ActivityAction : Type 0 where
  project_created member_invited task_created task_updated task_deleted : ActivityAction
  comment_added label_created attachment_added attachment_removed : ActivityAction

-- models/notification.py
pub data NotificationType : Type 0 where
  mention task_assigned workspace_invite project_invite task_due_soon : NotificationType

-- ws/events.py
pub data WsEventType : Type 0 where
  task_created task_updated task_deleted comment_created : WsEventType
  attachment_added attachment_removed presence_joined presence_left : WsEventType
  presence_snapshot notification : WsEventType
