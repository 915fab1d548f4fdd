-- ===== src/Migrations/Values.antt =====
-- The values of the enumerations, in the order of their classes.
use collabflow.Common.{Text, codes, List, [], ◌∷◌}
use collabflow.Models.{Role, TaskStatus, TaskPriority, ActivityAction, NotificationType}

abbrev pub role_value : Role → Text
role_value Role.owner = codes "owner"
role_value Role.admin = codes "admin"
role_value Role.member = codes "member"

abbrev pub roles : List Role
roles = Role.owner ∷ Role.admin ∷ Role.member ∷ []

abbrev pub status_value : TaskStatus → Text
status_value TaskStatus.todo = codes "todo"
status_value TaskStatus.in_progress = codes "in_progress"
status_value TaskStatus.in_review = codes "in_review"
status_value TaskStatus.done = codes "done"

abbrev pub statuses : List TaskStatus
statuses = TaskStatus.todo ∷ TaskStatus.in_progress ∷ TaskStatus.in_review ∷ TaskStatus.done ∷ []

abbrev pub priority_value : TaskPriority → Text
priority_value TaskPriority.low = codes "low"
priority_value TaskPriority.medium = codes "medium"
priority_value TaskPriority.high = codes "high"
priority_value TaskPriority.urgent = codes "urgent"

abbrev pub priorities : List TaskPriority
priorities = TaskPriority.low ∷ TaskPriority.medium ∷ TaskPriority.high ∷ TaskPriority.urgent ∷ []

abbrev pub action_value : ActivityAction → Text
action_value ActivityAction.project_created = codes "project_created"
action_value ActivityAction.member_invited = codes "member_invited"
action_value ActivityAction.task_created = codes "task_created"
action_value ActivityAction.task_updated = codes "task_updated"
action_value ActivityAction.task_deleted = codes "task_deleted"
action_value ActivityAction.comment_added = codes "comment_added"
action_value ActivityAction.label_created = codes "label_created"
action_value ActivityAction.attachment_added = codes "attachment_added"
action_value ActivityAction.attachment_removed = codes "attachment_removed"

abbrev pub actions : List ActivityAction
actions =
    ActivityAction.project_created ∷ ActivityAction.member_invited ∷ ActivityAction.task_created
    ∷ ActivityAction.task_updated ∷ ActivityAction.task_deleted ∷ ActivityAction.comment_added
    ∷ ActivityAction.label_created ∷ ActivityAction.attachment_added
    ∷ ActivityAction.attachment_removed ∷ []

abbrev pub notification_value : NotificationType → Text
notification_value NotificationType.mention = codes "mention"
notification_value NotificationType.task_assigned = codes "task_assigned"
notification_value NotificationType.workspace_invite = codes "workspace_invite"
notification_value NotificationType.project_invite = codes "project_invite"
notification_value NotificationType.task_due_soon = codes "task_due_soon"

abbrev pub notification_types : List NotificationType
notification_types =
    NotificationType.mention ∷ NotificationType.task_assigned ∷ NotificationType.workspace_invite
    ∷ NotificationType.project_invite ∷ NotificationType.task_due_soon ∷ []
