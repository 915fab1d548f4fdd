-- ===== src/World/State.antt =====
-- The state, the messages that leave the process, and the errors.
use collabflow.Common.{ℕ, Option, List, Text, String}
use collabflow.Models.{
  User, Organization, Workspace, WorkspaceMembership, Project, ProjectMembership, Task, TaskLabel,
  Label, Comment, ActivityLog, Notification, Attachment, Change, TaskStatus, TaskPriority,
  WsEventType, NotificationType,
}

-- Each table with its newest row first.
pub record Db : Type 0 where
  pub users : List User
  pub organizations : List Organization
  pub workspaces : List Workspace
  pub workspace_memberships : List WorkspaceMembership
  pub projects : List Project
  pub project_memberships : List ProjectMembership
  pub tasks : List Task
  pub task_labels : List TaskLabel
  pub labels : List Label
  pub comments : List Comment
  pub activity_logs : List ActivityLog
  pub notifications : List Notification
  pub attachments : List Attachment

-- `_task_broadcast_payload`
pub record TaskPayload : Type 0 where
  pub id : ℕ
  pub title : Text
  pub status : TaskStatus
  pub priority : TaskPriority
  pub assignee_id : Option ℕ
  pub position : ℕ

-- The `data` of an event.
pub data EventData : Type 0 where
  task_data : TaskPayload → EventData
  task_update_data : TaskPayload → List Change → EventData
  task_removal_data : ℕ → Text → EventData
  comment_data : (id task_id author_id : ℕ) → (body : Text) → EventData
  attachment_data : (id task_id : ℕ) → (filename : Text) → (size_bytes : ℕ) → EventData
  attachment_removal_data : (id task_id : ℕ) → (filename : Text) → EventData
  user_data : (user_id : ℕ) → EventData
  notification_data :
      (id : ℕ)
      → NotificationType
      → (title body : Text) → (project_id task_id : Option ℕ) → (created_at : ℕ) → EventData

-- The channel that an event goes out on. `Channels` has its text.
pub data Channel : Type 0 where
  project_channel : ℕ → Channel
  user_channel : ℕ → Channel

-- What `redis.publish` is given.
pub record Message : Type 0 where
  pub channel : Channel
  pub type : WsEventType
  pub project_id : Option ℕ
  pub actor_id : Option ℕ
  pub payload : EventData

-- A queued `send_notification_email`.
pub record Email : Type 0 where
  pub to_email : Text
  pub subject : Text
  pub body : Text

pub record World : Type 0 where
  pub session : Db
  pub committed : Db
  pub published : List Message
  pub queue : List Email
  -- the keys of the objects in the bucket
  pub bucket : List Text
  -- `datetime.now()` and the server's `now()`
  pub clock : ℕ
  -- how many UUIDs were drawn; the next draw is this number
  pub drawn : ℕ

pub data Error : Type 0 where
  -- a unique constraint or a NOT NULL column refused a flush
  integrity_error : Error
  -- an attribute of `None`
  attribute_error : Error
  auth_error invalid_token service_error : String → Error
  http_error : ℕ → String → Error
  -- a loop of the model had no fuel left
  out_of_fuel : Error
  -- WebSocketException
  websocket_error : ℕ → String → Error

pub data Result {ℓ} (A : Type ℓ) : Type ℓ where
  ok : A → Result A
  err : Error → Result A
