-- ===== src/Models/Rows.antt =====
-- The rows of the tables, a record for each class of backend/app/models.
use collabflow.Common.{ℕ, Bool, Option, List, Text}
use collabflow.Models.Enums.{Role, TaskStatus, TaskPriority, ActivityAction, NotificationType}

pub record User : Type 0 where
  pub id : ℕ
  pub email : Text
  pub hashed_password : Text
  pub full_name : Text
  pub is_active : Bool
  pub created_at : ℕ

pub record Organization : Type 0 where
  pub id : ℕ
  pub name : Text
  pub slug : Text
  pub owner_id : ℕ
  pub created_at : ℕ

pub record Workspace : Type 0 where
  pub id : ℕ
  pub name : Text
  pub slug : Text
  pub organization_id : ℕ
  pub created_at : ℕ

pub record WorkspaceMembership : Type 0 where
  pub id : ℕ
  pub workspace_id : ℕ
  pub user_id : ℕ
  pub role : Role
  pub created_at : ℕ

pub record Project : Type 0 where
  pub id : ℕ
  pub name : Text
  pub slug : Text
  pub description : Option Text
  pub workspace_id : ℕ
  pub created_at : ℕ

pub record ProjectMembership : Type 0 where
  pub id : ℕ
  pub project_id : ℕ
  pub user_id : ℕ
  pub role : Role
  pub created_at : ℕ

pub record Task : Type 0 where
  pub id : ℕ
  pub project_id : ℕ
  pub title : Text
  pub description : Option Text
  pub status : TaskStatus
  pub priority : TaskPriority
  pub assignee_id : Option ℕ
  pub due_date : Option ℕ
  pub parent_task_id : Option ℕ
  pub created_by_id : ℕ
  pub position : ℕ
  pub created_at : ℕ

pub record Label : Type 0 where
  pub id : ℕ
  pub project_id : ℕ
  pub name : Text
  pub color : Text
  pub created_at : ℕ

-- A row of the association table `task_labels`.
pub record TaskLabel : Type 0 where
  pub task_id : ℕ
  pub label_id : ℕ

pub record Comment : Type 0 where
  pub id : ℕ
  pub task_id : ℕ
  pub author_id : ℕ
  pub body : Text
  pub created_at : ℕ

-- An entry of `changes` in `update_task`: the field, its old value and its new one. The code
-- writes the values by `str`.
pub data Change : Type 0 where
  title_change : Text → Text → Change
  description_change : Option Text → Option Text → Change
  status_change : TaskStatus → TaskStatus → Change
  priority_change : TaskPriority → TaskPriority → Change
  assignee_change : Option ℕ → Option ℕ → Change
  due_date_change : Option ℕ → Option ℕ → Change
  labels_change : List Text → List Text → Change

pub record ActivityLog : Type 0 where
  pub id : ℕ
  pub project_id : ℕ
  pub task_id : Option ℕ
  pub actor_id : ℕ
  pub action : ActivityAction
  pub summary : Text
  pub activity_metadata : Option (List Change)
  pub created_at : ℕ

pub record Notification : Type 0 where
  pub id : ℕ
  pub user_id : ℕ
  pub type : NotificationType
  pub title : Text
  pub body : Text
  pub project_id : Option ℕ
  pub task_id : Option ℕ
  pub read_at : Option ℕ
  pub created_at : ℕ

pub record Attachment : Type 0 where
  pub id : ℕ
  pub task_id : ℕ
  pub uploaded_by_id : ℕ
  pub filename : Text
  pub content_type : Text
  pub size_bytes : ℕ
  pub storage_key : Text
  pub created_at : ℕ
