-- ===== src/Responses.antt =====
-- The answers of backend/app/schemas: what pydantic reads off a row (`from_attributes`), and the
-- listings. The read schemas of tasks and comments also pass on `updated_at`, which the rows leave out.
pub mod Listing
use collabflow.Common.{◌==◌, ℕ, Bool, ◌&&◌, Option, List, Text, any, map, select}
use collabflow.Models.{
  User, Organization, Workspace, WorkspaceMembership, Project, ProjectMembership, Role, Task,
  TaskStatus, TaskPriority, Label, Comment, ActivityLog, ActivityAction, Change, Notification,
  NotificationType, Attachment,
}
use collabflow.World.{Db}

pub record UserRead : Type 0 where
  pub id : ℕ
  pub email : Text
  pub full_name : Text
  pub is_active : Bool

abbrev pub user_read : User → UserRead
user_read u = record {
  id = u.id;
  email = u.email;
  full_name = u.full_name;
  is_active = u.is_active;
}

pub record OrganizationRead : Type 0 where
  pub id : ℕ
  pub name : Text
  pub slug : Text
  pub owner_id : ℕ

abbrev pub organization_read : Organization → OrganizationRead
organization_read o = record { id = o.id; name = o.name; slug = o.slug; owner_id = o.owner_id }

pub record WorkspaceRead : Type 0 where
  pub id : ℕ
  pub name : Text
  pub slug : Text
  pub organization_id : ℕ

abbrev pub workspace_read : Workspace → WorkspaceRead
workspace_read w = record {
  id = w.id;
  name = w.name;
  slug = w.slug;
  organization_id = w.organization_id;
}

-- WorkspaceMemberRead and ProjectMemberRead
pub record MemberRead : Type 0 where
  pub id : ℕ
  pub user_id : ℕ
  pub role : Role

abbrev pub workspace_member_read : WorkspaceMembership → MemberRead
workspace_member_read m = record { id = m.id; user_id = m.user_id; role = m.role }

abbrev pub project_member_read : ProjectMembership → MemberRead
project_member_read m = record { id = m.id; user_id = m.user_id; role = m.role }

pub record ProjectRead : Type 0 where
  pub id : ℕ
  pub name : Text
  pub slug : Text
  pub description : Option Text
  pub workspace_id : ℕ

abbrev pub project_read : Project → ProjectRead
project_read p = record {
  id = p.id;
  name = p.name;
  slug = p.slug;
  description = p.description;
  workspace_id = p.workspace_id;
}

pub record LabelRead : Type 0 where
  pub id : ℕ
  pub project_id : ℕ
  pub name : Text
  pub color : Text

abbrev pub label_read : Label → LabelRead
label_read l = record { id = l.id; project_id = l.project_id; name = l.name; color = l.color }

pub record TaskRead : Type 0 where
  pub id : ℕ
  pub project_id : ℕ
  pub title : Text
  pub description : Option Text
  pub status : TaskStatus
  pub priority : TaskPriority
  pub assignee_id : Option ℕ
  pub due_date : Option ℕ
  pub parent_task_id : Option ℕ
  pub created_by_id : ℕ
  pub position : ℕ
  pub labels : List LabelRead
  pub created_at : ℕ

-- Task.labels, by way of the table task_labels
unfoldable pub labels_of : Db → (task_id : ℕ) → List Label
labels_of db task_id =
    select (λ l. any (λ r. (r.task_id == task_id) && (r.label_id == l.id)) db.task_labels) db.labels

unfoldable pub task_read : Db → Task → TaskRead
task_read db t = record {
  id = t.id;
  project_id = t.project_id;
  title = t.title;
  description = t.description;
  status = t.status;
  priority = t.priority;
  assignee_id = t.assignee_id;
  due_date = t.due_date;
  parent_task_id = t.parent_task_id;
  created_by_id = t.created_by_id;
  position = t.position;
  labels = map label_read (labels_of db t.id);
  created_at = t.created_at;
}

pub record CommentRead : Type 0 where
  pub id : ℕ
  pub task_id : ℕ
  pub author_id : ℕ
  pub body : Text
  pub created_at : ℕ

abbrev pub comment_read : Comment → CommentRead
comment_read c = record {
  id = c.id;
  task_id = c.task_id;
  author_id = c.author_id;
  body = c.body;
  created_at = c.created_at;
}

pub record ActivityLogRead : Type 0 where
  pub id : ℕ
  pub project_id : ℕ
  pub task_id : Option ℕ
  pub actor_id : ℕ
  pub action : ActivityAction
  pub summary : Text
  pub activity_metadata : Option (List Change)
  pub created_at : ℕ

abbrev pub activity_log_read : ActivityLog → ActivityLogRead
activity_log_read e = record {
  id = e.id;
  project_id = e.project_id;
  task_id = e.task_id;
  actor_id = e.actor_id;
  action = e.action;
  summary = e.summary;
  activity_metadata = e.activity_metadata;
  created_at = e.created_at;
}

pub record NotificationRead : Type 0 where
  pub id : ℕ
  pub type : NotificationType
  pub title : Text
  pub body : Text
  pub project_id : Option ℕ
  pub task_id : Option ℕ
  pub read_at : Option ℕ
  pub created_at : ℕ

abbrev pub notification_read : Notification → NotificationRead
notification_read n = record {
  id = n.id;
  type = n.type;
  title = n.title;
  body = n.body;
  project_id = n.project_id;
  task_id = n.task_id;
  read_at = n.read_at;
  created_at = n.created_at;
}

pub record AttachmentRead : Type 0 where
  pub id : ℕ
  pub task_id : ℕ
  pub uploaded_by_id : ℕ
  pub filename : Text
  pub content_type : Text
  pub size_bytes : ℕ
  pub created_at : ℕ

abbrev pub attachment_read : Attachment → AttachmentRead
attachment_read a = record {
  id = a.id;
  task_id = a.task_id;
  uploaded_by_id = a.uploaded_by_id;
  filename = a.filename;
  content_type = a.content_type;
  size_bytes = a.size_bytes;
  created_at = a.created_at;
}
