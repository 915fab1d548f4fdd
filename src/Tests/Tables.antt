-- ===== src/Tests/Tables.antt =====
-- A small database: two users, a workspace, a project with both as members, two tasks, a label, an
-- attachment and two notifications.
use collabflow.Common.{ℕ, true, none, some, Text, [], ◌∷◌, codes}
use collabflow.Models.{
  User, Organization, Workspace, WorkspaceMembership, Project, ProjectMembership, Task, TaskStatus,
  TaskPriority, Label, Notification, NotificationType, Attachment, Role,
}
use collabflow.Runtime.{access}
use collabflow.World.{World, Db}
use collabflow.Tests.Libraries.{code_of}

abbrev pub alice : User
alice = record {
  id = 1;
  email = codes "alice@site.org";
  hashed_password = codes "apple";
  full_name = codes "Alice";
  is_active = true;
  created_at = 0;
}

abbrev pub bob : User
bob = record {
  id = 2;
  email = codes "bob@site.org";
  hashed_password = codes "banana";
  full_name = codes "Bob";
  is_active = true;
  created_at = 0;
}

abbrev pub acme : Organization
acme = record { id = 3; name = codes "Acme"; slug = codes "acme"; owner_id = 1; created_at = 0 }

abbrev pub general : Workspace
general = record {
  id = 4;
  name = codes "General";
  slug = codes "general";
  organization_id = 3;
  created_at = 0;
}

abbrev pub alice_in_general : WorkspaceMembership
alice_in_general = record {
  id = 5;
  workspace_id = 4;
  user_id = 1;
  role = Role.owner;
  created_at = 0;
}

abbrev pub launch : Project
launch = record {
  id = 6;
  name = codes "Launch";
  slug = codes "launch";
  description = none;
  workspace_id = 4;
  created_at = 0;
}

abbrev pub alice_in_launch : ProjectMembership
alice_in_launch = record { id = 7; project_id = 6; user_id = 1; role = Role.owner; created_at = 0 }

abbrev pub bob_in_launch : ProjectMembership
bob_in_launch = record { id = 8; project_id = 6; user_id = 2; role = Role.member; created_at = 0 }

abbrev pub write_plan : Task
write_plan = record {
  id = 9;
  project_id = 6;
  title = codes "Write the plan";
  description = none;
  status = TaskStatus.todo;
  priority = TaskPriority.medium;
  assignee_id = some 2;
  due_date = none;
  parent_task_id = none;
  created_by_id = 1;
  position = 1;
  created_at = 0;
}

abbrev pub write_draft : Task
write_draft = record {
  id = 10;
  project_id = 6;
  title = codes "Write a draft";
  description = none;
  status = TaskStatus.todo;
  priority = TaskPriority.low;
  assignee_id = none;
  due_date = none;
  parent_task_id = some 9;
  created_by_id = 1;
  position = 2;
  created_at = 0;
}

abbrev pub bug : Label
bug = record {
  id = 11;
  project_id = 6;
  name = codes "bug";
  color = codes "#ff0000";
  created_at = 0;
}

abbrev pub notes_file : Attachment
notes_file = record {
  id = 12;
  task_id = 9;
  uploaded_by_id = 1;
  filename = codes "notes.txt";
  content_type = codes "text/plain";
  size_bytes = 5;
  storage_key = codes "tasks/9/notes.txt";
  created_at = 0;
}

abbrev pub assigned : Notification
assigned = record {
  id = 13;
  user_id = 2;
  type = NotificationType.task_assigned;
  title = codes "t";
  body = codes "b";
  project_id = some 6;
  task_id = some 9;
  read_at = none;
  created_at = 0;
}

abbrev pub tables : Db
tables = record {
  users = bob ∷ alice ∷ [];
  organizations = acme ∷ [];
  workspaces = general ∷ [];
  workspace_memberships = alice_in_general ∷ [];
  projects = launch ∷ [];
  project_memberships = bob_in_launch ∷ alice_in_launch ∷ [];
  tasks = write_draft ∷ write_plan ∷ [];
  task_labels = [];
  labels = bug ∷ [];
  comments = [];
  activity_logs = [];
  notifications = assigned ∷ [];
  attachments = notes_file ∷ [];
}

-- At time 100, with 20 UUIDs drawn.
abbrev pub small_world : World
small_world = record {
  session = tables;
  committed = tables;
  published = [];
  queue = [];
  bucket = codes "tasks/9/notes.txt" ∷ [];
  clock = 100;
  drawn = 20;
}

-- Access tokens of the two, good until 1000.
abbrev pub token_of : ℕ → Text
token_of user_id = code_of (record { sub = some user_id; type = some access; iat = 0; exp = 1000 })

abbrev pub alice_token : Text
alice_token = token_of 1

abbrev pub bob_token : Text
bob_token = token_of 2
