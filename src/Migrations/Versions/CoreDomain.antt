-- ===== src/Migrations/Versions/CoreDomain.antt =====
-- 3690234f411b_phase2_core_domain.py: projects, their members, tasks, labels and comments.
use collabflow.Common.{true, false, List, [], ◌∷◌, codes}
use collabflow.Migrations.Catalog.{
  Table, EnumType, Op, string, enum, text, integer, date, no_action, create_type, drop_type,
  rename_type, create_table, drop_table, create_index,
}
use collabflow.Migrations.Columns.{column, reference, key, with_base, index_on, table, enum_type}

abbrev pub task_status : EnumType
task_status =
    enum_type "task_status"
      (codes "todo" ∷ codes "in_progress" ∷ codes "in_review" ∷ codes "done" ∷ [])

abbrev pub task_priority : EnumType
task_priority =
    enum_type "task_priority" (codes "low" ∷ codes "medium" ∷ codes "high" ∷ codes "urgent" ∷ [])

abbrev pub projects : Table
projects =
    table "projects"
      (with_base (
        column "name" (string 255) false
        ∷ column "slug" (string 255) false
        ∷ column "description" text true
        ∷ reference "workspace_id" "workspaces" no_action false
        ∷ []))
      (index_on "uq_project_workspace_slug" (codes "workspace_id" ∷ codes "slug" ∷ []) true ∷ [])

abbrev pub project_memberships : Table
project_memberships =
    table "project_memberships"
      (with_base (
        reference "project_id" "projects" no_action false
        ∷ reference "user_id" "users" no_action false
        ∷ column "role" (enum (codes "member_role")) false
        ∷ []))
      (index_on "uq_membership_project_user" (codes "project_id" ∷ codes "user_id" ∷ []) true ∷ [])

abbrev pub tasks : Table
tasks =
    table "tasks"
      (with_base (
        reference "project_id" "projects" no_action false
        ∷ column "title" (string 500) false
        ∷ column "description" text true
        ∷ column "status" (enum (codes "task_status")) false
        ∷ column "priority" (enum (codes "task_priority")) false
        ∷ reference "assignee_id" "users" no_action true
        ∷ column "due_date" date true
        ∷ reference "parent_task_id" "tasks" no_action true
        ∷ reference "created_by_id" "users" no_action false
        ∷ column "position" integer false
        ∷ []))
      []

abbrev pub labels : Table
labels =
    table "labels"
      (with_base (
        reference "project_id" "projects" no_action false
        ∷ column "name" (string 100) false
        ∷ column "color" (string 7) false
        ∷ []))
      (index_on "uq_label_project_name" (codes "project_id" ∷ codes "name" ∷ []) true ∷ [])

abbrev pub task_labels : Table
task_labels =
    table "task_labels"
      (key (reference "task_id" "tasks" no_action false)
        ∷ key (reference "label_id" "labels" no_action false)
        ∷ [])
      []

abbrev pub comments : Table
comments =
    table "comments"
      (with_base (
        reference "task_id" "tasks" no_action false
        ∷ reference "author_id" "users" no_action false
        ∷ column "body" text false
        ∷ []))
      []

unfoldable pub upgrade : List Op
upgrade =
    rename_type (codes "workspace_role") (codes "member_role")
    ∷ create_type task_status
    ∷ create_type task_priority
    ∷ create_table projects
    ∷ create_index (codes "projects")
        (index_on "ix_projects_workspace_id" (codes "workspace_id" ∷ []) false)
    ∷ create_index (codes "projects") (index_on "ix_projects_slug" (codes "slug" ∷ []) false)
    ∷ create_table project_memberships
    ∷ create_index (codes "project_memberships")
        (index_on "ix_project_memberships_project_id" (codes "project_id" ∷ []) false)
    ∷ create_index (codes "project_memberships")
        (index_on "ix_project_memberships_user_id" (codes "user_id" ∷ []) false)
    ∷ create_table tasks
    ∷ create_index (codes "tasks") (index_on "ix_tasks_project_id" (codes "project_id" ∷ []) false)
    ∷ create_index (codes "tasks")
        (index_on "ix_tasks_assignee_id" (codes "assignee_id" ∷ []) false)
    ∷ create_index (codes "tasks") (index_on "ix_tasks_status" (codes "status" ∷ []) false)
    ∷ create_index (codes "tasks")
        (index_on "ix_tasks_parent_task_id" (codes "parent_task_id" ∷ []) false)
    ∷ create_table labels
    ∷ create_index (codes "labels")
        (index_on "ix_labels_project_id" (codes "project_id" ∷ []) false)
    ∷ create_table task_labels
    ∷ create_table comments
    ∷ create_index (codes "comments") (index_on "ix_comments_task_id" (codes "task_id" ∷ []) false)
    ∷ create_index (codes "comments")
        (index_on "ix_comments_author_id" (codes "author_id" ∷ []) false)
    ∷ []

unfoldable pub downgrade : List Op
downgrade =
    drop_table (codes "comments")
    ∷ drop_table (codes "task_labels")
    ∷ drop_table (codes "labels")
    ∷ drop_table (codes "tasks")
    ∷ drop_table (codes "project_memberships")
    ∷ drop_table (codes "projects")
    ∷ drop_type (codes "task_priority")
    ∷ drop_type (codes "task_status")
    ∷ rename_type (codes "member_role") (codes "workspace_role")
    ∷ []
