-- ===== src/Migrations/Metadata.antt =====
-- models: what the classes declare of their tables, `Base.metadata`. An indexed column has an index of the
-- name `ix_<table>_<column>`, which is the unique one when the column is unique.
use mathlib.Core.List.{Perm}
use collabflow.Common.{
  ◌≡◌, Bool, true, false, not, ◌&&◌, Text, String, codes, List, [], ◌∷◌, ◌++◌, map, if◌then◌else◌,
}
use collabflow.Migrations.Values.{
  role_value, roles, status_value, statuses, priority_value, priorities, action_value, actions,
  notification_value, notification_types,
}
use collabflow.Migrations.Catalog.{
  ColumnType, OnDelete, Column, Index, Table, Catalog, string, enum, text, boolean, integer,
  big_integer, date, jsonb, timestamp, no_action, set_null, cascade,
}
use collabflow.Migrations.Columns.{column, reference, key, index_on, with_base, enum_type}

-- mapped_column, with its `index`
pub record Mapped : Type 0 where
  pub column : Column
  pub index : Bool

abbrev mapped : String → ColumnType → (nullable unique index : Bool) → Mapped
mapped name type nullable unique index = record {
  column = record (column name type nullable) { unique = unique };
  index = index;
}

abbrev foreign : String → String → OnDelete → (nullable index : Bool) → Mapped
foreign name table on_delete nullable index = record {
  column = reference name table on_delete nullable;
  index = index;
}

abbrev written : Mapped → Column
written m = record m.column { unique = m.column.unique && not m.index }

abbrev indexes_of : Text → List Mapped → List Index
indexes_of table [] = []
indexes_of table (m ∷ ms) =
    let rest = indexes_of table ms in
    if m.index
    then record {
      name = codes "ix_" ++ table ++ codes "_" ++ m.column.name;
      columns = m.column.name ∷ [];
      unique = m.column.unique;
    }
      ∷ rest
    else rest

-- A class with the mixins of db/base.py.
abbrev declared : String → List Mapped → (constraints : List Index) → Table
declared name ms constraints = record {
  name = codes name;
  columns = with_base (map written ms);
  constraints = constraints;
  indexes = indexes_of (codes name) ms;
}

abbrev pub users : Table
users =
    declared "users"
      (mapped "email" (string 255) false true true
        ∷ mapped "hashed_password" (string 255) false false false
        ∷ mapped "full_name" (string 255) false false false
        ∷ mapped "is_active" boolean false false false
        ∷ [])
      []

abbrev pub organizations : Table
organizations =
    declared "organizations"
      (mapped "name" (string 255) false false false
        ∷ mapped "slug" (string 255) false true true
        ∷ foreign "owner_id" "users" no_action false false
        ∷ [])
      []

abbrev pub workspaces : Table
workspaces =
    declared "workspaces"
      (mapped "name" (string 255) false false false
        ∷ mapped "slug" (string 255) false false true
        ∷ foreign "organization_id" "organizations" no_action false true
        ∷ [])
      (index_on "uq_workspace_org_slug" (codes "organization_id" ∷ codes "slug" ∷ []) true ∷ [])

abbrev pub workspace_memberships : Table
workspace_memberships =
    declared "workspace_memberships"
      (foreign "workspace_id" "workspaces" no_action false true
        ∷ foreign "user_id" "users" no_action false true
        ∷ mapped "role" (enum (codes "member_role")) false false false
        ∷ [])
      (index_on "uq_membership_workspace_user" (codes "workspace_id" ∷ codes "user_id" ∷ []) true
        ∷ [])

abbrev pub projects : Table
projects =
    declared "projects"
      (mapped "name" (string 255) false false false
        ∷ mapped "slug" (string 255) false false true
        ∷ mapped "description" text true false false
        ∷ foreign "workspace_id" "workspaces" no_action false true
        ∷ [])
      (index_on "uq_project_workspace_slug" (codes "workspace_id" ∷ codes "slug" ∷ []) true ∷ [])

abbrev pub project_memberships : Table
project_memberships =
    declared "project_memberships"
      (foreign "project_id" "projects" no_action false true
        ∷ foreign "user_id" "users" no_action false true
        ∷ mapped "role" (enum (codes "member_role")) false false false
        ∷ [])
      (index_on "uq_membership_project_user" (codes "project_id" ∷ codes "user_id" ∷ []) true ∷ [])

abbrev pub tasks : Table
tasks =
    declared "tasks"
      (foreign "project_id" "projects" no_action false true
        ∷ mapped "title" (string 500) false false false
        ∷ mapped "description" text true false false
        ∷ mapped "status" (enum (codes "task_status")) false false true
        ∷ mapped "priority" (enum (codes "task_priority")) false false false
        ∷ foreign "assignee_id" "users" no_action true true
        ∷ mapped "due_date" date true false false
        ∷ foreign "parent_task_id" "tasks" no_action true true
        ∷ foreign "created_by_id" "users" no_action false false
        ∷ mapped "position" integer false false false
        ∷ [])
      []

-- The association table of tasks and labels has no class.
abbrev pub task_labels : Table
task_labels = record {
  name = codes "task_labels";
  columns =
      key (reference "task_id" "tasks" no_action false)
      ∷ key (reference "label_id" "labels" no_action false)
      ∷ [];
  constraints = [];
  indexes = [];
}

abbrev pub labels : Table
labels =
    declared "labels"
      (foreign "project_id" "projects" no_action false true
        ∷ mapped "name" (string 100) false false false
        ∷ mapped "color" (string 7) false false false
        ∷ [])
      (index_on "uq_label_project_name" (codes "project_id" ∷ codes "name" ∷ []) true ∷ [])

abbrev pub comments : Table
comments =
    declared "comments"
      (foreign "task_id" "tasks" no_action false true
        ∷ foreign "author_id" "users" no_action false true
        ∷ mapped "body" text false false false
        ∷ [])
      []

abbrev pub activity_logs : Table
activity_logs =
    declared "activity_logs"
      (foreign "project_id" "projects" no_action false true
        ∷ foreign "task_id" "tasks" set_null true true
        ∷ foreign "actor_id" "users" no_action false false
        ∷ mapped "action" (enum (codes "activity_action")) false false false
        ∷ mapped "summary" text false false false
        ∷ mapped "activity_metadata" jsonb true false false
        ∷ [])
      []

abbrev pub notifications : Table
notifications =
    declared "notifications"
      (foreign "user_id" "users" no_action false true
        ∷ mapped "type" (enum (codes "notification_type")) false false false
        ∷ mapped "title" text false false false
        ∷ mapped "body" text false false false
        ∷ foreign "project_id" "projects" set_null true false
        ∷ foreign "task_id" "tasks" set_null true false
        ∷ mapped "read_at" timestamp true false false
        ∷ [])
      []

abbrev pub attachments : Table
attachments =
    declared "attachments"
      (foreign "task_id" "tasks" cascade false true
        ∷ foreign "uploaded_by_id" "users" no_action false false
        ∷ mapped "filename" (string 500) false false false
        ∷ mapped "content_type" (string 255) false false false
        ∷ mapped "size_bytes" big_integer false false false
        ∷ mapped "storage_key" (string 1000) false true false
        ∷ [])
      []

-- The order of the tables and types is not declared: this is the one of their creation, the last first.
unfoldable pub metadata : Catalog
metadata = record {
  types =
      enum_type "notification_type" (map notification_value notification_types)
      ∷ enum_type "activity_action" (map action_value actions)
      ∷ enum_type "task_priority" (map priority_value priorities)
      ∷ enum_type "task_status" (map status_value statuses)
      ∷ enum_type "member_role" (map role_value roles)
      ∷ [];
  tables =
      attachments ∷ notifications ∷ activity_logs ∷ comments ∷ task_labels ∷ labels ∷ tasks
      ∷ project_memberships ∷ projects ∷ workspace_memberships ∷ workspaces ∷ organizations ∷ users
      ∷ [];
}

-- The same table, with its indexes in any order.
abbrev pub MatchesTable : Table → Table → Type 0
MatchesTable a b =
    (a.name ≡ b.name)
    × (a.columns ≡ b.columns)
    × (a.constraints ≡ b.constraints)
    × Perm a.indexes b.indexes

abbrev pub MatchesTables : List Table → List Table → Type 0
MatchesTables [] [] = Unit
MatchesTables (t ∷ ts) (u ∷ us) = MatchesTable t u × MatchesTables ts us
MatchesTables _ _ = ⊥

unfoldable pub Matches : Catalog → Catalog → Type 0
Matches c d = (c.types ≡ d.types) × MatchesTables c.tables d.tables
