-- ===== src/Migrations/Heads.antt =====
-- The catalog at each revision.
use collabflow.Common.{true, false, Option, none, some, List, [], ◌∷◌, ◌++◌, String, codes}
use collabflow.Migrations.Catalog.{Catalog, Index, Table, EnumType, enum, no_action}
use collabflow.Migrations.Columns.{index_on, with_base, reference, column}
use collabflow.Migrations.Versions.Foundation
use collabflow.Migrations.Versions.CoreDomain
use collabflow.Migrations.Versions.ActivityLog
use collabflow.Migrations.Versions.Notifications
use collabflow.Migrations.Versions.Attachments
use collabflow.Migrations.Versions.{
  Revision, foundation, core_domain, activity_log, notifications, attachments, down_revision,
}

abbrev pub empty : Catalog
empty = record { types = []; tables = [] }

abbrev indexed_by : List Index → Table → Table
indexed_by is t = record t { indexes = is }

abbrev on : String → String → Index
on name col = index_on name (codes col ∷ []) false

unfoldable pub foundation_tables : (role_type : String) → List Table
unfolding Foundation.upgrade
foundation_tables role_type =
    indexed_by
      (on "ix_workspace_memberships_workspace_id" "workspace_id"
        ∷ on "ix_workspace_memberships_user_id" "user_id"
        ∷ [])
      (record Foundation.workspace_memberships {
        columns = with_base (
            reference "workspace_id" "workspaces" no_action false
            ∷ reference "user_id" "users" no_action false
            ∷ column "role" (enum (codes role_type)) false
            ∷ []);
      })
    ∷ indexed_by
        (on "ix_workspaces_organization_id" "organization_id" ∷ on "ix_workspaces_slug" "slug" ∷ [])
        Foundation.workspaces
    ∷ indexed_by (index_on "ix_organizations_slug" (codes "slug" ∷ []) true ∷ [])
        Foundation.organizations
    ∷ indexed_by (index_on "ix_users_email" (codes "email" ∷ []) true ∷ []) Foundation.users
    ∷ []

unfoldable pub core_domain_tables : List Table
core_domain_tables =
    indexed_by (on "ix_comments_task_id" "task_id" ∷ on "ix_comments_author_id" "author_id" ∷ [])
      CoreDomain.comments
    ∷ CoreDomain.task_labels
    ∷ indexed_by (on "ix_labels_project_id" "project_id" ∷ []) CoreDomain.labels
    ∷ indexed_by
        (on "ix_tasks_project_id" "project_id"
          ∷ on "ix_tasks_assignee_id" "assignee_id"
          ∷ on "ix_tasks_status" "status"
          ∷ on "ix_tasks_parent_task_id" "parent_task_id"
          ∷ [])
        CoreDomain.tasks
    ∷ indexed_by
        (on "ix_project_memberships_project_id" "project_id"
          ∷ on "ix_project_memberships_user_id" "user_id"
          ∷ [])
        CoreDomain.project_memberships
    ∷ indexed_by (on "ix_projects_workspace_id" "workspace_id" ∷ on "ix_projects_slug" "slug" ∷ [])
        CoreDomain.projects
    ∷ foundation_tables "member_role"

unfoldable pub activity_log_tables : List Table
activity_log_tables =
    indexed_by
      (on "ix_activity_logs_project_id" "project_id" ∷ on "ix_activity_logs_task_id" "task_id" ∷ [])
      ActivityLog.activity_logs
    ∷ core_domain_tables

unfoldable pub notifications_tables : List Table
notifications_tables =
    indexed_by (on "ix_notifications_user_id" "user_id" ∷ []) Notifications.notifications
    ∷ activity_log_tables

unfoldable pub attachments_tables : List Table
attachments_tables =
    indexed_by (on "ix_attachments_task_id" "task_id" ∷ []) Attachments.attachments
    ∷ notifications_tables

abbrev core_domain_types : List EnumType
core_domain_types =
    CoreDomain.task_priority
    ∷ CoreDomain.task_status
    ∷ record Foundation.workspace_role { name = codes "member_role" }
    ∷ []

-- The activity actions with those of the attachments.
abbrev pub all_actions : EnumType
all_actions = record ActivityLog.activity_action {
  values =
      ActivityLog.activity_action.values
      ++ codes "attachment_added" ∷ codes "attachment_removed" ∷ [];
}

-- What a revision leaves in a database of its own.
unfoldable pub after : Revision → Catalog
after foundation = record {
  types = Foundation.workspace_role ∷ [];
  tables = foundation_tables "workspace_role";
}
after core_domain = record { types = core_domain_types; tables = core_domain_tables }
after activity_log = record {
  types = ActivityLog.activity_action ∷ core_domain_types;
  tables = activity_log_tables;
}
after notifications = record {
  types = Notifications.notification_type ∷ ActivityLog.activity_action ∷ core_domain_types;
  tables = notifications_tables;
}
after attachments = record {
  types = Notifications.notification_type ∷ all_actions ∷ core_domain_types;
  tables = attachments_tables;
}

-- The catalog that a revision starts from.
abbrev pub before : Option Revision → Catalog
before none = empty
before (some r) = after r

-- What the downgrade of a revision leaves: the attachments leave their two activity actions.
abbrev pub rolled_back : Revision → Catalog
rolled_back attachments = record (after notifications) { types = (after attachments).types }
rolled_back r = before (down_revision r)
