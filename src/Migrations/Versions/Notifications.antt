-- ===== src/Migrations/Versions/Notifications.antt =====
-- c18c809922b5_phase5_notifications.py: the notifications of a user.
use collabflow.Common.{true, false, List, [], ◌∷◌, codes}
use collabflow.Migrations.Catalog.{
  Table, EnumType, Op, enum, text, timestamp, no_action, set_null, create_type, drop_type,
  create_table, drop_table, create_index,
}
use collabflow.Migrations.Columns.{column, reference, with_base, index_on, table, enum_type}

abbrev pub notification_type : EnumType
notification_type = enum_type "notification_type" (
    codes "mention"
    ∷ codes "task_assigned"
    ∷ codes "workspace_invite"
    ∷ codes "project_invite"
    ∷ codes "task_due_soon"
    ∷ [])

abbrev pub notifications : Table
notifications =
    table "notifications"
      (with_base (
        reference "user_id" "users" no_action false
        ∷ column "type" (enum (codes "notification_type")) false
        ∷ column "title" text false
        ∷ column "body" text false
        ∷ reference "project_id" "projects" set_null true
        ∷ reference "task_id" "tasks" set_null true
        ∷ column "read_at" timestamp true
        ∷ []))
      []

unfoldable pub upgrade : List Op
upgrade =
    create_type notification_type
    ∷ create_table notifications
    ∷ create_index (codes "notifications")
        (index_on "ix_notifications_user_id" (codes "user_id" ∷ []) false)
    ∷ []

unfoldable pub downgrade : List Op
downgrade = drop_table (codes "notifications") ∷ drop_type (codes "notification_type") ∷ []
