-- ===== src/Migrations/Versions/ActivityLog.antt =====
-- fd31448fb5dc_phase3_activity_log.py: the activity of a project.
use collabflow.Common.{true, false, List, [], ◌∷◌, codes}
use collabflow.Migrations.Catalog.{
  Table, EnumType, Op, enum, text, jsonb, no_action, set_null, create_type, drop_type, create_table,
  drop_table, create_index,
}
use collabflow.Migrations.Columns.{column, reference, with_base, index_on, table, enum_type}

abbrev pub activity_action : EnumType
activity_action = enum_type "activity_action" (
    codes "project_created"
    ∷ codes "member_invited"
    ∷ codes "task_created"
    ∷ codes "task_updated"
    ∷ codes "task_deleted"
    ∷ codes "comment_added"
    ∷ codes "label_created"
    ∷ [])

abbrev pub activity_logs : Table
activity_logs =
    table "activity_logs"
      (with_base (
        reference "project_id" "projects" no_action false
        ∷ reference "task_id" "tasks" set_null true
        ∷ reference "actor_id" "users" no_action false
        ∷ column "action" (enum (codes "activity_action")) false
        ∷ column "summary" text false
        ∷ column "activity_metadata" jsonb true
        ∷ []))
      []

unfoldable pub upgrade : List Op
upgrade =
    create_type activity_action
    ∷ create_table activity_logs
    ∷ create_index (codes "activity_logs")
        (index_on "ix_activity_logs_project_id" (codes "project_id" ∷ []) false)
    ∷ create_index (codes "activity_logs")
        (index_on "ix_activity_logs_task_id" (codes "task_id" ∷ []) false)
    ∷ []

unfoldable pub downgrade : List Op
downgrade = drop_table (codes "activity_logs") ∷ drop_type (codes "activity_action") ∷ []
