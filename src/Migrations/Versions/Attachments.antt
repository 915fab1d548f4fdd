-- ===== src/Migrations/Versions/Attachments.antt =====
-- f17665be6383_phase6_attachments.py: the attachments of a task, and two activity actions.
use collabflow.Common.{false, List, [], ◌∷◌, codes}
use collabflow.Migrations.Catalog.{
  Table, Op, string, big_integer, no_action, cascade, add_value, create_table, drop_table,
  create_index,
}
use collabflow.Migrations.Columns.{column, reference, with_base, index_on, table, unique_column}

abbrev pub attachments : Table
attachments =
    table "attachments"
      (with_base (
        reference "task_id" "tasks" cascade false
        ∷ reference "uploaded_by_id" "users" no_action false
        ∷ column "filename" (string 500) false
        ∷ column "content_type" (string 255) false
        ∷ column "size_bytes" big_integer false
        ∷ unique_column (column "storage_key" (string 1000) false)
        ∷ []))
      []

unfoldable pub upgrade : List Op
upgrade =
    add_value (codes "activity_action") (codes "attachment_added")
    ∷ add_value (codes "activity_action") (codes "attachment_removed")
    ∷ create_table attachments
    ∷ create_index (codes "attachments")
        (index_on "ix_attachments_task_id" (codes "task_id" ∷ []) false)
    ∷ []

-- The two enum values stay.
unfoldable pub downgrade : List Op
downgrade = drop_table (codes "attachments") ∷ []
