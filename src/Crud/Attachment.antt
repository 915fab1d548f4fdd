-- ===== src/Crud/Attachment.antt =====
-- backend/app/crud/attachment.py
use collabflow.Common.{◌==◌, ℕ, not, ◌∷◌, List, Option, Text, text_eq, leb, find, any, select}
use collabflow.Models.{Attachment}
use collabflow.World.{Exec, ◌>>=◌, ◌>>◌, query, write, raise_if, integrity_error, uuid4, now, pure}
use collabflow.Crud.Postgres.{Postgres}

unfoldable pub get_by_id : ℕ → Exec (Option Attachment)
get_by_id attachment_id = query λ db. find (λ a. a.id == attachment_id) db.attachments

-- UNIQUE (storage_key)
unfoldable pub create :
    (task_id uploaded_by_id : ℕ)
    → (filename content_type : Text) → (size_bytes : ℕ) → (storage_key : Text) → Exec Attachment
create task_id uploaded_by_id filename content_type size_bytes storage_key = do
  taken ← query (λ db. any (λ a. text_eq a.storage_key storage_key) db.attachments)
  raise_if taken integrity_error
  id ← uuid4
  created_at ← now
  let attachment : Attachment = record {
    id = id;
    task_id = task_id;
    uploaded_by_id = uploaded_by_id;
    filename = filename;
    content_type = content_type;
    size_bytes = size_bytes;
    storage_key = storage_key;
    created_at = created_at;
  }
  write (λ db. record db { attachments = attachment ∷ db.attachments })
  pure attachment

unfoldable pub list_by_task : Postgres → ℕ → Exec (List Attachment)
list_by_task pg task_id = query λ db.
    pg.order_by Attachment (λ a b. leb a.created_at b.created_at)
      (select (λ a. a.task_id == task_id) db.attachments)

unfoldable pub delete : Attachment → Exec (Unit {0})
delete attachment =
    write λ db. record db { attachments = select (λ a. not (a.id == attachment.id)) db.attachments }
