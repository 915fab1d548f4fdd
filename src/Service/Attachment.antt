-- ===== src/Service/Attachment.antt =====
-- backend/app/services/attachment_service.py
pub mod Laws
use collabflow.Common.{◌==◌, ℕ, ◌*◌, Bool, true, not, ◌&&◌, none, some, Text, [], ◌∷◌, ltb, format}
use collabflow.Config.{Settings}
use collabflow.Models.{Attachment, ActivityAction, WsEventType}
use collabflow.Runtime.{Runtime}
use collabflow.Storage.{build_storage_key, upload_bytes, delete_object}
use collabflow.World.{
  Exec, ◌>>=◌, ◌>>◌, pure, raise_if, commit, uuid4, service_error, attachment_data,
  attachment_removal_data,
}
use collabflow.Crud.Attachment
use collabflow.Service.Activity.{log}
use collabflow.Service.Events.{publish_event}

-- not text.strip()
unfoldable pub is_blank : Runtime → Text → Bool
is_blank rt [] = true
is_blank rt (c ∷ s) = rt.is_space c && is_blank rt s

-- _validate
unfoldable pub validate :
    Runtime → Settings → (filename : Text) → (size_bytes : ℕ) → Exec (Unit {0})
validate rt settings filename size_bytes = do
  raise_if (size_bytes == 0) (service_error "File is empty")
  raise_if (ltb (settings.max_attachment_size_mb * 1024 * 1024) size_bytes)
      (service_error "File exceeds the attachment size limit")
  raise_if (is_blank rt filename) (service_error "Filename is required")

-- The file's content goes to the bucket; of it the code reads the length alone.
unfoldable pub upload_attachment :
    Runtime
    → Settings
    → (task_id project_id uploaded_by_id : ℕ) → (filename content_type : Text) → (size_bytes : ℕ)
    → Exec Attachment
unfolding validate upload_bytes Attachment.create log commit publish_event
upload_attachment rt settings task_id project_id uploaded_by_id filename content_type size_bytes =
    do
      validate rt settings filename size_bytes
      drawn ← uuid4
      let storage_key : Text = build_storage_key rt drawn task_id filename
      upload_bytes storage_key
      attachment ←
          Attachment.create task_id uploaded_by_id filename content_type size_bytes storage_key
      _ ←
          log project_id uploaded_by_id ActivityAction.attachment_added
            (format "attached '" filename "'") (some task_id) none
      commit
      publish_event project_id WsEventType.attachment_added
          (attachment_data attachment.id task_id filename attachment.size_bytes)
          (some uploaded_by_id)
      pure attachment

unfoldable pub delete_attachment : Attachment → (project_id actor_id : ℕ) → Exec (Unit {0})
unfolding log Attachment.delete commit delete_object publish_event
delete_attachment attachment project_id actor_id = do
  _ ←
      log project_id actor_id ActivityAction.attachment_removed
        (format "removed attachment '" attachment.filename "'") (some attachment.task_id) none
  Attachment.delete attachment
  commit
  delete_object attachment.storage_key
  publish_event project_id WsEventType.attachment_removed
      (attachment_removal_data attachment.id attachment.task_id attachment.filename) (some actor_id)
