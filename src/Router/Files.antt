-- ===== src/Router/Files.antt =====
-- backend/app/api/routers/attachments.py
use collabflow.Common.{◌==◌, ℕ, not, Option, none, some, List, Text, codes}
use collabflow.Config.{Settings}
use collabflow.Models.{Attachment, Role}
use collabflow.Runtime.{Runtime}
use collabflow.Slugs.{text_or}
use collabflow.World.{◌>>◌, ◌>>=◌, Exec, pure, raise, raise_if, request, http_error, Error}
use collabflow.Crud.Postgres.{Postgres}
use collabflow.Crud.Attachment
use collabflow.Deps.{get_current_user, require_task_project_role}
use collabflow.Router.Errors.{with_status}
use collabflow.Service.Attachment as AttachmentService

-- A field of the upload that may be missing: `value or default`.
abbrev pub value_or : Option Text → Text → Text
value_or none default = default
value_or (some value) default = text_or value default

abbrev pub not_found : Error
not_found = http_error 404 "Attachment not found"

-- attachment is None or attachment.task_id != task.id
abbrev pub require_of_task : (task_id : ℕ) → Option Attachment → Exec Attachment
require_of_task task_id none = raise not_found
require_of_task task_id (some attachment) = do
  raise_if (not (attachment.task_id == task_id)) not_found
  pure attachment

module _ (rt : Runtime) (token : Text) where
  unfoldable pub upload_attachment :
      Settings
      → (task_id : ℕ) → (filename content_type : Option Text) → (size_bytes : ℕ) → Exec Attachment
  unfolding request
  upload_attachment settings task_id filename content_type size_bytes = request (do
    task ← require_task_project_role rt Role.member token task_id
    current_user ← get_current_user rt token
    with_status 400 (
        AttachmentService.upload_attachment rt settings task.id task.project_id current_user.id
          (value_or filename (codes "unnamed"))
          (value_or content_type (codes "application/octet-stream")) size_bytes))

  unfoldable pub list_attachments : Postgres → (task_id : ℕ) → Exec (List Attachment)
  unfolding request
  list_attachments pg task_id = request (do
    task ← require_task_project_role rt Role.member token task_id
    Attachment.list_by_task pg task.id)

  -- The attachment whose key and filename the presigned URL is made from.
  unfoldable pub download_attachment : (task_id attachment_id : ℕ) → Exec Attachment
  unfolding request
  download_attachment task_id attachment_id = request (do
    task ← require_task_project_role rt Role.member token task_id
    found ← Attachment.get_by_id attachment_id
    require_of_task task.id found)

  unfoldable pub delete_attachment : (task_id attachment_id : ℕ) → Exec (Unit {0})
  unfolding request
  delete_attachment task_id attachment_id = request (do
    task ← require_task_project_role rt Role.admin token task_id
    current_user ← get_current_user rt token
    found ← Attachment.get_by_id attachment_id
    attachment ← require_of_task task.id found
    AttachmentService.delete_attachment attachment task.project_id current_user.id)
