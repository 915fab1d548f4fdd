-- ===== src/Service/Attachment/Laws.antt =====
-- What an upload lets through.
use collabflow.Common.{ℕ, ◌<◌, ◌≤◌, ◌*◌, ◌≡◌, false, Text, ◌∷◌, arith}
use collabflow.Config.{Settings}
use collabflow.Models.{Attachment}
use collabflow.Runtime.{Runtime}
use collabflow.World.{World, ok}
use collabflow.Service.Attachment.{upload_attachment, validate, is_blank}

-- An upload that is accepted is not empty, not above the limit and has a name. Its row is committed
-- and its object is in the bucket under the row's key.
pub upload_attachment-ok :
    (rt : Runtime) (settings : Settings) (t p u : ℕ) (filename content_type : Text) (size : ℕ)
    (w : World) (a : Attachment)
    → (upload_attachment rt settings t p u filename content_type size w).0 ≡ ok a
    → (0 < size)
      × (size ≤ settings.max_attachment_size_mb * 1024 * 1024)
      × (is_blank rt filename ≡ false)
      × ((upload_attachment rt settings t p u filename content_type size w).1.committed.attachments
          ≡ a ∷ w.session.attachments)
      × ((upload_attachment rt settings t p u filename content_type size w).1.bucket
          ≡ a.storage_key ∷ w.bucket)
unfolding upload_attachment validate
upload_attachment-ok rt settings t p u filename content_type size w a h =
    (ground arith, ground arith, ground arith, ground arith, ground arith)
