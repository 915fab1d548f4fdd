-- ===== src/Storage/Download.antt =====
-- `generate_presigned_download_url` of core/storage.py, and the download that the route of
-- api/routers/attachments.py answers with.
use collabflow.Common.{ℕ, Text, format}
use collabflow.Models.{Attachment}

-- f'attachment; filename="{filename}"'
unfoldable pub content_disposition : (filename : Text) → Text
content_disposition filename = format "attachment; filename=\"" filename "\""

-- `get_presign_client().generate_presigned_url("get_object", Params=…, ExpiresIn=…)`
abbrev pub Presign : Type 0
Presign = (bucket key response_content_disposition : Text) → (expires_in : ℕ) → Text

unfoldable pub generate_presigned_download_url :
    Presign → (s3_bucket key filename : Text) → (expires_in : ℕ) → Text
unfolding content_disposition
generate_presigned_download_url presign s3_bucket key filename expires_in =
    presign s3_bucket key (content_disposition filename) expires_in

pub record AttachmentDownloadRead : Type 0 where
  pub download_url : Text
  pub expires_in : ℕ

unfoldable pub download_read : Presign → (s3_bucket : Text) → Attachment → AttachmentDownloadRead
unfolding generate_presigned_download_url
download_read presign s3_bucket attachment = record {
  download_url =
      generate_presigned_download_url presign s3_bucket attachment.storage_key attachment.filename
        300;
  expires_in = 300;
}
