-- ===== src/Storage.antt =====
-- backend/app/core/storage.py: the object keys and the two operations on the bucket. The clients
-- and the presigned URLs are boto3's.
pub mod Laws
pub mod Download
use collabflow.Common.{
  ◌==◌, ℕ, Bool, not, Text, List, [], ◌∷◌, ◌++◌, map, codes, contains, text_eq, select,
  if◌then◌else◌,
}
use collabflow.Runtime.{Runtime}
use collabflow.World.{Exec, World, ok}

-- filename.replace("\\", "/")
unfoldable pub slashes : Text → Text
slashes = map λ c. if c == 92 then 47 else c

-- s.rsplit("/", 1)[-1]: what follows the last slash
unfoldable pub after_last_slash : Text → Text
after_last_slash [] = []
after_last_slash (c ∷ s) =
    let rest = after_last_slash s in if contains s 47 then rest else if c == 47 then s else c ∷ s

unfoldable pub safe_filename : Text → Text
unfolding slashes after_last_slash
safe_filename filename = after_last_slash (slashes filename)

-- `drawn` is the UUID of the `uuid4` call.
unfoldable pub build_storage_key : Runtime → (drawn task_id : ℕ) → (filename : Text) → Text
unfolding safe_filename
build_storage_key rt drawn task_id filename =
    codes "tasks/"
    ++ rt.uuid_str task_id
    ++ codes "/"
    ++ rt.uuid_hex drawn
    ++ codes "_"
    ++ safe_filename filename

-- put_object
unfoldable pub upload_bytes : (key : Text) → Exec (Unit {0})
upload_bytes key w = (ok tt, record w { bucket = key ∷ w.bucket })

unfoldable pub delete_object : (key : Text) → Exec (Unit {0})
delete_object key w = (ok tt, record w { bucket = select (λ k. not (text_eq k key)) w.bucket })
