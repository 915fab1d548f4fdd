-- ===== src/Crud/Comment.antt =====
-- backend/app/crud/comment.py
use collabflow.Common.{◌==◌, ℕ, ◌∷◌, List, Option, Text, leb, find, select}
use collabflow.Models.{Comment}
use collabflow.World.{Exec, ◌>>=◌, ◌>>◌, query, write, uuid4, now, pure}
use collabflow.Crud.Postgres.{Postgres}

unfoldable pub get_by_id : ℕ → Exec (Option Comment)
get_by_id comment_id = query λ db. find (λ c. c.id == comment_id) db.comments

unfoldable pub create : (task_id author_id : ℕ) → (body : Text) → Exec Comment
create task_id author_id body = do
  id ← uuid4
  created_at ← now
  let comment : Comment = record {
    id = id;
    task_id = task_id;
    author_id = author_id;
    body = body;
    created_at = created_at;
  }
  write (λ db. record db { comments = comment ∷ db.comments })
  pure comment

unfoldable pub list_by_task : Postgres → ℕ → Exec (List Comment)
list_by_task pg task_id = query λ db.
    pg.order_by Comment (λ a b. leb a.created_at b.created_at)
      (select (λ c. c.task_id == task_id) db.comments)
