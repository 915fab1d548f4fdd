-- ===== src/Crud/Activity.antt =====
-- backend/app/crud/activity.py
use collabflow.Common.{◌==◌, ℕ, ◌∷◌, List, Option, Text, leb, select, is_some_of, length}
use collabflow.Models.{ActivityLog, ActivityAction, Change}
use collabflow.World.{Exec, ◌>>=◌, ◌>>◌, query, write, uuid4, now, pure}
use collabflow.Crud.Postgres.{Postgres, page_of}

unfoldable pub create :
    (project_id actor_id : ℕ)
    → ActivityAction
    → (summary : Text) → (task_id : Option ℕ) → (metadata : Option (List Change)) → Exec ActivityLog
create project_id actor_id action summary task_id metadata = do
  id ← uuid4
  created_at ← now
  let entry : ActivityLog = record {
    id = id;
    project_id = project_id;
    task_id = task_id;
    actor_id = actor_id;
    action = action;
    summary = summary;
    activity_metadata = metadata;
    created_at = created_at;
  }
  write (λ db. record db { activity_logs = entry ∷ db.activity_logs })
  pure entry

unfoldable pub list_by_project :
    Postgres → (project_id page page_size : ℕ) → Exec (List ActivityLog × ℕ)
list_by_project pg project_id page page_size = query λ db.
    let rows = select (λ (e : ActivityLog). e.project_id == project_id) db.activity_logs in
    let sorted = pg.order_by ActivityLog (λ a b. leb b.created_at a.created_at) rows in
    (page_of page page_size sorted, length rows)

unfoldable pub list_by_task : Postgres → (task_id page page_size : ℕ) → Exec (List ActivityLog × ℕ)
list_by_task pg task_id page page_size = query λ db.
    let rows = select (λ (e : ActivityLog). is_some_of e.task_id task_id) db.activity_logs in
    let sorted = pg.order_by ActivityLog (λ a b. leb b.created_at a.created_at) rows in
    (page_of page page_size sorted, length rows)
