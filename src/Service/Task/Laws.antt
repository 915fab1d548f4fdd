-- ===== src/Service/Task/Laws.antt =====
-- What `create_task` and `delete_task` make durable and send.
use collabflow.Common.{
  ◌==◌, ℕ, ◌<◌, ◌≡◌, refl, true, not, some, List, [], ◌∷◌, arith, select, contains, All, Text,
  text_eq, leb,
}
use collabflow.Models.{Task, TaskStatus, WsEventType, Attachment}
use collabflow.World.{World, ok, task_removal_data, project_channel}
use collabflow.Crud.Task.{NewTask, in_column, max_position}
use collabflow.Crud.Task.Delete.{doomed}
use collabflow.Crud.Postgres.{Postgres}
use collabflow.Service.Task.{create_task, delete_task, delete_objects}

below_max :
    (p : ℕ) (s : TaskStatus) (ts : List Task) (n : ℕ)
    → max_position p s ts < n
    → All (λ t. in_column p s t ≡ true → t.position < n) ts
unfolding max_position
below_max p s [] n h = tt
below_max p s (t ∷ ts) n h = (λ c. ground (arith, h, c), below_max p s ts n (ground arith))

-- What a task's row says of the request that made it.
abbrev pub asked_of : Task → NewTask
asked_of t = record {
  project_id = t.project_id;
  title = t.title;
  description = t.description;
  status = t.status;
  priority = t.priority;
  assignee_id = t.assignee_id;
  due_date = t.due_date;
  parent_task_id = t.parent_task_id;
  created_by_id = t.created_by_id;
}

-- A task that is created is committed in front of the tasks there were. It has each field that was
-- asked for, its status among them, and its position is behind every task of its column.
pub create_task-ok :
    (new : NewTask) (w : World) (t : Task)
    → (create_task new w).0 ≡ ok t
    → ((create_task new w).1.committed.tasks ≡ t ∷ w.session.tasks)
      × (asked_of t ≡ new)
      × All
          (λ o. in_column new.project_id new.status o ≡ true → o.position < t.position)
          w.session.tasks
unfolding create_task
create_task-ok new w t h = (
  ground arith,
  ground arith,
  below_max new.project_id new.status w.session.tasks t.position (ground arith),
)

-- The keys that are left in the bucket.
pub keys_without : List Attachment → List Text → List Text
keys_without [] keys = keys
keys_without (a ∷ rest) keys = keys_without rest (select (λ k. not (text_eq k a.storage_key)) keys)

pub delete_objects-keys :
    (attachments : List Attachment) (w : World)
    → delete_objects attachments w
      ≡ (ok tt, record w { bucket = keys_without attachments w.bucket })
unfolding delete_objects keys_without
delete_objects-keys [] w = refl
delete_objects-keys (a ∷ rest) w =
    delete_objects-keys rest
      (record w { bucket = select (λ k. not (text_eq k a.storage_key)) w.bucket })

-- The attachments of the task itself, in the order of the query.
abbrev pub attachments_of : Postgres → Task → World → List Attachment
attachments_of pg t w =
    pg.order_by Attachment (λ a b. leb a.created_at b.created_at)
      (select (λ a. a.task_id == t.id) w.session.attachments)

-- A run of `delete_task` in which no call of the bucket or of Redis fails.
pub delete_task-ok :
    (pg : Postgres) (t : Task) (a : ℕ) (w : World)
    → ((delete_task pg t a w).0 ≡ ok tt)
      × ((delete_task pg t a w).1.committed.tasks
          ≡ select (λ o. not (contains (doomed t.id w.session.tasks) o.id)) w.session.tasks)
      × ((delete_task pg t a w).1.bucket ≡ keys_without (attachments_of pg t w) w.bucket)
      × ((delete_task pg t a w).1.published
          ≡ record {
            channel = project_channel t.project_id;
            type = WsEventType.task_deleted;
            project_id = some t.project_id;
            actor_id = some a;
            payload = task_removal_data t.id t.title;
          }
            ∷ w.published)
unfolding delete_task
delete_task-ok pg t a w = (
  rw (delete_objects-keys (attachments_of pg t w) w) refl,
  rw (delete_objects-keys (attachments_of pg t w) w) refl,
  rw (delete_objects-keys (attachments_of pg t w) w) refl,
  rw (delete_objects-keys (attachments_of pg t w) w) refl,
)
