-- ===== src/Service/Task/Atomic.antt =====
-- What the task services leave behind when they raise.
use collabflow.Common.{ℕ, ◌≡◌, List, [], ◌∷◌, none, some, arith, String, Bool, true, false}
use collabflow.World.{World, err, Error, service_error, integrity_error, Untouched}
use collabflow.Models.{Task}
use collabflow.Crud.Task.{NewTask}
use collabflow.Service.Task.{create_task}
use collabflow.Service.Task.Update.{
  TaskUpdate, set_fields, save, update_task, replace_labels, resolve_labels,
}

-- An error of `create_task`, where no call of Redis fails.
pub create_task_error :
    (new : NewTask) (w : World) (e : Error)
    → (create_task new w).0 ≡ err e
    → Untouched w (create_task new w).1
unfolding create_task
create_task_error new w e h = ground arith

-- Looking labels up changes nothing, whether or not it raises.
pub resolve_labels-same : (p : ℕ) (ids : List ℕ) (w : World) → (resolve_labels p ids w).1 ≡ w
unfolding resolve_labels
resolve_labels-same p [] w = ground arith
resolve_labels-same p (i ∷ ids) w = ground (arith, resolve_labels-same p ids w)

pub replace_labels-Untouched :
    (task : Task) (ids : _) (w : World) → Untouched w (replace_labels task ids w).1
unfolding replace_labels
replace_labels-Untouched task none w = ground arith
replace_labels-Untouched task (some ids) w =
    ground (arith, resolve_labels-same task.project_id ids w)

-- An error of `update_task`, where no call of Redis fails.
pub update_task_error :
    (task : Task) (u : TaskUpdate) (actor_id : ℕ) (w : World) (e : Error)
    → (update_task task u actor_id w).0 ≡ err e
    → Untouched w (update_task task u actor_id w).1
unfolding update_task
update_task_error task u a w e h = ground (
  arith,
  replace_labels-Untouched (set_fields u task) u.label_ids
      (record w { session = save (set_fields u task) w.session }),
)

-- A `create_task` that raises ServiceError has made nothing durable and sent nothing: the committed
-- database, the messages, the mail queue and the bucket are as before.
pub create_task-refused :
    (new : NewTask) (w : World) (m : String)
    → (create_task new w).0 ≡ err (service_error m)
    → Untouched w (create_task new w).1
create_task-refused new w m = create_task_error new w (service_error m)

-- ServiceError, and IntegrityError.
abbrev pub is_refusal : Error → Bool
is_refusal (service_error m) = true
is_refusal integrity_error = true
is_refusal _ = false

-- An `update_task` that raises ServiceError or IntegrityError has made nothing durable and sent
-- nothing: the committed database, the messages, the mail queue and the bucket are as before.
pub update_task-refused :
    (task : Task) (u : TaskUpdate) (actor_id : ℕ) (w : World) (e : Error)
    → is_refusal e ≡ true
    → (update_task task u actor_id w).0 ≡ err e
    → Untouched w (update_task task u actor_id w).1
update_task-refused task u a w e refusal = update_task_error task u a w e
