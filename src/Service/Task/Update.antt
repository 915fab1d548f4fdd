-- ===== src/Service/Task/Update.antt =====
-- `update_task` of backend/app/services/task_service.py.
mod Changes
unfoldable pub use Changes.*
use collabflow.Common.{
  ◌==◌, ℕ, Bool, true, false, not, ◌&&◌, ◌||◌, Option, none, some, List, [], ◌∷◌, ◌++◌, map, select,
  any, find, contains, if◌then◌else◌,
}
use collabflow.Models.{Task, Label, TaskLabel, Change, labels_change, ActivityAction, WsEventType}
use collabflow.World.{
  Db, Exec, ◌>>=◌, ◌>>◌, pure, query, write, raise, raise_if, commit, service_error,
  integrity_error, task_update_data,
}
use collabflow.Crud.Label
use collabflow.Service.Activity.{log}
use collabflow.Service.Events.{publish_event}
use collabflow.Service.Notification.{create_and_dispatch}
use collabflow.Service.Task.{
  validate_assignee, validate_new_assignee, task_broadcast_payload, notify_assignee,
}

-- `if "assignee_id" in updates and updates["assignee_id"] is not None`
abbrev pub validate_updated_assignee : (project_id : ℕ) → Option (Option ℕ) → Exec (Unit {0})
validate_updated_assignee project_id none = pure tt
validate_updated_assignee project_id (some assignee) = validate_new_assignee project_id assignee

-- label is None or label.project_id != project_id
abbrev pub check_label : (project_id : ℕ) → Option Label → Exec Label
check_label project_id none =
    raise (service_error "Label must belong to the same project as the task")
check_label project_id (some label) = do
  raise_if (not (label.project_id == project_id))
      (service_error "Label must belong to the same project as the task")
  pure label

-- _resolve_labels
unfoldable pub resolve_labels : (project_id : ℕ) → List ℕ → Exec (List Label)
unfolding Label.get_by_id
resolve_labels project_id [] = pure []
resolve_labels project_id (label_id ∷ label_ids) = do
  found ← Label.get_by_id label_id
  label ← check_label project_id found
  labels ← resolve_labels project_id label_ids
  pure (label ∷ labels)

-- A link from the task to a label with this id.
abbrev pub is_link : ℕ → ℕ → TaskLabel → Bool
is_link task_id label_id r = (r.task_id == task_id) && (r.label_id == label_id)

-- task.labels
unfoldable pub labels_of : ℕ → Db → List Label
labels_of task_id db = select (λ l. any (is_link task_id l.id) db.task_labels) db.labels

abbrev pub has_duplicate : List ℕ → Bool
has_duplicate [] = false
has_duplicate (a ∷ ids) = contains ids a || has_duplicate ids

-- The labels of the new list that the task did not have: the rows that the flush inserts.
unfoldable pub added_ids : ℕ → List Label → Db → List ℕ
added_ids task_id labels db =
    map (λ (l : Label). l.id) (select (λ l. not (any (is_link task_id l.id) db.task_labels)) labels)

abbrev pub link : ℕ → ℕ → TaskLabel
link task_id label_id = record { task_id = task_id; label_id = label_id }

-- What the flush makes of the task's rows in `task_labels`.
unfoldable pub relabel : ℕ → List Label → Db → Db
unfolding added_ids
relabel task_id labels db = record db {
  task_labels =
      map (link task_id) (added_ids task_id labels db)
      ++ select (λ r. not (r.task_id == task_id) || any (λ (l : Label). l.id == r.label_id) labels)
          db.task_labels;
}

-- `if label_ids is not None`: the entry for the labels. A row that is inserted twice breaks the
-- primary key of `task_labels`.
unfoldable pub replace_labels : Task → Option (List ℕ) → Exec (List Change)
unfolding resolve_labels labels_of added_ids relabel
replace_labels task none = pure []
replace_labels task (some label_ids) = do
  old ← query (labels_of task.id)
  labels ← resolve_labels task.project_id label_ids
  added ← query (added_ids task.id labels)
  raise_if (has_duplicate added) integrity_error
  write (relabel task.id labels)
  let old_names = sorted (map (λ (l : Label). l.name) old)
  let new_names = sorted (map (λ (l : Label). l.name) labels)
  pure (if texts_eq old_names new_names then [] else labels_change old_names new_names ∷ [])

-- The row of a task in the session.
unfoldable pub save : Task → Db → Db
save task db = record db { tasks = map (λ t. if t.id == task.id then task else t) db.tasks }

-- `if changes:` around the log entry
abbrev pub log_changes : Task → List Change → (actor_id : ℕ) → Exec (Unit {0})
log_changes task [] actor_id = pure tt
log_changes task (c ∷ changes) actor_id = do
  _ ←
      log task.project_id actor_id ActivityAction.task_updated
        (update_summary task.title (c ∷ changes)) (some task.id) (some (c ∷ changes))
  pure tt

-- `if changes:` around the event
abbrev pub publish_changes : Task → List Change → (actor_id : ℕ) → Exec (Unit {0})
publish_changes task [] actor_id = pure tt
publish_changes task (c ∷ changes) actor_id =
    publish_event task.project_id WsEventType.task_updated
      (task_update_data (task_broadcast_payload task) (c ∷ changes)) (some actor_id)

abbrev pub notify_new_assignee : Bool → Task → (actor_id : ℕ) → Exec (Unit {0})
notify_new_assignee true task actor_id = notify_assignee task.assignee_id actor_id task
notify_new_assignee false task actor_id = pure tt

unfoldable pub update_task : Task → TaskUpdate → (actor_id : ℕ) → Exec Task
unfolding validate_assignee save log commit publish_event create_and_dispatch
update_task task u actor_id = do
  validate_updated_assignee task.project_id u.assignee_id
  let new = set_fields u task
  write (save new)
  label_changes ← replace_labels new u.label_ids
  raise_if (has_null u) integrity_error
  let changes = field_changes task new ++ label_changes
  log_changes new changes actor_id
  commit
  publish_changes new changes actor_id
  notify_new_assignee (changes_assignee changes) new actor_id
  pure new
