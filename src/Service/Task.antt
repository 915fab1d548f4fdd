-- ===== src/Service/Task.antt =====
-- backend/app/services/task_service.py: `create_task` and `delete_task`. `update_task` is in Update.
pub mod Laws
pub mod Update
pub mod Atomic
pub mod Quiet
use collabflow.Common.{
  ◌==◌, ℕ, Bool, true, false, not, ◌&&◌, ◌||◌, Option, none, some, Text, List, [], ◌∷◌, format,
  is_some,
}
use collabflow.Models.{
  Task, ActivityAction, WsEventType, NotificationType, ProjectMembership, Attachment,
}
use collabflow.World.{
  Exec, ◌>>=◌, ◌>>◌, pure, raise_if, commit, service_error, TaskPayload, task_data,
  task_removal_data,
}
use collabflow.Storage.{delete_object}
use collabflow.Crud.Postgres.{Postgres}
use collabflow.Crud.Project
use collabflow.Crud.Task
use collabflow.Crud.Task.{NewTask}
use collabflow.Crud.Task.Delete
use collabflow.Crud.Attachment
use collabflow.Service.Activity.{log}
use collabflow.Service.Events.{publish_event}
use collabflow.Service.Notification.{create_and_dispatch}

-- _validate_assignee
unfoldable pub validate_assignee : (project_id assignee_id : ℕ) → Exec (Unit {0})
unfolding Project.get_membership
validate_assignee project_id assignee_id = do
  membership ← Project.get_membership project_id assignee_id
  raise_if (not (is_some membership)) (service_error "Assignee must be a member of this project")

-- `if assignee_id is not None`
abbrev pub validate_new_assignee : (project_id : ℕ) → Option ℕ → Exec (Unit {0})
validate_new_assignee project_id none = pure tt
validate_new_assignee project_id (some assignee_id) = validate_assignee project_id assignee_id

-- parent is None or parent.project_id != project_id
abbrev pub is_foreign : (project_id : ℕ) → Option Task → Bool
is_foreign project_id none = true
is_foreign project_id (some parent) = not (parent.project_id == project_id)

unfoldable pub validate_parent : (project_id : ℕ) → Option ℕ → Exec (Unit {0})
unfolding Task.get_by_id
validate_parent project_id none = pure tt
validate_parent project_id (some parent_task_id) = do
  parent ← Task.get_by_id parent_task_id
  raise_if (is_foreign project_id parent)
      (service_error "Parent task must belong to the same project")

-- _task_broadcast_payload
abbrev pub task_broadcast_payload : Task → TaskPayload
task_broadcast_payload task = record {
  id = task.id;
  title = task.title;
  status = task.status;
  priority = task.priority;
  assignee_id = task.assignee_id;
  position = task.position;
}

-- The recipient of TASK_ASSIGNED: an assignee other than the one who acts.
abbrev pub notify_assignee : Option ℕ → (actor_id : ℕ) → Task → Exec (Unit {0})
notify_assignee none actor_id task = pure tt
notify_assignee (some assignee_id) actor_id task = notify_other (assignee_id == actor_id)
  where
    notify_other : Bool → Exec (Unit {0})
    notify_other true = pure tt
    notify_other false = do
      _ ←
          create_and_dispatch assignee_id NotificationType.task_assigned
            (format "You were assigned '" task.title "'")
            (format "You were assigned to task '" task.title "'.") (some task.project_id)
            (some task.id)
      pure tt

unfoldable pub create_task : NewTask → Exec Task
unfolding validate_assignee validate_parent Task.create log commit publish_event create_and_dispatch
create_task new = do
  validate_new_assignee new.project_id new.assignee_id
  validate_parent new.project_id new.parent_task_id
  task ← Task.create new
  _ ←
      log new.project_id new.created_by_id ActivityAction.task_created
        (format "created task '" new.title "'") (some task.id) none
  commit
  publish_event new.project_id WsEventType.task_created (task_data (task_broadcast_payload task))
      (some new.created_by_id)
  notify_assignee new.assignee_id new.created_by_id task
  pure task

-- for attachment in attachments: delete_object(key=attachment.storage_key)
unfoldable pub delete_objects : List Attachment → Exec (Unit {0})
unfolding delete_object
delete_objects [] = pure tt
delete_objects (attachment ∷ attachments) = do
  delete_object attachment.storage_key
  delete_objects attachments

unfoldable pub delete_task : Postgres → Task → (actor_id : ℕ) → Exec (Unit {0})
unfolding Attachment.list_by_task log Delete.delete commit publish_event
delete_task pg task actor_id = do
  attachments ← Attachment.list_by_task pg task.id
  delete_objects attachments
  _ ←
      log task.project_id actor_id ActivityAction.task_deleted
        (format "deleted task '" task.title "'") none none
  Delete.delete task
  commit
  publish_event task.project_id WsEventType.task_deleted (task_removal_data task.id task.title)
      (some actor_id)
