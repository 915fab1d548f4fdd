-- ===== src/Tests/Tasks.antt =====
-- Tasks, their comments and files, on the small database.
use collabflow.Storage.{build_storage_key}
use collabflow.Common.{text_eq}
use collabflow.Service.Task.Update.{replace_labels}
use collabflow.Crud.Task.{max_position}
use collabflow.Common.{
  ◌==◌, ◌*◌, ℕ, ◌<◌, ◌≤◌, ◌≡◌, ◌↔◌, refl, true, false, Option, none, some, Text, ◌∷◌, codes, find,
  any, contains, map, All,
}
use collabflow.Config.{Settings, default_settings}
use collabflow.Models.{
  Role, Task, TaskStatus, TaskPriority, ActivityLog, Notification, Attachment, WsEventType,
}
use collabflow.World.{
  Error, ok, err, service_error, http_error, Untouched, task_removal_data, project_channel,
}
use collabflow.Deps.{require_task_project_role}
use collabflow.Crud.Postgres.{Postgres}
use collabflow.Crud.Task.{NewTask, in_column}
use collabflow.Crud.Task.Delete.{doomed, delete, parent_in}
use collabflow.Crud.Task.Delete.Laws.{IsFree}
use collabflow.Invariant.Delete.{survivors}
use collabflow.Invariant.Subtasks.{IsUnder, delete-IsFree, delete_task-done}
use collabflow.Tests.Histories.{small_world-IsGood}
use collabflow.Service.Task.{create_task, delete_task}
use collabflow.Service.Task.Laws.{
  asked_of, create_task-ok, delete_task-ok, keys_without, attachments_of,
}
use collabflow.Service.Task.Update.{TaskUpdate, update_task, set_fields, field_changes, has_null}
use collabflow.Service.Task.Atomic.{create_task-refused, update_task-refused}
use collabflow.Service.Task.Quiet.{update_task-unchanged}
use collabflow.Service.Comment.{create_comment}
use collabflow.Service.Comment.Exact.{posted, with_mentions, create_comment-notes}
use collabflow.Service.Notification.Notes.{notes}
use collabflow.Mentions.{extract_mentioned_emails}
use collabflow.Service.Attachment.{upload_attachment, is_blank}
use collabflow.Service.Attachment.Laws.{upload_attachment-ok}
use collabflow.Router.Tasks as TaskRoutes
use collabflow.Router.Discussion as CommentRoutes
use collabflow.Router.Files as FileRoutes
use collabflow.Router.Refusal.{refused_as_member, refused_as_admin}
use collabflow.Invariant.Good.{opened}
use collabflow.Tests.Libraries.{plain_runtime}
use collabflow.Tests.Sorting.{plain_postgres}
use collabflow.Tests.Tables.{write_plan, small_world, bob_token, token_of}

abbrev new_task : (assignee_id : Option ℕ) → NewTask
new_task assignee_id = record {
  project_id = 6;
  title = codes "Ship";
  description = none;
  status = TaskStatus.todo;
  priority = TaskPriority.high;
  assignee_id = assignee_id;
  due_date = none;
  parent_task_id = some 9;
  created_by_id = 1;
}

abbrev ship : Task
ship = record {
  id = 20;
  project_id = 6;
  title = codes "Ship";
  description = none;
  status = TaskStatus.todo;
  priority = TaskPriority.high;
  assignee_id = some 2;
  due_date = none;
  parent_task_id = some 9;
  created_by_id = 1;
  position = 3;
  created_at = 100;
}

ship_created : (create_task (new_task (some 2)) small_world).0 ≡ ok ship
unfolding create_task find max_position
ship_created = refl

create_task-ok_example :
    ((create_task (new_task (some 2)) small_world).1.committed.tasks
      ≡ ship ∷ small_world.session.tasks)
    × (asked_of ship ≡ new_task (some 2))
    × All
        (λ o. in_column 6 TaskStatus.todo o ≡ true → o.position < ship.position)
        small_world.session.tasks
create_task-ok_example = create_task-ok (new_task (some 2)) small_world ship ship_created

abbrev no_member : Error
no_member = service_error "Assignee must be a member of this project"

outsider_refused : (create_task (new_task (some 99)) small_world).0 ≡ err no_member
unfolding create_task find
outsider_refused = refl

create_task-refused_example : Untouched small_world (create_task (new_task (some 99)) small_world).1
create_task-refused_example =
    create_task-refused (new_task (some 99)) small_world "Assignee must be a member of this project"
      outsider_refused

plan_deleted : (delete_task plain_postgres write_plan 1 small_world).0 ≡ ok tt
plan_deleted = (delete_task-ok plain_postgres write_plan 1 small_world).0

delete_task-done_example :
    ((i : ℕ)
      → (contains (doomed 9 small_world.session.tasks) i ≡ true)
        ↔ IsUnder 9 small_world.session.tasks i)
    × ((delete_task plain_postgres write_plan 1 small_world).1.committed.tasks
        ≡ survivors (doomed 9 small_world.session.tasks) small_world.session.tasks)
    × ((delete_task plain_postgres write_plan 1 small_world).1.bucket
        ≡ keys_without (attachments_of plain_postgres write_plan small_world) small_world.bucket)
    × ((delete_task plain_postgres write_plan 1 small_world).1.published
        ≡ record {
          channel = project_channel 6;
          type = WsEventType.task_deleted;
          project_id = some 6;
          actor_id = some 1;
          payload = task_removal_data 9 (codes "Write the plan");
        }
          ∷ small_world.published)
delete_task-done_example =
    delete_task-done write_plan small_world small_world-IsGood plain_postgres 1 plan_deleted

delete-IsFree_example :
    ((i : ℕ)
      → (contains (doomed 9 small_world.session.tasks) i ≡ true)
        ↔ IsUnder 9 small_world.session.tasks i)
    × IsFree (doomed 9 small_world.session.tasks) (delete write_plan small_world).1.session
    × (any
          (λ t. parent_in (doomed 9 small_world.session.tasks) t.parent_task_id)
          (delete write_plan small_world).1.session.tasks
        ≡ false)
    × ((delete write_plan small_world).1.session.tasks
        ≡ survivors (doomed 9 small_world.session.tasks) small_world.session.tasks)
    × (map (λ (e : ActivityLog). e.id) (delete write_plan small_world).1.session.activity_logs
        ≡ map (λ (e : ActivityLog). e.id) small_world.session.activity_logs)
    × (map (λ (n : Notification). n.id) (delete write_plan small_world).1.session.notifications
        ≡ map (λ (n : Notification). n.id) small_world.session.notifications)
delete-IsFree_example = delete-IsFree write_plan small_world small_world-IsGood

-- An update of the assignee alone, or of the title alone.
abbrev update_of : Option (Option Text) → Option (Option ℕ) → TaskUpdate
update_of title assignee_id = record {
  title = title;
  description = none;
  status = none;
  priority = none;
  assignee_id = assignee_id;
  due_date = none;
  label_ids = none;
}

outsider_refused_later :
    (update_task write_plan (update_of none (some (some 99))) 1 small_world).0 ≡ err no_member
unfolding update_task find
outsider_refused_later = refl

update_task-refused_example :
    Untouched small_world (update_task write_plan (update_of none (some (some 99))) 1 small_world).1
update_task-refused_example =
    update_task-refused write_plan (update_of none (some (some 99))) 1 small_world no_member refl
      outsider_refused_later

same_assignee :
    (update_task write_plan (update_of none (some (some 2))) 1 small_world).0 ≡ ok write_plan
unfolding update_task find replace_labels has_null field_changes text_eq set_fields
same_assignee = refl

same_fields : set_fields (update_of none (some (some 2))) write_plan ≡ write_plan
unfolding set_fields
same_fields = refl

update_task-unchanged_example :
    ((update_task write_plan (update_of none (some (some 2))) 1 small_world).1.published
      ≡ small_world.published)
    × ((update_task write_plan (update_of none (some (some 2))) 1 small_world).1.queue
        ≡ small_world.queue)
    × ((update_task write_plan
          (update_of none (some (some 2)))
          1
          small_world).1.committed.activity_logs
        ≡ small_world.session.activity_logs)
    × ((update_task write_plan
          (update_of none (some (some 2)))
          1
          small_world).1.committed.notifications
        ≡ small_world.session.notifications)
update_task-unchanged_example =
    update_task-unchanged write_plan (update_of none (some (some 2))) 1 small_world write_plan
      same_assignee refl same_fields

plan_there : find (λ t. t.id == 9) small_world.session.tasks ≡ some write_plan
unfolding find
plan_there = refl

create_comment-notes_example :
    ((create_comment plain_runtime 9 1 (codes "@bob@site.org hi") small_world).0
      ≡ ok (posted 9 1 (codes "@bob@site.org hi") small_world))
    × ((create_comment plain_runtime 9 1
          (codes "@bob@site.org hi")
          small_world).1.committed.comments
        ≡ posted 9 1 (codes "@bob@site.org hi") small_world ∷ small_world.session.comments)
    × (notes (create_comment plain_runtime 9 1 (codes "@bob@site.org hi") small_world).1.committed
        ≡ with_mentions write_plan 1 small_world.session
            (extract_mentioned_emails plain_runtime (codes "@bob@site.org hi"))
            (notes small_world.session))
create_comment-notes_example =
    create_comment-notes plain_runtime 9 1 (codes "@bob@site.org hi") small_world write_plan
      plan_there

abbrev plan_file : Attachment
plan_file = record {
  id = 21;
  task_id = 9;
  uploaded_by_id = 1;
  filename = codes "p";
  content_type = codes "text/plain";
  size_bytes = 3;
  storage_key = codes "tasks/000000000/00000000000000000000_p";
  created_at = 100;
}

plan_uploaded :
    (upload_attachment plain_runtime default_settings 9 6 1
      (codes "p")
      (codes "text/plain")
      3
      small_world).0
    ≡ ok plan_file
unfolding upload_attachment is_blank any text_eq build_storage_key contains
plan_uploaded = refl

upload_attachment-ok_example :
    (0 < 3)
    × (3 ≤ default_settings.max_attachment_size_mb * 1024 * 1024)
    × (is_blank plain_runtime (codes "p") ≡ false)
    × ((upload_attachment plain_runtime default_settings 9 6 1
          (codes "p")
          (codes "text/plain")
          3
          small_world).1.committed.attachments
        ≡ plan_file ∷ small_world.session.attachments)
    × ((upload_attachment plain_runtime default_settings 9 6 1
          (codes "p")
          (codes "text/plain")
          3
          small_world).1.bucket
        ≡ plan_file.storage_key ∷ small_world.bucket)
upload_attachment-ok_example =
    upload_attachment-ok plain_runtime default_settings 9 6 1 (codes "p") (codes "text/plain") 3
      small_world plan_file plan_uploaded

abbrev stranger_token : Text
stranger_token = token_of 77

abbrev no_credentials : Error
no_credentials = http_error 401 "Could not validate credentials"

stranger_refused :
    (require_task_project_role plain_runtime Role.member stranger_token 9 (opened small_world)).0
    ≡ err no_credentials
unfolding require_task_project_role find
stranger_refused = refl

refused_as_member_example :
    ((u : TaskUpdate)
      → TaskRoutes.update_task plain_runtime stranger_token 9 u small_world
        ≡ (err no_credentials, opened small_world))
    × ((body : Text)
        → CommentRoutes.create_comment plain_runtime stranger_token 9 body small_world
          ≡ (err no_credentials, opened small_world))
    × ((settings : Settings) (filename content_type : Option Text) (size : ℕ)
        → FileRoutes.upload_attachment plain_runtime stranger_token settings 9 filename content_type
            size small_world
          ≡ (err no_credentials, opened small_world))
refused_as_member_example =
    refused_as_member plain_runtime stranger_token 9 small_world no_credentials stranger_refused

abbrev low_role : Error
low_role = http_error 403 "Requires a higher role in this project"

bob_refused :
    (require_task_project_role plain_runtime Role.admin bob_token 9 (opened small_world)).0
    ≡ err low_role
unfolding require_task_project_role find
bob_refused = refl

refused_as_admin_example :
    ((pg : Postgres)
      → TaskRoutes.delete_task plain_runtime bob_token pg 9 small_world
        ≡ (err low_role, opened small_world))
    × ((a : ℕ)
        → FileRoutes.delete_attachment plain_runtime bob_token 9 a small_world
          ≡ (err low_role, opened small_world))
refused_as_admin_example =
    refused_as_admin plain_runtime bob_token 9 small_world low_role bob_refused
