-- ===== src/Router/Tasks.antt =====
-- backend/app/api/routers/tasks.py
use collabflow.Common.{ℕ, Option, List, Text}
use collabflow.Models.{Task, TaskStatus, TaskPriority, Role}
use collabflow.Runtime.{Runtime}
use collabflow.World.{◌>>=◌, Exec, pure, query, request}
use collabflow.Responses.{task_read}
use collabflow.Responses.Listing.{TaskListResponse, list_response}
use collabflow.Crud.Postgres.{Postgres}
use collabflow.Crud.Task
use collabflow.Crud.Task.{TaskFilter, TaskSortField, SortOrder}
use collabflow.Deps.{get_current_user, require_project_role, require_task_project_role}
use collabflow.Router.Errors.{with_status}
use collabflow.Service.Task as TaskService
use collabflow.Service.Task.Update as UpdateService
use collabflow.Service.Task.Update.{TaskUpdate}

-- schemas/task.py
pub record TaskCreate : Type 0 where
  pub title : Text
  pub description : Option Text
  pub status : TaskStatus
  pub priority : TaskPriority
  pub assignee_id : Option ℕ
  pub due_date : Option ℕ
  pub parent_task_id : Option ℕ

module _ (rt : Runtime) (token : Text) where
  unfoldable pub create_task : (project_id : ℕ) → TaskCreate → Exec Task
  unfolding request
  create_task project_id task_in = request (do
    current_user ← require_project_role rt Role.member token project_id
    with_status 400 (
        TaskService.create_task (record {
          project_id = project_id;
          title = task_in.title;
          description = task_in.description;
          status = task_in.status;
          priority = task_in.priority;
          assignee_id = task_in.assignee_id;
          due_date = task_in.due_date;
          parent_task_id = task_in.parent_task_id;
          created_by_id = current_user.id;
        })))

  unfoldable pub list_tasks :
      Postgres
      → (project_id : ℕ) → TaskFilter
      → TaskSortField
      → SortOrder
      → (page page_size : ℕ) → Exec TaskListResponse
  unfolding request
  list_tasks pg project_id f sort_by sort_order page page_size = request (do
    _ ← require_project_role rt Role.member token project_id
    found ← Task.list_by_project pg project_id f sort_by sort_order page page_size
    db ← query (λ db. db)
    pure (list_response (task_read db) page page_size found))

  unfoldable pub get_task : (task_id : ℕ) → Exec Task
  unfolding request
  get_task task_id = request (require_task_project_role rt Role.member token task_id)

  unfoldable pub update_task : (task_id : ℕ) → TaskUpdate → Exec Task
  unfolding request
  update_task task_id updates = request (do
    task ← require_task_project_role rt Role.member token task_id
    current_user ← get_current_user rt token
    with_status 400 (UpdateService.update_task task updates current_user.id))

  unfoldable pub delete_task : Postgres → (task_id : ℕ) → Exec (Unit {0})
  unfolding request
  delete_task pg task_id = request (do
    task ← require_task_project_role rt Role.admin token task_id
    current_user ← get_current_user rt token
    TaskService.delete_task pg task current_user.id)

  unfoldable pub list_subtasks : Postgres → (task_id : ℕ) → Exec (List Task)
  unfolding request
  list_subtasks pg task_id = request (do
    task ← require_task_project_role rt Role.member token task_id
    Task.list_subtasks pg task.id)
