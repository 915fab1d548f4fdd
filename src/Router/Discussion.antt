-- ===== src/Router/Discussion.antt =====
-- backend/app/api/routers/comments.py and the task half of activity.py
use collabflow.Common.{ℕ, List, Text}
use collabflow.Models.{Comment, Role}
use collabflow.Runtime.{Runtime}
use collabflow.World.{◌>>=◌, Exec, pure, request}
use collabflow.Crud.Postgres.{Postgres}
use collabflow.Responses.{activity_log_read}
use collabflow.Responses.Listing.{ActivityLogListResponse, list_response}
use collabflow.Crud.Comment
use collabflow.Crud.Activity
use collabflow.Deps.{get_current_user, require_task_project_role}
use collabflow.Service.Comment as CommentService

module _ (rt : Runtime) (token : Text) where
  unfoldable pub create_comment : (task_id : ℕ) → (body : Text) → Exec Comment
  unfolding request
  create_comment task_id body = request (do
    task ← require_task_project_role rt Role.member token task_id
    current_user ← get_current_user rt token
    CommentService.create_comment rt task.id current_user.id body)

  unfoldable pub list_comments : Postgres → (task_id : ℕ) → Exec (List Comment)
  unfolding request
  list_comments pg task_id = request (do
    task ← require_task_project_role rt Role.member token task_id
    Comment.list_by_task pg task.id)

  unfoldable pub list_task_activity :
      Postgres → (task_id page page_size : ℕ) → Exec ActivityLogListResponse
  unfolding request
  list_task_activity pg task_id page page_size = request (do
    task ← require_task_project_role rt Role.member token task_id
    found ← Activity.list_by_task pg task.id page page_size
    pure (list_response activity_log_read page page_size found))
