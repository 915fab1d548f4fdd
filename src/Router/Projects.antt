-- ===== src/Router/Projects.antt =====
-- backend/app/api/routers/projects.py, labels.py and the project half of activity.py.
use collabflow.Realtime.Presence.{Hashes, online_user_ids}
use collabflow.Common.{ℕ, Option, List, Text}
use collabflow.Models.{Project, ProjectMembership, Label, Role}
use collabflow.Runtime.{Runtime}
use collabflow.World.{◌>>=◌, pure, Exec, request}
use collabflow.Crud.Postgres.{Postgres}
use collabflow.Responses.{activity_log_read}
use collabflow.Responses.Listing.{ActivityLogListResponse, list_response}
use collabflow.Crud.Project
use collabflow.Crud.Label
use collabflow.Crud.Activity
use collabflow.Deps.{require_workspace_role, require_project_role}
use collabflow.Router.Errors.{with_status}
use collabflow.Service.Project as ProjectService
use collabflow.Service.Label as LabelService

module _ (rt : Runtime) (token : Text) where
  unfoldable pub create_project :
      (workspace_id : ℕ) → (name : Text) → (description : Option Text) → Exec Project
  unfolding request
  create_project workspace_id name description = request (do
    current_user ← require_workspace_role rt Role.member token workspace_id
    with_status 404
        (ProjectService.create_project rt workspace_id name description current_user.id))

  unfoldable pub list_projects : (workspace_id : ℕ) → Exec (List Project)
  unfolding request
  list_projects workspace_id = request (do
    _ ← require_workspace_role rt Role.member token workspace_id
    Project.list_by_workspace workspace_id)

  unfoldable pub list_project_members : (project_id : ℕ) → Exec (List ProjectMembership)
  unfolding request
  list_project_members project_id =
      request (do
        _ ← require_project_role rt Role.member token project_id
        Project.list_members project_id)

  unfoldable pub invite_project_member :
      (project_id : ℕ) → (email : Text) → Role → Exec ProjectMembership
  unfolding request
  invite_project_member project_id email role = request (do
    current_user ← require_project_role rt Role.admin token project_id
    with_status 400 (ProjectService.invite_member project_id email role current_user.id))

  unfoldable pub create_label : (project_id : ℕ) → (name color : Text) → Exec Label
  unfolding request
  create_label project_id name color = request (do
    current_user ← require_project_role rt Role.admin token project_id
    with_status 409 (LabelService.create_label project_id name color current_user.id))

  unfoldable pub list_labels : (project_id : ℕ) → Exec (List Label)
  unfolding request
  list_labels project_id = request (do
    _ ← require_project_role rt Role.member token project_id
    Label.list_by_project project_id)

  unfoldable pub list_project_activity :
      Postgres → (project_id page page_size : ℕ) → Exec ActivityLogListResponse
  unfolding request
  list_project_activity pg project_id page page_size = request (do
    _ ← require_project_role rt Role.member token project_id
    found ← Activity.list_by_project pg project_id page page_size
    pure (list_response activity_log_read page page_size found))

  -- `hashes` is what Redis holds.
  unfoldable pub get_project_presence : Hashes → (project_id : ℕ) → Exec (List ℕ)
  unfolding request online_user_ids
  get_project_presence hashes project_id = request (do
    _ ← require_project_role rt Role.member token project_id
    pure (online_user_ids project_id hashes))
