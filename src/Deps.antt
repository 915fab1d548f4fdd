-- ===== src/Deps.antt =====
-- backend/app/core/deps.py: who may call a route.
use collabflow.Common.{ℕ, Bool, not, Option, none, some, Text, ltb}
use collabflow.Models.{User, Task, Role, role_rank, WorkspaceMembership, ProjectMembership}
use collabflow.Runtime.{Runtime, access}
use collabflow.Security.{decode_token}
use collabflow.World.{
  Exec, ◌>>=◌, ◌>>◌, pure, raise, raise_if, or_raise, lift, rescue, now, http_error,
  websocket_error, Error,
}
use collabflow.Crud.User
use collabflow.Crud.Workspace
use collabflow.Crud.Project
use collabflow.Crud.Task

abbrev pub credentials_error : Error
credentials_error = http_error 401 "Could not validate credentials"

abbrev pub token_error : Error
token_error = websocket_error 4401 "Invalid or expired token"

-- user is None or not user.is_active
abbrev pub require_active : Error → Option User → Exec User
require_active e none = raise e
require_active e (some user) = do raise_if (not user.is_active) e; pure user

module _ (rt : Runtime) where
  -- The part that `get_current_user`, `get_current_user_ws` and `require_ws_project_role` share.
  unfoldable pub user_of_token : Error → (token : Text) → Exec User
  unfolding decode_token User.get_by_id
  user_of_token e token = do
    time ← now
    user_id ← rescue (lift (decode_token rt time token access)) (λ _. raise e)
    user ← User.get_by_id user_id
    require_active e user

  unfoldable pub get_current_user : (token : Text) → Exec User
  unfolding user_of_token
  get_current_user token = user_of_token credentials_error token

  unfoldable pub get_current_user_ws : (token : Text) → Exec User
  unfolding user_of_token
  get_current_user_ws token = user_of_token token_error token

-- ROLE_RANK[role] < ROLE_RANK[min_role]
abbrev pub is_below : Role → Role → Bool
is_below role min_role = ltb (role_rank role) (role_rank min_role)

abbrev pub check_workspace_role : Role → Option WorkspaceMembership → Exec (Unit {0})
check_workspace_role min_role none = raise (http_error 403 "Not a member of this workspace")
check_workspace_role min_role (some membership) =
    raise_if (is_below membership.role min_role)
      (http_error 403 "Requires a higher role in this workspace")

abbrev pub check_project_role :
    (missing low : Error) → Role → Option ProjectMembership → Exec (Unit {0})
check_project_role missing low min_role none = raise missing
check_project_role missing low min_role (some membership) =
    raise_if (is_below membership.role min_role) low

abbrev pub low_project_role : Error
low_project_role = http_error 403 "Requires a higher role in this project"

module _ (rt : Runtime) (min_role : Role) where
  unfoldable pub require_workspace_role : (token : Text) → (workspace_id : ℕ) → Exec User
  unfolding get_current_user Workspace.get_membership
  require_workspace_role token workspace_id = do
    current_user ← get_current_user rt token
    membership ← Workspace.get_membership workspace_id current_user.id
    check_workspace_role min_role membership
    pure current_user

  unfoldable pub require_project_role : (token : Text) → (project_id : ℕ) → Exec User
  unfolding get_current_user Project.get_membership
  require_project_role token project_id = do
    current_user ← get_current_user rt token
    membership ← Project.get_membership project_id current_user.id
    check_project_role (http_error 403 "Not a member of this project") low_project_role min_role
        membership
    pure current_user

  unfoldable pub require_task_project_role : (token : Text) → (task_id : ℕ) → Exec Task
  unfolding get_current_user Task.get_by_id Project.get_membership
  require_task_project_role token task_id = do
    current_user ← get_current_user rt token
    found ← Task.get_by_id task_id
    task ← or_raise found (http_error 404 "Task not found")
    membership ← Project.get_membership task.project_id current_user.id
    check_project_role (http_error 403 "Not a member of this task's project") low_project_role
        min_role membership
    pure task

  unfoldable pub require_ws_project_role : (token : Text) → (project_id : ℕ) → Exec User
  unfolding user_of_token Project.get_membership
  require_ws_project_role token project_id = do
    user ← user_of_token rt token_error token
    membership ← Project.get_membership project_id user.id
    check_project_role (websocket_error 4403 "Not a member of this project")
        (websocket_error 4403 "Not a member of this project") min_role membership
    pure user
