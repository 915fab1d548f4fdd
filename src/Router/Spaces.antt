-- ===== src/Router/Spaces.antt =====
-- backend/app/api/routers/organizations.py and workspaces.py
use collabflow.Common.{ℕ, List, Text}
use collabflow.Models.{Organization, Workspace, WorkspaceMembership, Role}
use collabflow.Runtime.{Runtime}
use collabflow.World.{◌>>=◌, Exec, request}
use collabflow.Crud.Organization
use collabflow.Crud.Workspace
use collabflow.Deps.{get_current_user, require_workspace_role}
use collabflow.Router.Errors.{with_status}
use collabflow.Service.Organization.{create_organization_with_owner}
use collabflow.Service.Workspace as WorkspaceService

module _ (rt : Runtime) (token : Text) where
  unfoldable pub create_organization : (name : Text) → Exec Organization
  unfolding request
  create_organization name = request (do
    current_user ← get_current_user rt token
    create_organization_with_owner rt name current_user.id)

  unfoldable pub list_organizations : Exec (List Organization)
  unfolding request
  list_organizations =
      request
        (do current_user ← get_current_user rt token; Organization.list_for_user current_user.id)

  unfoldable pub create_workspace : (organization_id : ℕ) → (name : Text) → Exec Workspace
  unfolding request
  create_workspace organization_id name = request (do
    current_user ← get_current_user rt token
    with_status 404 (WorkspaceService.create_workspace rt organization_id name current_user.id))

  unfoldable pub list_workspaces : (organization_id : ℕ) → Exec (List Workspace)
  unfolding request
  list_workspaces organization_id = request (do
    current_user ← get_current_user rt token
    Workspace.list_for_user_in_org organization_id current_user.id)

  unfoldable pub list_workspace_members : (workspace_id : ℕ) → Exec (List WorkspaceMembership)
  unfolding request
  list_workspace_members workspace_id = request (do
    _ ← require_workspace_role rt Role.member token workspace_id
    Workspace.list_members workspace_id)

  unfoldable pub invite_workspace_member :
      (workspace_id : ℕ) → (email : Text) → Role → Exec WorkspaceMembership
  unfolding request
  invite_workspace_member workspace_id email role = request (do
    _ ← require_workspace_role rt Role.admin token workspace_id
    with_status 400 (WorkspaceService.invite_member workspace_id email role))
