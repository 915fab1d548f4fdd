-- ===== src/Router/Access.antt =====
-- Who gets through the role checks of backend/app/core/deps.py.
use collabflow.Common.{
  ◌==◌, ℕ, ◌≡◌, ◌↔◌, Bool, true, false, leb, Option, none, some, arith, Text, find,
}
use collabflow.World.{World, ok}
use collabflow.Models.{User, Task, ProjectMembership, WorkspaceMembership, role_rank, Role}
use collabflow.Runtime.{Runtime}
use collabflow.Crud.Project.{is_membership}
use collabflow.Deps.{
  require_project_role, require_task_project_role, require_workspace_role, get_current_user,
}
use collabflow.Crud.Workspace as WorkspaceCrud

-- A membership of at least this role.
abbrev pub suffices : Role → Option ProjectMembership → Bool
suffices min_role none = false
suffices min_role (some m) = leb (role_rank min_role) (role_rank m.role)

abbrev pub suffices_in_workspace : Role → Option WorkspaceMembership → Bool
suffices_in_workspace min_role none = false
suffices_in_workspace min_role (some m) = leb (role_rank min_role) (role_rank m.role)

module _ (rt : Runtime) (r : Role) (token : Text) where
  -- `require_project_role` lets in exactly the caller whose token is good and whose membership in
  -- the project has at least the wanted role.
  pub require_project_role_iff :
      (p : ℕ) (w : World) (u : User)
      → ((require_project_role rt r token p w).0 ≡ ok u) ↔ (
          ((get_current_user rt token w).0 ≡ ok u)
          × (suffices r (find (is_membership p u.id) w.session.project_memberships) ≡ true))
  unfolding require_project_role
  require_project_role_iff p w u = ground arith

  -- `require_workspace_role` lets in exactly the caller whose token is good and whose membership
  -- in the workspace has at least the wanted role.
  pub require_workspace_role_iff :
      (o : ℕ) (w : World) (u : User)
      → ((require_workspace_role rt r token o w).0 ≡ ok u) ↔ (
          ((get_current_user rt token w).0 ≡ ok u)
          × (suffices_in_workspace r
                (find (WorkspaceCrud.is_membership o u.id) w.session.workspace_memberships)
              ≡ true))
  unfolding require_workspace_role
  require_workspace_role_iff o w u = ground arith

  -- For a caller with a good token, `require_task_project_role` gives exactly the task that is there
  -- under the id, if the caller has at least the wanted role in the task's own project.
  pub require_task_project_role_iff :
      (i : ℕ) (w : World) (u : User) (t : Task)
      → (get_current_user rt token w).0 ≡ ok u
      → ((require_task_project_role rt r token i w).0 ≡ ok t) ↔ (
          (find (λ t. t.id == i) w.session.tasks ≡ some t)
          × (suffices r (find (is_membership t.project_id u.id) w.session.project_memberships)
              ≡ true))
  unfolding require_task_project_role
  require_task_project_role_iff i w u t h = ground arith

-- The checks change nothing.
module _ (rt : Runtime) (role : Role) (token : Text) (w : World) where
  pub get_current_user-same : (get_current_user rt token w).1 ≡ w
  unfolding get_current_user
  get_current_user-same = ground arith

  pub require_workspace_role-same : (o : ℕ) → (require_workspace_role rt role token o w).1 ≡ w
  unfolding require_workspace_role
  require_workspace_role-same o = ground arith

  pub require_project_role-same : (p : ℕ) → (require_project_role rt role token p w).1 ≡ w
  unfolding require_project_role
  require_project_role-same p = ground arith

  pub require_task_project_role-same : (t : ℕ) → (require_task_project_role rt role token t w).1 ≡ w
  unfolding require_task_project_role
  require_task_project_role-same t = ground arith

  pub require_task-found :
      (i : ℕ) (t : Task)
      → (require_task_project_role rt role token i w).0 ≡ ok t
      → find (λ x. x.id == i) w.session.tasks ≡ some t
  unfolding require_task_project_role
  require_task-found i t h = ground arith
