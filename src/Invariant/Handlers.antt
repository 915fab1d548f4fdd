-- ===== src/Invariant/Handlers.antt =====
-- The handlers of backend/app/api/routers that change tasks, memberships, labels or comments, and a
-- predicate on the committed database.

use collabflow.Common.{ℕ, Option, Text}
use collabflow.World.{World, Db}
use collabflow.Models.{Role}
use collabflow.Runtime.{Runtime}
use collabflow.Crud.Postgres.{Postgres}
use collabflow.Deps.{
  get_current_user, require_workspace_role, require_project_role, require_task_project_role,
}
use collabflow.Router.Access.{
  get_current_user-same, require_workspace_role-same, require_project_role-same,
  require_task_project_role-same,
}
use collabflow.Router.Tasks.{TaskCreate, create_task, update_task, delete_task}
use collabflow.Router.Projects.{create_project, invite_project_member, create_label}
use collabflow.Router.Spaces.{create_organization, create_workspace, invite_workspace_member}
use collabflow.Router.Discussion.{create_comment}
use collabflow.Service.Task as TaskService
use collabflow.Service.Task.Update as UpdateService
use collabflow.Service.Task.Update.{TaskUpdate}
use collabflow.Service.Project as ProjectService
use collabflow.Service.Label as LabelService
use collabflow.Service.Workspace as WorkspaceService
use collabflow.Invariant.Good.{opened, Shows-opened}
use collabflow.Invariant.Rules.{Holds, ask, with_status-Holds, IsKept}
use collabflow.Invariant.Frame.{
  create_comment-Shows, create_label-Shows, create_organization-Shows, create_workspace-Shows,
  invite_workspace_member-Shows,
}

module _ {P : ℕ → Db → Type 0} (rt : Runtime) (token : Text) (w : World)
    (k : IsKept P rt token w) where
  pub handle_create_task :
      (p : ℕ) (task_in : TaskCreate) → Holds P (create_task rt token p task_in w).1
  unfolding create_task
  handle_create_task p task_in =
      ask P (require_project_role rt Role.member token p (opened w)) _ (opened w)
        (require_project_role-same rt Role.member token (opened w) p) k.start
        (λ u allowed.
          with_status-Holds P 400 (TaskService.create_task _) (opened w) (k.creates _ u allowed))

  pub handle_update_task : (i : ℕ) (u : TaskUpdate) → Holds P (update_task rt token i u w).1
  unfolding update_task
  handle_update_task i u =
      ask P (require_task_project_role rt Role.member token i (opened w)) _ (opened w)
        (require_task_project_role-same rt Role.member token (opened w) i) k.start
        (λ task found.
          ask P (get_current_user rt token (opened w)) _ (opened w)
            (get_current_user-same rt Role.member token (opened w)) k.start
            (λ user _.
              with_status-Holds P 400 (UpdateService.update_task task u user.id) (opened w)
                (k.updates i u task user.id found)))

  pub handle_delete_task : (pg : Postgres) (i : ℕ) → Holds P (delete_task rt token pg i w).1
  unfolding delete_task
  handle_delete_task pg i =
      ask P (require_task_project_role rt Role.admin token i (opened w)) _ (opened w)
        (require_task_project_role-same rt Role.admin token (opened w) i) k.start
        (λ task found.
          ask P (get_current_user rt token (opened w)) _ (opened w)
            (get_current_user-same rt Role.admin token (opened w)) k.start
            (λ user _. k.deletes pg i task user.id found))

  pub handle_create_comment : (i : ℕ) (body : Text) → Holds P (create_comment rt token i body w).1
  unfolding create_comment
  handle_create_comment i body =
      ask P (require_task_project_role rt Role.member token i (opened w)) _ (opened w)
        (require_task_project_role-same rt Role.member token (opened w) i) k.start
        (λ task _.
          ask P (get_current_user rt token (opened w)) _ (opened w)
            (get_current_user-same rt Role.member token (opened w)) k.start
            (λ user _.
              k.frame _ (create_comment-Shows rt task.id user.id body (opened w) (Shows-opened w))))

  pub handle_create_project :
      (o : ℕ) (name : Text) (d : Option Text) → Holds P (create_project rt token o name d w).1
  unfolding create_project
  handle_create_project o name d =
      ask P (require_workspace_role rt Role.member token o (opened w)) _ (opened w)
        (require_workspace_role-same rt Role.member token (opened w) o) k.start
        (λ user _.
          with_status-Holds P 404 (ProjectService.create_project rt o name d user.id) (opened w)
            (k.founds o name d user.id))

  pub handle_invite_project_member :
      (p : ℕ) (email : Text) (role : Role)
      → Holds P (invite_project_member rt token p email role w).1
  unfolding invite_project_member
  handle_invite_project_member p email role =
      ask P (require_project_role rt Role.admin token p (opened w)) _ (opened w)
        (require_project_role-same rt Role.admin token (opened w) p) k.start
        (λ user allowed.
          with_status-Holds P 400 (ProjectService.invite_member p email role user.id) (opened w)
            (k.invites p email role user allowed))

  pub handle_create_label :
      (p : ℕ) (name color : Text) → Holds P (create_label rt token p name color w).1
  unfolding create_label
  handle_create_label p name color =
      ask P (require_project_role rt Role.admin token p (opened w)) _ (opened w)
        (require_project_role-same rt Role.admin token (opened w) p) k.start
        (λ user _.
          with_status-Holds P 409 (LabelService.create_label p name color user.id) (opened w)
            (k.frame _ (create_label-Shows p name color user.id (opened w) (Shows-opened w))))

  pub handle_create_organization : (name : Text) → Holds P (create_organization rt token name w).1
  unfolding create_organization
  handle_create_organization name =
      ask P (get_current_user rt token (opened w)) _ (opened w)
        (get_current_user-same rt Role.member token (opened w)) k.start
        (λ user _.
          k.frame _ (create_organization-Shows rt name user.id (opened w) (Shows-opened w)))

  pub handle_create_workspace :
      (o : ℕ) (name : Text) → Holds P (create_workspace rt token o name w).1
  unfolding create_workspace
  handle_create_workspace o name =
      ask P (get_current_user rt token (opened w)) _ (opened w)
        (get_current_user-same rt Role.member token (opened w)) k.start
        (λ user _.
          with_status-Holds P 404 (WorkspaceService.create_workspace rt o name user.id) (opened w)
            (k.frame _ (create_workspace-Shows rt o name user.id (opened w) (Shows-opened w))))

  pub handle_invite_workspace_member :
      (o : ℕ) (email : Text) (role : Role)
      → Holds P (invite_workspace_member rt token o email role w).1
  unfolding invite_workspace_member
  handle_invite_workspace_member o email role =
      ask P (require_workspace_role rt Role.admin token o (opened w)) _ (opened w)
        (require_workspace_role-same rt Role.admin token (opened w) o) k.start
        (λ user _.
          with_status-Holds P 400 (WorkspaceService.invite_member o email role) (opened w)
            (k.frame _ (invite_workspace_member-Shows o email role (opened w) (Shows-opened w))))
