-- ===== src/Service/Project.antt =====
-- backend/app/services/project_service.py
pub mod Laws
use collabflow.Common.{ℕ, not, Option, none, some, Text, ◌++◌, codes, format, is_some}
use collabflow.Models.{Project, ProjectMembership, Role, ActivityAction, NotificationType}
use collabflow.Runtime.{Runtime}
use collabflow.Slugs.{slugify}
use collabflow.World.{
  Exec, ◌>>=◌, ◌>>◌, pure, raise_if, or_raise, commit, uuid4, service_error, attribute_error,
}
use collabflow.Crud.User
use collabflow.Crud.Project
use collabflow.Crud.Workspace
use collabflow.Service.Activity.{log}
use collabflow.Service.Notification.{create_and_dispatch}
use collabflow.Service.Workspace.{role_value}

unfoldable pub create_project :
    Runtime
    → (workspace_id : ℕ) → (name : Text) → (description : Option Text) → (creator_id : ℕ)
    → Exec Project
unfolding Workspace.get_by_id Project.create Project.add_member log commit slugify
create_project rt workspace_id name description creator_id = do
  workspace ← Workspace.get_by_id workspace_id
  raise_if (not (is_some workspace)) (service_error "Workspace not found")
  drawn ← uuid4
  project ← Project.create name (slugify rt drawn name) description workspace_id
  _ ← Project.add_member project.id creator_id Role.owner
  _ ←
      log project.id creator_id ActivityAction.project_created (format "created project '" name "'")
        none none
  commit
  pure project

unfoldable pub invite_member :
    (project_id : ℕ) → (email : Text) → Role → (actor_id : ℕ) → Exec ProjectMembership
unfolding User.get_by_email Project.get_membership Project.add_member log commit Project.get_by_id
    create_and_dispatch
invite_member project_id email role actor_id = do
  found ← User.get_by_email email
  user ← or_raise found (service_error "No user found with that email")
  existing ← Project.get_membership project_id user.id
  raise_if (is_some existing) (service_error "User is already a member of this project")
  membership ← Project.add_member project_id user.id role
  _ ←
      log project_id actor_id ActivityAction.member_invited
        (format "invited " email " as " ++ role_value role) none none
  commit
  named ← Project.get_by_id project_id
  project ← or_raise named attribute_error
  _ ←
      create_and_dispatch user.id NotificationType.project_invite
        (format "You were added to project '" project.name "'")
        (format "You were added to project '" project.name "' as " ++ role_value role ++ codes ".")
        (some project_id) none
  pure membership
