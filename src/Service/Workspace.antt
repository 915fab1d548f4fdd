-- ===== src/Service/Workspace.antt =====
-- backend/app/services/workspace_service.py
use collabflow.Common.{ℕ, not, none, Text, ◌++◌, codes, format, is_some}
use collabflow.Models.{Workspace, WorkspaceMembership, Role, NotificationType}
use collabflow.Runtime.{Runtime}
use collabflow.Slugs.{slugify}
use collabflow.World.{
  Exec, ◌>>=◌, ◌>>◌, pure, raise_if, or_raise, commit, uuid4, service_error, attribute_error,
}
use collabflow.Crud.Organization
use collabflow.Crud.User
use collabflow.Crud.Workspace
use collabflow.Service.Notification.{create_and_dispatch}

-- role.value
abbrev pub role_value : Role → Text
role_value Role.owner = codes "owner"
role_value Role.admin = codes "admin"
role_value Role.member = codes "member"

unfoldable pub create_workspace :
    Runtime → (organization_id : ℕ) → (name : Text) → (creator_id : ℕ) → Exec Workspace
unfolding Organization.get_by_id Workspace.create Workspace.add_member commit slugify
create_workspace rt organization_id name creator_id = do
  org ← Organization.get_by_id organization_id
  raise_if (not (is_some org)) (service_error "Organization not found")
  drawn ← uuid4
  workspace ← Workspace.create name (slugify rt drawn name) organization_id
  _ ← Workspace.add_member workspace.id creator_id Role.owner
  commit
  pure workspace

unfoldable pub invite_member : (workspace_id : ℕ) → (email : Text) → Role → Exec WorkspaceMembership
unfolding User.get_by_email Workspace.get_membership Workspace.add_member commit Workspace.get_by_id
    create_and_dispatch
invite_member workspace_id email role = do
  found ← User.get_by_email email
  user ← or_raise found (service_error "No user found with that email")
  existing ← Workspace.get_membership workspace_id user.id
  raise_if (is_some existing) (service_error "User is already a member of this workspace")
  membership ← Workspace.add_member workspace_id user.id role
  commit
  named ← Workspace.get_by_id workspace_id
  workspace ← or_raise named attribute_error
  _ ←
      create_and_dispatch user.id NotificationType.workspace_invite
        (format "You were added to workspace '" workspace.name "'")
        (format "You were added to workspace '" workspace.name "' as "
          ++ role_value role
          ++ codes ".")
        none none
  pure membership
