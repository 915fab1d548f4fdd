-- ===== src/Crud/Workspace.antt =====
-- backend/app/crud/workspace.py
use collabflow.Common.{◌==◌, ℕ, Bool, ◌&&◌, ◌∷◌, List, Option, Text, text_eq, find, any, select}
use collabflow.Models.{Workspace, WorkspaceMembership, Role}
use collabflow.World.{
  Db, Exec, ◌>>=◌, ◌>>◌, query, write, raise_if, integrity_error, uuid4, now, pure,
}

unfoldable pub get_by_id : ℕ → Exec (Option Workspace)
get_by_id workspace_id = query λ db. find (λ w. w.id == workspace_id) db.workspaces

-- UNIQUE (organization_id, slug)
unfoldable pub slug_taken : ℕ → Text → Db → Bool
slug_taken organization_id slug db =
    any (λ w. (w.organization_id == organization_id) && text_eq w.slug slug) db.workspaces

unfoldable pub create : (name slug : Text) → (organization_id : ℕ) → Exec Workspace
unfolding slug_taken
create name slug organization_id = do
  taken ← query (slug_taken organization_id slug)
  raise_if taken integrity_error
  id ← uuid4
  created_at ← now
  let workspace : Workspace = record {
    id = id;
    name = name;
    slug = slug;
    organization_id = organization_id;
    created_at = created_at;
  }
  write (λ db. record db { workspaces = workspace ∷ db.workspaces })
  pure workspace

-- The row of a user in a workspace.
abbrev pub is_membership : ℕ → ℕ → WorkspaceMembership → Bool
is_membership workspace_id user_id m = (m.workspace_id == workspace_id) && (m.user_id == user_id)

-- UNIQUE (workspace_id, user_id)
unfoldable pub add_member : (workspace_id user_id : ℕ) → Role → Exec WorkspaceMembership
add_member workspace_id user_id role = do
  taken ← query (λ db. any (is_membership workspace_id user_id) db.workspace_memberships)
  raise_if taken integrity_error
  id ← uuid4
  created_at ← now
  let membership : WorkspaceMembership = record {
    id = id;
    workspace_id = workspace_id;
    user_id = user_id;
    role = role;
    created_at = created_at;
  }
  write (λ db. record db { workspace_memberships = membership ∷ db.workspace_memberships })
  pure membership

unfoldable pub get_membership : (workspace_id user_id : ℕ) → Exec (Option WorkspaceMembership)
get_membership workspace_id user_id =
    query λ db. find (is_membership workspace_id user_id) db.workspace_memberships

unfoldable pub list_members : ℕ → Exec (List WorkspaceMembership)
list_members workspace_id =
    query λ db. select (λ m. m.workspace_id == workspace_id) db.workspace_memberships

unfoldable pub list_for_user_in_org : (organization_id user_id : ℕ) → Exec (List Workspace)
list_for_user_in_org organization_id user_id = query λ db.
    select
      (λ w.
        (w.organization_id == organization_id)
        && any (is_membership w.id user_id) db.workspace_memberships)
      db.workspaces
