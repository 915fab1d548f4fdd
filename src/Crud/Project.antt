-- ===== src/Crud/Project.antt =====
-- backend/app/crud/project.py
use collabflow.Common.{◌==◌, ℕ, Bool, ◌&&◌, ◌∷◌, List, Option, Text, text_eq, find, any, select}
use collabflow.Models.{Project, ProjectMembership, Role}
use collabflow.World.{
  Db, Exec, ◌>>=◌, ◌>>◌, query, write, raise_if, integrity_error, uuid4, now, pure,
}

unfoldable pub get_by_id : ℕ → Exec (Option Project)
get_by_id project_id = query λ db. find (λ p. p.id == project_id) db.projects

-- UNIQUE (workspace_id, slug)
unfoldable pub slug_taken : ℕ → Text → Db → Bool
slug_taken workspace_id slug db =
    any (λ p. (p.workspace_id == workspace_id) && text_eq p.slug slug) db.projects

unfoldable pub create :
    (name slug : Text) → (description : Option Text) → (workspace_id : ℕ) → Exec Project
unfolding slug_taken
create name slug description workspace_id = do
  taken ← query (slug_taken workspace_id slug)
  raise_if taken integrity_error
  id ← uuid4
  created_at ← now
  let project : Project = record {
    id = id;
    name = name;
    slug = slug;
    description = description;
    workspace_id = workspace_id;
    created_at = created_at;
  }
  write (λ db. record db { projects = project ∷ db.projects })
  pure project

-- The row of a user in a project.
abbrev pub is_membership : ℕ → ℕ → ProjectMembership → Bool
is_membership project_id user_id m = (m.project_id == project_id) && (m.user_id == user_id)

-- UNIQUE (project_id, user_id)
unfoldable pub add_member : (project_id user_id : ℕ) → Role → Exec ProjectMembership
add_member project_id user_id role = do
  taken ← query (λ db. any (is_membership project_id user_id) db.project_memberships)
  raise_if taken integrity_error
  id ← uuid4
  created_at ← now
  let membership : ProjectMembership = record {
    id = id;
    project_id = project_id;
    user_id = user_id;
    role = role;
    created_at = created_at;
  }
  write (λ db. record db { project_memberships = membership ∷ db.project_memberships })
  pure membership

unfoldable pub get_membership : (project_id user_id : ℕ) → Exec (Option ProjectMembership)
get_membership project_id user_id =
    query λ db. find (is_membership project_id user_id) db.project_memberships

unfoldable pub list_members : ℕ → Exec (List ProjectMembership)
list_members project_id =
    query λ db. select (λ m. m.project_id == project_id) db.project_memberships

unfoldable pub list_by_workspace : ℕ → Exec (List Project)
list_by_workspace workspace_id =
    query λ db. select (λ p. p.workspace_id == workspace_id) db.projects
