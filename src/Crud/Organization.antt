-- ===== src/Crud/Organization.antt =====
-- backend/app/crud/organization.py
use collabflow.Common.{
  ◌==◌, ℕ, Bool, ◌&&◌, ◌∷◌, [], ◌++◌, List, Option, Text, text_eq, find, any, select, if◌then◌else◌,
}
use collabflow.Models.{Organization}
use collabflow.World.{
  Db, Exec, ◌>>=◌, ◌>>◌, query, write, raise_if, integrity_error, uuid4, now, pure,
}

unfoldable pub get_by_id : ℕ → Exec (Option Organization)
get_by_id org_id = query λ db. find (λ o. o.id == org_id) db.organizations

-- UNIQUE (slug); also the test of the loop in `_unique_org_slug`
unfoldable pub slug_taken : Text → Db → Bool
slug_taken slug db = any (λ o. text_eq o.slug slug) db.organizations

unfoldable pub create : (name slug : Text) → (owner_id : ℕ) → Exec Organization
unfolding slug_taken
create name slug owner_id = do
  taken ← query (slug_taken slug)
  raise_if taken integrity_error
  id ← uuid4
  created_at ← now
  let org : Organization = record {
    id = id;
    name = name;
    slug = slug;
    owner_id = owner_id;
    created_at = created_at;
  }
  write (λ db. record db { organizations = org ∷ db.organizations })
  pure org

-- The two joins from an organization over its workspaces to the user's memberships.
unfoldable pub is_in_workspace_of : Db → ℕ → Organization → Bool
is_in_workspace_of db user_id org =
    any
      (λ w.
        (w.organization_id == org.id)
        && any (λ m. (m.workspace_id == w.id) && (m.user_id == user_id)) db.workspace_memberships)
      db.workspaces

-- `by_id.setdefault(org.id, org)` for each row, onto what `by_id` holds
unfoldable pub set_defaults : List Organization → List Organization → List Organization
set_defaults by_id [] = by_id
set_defaults by_id (org ∷ rows) =
    set_defaults (if any (λ o. o.id == org.id) by_id then by_id else by_id ++ org ∷ []) rows

unfoldable pub list_for_user : ℕ → Exec (List Organization)
unfolding is_in_workspace_of set_defaults
list_for_user user_id = query λ db.
    let owned = select (λ o. o.owner_id == user_id) db.organizations in
    let via_workspace = select (is_in_workspace_of db user_id) db.organizations in
    set_defaults (set_defaults [] owned) via_workspace
