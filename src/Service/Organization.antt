-- ===== src/Service/Organization.antt =====
-- backend/app/services/organization_service.py
pub mod Slug
use collabflow.Common.{
  ℕ, zero, suc, ◌+◌, Bool, Option, none, some, Text, ◌∷◌, ◌++◌, codes, length, if◌then◌else◌,
}
use collabflow.Decimal.{decimal}
use collabflow.Models.{Organization, Role}
use collabflow.Runtime.{Runtime}
use collabflow.Slugs.{slugify}
use collabflow.World.{Db, Exec, ◌>>=◌, ◌>>◌, pure, query, or_raise, commit, uuid4, out_of_fuel}
use collabflow.Crud.Organization.{slug_taken}
use collabflow.Crud.Organization
use collabflow.Crud.Workspace

-- f"{slug}-{suffix}"
unfoldable pub numbered : Text → ℕ → Text
numbered slug suffix = slug ++ (b'-' ∷ decimal suffix)

-- The loop of `_unique_org_slug`, with the rounds that are left; `none` when there are none.
unfoldable pub free_slug : ℕ → Db → (slug candidate : Text) → (suffix : ℕ) → Option Text
free_slug zero db slug candidate suffix = none
free_slug (suc rounds) db slug candidate suffix =
    let rest = free_slug rounds db slug (numbered slug (suffix + 1)) (suffix + 1) in
    if slug_taken candidate db then rest else some candidate

-- _unique_org_slug: one round more than there are organizations
unfoldable pub unique_org_slug : Runtime → (base : Text) → Exec Text
unfolding slugify free_slug
unique_org_slug rt base = do
  drawn ← uuid4
  let slug : Text = slugify rt drawn base
  found ← query (λ db. free_slug (suc (length db.organizations)) db slug slug 1)
  or_raise found out_of_fuel

unfoldable pub create_organization_with_owner :
    Runtime → (name : Text) → (owner_id : ℕ) → Exec Organization
unfolding unique_org_slug Organization.create Workspace.create Workspace.add_member commit
create_organization_with_owner rt name owner_id = do
  slug ← unique_org_slug rt name
  org ← Organization.create name slug owner_id
  workspace ← Workspace.create (codes "General") (codes "general") org.id
  _ ← Workspace.add_member workspace.id owner_id Role.owner
  commit
  pure org
