-- ===== src/Invariant/Joining.antt =====
-- The members of one project, while others found projects and invite to them.
use collabflow.Common.{
  ◌==◌, ℕ, ◌<◌, ◌≡◌, refl, Option, List, [], ◌∷◌, Text, arith, find, select, false,
}
use collabflow.World.{World}
use collabflow.Models.{Task, ProjectMembership, Role}
use collabflow.Runtime.{Runtime}
use collabflow.Crud.Project.{is_membership}
use collabflow.Service.Project.{create_project, invite_member}
use collabflow.Invariant.Frame.{Shows}

unfoldable pub members_of : (project_id : ℕ) → List ProjectMembership → List ProjectMembership
members_of p ms = select (λ m. m.project_id == p) ms

-- The memberships of a project are looked up among its own.
pub find-members_of :
    (p u : ℕ) (ms : List ProjectMembership)
    → find (is_membership p u) (members_of p ms) ≡ find (is_membership p u) ms
unfolding find members_of select
find-members_of p u [] = refl
find-members_of p u (m ∷ ms) = ground (arith, find-members_of p u ms)

module _ {ts : List Task} {ms : List ProjectMembership} {n : ℕ} where
  -- A new project is not one of those there were.
  pub create_project-members :
      (rt : Runtime) (p o : ℕ) (name : Text) (d : Option Text) (u : ℕ) (w : World)
      → Shows ts ms n w
      → p < n
      → members_of p (create_project rt o name d u w).1.committed.project_memberships
        ≡ members_of p ms
  unfolding create_project members_of select
  create_project-members rt p o name d u w s h = ground arith

  -- An invitation adds to its own project.
  pub invite_member-members :
      (p q : ℕ) (email : Text) (role : Role) (u : ℕ) (w : World)
      → Shows ts ms n w
      → (q == p) ≡ false
      → members_of p (invite_member q email role u w).1.committed.project_memberships
        ≡ members_of p ms
  unfolding invite_member members_of select
  invite_member-members p q email role u w s h = ground arith
