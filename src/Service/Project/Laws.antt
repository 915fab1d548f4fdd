-- ===== src/Service/Project/Laws.antt =====
-- Who becomes a member of a project.
use collabflow.Common.{
  ==_refl, ℕ, ◌≡◌, refl, true, Option, none, some, ◌∷◌, Text, arith, find, text_eq,
}
use collabflow.Models.{ProjectMembership, User, Role, Project}
use collabflow.World.{World, ok, err, service_error}
use collabflow.Runtime.{Runtime}
use collabflow.Router.Access.{suffices}
use collabflow.Crud.Project.{is_membership}
use collabflow.Service.Project.{invite_member, create_project}

-- An invitation that succeeds was for a user who was no member of the project yet. The membership
-- that it returns has the project and the role asked for, and is committed in front of those there
-- were.
pub invite_member-ok :
    (p : ℕ) (email : Text) (role : Role) (a : ℕ) (w : World) (m : ProjectMembership)
    → (invite_member p email role a w).0 ≡ ok m
    → (find (is_membership p m.user_id) w.session.project_memberships ≡ none)
      × (m.project_id ≡ p)
      × (m.role ≡ role)
      × ((invite_member p email role a w).1.committed.project_memberships
          ≡ m ∷ w.session.project_memberships)
unfolding invite_member
invite_member-ok p email role a w m h = (ground arith, ground arith, ground arith, ground arith)

-- An unknown email and a member's email are refused, with nothing changed.
pub invite_member-refused :
    (p : ℕ) (email : Text) (role : Role) (a : ℕ) (w : World)
    → (find (λ u. text_eq u.email email) w.session.users ≡ none
        → invite_member p email role a w ≡ (err (service_error "No user found with that email"), w))
      × ((u : User) (m : ProjectMembership)
          → find (λ u. text_eq u.email email) w.session.users ≡ some u
          → find (is_membership p u.id) w.session.project_memberships ≡ some m
          → invite_member p email role a w
            ≡ (err (service_error "User is already a member of this project"), w))
unfolding invite_member
invite_member-refused p email role a w = (λ h. rw h refl, λ u m h k. rw h (rw k refl))

-- Whoever creates a project owns it: the project is committed in the workspace asked for, together with
-- a membership of its creator as owner.
pub create_project-owner :
    (rt : Runtime) (o : ℕ) (name : Text) (d : Option Text) (u : ℕ) (w : World) (p : Project)
    → (create_project rt o name d u w).0 ≡ ok p
    → ((create_project rt o name d u w).1.committed.projects ≡ p ∷ w.session.projects)
      × (p.workspace_id ≡ o)
      × (suffices Role.owner (
            find
              (is_membership p.id u)
              (create_project rt o name d u w).1.committed.project_memberships)
          ≡ true)
unfolding create_project find
create_project-owner rt o name d u w p h =
    (ground arith, ground arith, ground (arith, ==_refl p.id, ==_refl u))
