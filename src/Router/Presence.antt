-- ===== src/Router/Presence.antt =====
-- What the presence route answers.
use collabflow.Common.{
  ℕ, ◌≡◌, refl, ap, ◌∙◌, true, List, ◌++◌, Text, arith, any, contains, find, inl, inr, ◌⊎◌,
}
use collabflow.Models.{User, Role}
use collabflow.World.{World, Result, ok, err, Error}
use collabflow.Runtime.{Runtime}
use collabflow.Deps.{get_current_user, require_project_role}
use collabflow.Crud.Project.{is_membership}
use collabflow.Router.Access.{suffices, require_project_role_iff}
use collabflow.Router.Projects.{get_project_presence}
use collabflow.Realtime.Presence.{Hashes, online_user_ids}
use collabflow.Realtime.Life.{System, start, is_handler_of, Steps}
use collabflow.Realtime.Life.End.{Steps-online}

Result-cases {ℓ} :
    {A : Type ℓ} (r : Result A) → ((a : A) × (r ≡ ok a)) ⊎ ((e : Error) × (r ≡ err e))
Result-cases (ok a) = inl (a, refl)
Result-cases (err e) = inr (e, refl)

module _ (rt : Runtime) (token : Text) (hashes : Hashes) (p : ℕ) (w : World) (users : List ℕ) where
  abbrev opened : World
  opened = record w { session = w.committed }

  get_project_presence-ok :
      (get_project_presence rt token hashes p w).0 ≡ ok users
      → ((caller : User) × ((require_project_role rt Role.member token p opened).0 ≡ ok caller))
        × (users ≡ online_user_ids p hashes)
  unfolding get_project_presence
  get_project_presence-ok h =
      elim (Result-cases (require_project_role rt Role.member token p opened).0) [
        | inl (caller, e) ↦ ((caller, e), ground (arith, h, e))
        | inr (e, refused) ↦ ground (arith, h, refused)
      ]

-- At every moment of the sockets' life, a caller to whom the presence route of a project answers has a
-- good token and is a member of the project, and the answer names exactly the users with a waiting
-- handler, a stuck opening or a pending leave in the project.
pub get_project_presence-online :
    (rt : Runtime) (token : Text) (s : System) (p u : ℕ) (w : World) (users : List ℕ)
    → Steps start s
    → (get_project_presence rt token s.live.hashes p w).0 ≡ ok users
    → ((caller : User) × ((get_current_user rt token (record w { session = w.committed })).0
          ≡ ok caller)
        × (suffices Role.member (find (is_membership p caller.id) w.committed.project_memberships)
            ≡ true))
      × (contains users u ≡ any (is_handler_of p u) (s.leaving ++ s.handlers ++ s.stuck))
get_project_presence-online rt token s p u w users steps h =
    let ((caller, let_in), answer) = get_project_presence-ok rt token s.live.hashes p w users h in
    let (good, member) =
      (require_project_role_iff rt Role.member token p (record w { session = w.committed })
          caller).0
        let_in in
    ((caller, good, member), ap (λ us. contains us u) answer ∙ (Steps-online s p u 0 steps).0)
