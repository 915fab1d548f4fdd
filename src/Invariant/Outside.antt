-- ===== src/Invariant/Outside.antt =====
-- A project under the requests of outsiders, whatever they are and in whatever order.
use collabflow.Common.{ℕ, ◌<◌, ◌≡◌, refl, sym, ap, ◌∙◌, none, List, [], ◌∷◌, Text, All, find}
use collabflow.World.{World, ok}
use collabflow.Models.{User, ProjectMembership}
use collabflow.Runtime.{Runtime}
use collabflow.Config.{Settings}
use collabflow.Crud.Postgres.{Postgres}
use collabflow.Crud.Project.{is_membership}
use collabflow.Deps.{get_current_user}
use collabflow.Invariant.Good.{IsGood}
use collabflow.Invariant.Elsewhere.{tasks_of}
use collabflow.Invariant.Joining.{members_of, find-members_of}
use collabflow.Invariant.Requests.{Request, serve, serve-IsGood, serve_all}
use collabflow.Invariant.Isolation.{serve-Same}

-- Whoever the token stands for, at any time, is not among the members.
abbrev pub IsOutside : Runtime → (project_id : ℕ) → List ProjectMembership → (token : Text) → Type 0
IsOutside rt p members token =
    (v : World) (u : User)
    → (get_current_user rt token v).0 ≡ ok u
    → find (is_membership p u.id) members ≡ none

module _ (rt : Runtime) (settings : Settings) (pg : Postgres) (p : ℕ) where
  outside-from :
      (members : List ProjectMembership) (rs : List (Text × Request)) (w : World)
      → All (λ (s : Text × Request). IsOutside rt p members s.0) rs
      → members ≡ members_of p w.committed.project_memberships
      → p < w.drawn
      → IsGood w
      → (tasks_of p (serve_all rt settings pg rs w).committed.tasks ≡ tasks_of p w.committed.tasks)
        × (members_of p (serve_all rt settings pg rs w).committed.project_memberships ≡ members)
  unfolding serve_all
  outside-from members [] w outside e there g = (refl, sym e)
  outside-from members ((token, r) ∷ rs) w outside e there g =
      let (tasks, kept, still) =
        serve-Same rt token p w settings pg r
          (λ u called.
            sym (find-members_of p u.id w.committed.project_memberships)
            ∙ ap (find (is_membership p u.id)) (sym e)
            ∙ outside.0 _ u called)
          there g in
      let (rest, closed) =
        outside-from members rs (serve rt settings pg token r w) outside.1 (e ∙ sym kept) still
          (serve-IsGood rt settings pg token r w g) in
      (rest ∙ tasks, closed)

  -- Any history of requests of callers who are not members of a project leaves its tasks and its members as
  -- they are: none of them makes, changes or deletes a task of the project or lets anyone in. The database
  -- is sound, and the project's id was drawn before.
  pub serve_all-outside :
      (rs : List (Text × Request)) (w : World)
      → All
          (λ (s : Text × Request).
            IsOutside rt p (members_of p w.committed.project_memberships) s.0)
          rs
      → p < w.drawn
      → IsGood w
      → (tasks_of p (serve_all rt settings pg rs w).committed.tasks ≡ tasks_of p w.committed.tasks)
        × (members_of p (serve_all rt settings pg rs w).committed.project_memberships
            ≡ members_of p w.committed.project_memberships)
  serve_all-outside rs w outside =
      outside-from (members_of p w.committed.project_memberships) rs w outside refl
