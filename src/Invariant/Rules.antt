-- ===== src/Invariant/Rules.antt =====
-- How a predicate on the committed database gets through a request, whatever the predicate.
use mathlib.Core.Path.{subst, sym}
use collabflow.Common.{Option, ℕ, ◌≡◌, refl, Text}
use collabflow.World.{World, Db, Result, ok, err, Exec, continue, rescue_from, raise}
use collabflow.Models.{Task, User, Role}
use collabflow.Runtime.{Runtime}
use collabflow.Crud.Postgres.{Postgres}
use collabflow.Crud.Task.{NewTask}
use collabflow.Deps.{require_project_role, require_task_project_role}
use collabflow.Router.Errors.{as_http, with_status}
use collabflow.Service.Task as TaskService
use collabflow.Service.Project as ProjectService
use collabflow.Service.Task.Update as UpdateService
use collabflow.Service.Task.Update.{TaskUpdate}
use collabflow.Invariant.Frame.{Shows}
use collabflow.Invariant.Good.{opened}

-- A predicate on the number of UUIDs drawn and the committed database.
abbrev pub Holds : (ℕ → Db → Type 0) → World → Type 0
Holds P w = P w.drawn w.committed

module _ (P : ℕ → Db → Type 0) where
  -- A query in front of an action.
  pub ask :
      {A B : Type 0} (m : Result A × World) (f : A → Exec B) (w : World)
      → m.1 ≡ w
      → Holds P w
      → ((a : A) → m.0 ≡ ok a → Holds P (f a w).1)
      → Holds P (continue m f).1
  ask (ok a, w') f w e g k = subst (λ v. Holds P (f a v).1) (sym e) (k a refl)
  ask (err x, w') f w e g k = subst (Holds P) (sym e) g

  raised-Holds :
      {A : Type 0} (status : ℕ) (r : Result A × World)
      → Holds P r.1
      → Holds P (rescue_from r (λ e. raise (as_http status e))).1
  raised-Holds status (ok a, w) g = g
  raised-Holds status (err e, w) g = g

  -- Another status for an error changes nothing else.
  pub with_status-Holds :
      {A : Type 0} (status : ℕ) (m : Exec A) (w : World)
      → Holds P (m w).1
      → Holds P (with_status status m w).1
  with_status-Holds status m w g = raised-Holds status (m w) g

-- What the predicate needs, at a request of this token in the world `w`.
pub record IsKept (P : ℕ → Db → Type 0) (rt : Runtime) (token : Text) (w : World) : Type 1 where
  pub start : Holds P w
  pub frame :
      (w' : World) → Shows w.committed.tasks w.committed.project_memberships w.drawn w' → Holds P w'
  pub founds :
      (o : ℕ) (name : Text) (d : Option Text) (u : ℕ)
      → Holds P (ProjectService.create_project rt o name d u (opened w)).1
  pub invites :
      (q : ℕ) (email : Text) (role : Role) (u : User)
      → (require_project_role rt Role.admin token q (opened w)).0 ≡ ok u
      → Holds P (ProjectService.invite_member q email role u.id (opened w)).1
  pub creates :
      (new : NewTask) (u : User)
      → (require_project_role rt Role.member token new.project_id (opened w)).0 ≡ ok u
      → Holds P (TaskService.create_task new (opened w)).1
  pub updates :
      (i : ℕ) (u : TaskUpdate) (task : Task) (a : ℕ)
      → (require_task_project_role rt Role.member token i (opened w)).0 ≡ ok task
      → Holds P (UpdateService.update_task task u a (opened w)).1
  pub deletes :
      (pg : Postgres) (i : ℕ) (task : Task) (a : ℕ)
      → (require_task_project_role rt Role.admin token i (opened w)).0 ≡ ok task
      → Holds P (TaskService.delete_task pg task a (opened w)).1
