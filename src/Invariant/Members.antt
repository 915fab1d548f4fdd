-- ===== src/Invariant/Members.antt =====
-- The operations that add project memberships.
use collabflow.Common.{ℕ, ◌≤◌, ◌≡◌, Option, List, Text, arith, any}
use collabflow.World.{World}
use collabflow.Models.{Task, ProjectMembership, Role}
use collabflow.Runtime.{Runtime}
use collabflow.Service.Project.{create_project, invite_member}
use collabflow.Invariant.Frame.{Shows}
use collabflow.Invariant.Sound.{Includes}

-- The committed tasks are these, and the committed memberships are these or more.
pub record Grows (ts : List Task) (ms : List ProjectMembership) (n : ℕ) (w : World) : Type 0 where
  pub committed_tasks : w.committed.tasks ≡ ts
  pub committed_members : Includes ms w.committed.project_memberships
  pub drawn : n ≤ w.drawn

module _ {ts : List Task} {ms : List ProjectMembership} {n : ℕ} where
  pub create_project-Grows :
      (rt : Runtime) (o : ℕ) (name : Text) (d : Option Text) (u : ℕ) (w : World)
      → Shows ts ms n w
      → Grows ts ms n (create_project rt o name d u w).1
  unfolding create_project any
  create_project-Grows rt o name d u w s = record {
    committed_tasks = ground arith;
    committed_members = λ p h. ground arith;
    drawn = ground arith;
  }

  pub invite_member-Grows :
      (o : ℕ) (email : Text) (role : Role) (u : ℕ) (w : World)
      → Shows ts ms n w
      → Grows ts ms n (invite_member o email role u w).1
  unfolding invite_member any
  invite_member-Grows o email role u w s = record {
    committed_tasks = ground arith;
    committed_members = λ p h. ground arith;
    drawn = ground arith;
  }
