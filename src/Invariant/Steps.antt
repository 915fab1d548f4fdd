-- ===== src/Invariant/Steps.antt =====
-- The operations that change tasks or project memberships.
use collabflow.Common.{
  ◌==◌, ℕ, suc, ◌≤◌, ◌≡◌, refl, true, false, Option, none, some, List, [], ◌∷◌, arith, any, find,
}
use collabflow.World.{World, ok}
use collabflow.Models.{Task, ProjectMembership}
use collabflow.Crud.Task.{NewTask}
use collabflow.Crud.Project.{is_membership}
use collabflow.Service.Task.{create_task, is_foreign}
use collabflow.Invariant.Frame.{Shows}
use collabflow.Invariant.Sound.{is_some-find, assignee_is_member, parent_is_older, is_task_in}

-- What `create_task` has checked of the row that it returns.
pub record IsChecked (ts : List Task) (ms : List ProjectMembership) (n : ℕ) (t : Task)
    : Type 0 where
  pub fresh : n ≤ t.id
  pub assignee : assignee_is_member ms t.project_id t.assignee_id ≡ true
  pub parent : parent_is_older ts t.project_id t.parent_task_id ≡ true

-- The check of the parent finds a task of the project.
parent_checked :
    (p q : ℕ) (ts : List Task)
    → is_foreign q (find (λ x. x.id == p) ts) ≡ false
    → any (is_task_in p q) ts ≡ true
unfolding any find
parent_checked p q [] h = ground arith
parent_checked p q (x ∷ ts) h = ground (arith, parent_checked p q ts)

module _ {ts : List Task} {ms : List ProjectMembership} {n : ℕ} where
  pub create_task-Shows :
      (new : NewTask) (w : World) (t : Task)
      → Shows ts ms n w
      → (create_task new w).0 ≡ ok t
      → Shows (t ∷ ts) ms (suc t.id) (create_task new w).1
  unfolding create_task
  create_task-Shows new w t s h = ground arith

  assignee_checked :
      (new : NewTask) (a : Option ℕ) (w : World) (t : Task)
      → Shows ts ms n w
      → new.assignee_id ≡ a
      → (create_task new w).0 ≡ ok t
      → assignee_is_member ms t.project_id t.assignee_id ≡ true
  unfolding create_task
  assignee_checked new none w t s e h = ground arith
  assignee_checked new (some a) w t s e h =
      ground (arith, is_some-find (is_membership new.project_id a) w.session.project_memberships)

  parent_checked_by :
      (new : NewTask) (p : Option ℕ) (w : World) (t : Task)
      → Shows ts ms n w
      → new.parent_task_id ≡ p
      → (create_task new w).0 ≡ ok t
      → parent_is_older ts t.project_id t.parent_task_id ≡ true
  unfolding create_task
  parent_checked_by new none w t s e h = ground arith
  parent_checked_by new (some p) w t s e h =
      ground (arith, parent_checked p new.project_id w.session.tasks)

  fresh_by :
      (new : NewTask) (w : World) (t : Task)
      → Shows ts ms n w
      → (create_task new w).0 ≡ ok t
      → n ≤ t.id
  unfolding create_task
  fresh_by new w t s h = ground arith

  pub create_task-IsChecked :
      (new : NewTask) (w : World) (t : Task)
      → Shows ts ms n w
      → (create_task new w).0 ≡ ok t
      → IsChecked ts ms n t
  create_task-IsChecked new w t s h = record {
    fresh = fresh_by new w t s h;
    assignee = assignee_checked new new.assignee_id w t s refl h;
    parent = parent_checked_by new new.parent_task_id w t s refl h;
  }

pub create_task-drawn : (new : NewTask) (w : World) → w.drawn ≤ (create_task new w).1.drawn
unfolding create_task
create_task-drawn new w = ground arith
