-- ===== src/Invariant/Services.antt =====
-- The invariant and the services that change tasks or memberships, from a session just opened.
use mathlib.Core.Path.{subst}
use native.Mathlib.Nat.{le_refl}
use collabflow.Runtime.{Runtime}
use collabflow.Router.Access.{require_task-found}
use collabflow.Invariant.Rules.{IsKept}
use collabflow.Common.{
  ◌==◌, ℕ, suc, ◌≤◌, ◌≡◌, refl, ◌∙◌, some, ◌∷◌, find, List, Text, find-test, ==_iff, sym,
}
use collabflow.World.{World, Result, ok, err, Untouched}
use collabflow.Models.{Task, Role}
use collabflow.Crud.Postgres.{Postgres}
use collabflow.Crud.Task.{NewTask}
use collabflow.Crud.Task.Delete.{doomed}
use collabflow.Service.Task.{create_task, delete_task}
use collabflow.Service.Task.Atomic.{create_task_error, update_task_error}
use collabflow.Service.Task.Update.{TaskUpdate, update_task, set_fields}
use collabflow.Invariant.Sound.{IsSound, TasksAreSound-mono}
use collabflow.Invariant.Save.{agree-find, agree-set_fields, TasksAreSound-save_in, save_in}
use collabflow.Invariant.Delete.{survivors, closed-doomed, TasksAreSound-survivors}
use collabflow.Invariant.Steps.{create_task-Shows, create_task-IsChecked, create_task-drawn}
use collabflow.Invariant.Updates.{
  delete_task-tables, update_task-Shows, update_task-assignee, update_task-drawn, assignee_of_row,
}
use collabflow.Invariant.Frame.{Shows}
use collabflow.Invariant.Members.{Grows, create_project-Grows, invite_member-Grows}
use collabflow.Invariant.Good.{IsGood, opened, Shows-opened, Shows-IsGood, Grows-IsGood}

-- An operation that left the committed database alone.
Untouched-IsGood :
    (w w' : World) → IsGood w → Untouched (opened w) w' → w.drawn ≤ w'.drawn → IsGood w'
Untouched-IsGood w w' g u d =
    Grows-IsGood w.committed.tasks w.committed.project_memberships w.drawn w' g.tasks (record {
      committed_tasks = rw u.committed refl;
      committed_members = λ p h. rw u.committed h;
      drawn = d;
    })

-- A row found by an id is the row of its own id.
pub find_own_id :
    (i : ℕ) (ts : List Task) (t : Task)
    → find (λ x. x.id == i) ts ≡ some t
    → find (λ x. x.id == t.id) ts ≡ some t
find_own_id i ts t h =
    subst (λ j. find (λ x. x.id == j) ts ≡ some t)
      (sym ((==_iff t.id i).0 (find-test (λ (x : Task). x.id == i) ts t h))) h

module _ (w : World) (g : IsGood w) where
  create_task_end :
      (new : NewTask) (r : Result Task)
      → (create_task new (opened w)).0 ≡ r
      → IsGood (create_task new (opened w)).1
  create_task_end new (err e) h =
      Untouched-IsGood w (create_task new (opened w)).1 g (create_task_error new (opened w) e h)
        (create_task-drawn new (opened w))
  create_task_end new (ok t) h =
      let c = create_task-IsChecked new (opened w) t (Shows-opened w) h in
      Shows-IsGood (t ∷ w.committed.tasks) w.committed.project_memberships (suc t.id)
        (create_task new (opened w)).1
        (
          le_refl (suc t.id),
          c.assignee,
          c.parent,
          TasksAreSound-mono w.committed.project_memberships w.drawn t.id w.committed.tasks c.fresh
              g.tasks,
        )
        (create_task-Shows new (opened w) t (Shows-opened w) h)

  -- A new task has a fresh id, a member for an assignee and an older parent of its project.
  create_task-IsGood : (new : NewTask) → IsGood (create_task new (opened w)).1
  create_task-IsGood new = create_task_end new (create_task new (opened w)).0 refl

  update_task_end :
      (task : Task) (u : TaskUpdate) (a : ℕ) (r : Result Task)
      → find (λ t. t.id == task.id) w.committed.tasks ≡ some task
      → (update_task task u a (opened w)).0 ≡ r
      → IsGood (update_task task u a (opened w)).1
  update_task_end task u a (err e) row h =
      Untouched-IsGood w (update_task task u a (opened w)).1 g
        (update_task_error task u a (opened w) e h) (update_task-drawn task u a (opened w))
  update_task_end task u a (ok t) row h =
      let ms = w.committed.project_memberships in
      let ts = w.committed.tasks in
      let member =
        update_task-assignee task t u a u.assignee_id (opened w) (Shows-opened w) refl
          (assignee_of_row ms w.drawn ts (λ x. x.id == task.id) task g.tasks row) h in
      Shows-IsGood (save_in (set_fields u task) ts) ms w.drawn (update_task task u a (opened w)).1
        (TasksAreSound-save_in (set_fields u task) ms w.drawn ts (unfold set_fields in member)
          (agree-set_fields u task ts ∙ agree-find task ms w.drawn ts g.tasks row) g.tasks)
        (update_task-Shows task t u a (opened w) (Shows-opened w) h)

  -- An update of a row of the table leaves it in its place, with a member for an assignee.
  update_task-IsGood :
      (task : Task) (u : TaskUpdate) (a : ℕ)
      → find (λ t. t.id == task.id) w.committed.tasks ≡ some task
      → IsGood (update_task task u a (opened w)).1
  update_task-IsGood task u a row =
      update_task_end task u a (update_task task u a (opened w)).0 row refl

  -- A deletion takes every subtask along.
  delete_task-IsGood :
      (pg : Postgres) (task : Task) (a : ℕ) → IsGood (delete_task pg task a (opened w)).1
  delete_task-IsGood pg task a =
      let ms = w.committed.project_memberships in
      let ts = w.committed.tasks in
      Shows-IsGood (survivors (doomed task.id ts) ts) ms w.drawn
        (delete_task pg task a (opened w)).1
        (TasksAreSound-survivors (doomed task.id ts) ms w.drawn ts
          (closed-doomed ms w.drawn task.id ts g.tasks) g.tasks)
        (delete_task-tables pg task a (opened w) (Shows-opened w))

  -- What only adds memberships.
  Grows-opened :
      (w' : World) → Grows w.committed.tasks w.committed.project_memberships w.drawn w' → IsGood w'
  Grows-opened w' =
      Grows-IsGood w.committed.tasks w.committed.project_memberships w.drawn w' g.tasks

  -- What changes neither tasks nor memberships.
  Frame-opened :
      (w' : World) → Shows w.committed.tasks w.committed.project_memberships w.drawn w' → IsGood w'
  Frame-opened w' =
      Shows-IsGood w.committed.tasks w.committed.project_memberships w.drawn w' g.tasks

-- The invariant is kept by every request.
pub IsGood-IsKept :
    (rt : Runtime) (token : Text) (w : World) → IsGood w → IsKept (λ n db. IsSound n db) rt token w
IsGood-IsKept rt token w g = record {
  start = g;
  frame = Frame-opened w g;
  founds = λ o name d u.
      Grows-opened w g _ (create_project-Grows rt o name d u (opened w) (Shows-opened w));
  invites = λ q email role u allowed.
      Grows-opened w g _ (invite_member-Grows q email role u.id (opened w) (Shows-opened w));
  creates = λ new u allowed. create_task-IsGood w g new;
  updates = λ i u task a allowed. update_task-IsGood w g task u a (
      find_own_id i w.committed.tasks task
        (require_task-found rt Role.member token (opened w) i task allowed));
  deletes = λ pg i task a allowed. delete_task-IsGood w g pg task a;
}
