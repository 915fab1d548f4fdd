-- ===== src/Invariant/Updates.antt =====
-- `update_task` and `delete_task` on the tables of the invariant.
use collabflow.Common.{
  ◌==◌, ℕ, ◌≤◌, ◌≡◌, refl, Bool, true, not, Option, none, some, List, [], ◌∷◌, Text, arith, find,
  text_eq, select, leb,
}
use collabflow.World.{World, ok}
use collabflow.Models.{Task, ProjectMembership, Attachment}
use collabflow.Crud.Task.Delete.{doomed}
use collabflow.Crud.Postgres.{Postgres}
use collabflow.Crud.Project.{is_membership}
use collabflow.Service.Task.{delete_task, delete_objects}
use collabflow.Service.Task.Atomic.{resolve_labels-same}
use collabflow.Service.Task.Update.{
  TaskUpdate, update_task, set_fields, set_to, save, replace_labels,
}
use collabflow.Invariant.Frame.{Shows}
use collabflow.Invariant.Save.{save_in}
use collabflow.Invariant.Delete.{survivors}
use collabflow.Invariant.Sound.{is_some-find, assignee_is_member, TasksAreSound}

-- The part of `Shows` that speaks of the session.
record SessionShows (ts : List Task) (ms : List ProjectMembership) (n : ℕ) (w : World)
    : Type 0 where
  session_tasks : w.session.tasks ≡ ts
  session_members : w.session.project_memberships ≡ ms
  drawn : n ≤ w.drawn

-- The keys that are left when the objects of the attachments are deleted.
pub left_in_bucket : List Attachment → List Text → List Text
left_in_bucket [] bucket = bucket
left_in_bucket (a ∷ attachments) bucket =
    left_in_bucket attachments (select (λ k. not (text_eq k a.storage_key)) bucket)

pub delete_objects_lem :
    (attachments : List Attachment) (w : World)
    → delete_objects attachments w
      ≡ (ok tt, record w { bucket = left_in_bucket attachments w.bucket })
unfolding delete_objects left_in_bucket
delete_objects_lem [] w = refl
delete_objects_lem (a ∷ attachments) w =
    delete_objects_lem attachments
      (record w { bucket = select (λ k. not (text_eq k a.storage_key)) w.bucket })

pub assignee_of_row :
    (ms : List ProjectMembership) (n : ℕ) (ts : List Task) (p : Task → Bool) (t : Task)
    → TasksAreSound ms n ts
    → find p ts ≡ some t
    → assignee_is_member ms t.project_id t.assignee_id ≡ true
unfolding find
assignee_of_row ms n [] p t s h = ground arith
assignee_of_row ms n (x ∷ ts) p t s h = ground (arith, assignee_of_row ms x.id ts p t s.3)

module _ {ts : List Task} {ms : List ProjectMembership} {n : ℕ} where
  pub delete_task-tables :
      (pg : Postgres) (task : Task) (u : ℕ) (w : World)
      → Shows ts ms n w
      → Shows (survivors (doomed task.id ts) ts) ms n (delete_task pg task u w).1
  unfolding delete_task
  delete_task-tables pg task u w s = ground (
    arith,
    delete_objects_lem
        (pg.order_by Attachment (λ a b. leb a.created_at b.created_at)
          (select (λ a. a.task_id == task.id) w.session.attachments))
        w,
  )

  replace_labels-SessionShows :
      (task : Task) (ids : Option (List ℕ)) (w : World)
      → SessionShows ts ms n w
      → SessionShows ts ms n (replace_labels task ids w).1
  unfolding replace_labels
  replace_labels-SessionShows task none w s = s
  replace_labels-SessionShows task (some ids) w s =
      ground (arith, resolve_labels-same task.project_id ids w)

module _ {ts : List Task} {ms : List ProjectMembership} {n : ℕ} where
  saved-Shows :
      (task : Task) (w : World)
      → Shows ts ms n w
      → SessionShows (save_in task ts) ms n (record w { session = save task w.session })
  unfolding save
  saved-Shows task w s = ground arith

  pub update_task-Shows :
      (task t : Task) (u : TaskUpdate) (a : ℕ) (w : World)
      → Shows ts ms n w
      → (update_task task u a w).0 ≡ ok t
      → Shows (save_in (set_fields u task) ts) ms n (update_task task u a w).1
  unfolding update_task
  update_task-Shows task t u a w s h = ground (
    arith,
    replace_labels-SessionShows (set_fields u task) u.label_ids
        (record w { session = save (set_fields u task) w.session })
        (saved-Shows (set_fields u task) w s),
  )

  pub update_task-assignee :
      (task t : Task) (u : TaskUpdate) (a : ℕ) (o : Option (Option ℕ)) (w : World)
      → Shows ts ms n w
      → u.assignee_id ≡ o
      → assignee_is_member ms task.project_id task.assignee_id ≡ true
      → (update_task task u a w).0 ≡ ok t
      → assignee_is_member ms task.project_id (set_to u.assignee_id task.assignee_id) ≡ true
  unfolding update_task
  update_task-assignee task t u a none w s e m h = ground arith
  update_task-assignee task t u a (some none) w s e m h = ground arith
  update_task-assignee task t u a (some (some b)) w s e m h =
      ground (arith, is_some-find (is_membership task.project_id b) w.session.project_memberships)

replace_labels-drawn :
    (task : Task) (ids : Option (List ℕ)) (w : World)
    → w.drawn ≤ (replace_labels task ids w).1.drawn
unfolding replace_labels
replace_labels-drawn task none w = ground arith
replace_labels-drawn task (some ids) w = ground (arith, resolve_labels-same task.project_id ids w)

pub update_task-drawn :
    (task : Task) (u : TaskUpdate) (a : ℕ) (w : World) → w.drawn ≤ (update_task task u a w).1.drawn
unfolding update_task
update_task-drawn task u a w = ground (
  arith,
  replace_labels-drawn (set_fields u task) u.label_ids
      (record w { session = save (set_fields u task) w.session }),
)
