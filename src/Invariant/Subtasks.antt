-- ===== src/Invariant/Subtasks.antt =====
-- Which tasks a deletion takes, and what it leaves behind.
use mathlib.Core.Path.{subst}
use collabflow.Common.{
  ◌==◌, ℕ, ◌≡◌, ◌↔◌, refl, sym, Bool, true, false, ◌&&◌, Option, none, some, List, [], ◌∷◌, arith,
  any, contains, map, Bool-cases, inl, inr, is_some_of, &&-left, &&-right, if◌then◌else◌, ==_iff,
  ==_refl,
}
use collabflow.Models.{Task, WsEventType, ActivityLog, Notification}
use collabflow.World.{World, ok, project_channel, task_removal_data}
use collabflow.Crud.Postgres.{Postgres}
use collabflow.Service.Task.{delete_task}
use collabflow.Service.Task.Laws.{delete_task-ok, keys_without, attachments_of}
use collabflow.Crud.Task.Delete.{doomed, delete, parent_in, without_tasks}
use collabflow.Crud.Task.Delete.Laws.{IsFree, without_tasks-IsFree}
use collabflow.Invariant.Sound.{IsSound}
use collabflow.Invariant.Delete.{closed, closed-doomed, survivors, no_orphans}

abbrev pub is_child : (parent_id task_id : ℕ) → Task → Bool
is_child p i t = (t.id == i) && is_some_of t.parent_task_id p

-- The task itself, its subtasks, their subtasks, and so on.
pub data IsUnder (root : ℕ) (ts : List Task) : ℕ → Type 0 where
  itself : IsUnder root ts root
  child : (p i : ℕ) → any (is_child p i) ts ≡ true → IsUnder root ts p → IsUnder root ts i

IsUnder-cons :
    (root : ℕ) (t : Task) (ts : List Task) (i : ℕ) → IsUnder root ts i → IsUnder root (t ∷ ts) i
IsUnder-cons root t ts _ itself = itself
IsUnder-cons root t ts _ (child p i h u) =
    child p i (unfold any in ground (arith, h)) (IsUnder-cons root t ts p u)

-- A task whose parent is under the root is so too.
IsUnder-parent :
    (root : ℕ) (t : Task) (ts : List Task) (o : Option ℕ)
    → t.parent_task_id ≡ o
    → ((p : ℕ) → contains (doomed root ts) p ≡ true → IsUnder root ts p)
    → parent_in (doomed root ts) o ≡ true
    → IsUnder root (t ∷ ts) t.id
IsUnder-parent root t ts none e under k = ground (arith, k)
IsUnder-parent root t ts (some p) e under k =
    child p t.id (unfold any in ground (arith, e, ==_refl t.id, ==_refl p))
      (IsUnder-cons root t ts p (under p k))

doomed-IsUnder :
    (root : ℕ) (ts : List Task) (i : ℕ) → contains (doomed root ts) i ≡ true → IsUnder root ts i
unfolding doomed contains
doomed-IsUnder root [] i h = subst (IsUnder root []) ((==_iff root i).0 (ground (arith, h))) itself
doomed-IsUnder root (t ∷ ts) i h = elim (Bool-cases (parent_in (doomed root ts) t.parent_task_id)) [
  | inl goes ↦ elim (Bool-cases (t.id == i)) [
    | inl own ↦
        subst (IsUnder root (t ∷ ts)) ((==_iff t.id i).0 own)
          (IsUnder-parent root t ts t.parent_task_id refl (doomed-IsUnder root ts) goes)
    | inr other ↦
        IsUnder-cons root t ts i (doomed-IsUnder root ts i (ground (arith, goes, other, h)))
  ]
  | inr stays ↦ IsUnder-cons root t ts i (doomed-IsUnder root ts i (rw stays at h))
]

contains-doomed : (root : ℕ) (ts : List Task) → contains (doomed root ts) root ≡ true
unfolding doomed contains
contains-doomed root [] = ground arith
contains-doomed root (t ∷ ts) = ground (arith, contains-doomed root ts)

goes_along :
    (ids : List ℕ) (p i a : ℕ) (o : Option ℕ)
    → (if parent_in ids o then contains ids a else true) ≡ true
    → ((a == i) && is_some_of o p) ≡ true
    → contains ids p ≡ true
    → contains ids i ≡ true
goes_along ids p i a none f own k = ground (arith, own)
goes_along ids p i a (some q) f own k =
    let same_child : a ≡ i = ground (arith, own) in
    let same_parent : q ≡ p = ground (arith, own) in
    rw (sym same_child) (ground (arith, f, rw (sym same_parent) at k))

closed-child :
    (ids : List ℕ) (ts : List Task) (p i : ℕ)
    → closed ids ts ≡ true
    → any (is_child p i) ts ≡ true
    → contains ids p ≡ true
    → contains ids i ≡ true
unfolding closed any
closed-child ids [] p i c h k = ground (arith, h)
closed-child ids (t ∷ ts) p i c h k = elim (Bool-cases (is_child p i t)) [
  | inl own ↦ goes_along ids p i t.id t.parent_task_id (&&-left _ _ c) own k
  | inr other ↦ closed-child ids ts p i (&&-right _ _ c) (ground (arith, h, other)) k
]

module _ (task : Task) (w : World) (sound : IsSound w.drawn w.session) where
  -- The ids that `delete` takes are those of the task, its subtasks, theirs, and so on.
  doomed_iff :
      (i : ℕ)
      → (contains (doomed task.id w.session.tasks) i ≡ true) ↔ IsUnder task.id w.session.tasks i
  doomed_iff i = (doomed-IsUnder task.id w.session.tasks i, all_go i)
    where
      all_go :
          (i : ℕ)
          → IsUnder task.id w.session.tasks i
          → contains (doomed task.id w.session.tasks) i ≡ true
      all_go _ itself = contains-doomed task.id w.session.tasks
      all_go _ (child p i h u) =
          closed-child (doomed task.id w.session.tasks) w.session.tasks p i
            (closed-doomed w.session.project_memberships w.drawn task.id w.session.tasks
              sound.tasks)
            h (all_go p u)

  -- A deletion of a task, where the tasks are sound, leaves no task with the id of the task or of a subtask
  -- at any depth, and no row that refers to one: no task by its parent, no comment, label link or
  -- attachment, no log entry and no notification. Every log entry and notification is still there, and so
  -- is every other task.
  pub delete-IsFree :
      ((i : ℕ)
        → (contains (doomed task.id w.session.tasks) i ≡ true) ↔ IsUnder task.id w.session.tasks i)
      × IsFree (doomed task.id w.session.tasks) (delete task w).1.session
      × (any
            (λ t. parent_in (doomed task.id w.session.tasks) t.parent_task_id)
            (delete task w).1.session.tasks
          ≡ false)
      × ((delete task w).1.session.tasks
          ≡ survivors (doomed task.id w.session.tasks) w.session.tasks)
      × (map (λ (e : ActivityLog). e.id) (delete task w).1.session.activity_logs
          ≡ map (λ (e : ActivityLog). e.id) w.session.activity_logs)
      × (map (λ (n : Notification). n.id) (delete task w).1.session.notifications
          ≡ map (λ (n : Notification). n.id) w.session.notifications)
  unfolding delete
  delete-IsFree =
      let (free, entries, notes) =
        without_tasks-IsFree (doomed task.id w.session.tasks) w.session in
      let orphans =
        no_orphans (doomed task.id w.session.tasks) w.session.tasks (
          closed-doomed w.session.project_memberships w.drawn task.id w.session.tasks
            sound.tasks) in
      (
        doomed_iff,
        free,
        unfold without_tasks in orphans,
        unfold without_tasks in refl,
        entries,
        notes,
      )

  -- A `delete_task` that returns, where the tasks are sound, has committed the tasks without the task and
  -- its subtasks at every depth, has taken the objects of the task's own attachments from the bucket, and
  -- has published the one event TASK_DELETED.
  pub delete_task-done :
      (pg : Postgres) (a : ℕ)
      → (delete_task pg task a w).0 ≡ ok tt
      → ((i : ℕ)
          → (contains (doomed task.id w.session.tasks) i ≡ true)
            ↔ IsUnder task.id w.session.tasks i)
        × ((delete_task pg task a w).1.committed.tasks
            ≡ survivors (doomed task.id w.session.tasks) w.session.tasks)
        × ((delete_task pg task a w).1.bucket ≡ keys_without (attachments_of pg task w) w.bucket)
        × ((delete_task pg task a w).1.published
            ≡ record {
              channel = project_channel task.project_id;
              type = WsEventType.task_deleted;
              project_id = some task.project_id;
              actor_id = some a;
              payload = task_removal_data task.id task.title;
            }
              ∷ w.published)
  delete_task-done pg a done =
      let (_, kept, keys, sent) = delete_task-ok pg task a w in (doomed_iff, kept, keys, sent)
