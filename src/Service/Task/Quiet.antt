-- ===== src/Service/Task/Quiet.antt =====
-- `update_task` when nothing changes.
use collabflow.Common.{
  ◌==◌, ==_refl, ℕ, Bool, true, ◌≡◌, refl, Option, none, some, [], ap, ◌∙◌, arith, text_eq,
  text_eq_refl,
}
use collabflow.Models.{
  Task, Change, TaskStatus, TaskPriority, status_eq, priority_eq, status_rank, priority_rank,
}
use collabflow.World.{World, ok}
use collabflow.Service.Task.Update.{
  TaskUpdate, update_task, set_fields, field_changes, replace_labels, changed, option_eq,
}

changed-same {ℓ} :
    {A : Type ℓ} (eq : A → A → Bool) (entry : A → A → Change) (a : A)
    → eq a a ≡ true
    → changed eq entry a a ≡ []
changed-same eq entry a h = rw h refl

option_eq-same {ℓ} :
    {A : Type ℓ} (eq : A → A → Bool)
    → ((a : A) → eq a a ≡ true)
    → (o : Option A) → option_eq eq o o ≡ true
option_eq-same eq same none = refl
option_eq-same eq same (some a) = same a

status_eq-same : (s : TaskStatus) → status_eq s s ≡ true
status_eq-same s = ==_refl (status_rank s)

priority_eq-same : (p : TaskPriority) → priority_eq p p ≡ true
priority_eq-same p = ==_refl (priority_rank p)

-- A task that is compared with itself has no changes.
field_changes-same : (task : Task) → field_changes task task ≡ []
unfolding field_changes
field_changes-same task = rw (text_eq_refl task.title) (
    rw (option_eq-same text_eq text_eq_refl task.description) (
      rw (status_eq-same task.status) (
        rw (priority_eq-same task.priority) (
          rw (option_eq-same ◌==◌ ==_refl task.assignee_id)
            (rw (option_eq-same ◌==◌ ==_refl task.due_date) refl)))))

-- An update that succeeds, sends no labels, and sends for each field nothing or the value that the
-- task has, publishes nothing, queues no mail, and adds no log entry and no notification.
pub update_task-unchanged :
    (task : Task) (u : TaskUpdate) (a : ℕ) (w : World) (t : Task)
    → (update_task task u a w).0 ≡ ok t
    → u.label_ids ≡ none
    → set_fields u task ≡ task
    → ((update_task task u a w).1.published ≡ w.published)
      × ((update_task task u a w).1.queue ≡ w.queue)
      × ((update_task task u a w).1.committed.activity_logs ≡ w.session.activity_logs)
      × ((update_task task u a w).1.committed.notifications ≡ w.session.notifications)
unfolding update_task replace_labels
update_task-unchanged task u a w t h n same =
    let c : field_changes task (set_fields u task) ≡ [] =
      ap (field_changes task) same ∙ field_changes-same task in
    (ground arith, ground arith, ground arith, ground arith)
