-- ===== src/Worker/Laws.antt =====
-- Who is reminded of what.
use collabflow.Common.{
  ℕ, ◌+◌, ◌==◌, ◌≡◌, refl, ap, ◌∙◌, Option, none, some, Text, List, [], ◌∷◌, ◌++◌, select, find,
  inl, inr, Option-cases,
}
use collabflow.Models.{Task, NotificationType}
use collabflow.World.{continue-ok, World, ok, request}
use collabflow.Crud.Task.{list_due_on, is_due_on}
use collabflow.Service.Notification.{create_and_dispatch}
use collabflow.Service.Notification.Notes.{Note, notes}
use collabflow.Worker.{remind, remind_all, send_due_soon_reminders}

abbrev pub reminder : Task → Option ℕ → List Note
reminder task none = []
reminder task (some assignee_id) =
    record {
      user_id = assignee_id;
      type = NotificationType.task_due_soon;
      task_id = some task.id;
      read_at = none;
    }
    ∷ []

-- One unread reminder to the assignee of each task, the last first, in front of what was there.
abbrev pub with_reminders : List Task → List Note → List Note
with_reminders [] old = old
with_reminders (task ∷ tasks) old = with_reminders tasks (reminder task task.assignee_id ++ old)

module _ (date_text : ℕ → Text) where
  remind-ok :
      (task : Task) (assignee : Option ℕ) (w : World)
      → w.session ≡ w.committed
      → ((remind date_text task assignee w).0 ≡ ok tt)
        × ((remind date_text task assignee w).1.session
            ≡ (remind date_text task assignee w).1.committed)
        × (notes (remind date_text task assignee w).1.committed
            ≡ reminder task assignee ++ notes w.committed)
        × ((remind date_text task assignee w).1.committed.tasks ≡ w.committed.tasks)
  unfolding create_and_dispatch
  remind-ok task none w h = (refl, h, refl, refl)
  remind-ok task (some u) w h = elim (Option-cases (find (λ v. v.id == u) w.session.users)) [
    | inl e ↦
        rw e (refl, refl, ap (λ db. reminder task (some u) ++ notes db) h, ap (λ db. db.tasks) h)
    | inr (r, e) ↦
        rw e (refl, refl, ap (λ db. reminder task (some u) ++ notes db) h, ap (λ db. db.tasks) h)
  ]

  remind_all-ok :
      (tasks : List Task) (w : World)
      → w.session ≡ w.committed
      → ((remind_all date_text tasks w).0 ≡ ok tt)
        × (notes (remind_all date_text tasks w).1.committed
            ≡ with_reminders tasks (notes w.committed))
        × ((remind_all date_text tasks w).1.committed.tasks ≡ w.committed.tasks)
  unfolding remind_all
  remind_all-ok [] w h = (refl, refl, refl)
  remind_all-ok (task ∷ tasks) w h =
      let (done, level, noted, kept) = remind-ok task task.assignee_id w h in
      let v = (remind date_text task task.assignee_id w).1 in
      let step =
        continue-ok (remind date_text task task.assignee_id w) tt (λ u. remind_all date_text tasks)
          done in
      let (rest, told, same) = remind_all-ok tasks v level in
      (
        ap (λ r. r.0) step ∙ rest,
        ap (λ r. notes r.1.committed) step ∙ told ∙ ap (with_reminders tasks) noted,
        ap (λ r. r.1.committed.tasks) step ∙ same ∙ kept,
      )

  -- The daily job never fails: it commits one unread reminder to the assignee of each task that is due on
  -- the next day, assigned and not done, in front of the notifications that were there, and changes no
  -- task.
  pub send_due_soon_reminders-notes :
      (today : ℕ) (w : World)
      → ((send_due_soon_reminders date_text today w).0 ≡ ok tt)
        × (notes (send_due_soon_reminders date_text today w).1.committed
            ≡ with_reminders (select (is_due_on (today + 1)) w.committed.tasks) (notes w.committed))
        × ((send_due_soon_reminders date_text today w).1.committed.tasks ≡ w.committed.tasks)
  unfolding send_due_soon_reminders request list_due_on
  send_due_soon_reminders-notes today w =
      remind_all-ok (select (is_due_on (today + 1)) w.committed.tasks)
        (record w { session = w.committed }) refl
