-- ===== src/Invariant/Bystanders.antt =====
-- The handlers of backend/app/api/routers that change neither tasks nor memberships, and
-- the daily job of backend/app/workers.
use collabflow.Common.{
  ℕ, ◌+◌, ◌==◌, List, Option, none, some, Text, codes, find, select, arith, Bool-cases, inl, inr,
}
use collabflow.World.{Db, World, Result, ok, err, pure, raise, rescue_from, commit, ◌>>=◌, ◌>>◌}
use collabflow.Config.{Settings}
use collabflow.Models.{Task, ProjectMembership, Role, Attachment, Notification}
use collabflow.Runtime.{Runtime}
use collabflow.Deps.{get_current_user, require_task_project_role}
use collabflow.Router.Access.{get_current_user-same, require_task_project_role-same}
use collabflow.Router.Errors.{with_status, as_http}
use collabflow.Router.Auth.{register}
use collabflow.Router.Files.{upload_attachment, delete_attachment, value_or, require_of_task}
use collabflow.Router.Notifications.{mark_all_read, mark_notification_read, require_of_user}
use collabflow.Crud.Attachment as AttachmentCrud
use collabflow.Crud.Notification as NotificationCrud
use collabflow.Crud.Task.{is_due_on, list_due_on}
use collabflow.Service.Auth.{UserCreate, register_user}
use collabflow.Service.Attachment as AttachmentService
use collabflow.Worker.{send_due_soon_reminders}
use collabflow.Invariant.Good.{opened, Shows-opened}
use collabflow.Invariant.Rules.{Holds, ask, with_status-Holds, IsKept}
use collabflow.Invariant.Frame.{
  Shows, continue-Shows, register_user-Shows, upload_attachment-Shows, delete_attachment-Shows,
  mark_all_read-Shows, mark_read-Shows, remind_all-Shows,
}

module _ {ts : List Task} {ms : List ProjectMembership} {n : ℕ} where
  raised-Shows :
      {A : Type 0} (status : ℕ) (r : Result A × World)
      → Shows ts ms n r.1
      → Shows ts ms n (rescue_from r (λ e. raise (as_http status e))).1
  raised-Shows status (ok a, w) s = s
  raised-Shows status (err e, w) s = s

  -- A commit of what the session shows, and the result handed on.
  committed-Shows :
      {A : Type 0} (a : A) (w : World) → Shows ts ms n w → Shows ts ms n ((commit >> pure a) w).1
  unfolding commit
  committed-Shows a w s = ground arith

module _ {P : ℕ → Db → Type 0} (rt : Runtime) (token : Text) (w : World)
    (k : IsKept P rt token w) where
  pub handle_register : (user_in : UserCreate) → Holds P (register rt user_in w).1
  unfolding register
  handle_register user_in = k.frame _ (
      continue-Shows (with_status 409 (register_user rt user_in) (opened w))
        (λ user. commit >> pure user)
        (raised-Shows 409 (register_user rt user_in (opened w))
          (register_user-Shows rt user_in (opened w) (Shows-opened w)))
        committed-Shows)

  pub handle_upload_attachment :
      (settings : Settings) (i : ℕ) (filename content_type : Option Text) (size : ℕ)
      → Holds P (upload_attachment rt token settings i filename content_type size w).1
  unfolding upload_attachment
  handle_upload_attachment settings i filename content_type size =
      ask P (require_task_project_role rt Role.member token i (opened w)) _ (opened w)
        (require_task_project_role-same rt Role.member token (opened w) i) k.start
        (λ task _.
          ask P (get_current_user rt token (opened w)) _ (opened w)
            (get_current_user-same rt Role.member token (opened w)) k.start
            (λ user _.
              let name = value_or filename (codes "unnamed") in
              let kind = value_or content_type (codes "application/octet-stream") in
              with_status-Holds P 400
                (AttachmentService.upload_attachment rt settings task.id task.project_id user.id
                  name kind size)
                (opened w)
                (k.frame _ (
                  upload_attachment-Shows rt settings task.id task.project_id user.id name kind size
                    (opened w) (Shows-opened w)))))

  delete_found :
      (task : Task) (u : ℕ) (found : Option Attachment)
      → Holds P
          ((require_of_task task.id found
              >>= (λ a. AttachmentService.delete_attachment a task.project_id u))
            (opened w)).1
  delete_found task u none = k.start
  delete_found task u (some a) = elim (Bool-cases (a.task_id == task.id)) [
    | inl own ↦
        rw own (k.frame _ (delete_attachment-Shows a task.project_id u (opened w) (Shows-opened w)))
    | inr other ↦ rw other k.start
  ]

  pub handle_delete_attachment : (i a : ℕ) → Holds P (delete_attachment rt token i a w).1
  unfolding delete_attachment AttachmentCrud.get_by_id
  handle_delete_attachment i a =
      ask P (require_task_project_role rt Role.admin token i (opened w)) _ (opened w)
        (require_task_project_role-same rt Role.admin token (opened w) i) k.start
        (λ task _.
          ask P (get_current_user rt token (opened w)) _ (opened w)
            (get_current_user-same rt Role.admin token (opened w)) k.start
            (λ user _. delete_found task user.id (find (λ x. x.id == a) w.committed.attachments)))

  pub handle_mark_all_read : Holds P (mark_all_read rt token w).1
  unfolding mark_all_read
  handle_mark_all_read =
      ask P (get_current_user rt token (opened w)) _ (opened w)
        (get_current_user-same rt Role.member token (opened w)) k.start
        (λ user _. k.frame _ (
          continue-Shows (NotificationCrud.mark_all_read user.id (opened w))
            (λ count. commit >> pure count)
            (mark_all_read-Shows user.id (opened w) (Shows-opened w)) committed-Shows))

  mark_found :
      (u : ℕ) (found : Option Notification)
      → Holds P
          ((require_of_user u found
              >>= (λ n. NotificationCrud.mark_read n >>= (λ read. commit >> pure read)))
            (opened w)).1
  mark_found u none = k.start
  mark_found u (some n) = elim (Bool-cases (n.user_id == u)) [
    | inl own ↦ rw own (
        k.frame _ (
          continue-Shows (NotificationCrud.mark_read n (opened w)) (λ read. commit >> pure read)
            (mark_read-Shows n (opened w) (Shows-opened w)) committed-Shows))
    | inr other ↦ rw other k.start
  ]

  pub handle_mark_notification_read : (i : ℕ) → Holds P (mark_notification_read rt token i w).1
  unfolding mark_notification_read NotificationCrud.get_by_id
  handle_mark_notification_read i =
      ask P (get_current_user rt token (opened w)) _ (opened w)
        (get_current_user-same rt Role.member token (opened w)) k.start
        (λ user _. mark_found user.id (find (λ x. x.id == i) w.committed.notifications))

  pub handle_reminders :
      (date_text : ℕ → Text) (today : ℕ) → Holds P (send_due_soon_reminders date_text today w).1
  unfolding send_due_soon_reminders list_due_on
  handle_reminders date_text today = k.frame _ (
      remind_all-Shows date_text (select (is_due_on (today + 1)) w.committed.tasks) (opened w)
        (Shows-opened w))
