-- ===== src/Router/Ownership.antt =====
-- Whose files and notifications the routes give out.
use collabflow.Common.{◌==◌, ==_iff, ℕ, ◌≡◌, refl, Option, none, some, Text, arith, find}
use collabflow.World.{World, Result, err, ok, Error, Exec, continue}
use collabflow.Crud.Notification
use collabflow.Crud.Attachment
use collabflow.Models.{Task, Attachment, Notification, User, Role}
use collabflow.Runtime.{Runtime}
use collabflow.Deps.{require_task_project_role, get_current_user}
use collabflow.Invariant.Good.{opened}
use collabflow.Router.Files.{download_attachment, require_of_task}
use collabflow.Router.Notifications.{mark_notification_read}

-- A sequence that returns has returned from its first part.
err_not_ok : {A : Type 0} (e : Error) (a : A) → Result.err e ≡ ok a → ⊥
err_not_ok e a h = ground (arith, h)

first_ok :
    {A B : Type 0} (r : Result A × World) (f : A → Exec B) (b : B)
    → (continue r f).0 ≡ ok b
    → (a : A) × (r.0 ≡ ok a) × ((f a r.1).0 ≡ ok b)
first_ok (ok a, w) f b h = (a, refl, h)
first_ok (err e, w) f b h = elim (err_not_ok e b h) [ ]

of_task :
    (t : ℕ) (found : Option Attachment) (x : Attachment) (w : World)
    → (require_of_task t found w).0 ≡ ok x
    → x.task_id ≡ t
of_task t none x w h = ground arith
of_task t (some y) x w h = ground (arith, ==_iff y.task_id t)

module _ (rt : Runtime) (token : Text) (i : ℕ) (w : World) where
  -- The attachment that is given out for download belongs to the task that the check of the member
  -- role has given for the request.
  pub download_attachment-own :
      (a : ℕ) (x : Attachment)
      → (download_attachment rt token i a w).0 ≡ ok x
      → (t : Task) × ((require_task_project_role rt Role.member token i (opened w)).0 ≡ ok t)
        × (x.task_id ≡ t.id)
  unfolding download_attachment Attachment.get_by_id
  download_attachment-own a x h =
      let (t, found, rest) =
        first_ok (require_task_project_role rt Role.member token i (opened w)) _ x h in
      (
        t,
        found,
        of_task t.id
            (find (λ y. y.id == a)
              (require_task_project_role rt Role.member token i (opened w)).1.session.attachments)
            x (require_task_project_role rt Role.member token i (opened w)).1 rest,
      )

  -- The notification that a caller marks as read is the caller's own.
  pub mark_notification_read-own :
      (u : User) (n : Notification)
      → (get_current_user rt token (opened w)).0 ≡ ok u
      → (mark_notification_read rt token i w).0 ≡ ok n
      → n.user_id ≡ u.id
  unfolding mark_notification_read Notification.mark_read
  mark_notification_read-own u n g h =
      let (v, found, rest) = first_ok (get_current_user rt token (opened w)) _ n h in
      ground (arith, found, rest, g)
