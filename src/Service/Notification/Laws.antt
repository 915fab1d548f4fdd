-- ===== src/Service/Notification/Laws.antt =====
-- A notification on its three ways: the database, the live channel and the mail queue.
use collabflow.Common.{map, ◌==◌, ℕ, ◌≡◌, refl, Option, none, some, List, ◌∷◌, Text, arith, find}
use collabflow.Models.{Notification, NotificationType, User}
use collabflow.World.{World, ok, Email, user_channel, Message, Channel}
use collabflow.Service.Notification.{create_and_dispatch}

-- The mail to a recipient who is still there.
abbrev pub mails : Option User → (title body : Text) → List Email → List Email
mails none title body queue = queue
mails (some u) title body queue =
    record { to_email = u.email; subject = title; body = body } ∷ queue

abbrev pub channels : List Message → List Channel
channels ms = map (λ (m : Message). m.channel) ms

-- `create_and_dispatch` never raises: the unread row is committed for the user, one message goes
-- out on the user's channel, and a mail is queued exactly if the user is found.
pub create_and_dispatch-ok :
    (u : ℕ) (type : NotificationType) (title body : Text) (p t : Option ℕ) (w : World)
    → (n : Notification) × ((create_and_dispatch u type title body p t w).0 ≡ ok n)
      × ((create_and_dispatch u type title body p t w).1.committed.notifications
          ≡ n ∷ w.session.notifications)
      × (n.user_id ≡ u)
      × (n.read_at ≡ none)
      × (channels (create_and_dispatch u type title body p t w).1.published
          ≡ user_channel u ∷ channels w.published)
      × ((create_and_dispatch u type title body p t w).1.queue
          ≡ mails (find (λ v. v.id == u) w.session.users) title body w.queue)
unfolding create_and_dispatch
create_and_dispatch-ok u type title body p t w = (
  record {
    id = w.drawn;
    user_id = u;
    type = type;
    title = title;
    body = body;
    project_id = p;
    task_id = t;
    read_at = none;
    created_at = w.clock;
  },
  ground arith,
  ground arith,
  refl,
  refl,
  ground arith,
  ground arith,
)
