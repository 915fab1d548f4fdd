-- ===== src/Service/Comment/Laws.antt =====
-- Who is notified of a comment.
use collabflow.Common.{
  ◌==◌, ℕ, ◌≡◌, refl, Bool, true, false, not, ◌&&◌, Option, none, some, List, [], ◌∷◌, ◌++◌, Text,
  format, arith, All, find, text_eq, is_some, ap, ◌∙◌, Bool-cases, inl, inr,
}
use collabflow.Models.{Task, User, Notification, ProjectMembership, NotificationType}
use collabflow.World.{World, ok, err, Result, continue}
use collabflow.Crud.Project.{is_membership}
use collabflow.Service.Comment.{notify_user, notify_mentions}
use collabflow.Service.Notification.{create_and_dispatch}

-- Someone other than the author who is a member of the project.
abbrev pub may_hear : List ProjectMembership → (project_id author_id user_id : ℕ) → Bool
may_hear ms p author u = not (u == author) && is_some (find (is_membership p u) ms)

-- The notifications are the old ones with new ones in front, all of them for people who may hear.
pub record Tells (ms : List ProjectMembership) (p author : ℕ) (old : List Notification) (w : World)
    : Type 0 where
  pub members : w.session.project_memberships ≡ ms
  pub new : List Notification
  pub added : w.session.notifications ≡ new ++ old
  pub heard : All (λ n. may_hear ms p author n.user_id ≡ true) new

mention_of : Task → User → World → Notification
mention_of task user w = record {
  id = w.drawn;
  user_id = user.id;
  type = NotificationType.mention;
  title = format "You were mentioned in '" task.title "'";
  body = format "You were mentioned in a comment on '" task.title "'.";
  project_id = some task.project_id;
  task_id = some task.id;
  read_at = none;
  created_at = w.clock;
}

module _ (task : Task) (author : ℕ) (u : User) (w : World) where
  hearing : Bool
  hearing = may_hear w.session.project_memberships task.project_id author u.id

  notify_user-heard :
      hearing ≡ true
      → (notify_user task author (some u) w).1.session.notifications
        ≡ mention_of task u w ∷ w.session.notifications
  unfolding notify_user create_and_dispatch hearing mention_of
  notify_user-heard h = ground (arith, h)

  notify_user-unheard :
      hearing ≡ false
      → (notify_user task author (some u) w).1.session.notifications ≡ w.session.notifications
  unfolding notify_user hearing
  notify_user-unheard h = ground (arith, h)

  notify_user-members :
      (notify_user task author (some u) w).1.session.project_memberships
      ≡ w.session.project_memberships
  unfolding notify_user create_and_dispatch
  notify_user-members = ground arith

module _ (ms : List ProjectMembership) (task : Task) (author : ℕ) (old : List Notification) where
  notify_user-Tells :
      (u : Option User) (w : World)
      → Tells ms task.project_id author old w
      → Tells ms task.project_id author old (notify_user task author u w).1
  unfolding notify_user hearing mention_of
  notify_user-Tells none w t = t
  notify_user-Tells (some u) w t = elim (Bool-cases (may_hear ms task.project_id author u.id)) [
    | inl heard ↦ record {
      members = notify_user-members task author u w ∙ t.members;
      new = mention_of task u w ∷ t.new;
      added =
          notify_user-heard task author u w (rw t.members heard)
          ∙ ap (λ ns. mention_of task u w ∷ ns) t.added;
      heard = (heard, t.heard);
    }
    | inr unheard ↦ record {
      members = notify_user-members task author u w ∙ t.members;
      new = t.new;
      added = notify_user-unheard task author u w (rw t.members unheard) ∙ t.added;
      heard = t.heard;
    }
  ]

  continue-Tells :
      (r : Result (Unit {0}) × World) (emails : List Text)
      → Tells ms task.project_id author old r.1
      → ((w : World)
          → Tells ms task.project_id author old w
          → Tells ms task.project_id author old (notify_mentions task author emails w).1)
      → Tells ms task.project_id author old (continue r (λ _. notify_mentions task author emails)).1
  continue-Tells (ok x, w) emails t k = k w t
  continue-Tells (err x, w) emails t k = t

  notify_mentions-Tells :
      (emails : List Text) (w : World)
      → Tells ms task.project_id author old w
      → Tells ms task.project_id author old (notify_mentions task author emails w).1
  unfolding notify_mentions
  notify_mentions-Tells [] w t = t
  notify_mentions-Tells (e ∷ emails) w t =
      continue-Tells (notify_user task author (find (λ u. text_eq u.email e) w.session.users) w)
        emails (notify_user-Tells (find (λ u. text_eq u.email e) w.session.users) w t)
        (λ w' t'. notify_mentions-Tells emails w' t')

-- A comment's mentions add notifications to the session in front of those there were, each for a
-- member of the project who is not the author, and change no project membership.
pub notify_mentions-heard :
    (task : Task) (author : ℕ) (emails : List Text) (w : World)
    → Tells w.session.project_memberships task.project_id author w.session.notifications
        (notify_mentions task author emails w).1
notify_mentions-heard task author emails w =
    notify_mentions-Tells w.session.project_memberships task author w.session.notifications emails w
      (record { members = refl; new = []; added = refl; heard = tt })
