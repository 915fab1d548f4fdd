-- ===== src/Invariant/Frame.antt =====
-- The operations that leave tasks and project memberships alone.
use collabflow.Common.{ℕ, ◌≤◌, ◌≡◌, Option, none, some, List, [], ◌∷◌, Text, arith, find, text_eq}
use collabflow.Config.{Settings}
use collabflow.World.{World, Exec, Result, ok, err, continue, pure}
use collabflow.Models.{Task, ProjectMembership, Role, Attachment, User, Notification, Comment}
use collabflow.Runtime.{Runtime}
use collabflow.Service.Auth.{UserCreate, register_user}
use collabflow.Service.Attachment.{upload_attachment, delete_attachment}
use collabflow.Service.Comment.{
  notify_user, notify_mentions, post_comment, mention_all, create_comment,
}
use collabflow.Service.Label.{create_label}
use collabflow.Service.Organization.{create_organization_with_owner}
use collabflow.Service.Workspace.{create_workspace, invite_member}
use collabflow.Worker.{remind, remind_all}
use collabflow.Mentions.{extract_mentioned_emails}
use collabflow.Service.Notification.{create_and_dispatch}
use collabflow.Crud.Notification.{mark_read, mark_all_read}

-- The session and the committed database show these tasks and memberships, and at least `n` UUIDs
-- were drawn.
pub record Shows (tasks : List Task) (members : List ProjectMembership) (n : ℕ) (w : World)
    : Type 0 where
  pub session_tasks : w.session.tasks ≡ tasks
  pub session_members : w.session.project_memberships ≡ members
  pub committed_tasks : w.committed.tasks ≡ tasks
  pub committed_members : w.committed.project_memberships ≡ members
  pub drawn : n ≤ w.drawn

module _ {ts : List Task} {ms : List ProjectMembership} {n : ℕ} where
  -- A sequence of two actions.
  pub continue-Shows :
      {A B : Type 0} (r : Result A × World) (f : A → Exec B)
      → Shows ts ms n r.1
      → ((a : A) (w : World) → Shows ts ms n w → Shows ts ms n (f a w).1)
      → Shows ts ms n (continue r f).1
  continue-Shows (ok a, w) f s k = k a w s
  continue-Shows (err e, w) f s k = s

  pub register_user-Shows :
      (rt : Runtime) (user_in : UserCreate) (w : World)
      → Shows ts ms n w
      → Shows ts ms n (register_user rt user_in w).1
  unfolding register_user
  register_user-Shows rt user_in w s = ground arith

  pub upload_attachment-Shows :
      (rt : Runtime) (settings : Settings) (t p u : ℕ) (filename content_type : Text) (size : ℕ)
      (w : World)
      → Shows ts ms n w
      → Shows ts ms n (upload_attachment rt settings t p u filename content_type size w).1
  unfolding upload_attachment
  upload_attachment-Shows rt settings t p u filename content_type size w s = ground arith

  pub delete_attachment-Shows :
      (a : Attachment) (p u : ℕ) (w : World)
      → Shows ts ms n w
      → Shows ts ms n (delete_attachment a p u w).1
  unfolding delete_attachment
  delete_attachment-Shows a p u w s = ground arith

  pub create_label-Shows :
      (p : ℕ) (name color : Text) (u : ℕ) (w : World)
      → Shows ts ms n w
      → Shows ts ms n (create_label p name color u w).1
  unfolding create_label
  create_label-Shows p name color u w s = ground arith

  pub create_organization-Shows :
      (rt : Runtime) (name : Text) (u : ℕ) (w : World)
      → Shows ts ms n w
      → Shows ts ms n (create_organization_with_owner rt name u w).1
  unfolding create_organization_with_owner
  create_organization-Shows rt name u w s = ground arith

  pub create_workspace-Shows :
      (rt : Runtime) (o : ℕ) (name : Text) (u : ℕ) (w : World)
      → Shows ts ms n w
      → Shows ts ms n (create_workspace rt o name u w).1
  unfolding create_workspace
  create_workspace-Shows rt o name u w s = ground arith

  pub invite_workspace_member-Shows :
      (o : ℕ) (email : Text) (role : Role) (w : World)
      → Shows ts ms n w
      → Shows ts ms n (invite_member o email role w).1
  unfolding invite_member
  invite_workspace_member-Shows o email role w s = ground arith

  notify_user-Shows :
      (task : Task) (author : ℕ) (u : Option User) (w : World)
      → Shows ts ms n w
      → Shows ts ms n (notify_user task author u w).1
  unfolding notify_user
  notify_user-Shows task author none w s = s
  notify_user-Shows task author (some u) w s = ground arith

  pub notify_mentions-Shows :
      (task : Task) (author : ℕ) (emails : List Text) (w : World)
      → Shows ts ms n w
      → Shows ts ms n (notify_mentions task author emails w).1
  unfolding notify_mentions
  notify_mentions-Shows task author [] w s = s
  notify_mentions-Shows task author (e ∷ emails) w s =
      continue-Shows (notify_user task author (find (λ u. text_eq u.email e) w.session.users) w)
        (λ _. notify_mentions task author emails)
        (notify_user-Shows task author (find (λ u. text_eq u.email e) w.session.users) w s)
        (λ _ w' s'. notify_mentions-Shows task author emails w' s')

  post_comment-Shows :
      (t u : ℕ) (body : Text) (w : World)
      → Shows ts ms n w
      → Shows ts ms n (post_comment t u body w).1
  unfolding post_comment
  post_comment-Shows t u body w s = ground arith

  mention_all-Shows :
      (rt : Runtime) (u : ℕ) (posted : Comment × Task) (w : World)
      → Shows ts ms n w
      → Shows ts ms n (mention_all rt u posted w).1
  mention_all-Shows rt u (comment, task) w s =
      let emails : List Text = extract_mentioned_emails rt comment.body in
      continue-Shows {B = Comment} (notify_mentions task u emails w) (λ _. pure comment)
        (notify_mentions-Shows task u emails w s) (λ _ w' s'. s')

  pub create_comment-Shows :
      (rt : Runtime) (t u : ℕ) (body : Text) (w : World)
      → Shows ts ms n w
      → Shows ts ms n (create_comment rt t u body w).1
  unfolding create_comment
  create_comment-Shows rt t u body w s =
      continue-Shows (post_comment t u body w) (mention_all rt u) (post_comment-Shows t u body w s)
        (λ posted w' s'. mention_all-Shows rt u posted w' s')

  remind-Shows :
      (date_text : ℕ → Text) (task : Task) (a : Option ℕ) (w : World)
      → Shows ts ms n w
      → Shows ts ms n (remind date_text task a w).1
  unfolding create_and_dispatch
  remind-Shows d task none w s = s
  remind-Shows d task (some a) w s = ground arith

  pub remind_all-Shows :
      (date_text : ℕ → Text) (tasks : List Task) (w : World)
      → Shows ts ms n w
      → Shows ts ms n (remind_all date_text tasks w).1
  unfolding remind_all
  remind_all-Shows d [] w s = s
  remind_all-Shows d (task ∷ tasks) w s =
      continue-Shows (remind d task task.assignee_id w) (λ _. remind_all d tasks)
        (remind-Shows d task task.assignee_id w s) (λ _ w' s'. remind_all-Shows d tasks w' s')

  pub mark_all_read-Shows :
      (u : ℕ) (w : World) → Shows ts ms n w → Shows ts ms n (mark_all_read u w).1
  unfolding mark_all_read
  mark_all_read-Shows u w s = ground arith

  pub mark_read-Shows :
      (u : Notification) (w : World) → Shows ts ms n w → Shows ts ms n (mark_read u w).1
  unfolding mark_read
  mark_read-Shows u w s = ground arith
