-- ===== src/Service/Comment.antt =====
-- backend/app/services/comment_service.py
pub mod Laws
pub mod Exact
use collabflow.Common.{◌==◌, ℕ, Bool, true, false, Option, none, some, Text, List, [], ◌∷◌, format}
use collabflow.Models.{
  Comment, Task, User, ProjectMembership, ActivityAction, WsEventType, NotificationType,
}
use collabflow.Mentions.{extract_mentioned_emails}
use collabflow.Runtime.{Runtime}
use collabflow.World.{Exec, ◌>>=◌, ◌>>◌, pure, or_raise, commit, attribute_error, comment_data}
use collabflow.Crud.Comment
use collabflow.Crud.Project
use collabflow.Crud.Task
use collabflow.Crud.User
use collabflow.Service.Activity.{log}
use collabflow.Service.Events.{publish_event}
use collabflow.Service.Notification.{create_and_dispatch}

-- The end of the loop's body: only a member of the task's project is notified.
abbrev pub notify_member : Task → User → Option ProjectMembership → Exec (Unit {0})
notify_member task user none = pure tt
notify_member task user (some membership) = do
  _ ←
      create_and_dispatch user.id NotificationType.mention
        (format "You were mentioned in '" task.title "'")
        (format "You were mentioned in a comment on '" task.title "'.") (some task.project_id)
        (some task.id)
  pure tt

abbrev pub unless_author : Bool → Exec (Unit {0}) → Exec (Unit {0})
unless_author true m = pure tt
unless_author false m = m

unfoldable pub notify_user : Task → (author_id : ℕ) → Option User → Exec (Unit {0})
unfolding Project.get_membership create_and_dispatch
notify_user task author_id none = pure tt
notify_user task author_id (some user) = unless_author (user.id == author_id) (do
  membership ← Project.get_membership task.project_id user.id
  notify_member task user membership)

-- _notify_mentions, over the emails that are left
unfoldable pub notify_mentions : Task → (author_id : ℕ) → List Text → Exec (Unit {0})
unfolding notify_user User.get_by_email
notify_mentions task author_id [] = pure tt
notify_mentions task author_id (email ∷ emails) = do
  mentioned_user ← User.get_by_email email
  notify_user task author_id mentioned_user
  notify_mentions task author_id emails

-- `create_comment` up to its last call: the comment and its task.
unfoldable pub post_comment : (task_id author_id : ℕ) → (body : Text) → Exec (Comment × Task)
unfolding Comment.create Task.get_by_id log commit publish_event
post_comment task_id author_id body = do
  comment ← Comment.create task_id author_id body
  found ← Task.get_by_id task_id
  task ← or_raise found attribute_error
  _ ←
      log task.project_id author_id ActivityAction.comment_added
        (format "commented on '" task.title "'") (some task_id) none
  commit
  publish_event task.project_id WsEventType.comment_created
      (comment_data comment.id task_id author_id comment.body) (some author_id)
  pure (comment, task)

-- The call of `_notify_mentions`, and the result.
abbrev pub mention_all : Runtime → (author_id : ℕ) → Comment × Task → Exec Comment
mention_all rt author_id (comment, task) = do
  notify_mentions task author_id (extract_mentioned_emails rt comment.body)
  pure comment

unfoldable pub create_comment : Runtime → (task_id author_id : ℕ) → (body : Text) → Exec Comment
create_comment rt task_id author_id body = do
  posted ← post_comment task_id author_id body
  mention_all rt author_id posted
