-- ===== src/Invariant/Requests.antt =====
-- Requests one after the other: what any history of them does to the committed database.
use collabflow.Common.{ℕ, Option, List, [], ◌∷◌, Text}
use collabflow.World.{World, Db}
use collabflow.Models.{Role}
use collabflow.Runtime.{Runtime}
use collabflow.Config.{Settings}
use collabflow.Crud.Postgres.{Postgres}
use collabflow.Router.Tasks.{TaskCreate, create_task, update_task, delete_task}
use collabflow.Router.Projects.{create_project, invite_project_member, create_label}
use collabflow.Router.Spaces.{create_organization, create_workspace, invite_workspace_member}
use collabflow.Router.Discussion.{create_comment}
use collabflow.Router.Auth.{register}
use collabflow.Router.Files.{upload_attachment, delete_attachment}
use collabflow.Router.Notifications.{mark_notification_read, mark_all_read}
use collabflow.Service.Auth.{UserCreate}
use collabflow.Service.Task.Update.{TaskUpdate}
use collabflow.Worker.{send_due_soon_reminders}
use collabflow.Invariant.Bystanders.{
  handle_register, handle_upload_attachment, handle_delete_attachment, handle_mark_all_read,
  handle_mark_notification_read, handle_reminders,
}
use collabflow.Invariant.Good.{IsGood}
use collabflow.Invariant.Rules.{Holds, IsKept}
use collabflow.Invariant.Services.{IsGood-IsKept}
use collabflow.Invariant.Handlers.{
  handle_create_task, handle_update_task, handle_delete_task, handle_create_comment,
  handle_create_project, handle_invite_project_member, handle_create_label,
  handle_create_organization, handle_create_workspace, handle_invite_workspace_member,
}

-- One request of those that write to the database, or the daily job.
pub data Request : Type 0 where
  creates_task : (project_id : ℕ) → TaskCreate → Request
  updates_task : (task_id : ℕ) → TaskUpdate → Request
  deletes_task : (task_id : ℕ) → Request
  creates_comment : (task_id : ℕ) → (body : Text) → Request
  creates_project : (workspace_id : ℕ) → (name : Text) → (description : Option Text) → Request
  invites_to_project : (project_id : ℕ) → (email : Text) → Role → Request
  creates_label : (project_id : ℕ) → (name color : Text) → Request
  creates_organization : (name : Text) → Request
  creates_workspace : (organization_id : ℕ) → (name : Text) → Request
  invites_to_workspace : (workspace_id : ℕ) → (email : Text) → Role → Request
  registers : UserCreate → Request
  uploads_attachment :
      (task_id : ℕ) → (filename content_type : Option Text) → (size_bytes : ℕ) → Request
  deletes_attachment : (task_id attachment_id : ℕ) → Request
  marks_read : (notification_id : ℕ) → Request
  marks_all_read : Request
  reminds : (date_text : ℕ → Text) → (today : ℕ) → Request

-- The world after the request, whoever sends it. The job has no sender.
pub serve : Runtime → Settings → Postgres → (token : Text) → Request → World → World
serve rt settings pg token (creates_task p task_in) w = (create_task rt token p task_in w).1
serve rt settings pg token (updates_task i u) w = (update_task rt token i u w).1
serve rt settings pg token (deletes_task i) w = (delete_task rt token pg i w).1
serve rt settings pg token (creates_comment i body) w = (create_comment rt token i body w).1
serve rt settings pg token (creates_project o name d) w = (create_project rt token o name d w).1
serve rt settings pg token (invites_to_project p e r) w = (invite_project_member rt token p e r w).1
serve rt settings pg token (creates_label p name c) w = (create_label rt token p name c w).1
serve rt settings pg token (creates_organization name) w = (create_organization rt token name w).1
serve rt settings pg token (creates_workspace o name) w = (create_workspace rt token o name w).1
serve rt settings pg token (invites_to_workspace o e r) w =
    (invite_workspace_member rt token o e r w).1
serve rt settings pg token (registers user_in) w = (register rt user_in w).1
serve rt settings pg token (uploads_attachment i name kind size) w =
    (upload_attachment rt token settings i name kind size w).1
serve rt settings pg token (deletes_attachment i a) w = (delete_attachment rt token i a w).1
serve rt settings pg token (marks_read n) w = (mark_notification_read rt token n w).1
serve rt settings pg token marks_all_read w = (mark_all_read rt token w).1
serve rt settings pg token (reminds d today) w = (send_due_soon_reminders d today w).1

-- A predicate that the three operations on tasks keep, and that depends on the tasks and memberships
-- alone, is kept by every request.
pub serve-Holds :
    {P : ℕ → Db → Type 0} (rt : Runtime) (settings : Settings) (pg : Postgres) (token : Text)
    (r : Request) (w : World)
    → IsKept P rt token w
    → Holds P (serve rt settings pg token r w)
unfolding serve
serve-Holds rt settings pg token (creates_task p task_in) w k =
    handle_create_task rt token w k p task_in
serve-Holds rt settings pg token (updates_task i u) w k = handle_update_task rt token w k i u
serve-Holds rt settings pg token (deletes_task i) w k = handle_delete_task rt token w k pg i
serve-Holds rt settings pg token (creates_comment i body) w k =
    handle_create_comment rt token w k i body
serve-Holds rt settings pg token (creates_project o name d) w k =
    handle_create_project rt token w k o name d
serve-Holds rt settings pg token (invites_to_project p e r) w k =
    handle_invite_project_member rt token w k p e r
serve-Holds rt settings pg token (creates_label p name c) w k =
    handle_create_label rt token w k p name c
serve-Holds rt settings pg token (creates_organization name) w k =
    handle_create_organization rt token w k name
serve-Holds rt settings pg token (creates_workspace o name) w k =
    handle_create_workspace rt token w k o name
serve-Holds rt settings pg token (invites_to_workspace o e r) w k =
    handle_invite_workspace_member rt token w k o e r
serve-Holds rt settings pg token (registers user_in) w k = handle_register rt token w k user_in
serve-Holds rt settings pg token (uploads_attachment i name kind size) w k =
    handle_upload_attachment rt token w k settings i name kind size
serve-Holds rt settings pg token (deletes_attachment i a) w k =
    handle_delete_attachment rt token w k i a
serve-Holds rt settings pg token (marks_read n) w k = handle_mark_notification_read rt token w k n
serve-Holds rt settings pg token marks_all_read w k = handle_mark_all_read rt token w k
serve-Holds rt settings pg token (reminds d today) w k = handle_reminders rt token w k d today

pub serve-IsGood :
    (rt : Runtime) (settings : Settings) (pg : Postgres) (token : Text) (r : Request) (w : World)
    → IsGood w
    → IsGood (serve rt settings pg token r w)
serve-IsGood rt settings pg token r w g =
    serve-Holds rt settings pg token r w (IsGood-IsKept rt token w g)

-- A history: who sends what, oldest first.
unfoldable pub serve_all : Runtime → Settings → Postgres → List (Text × Request) → World → World
serve_all rt settings pg [] w = w
serve_all rt settings pg ((token, r) ∷ rs) w =
    serve_all rt settings pg rs (serve rt settings pg token r w)

-- After any history of requests and daily jobs from a world whose committed tasks are sound, in the
-- committed database every task's assignee is a member of its project, its parent is an older task
-- of that project, and task ids are distinct.
pub serve_all-IsGood :
    (rt : Runtime) (settings : Settings) (pg : Postgres) (rs : List (Text × Request)) (w : World)
    → IsGood w
    → IsGood (serve_all rt settings pg rs w)
unfolding serve_all
serve_all-IsGood rt settings pg [] w g = g
serve_all-IsGood rt settings pg ((token, r) ∷ rs) w g =
    serve_all-IsGood rt settings pg rs (serve rt settings pg token r w)
      (serve-IsGood rt settings pg token r w g)
