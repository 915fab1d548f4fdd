-- ===== src/Router/Refusal.antt =====
-- Callers whom backend/app/core/deps.py refuses, on the routes of a task and of a project.
use collabflow.Common.{ℕ, ◌≡◌, refl, Option, Text}
use collabflow.Config.{Settings}
use collabflow.World.{World, err, Error, Exec, ◌>>=◌, request}
use collabflow.Invariant.Good.{opened}
use collabflow.Router.Access.{require_task_project_role-same, require_project_role-same}
use collabflow.Models.{Role}
use collabflow.Runtime.{Runtime}
use collabflow.Crud.Postgres.{Postgres}
use collabflow.Deps.{require_task_project_role, require_project_role}
use collabflow.Crud.Task.{TaskFilter, TaskSortField, SortOrder}
use collabflow.Realtime.Presence.{Hashes}
use collabflow.Router.Projects.{
  list_labels, list_project_members, list_project_activity, get_project_presence,
}
use collabflow.Router.Tasks.{TaskCreate, create_task, list_tasks, update_task, delete_task}
use collabflow.Router.Discussion.{create_comment}
use collabflow.Router.Files.{upload_attachment, delete_attachment}
use collabflow.Service.Task.Update.{TaskUpdate}

refuse :
    {A B : Type 0} (m : Exec A) (k : A → Exec B) (w : World) (e : Error)
    → (m (opened w)).0 ≡ err e
    → (m (opened w)).1 ≡ opened w
    → request (m >>= k) w ≡ (err e, opened w)
unfolding request
refuse m k w e h s = rw h (rw s refl)

module _ (rt : Runtime) (token : Text) (i : ℕ) (w : World) (e : Error) where
  -- A caller who is refused as a member of a task's project gets the refusal from the routes that
  -- update the task, comment on it and attach to it. Nothing is written, sent or uploaded.
  pub refused_as_member :
      (require_task_project_role rt Role.member token i (opened w)).0 ≡ err e
      → ((u : TaskUpdate) → update_task rt token i u w ≡ (err e, opened w))
        × ((body : Text) → create_comment rt token i body w ≡ (err e, opened w))
        × ((settings : Settings) (filename content_type : Option Text) (size : ℕ)
            → upload_attachment rt token settings i filename content_type size w
              ≡ (err e, opened w))
  unfolding update_task create_comment upload_attachment
  refused_as_member h = (
    λ u.
        refuse (require_task_project_role rt Role.member token i) _ w e h
          (require_task_project_role-same rt Role.member token (opened w) i),
    λ body.
        refuse (require_task_project_role rt Role.member token i) _ w e h
          (require_task_project_role-same rt Role.member token (opened w) i),
    λ settings f c n.
        refuse (require_task_project_role rt Role.member token i) _ w e h
          (require_task_project_role-same rt Role.member token (opened w) i),
  )

  -- A caller who is refused as an admin of a task's project gets the refusal from the routes that
  -- delete the task and its attachments. Nothing is deleted or sent.
  pub refused_as_admin :
      (require_task_project_role rt Role.admin token i (opened w)).0 ≡ err e
      → ((pg : Postgres) → delete_task rt token pg i w ≡ (err e, opened w))
        × ((a : ℕ) → delete_attachment rt token i a w ≡ (err e, opened w))
  unfolding delete_task delete_attachment
  refused_as_admin h = (
    λ pg.
        refuse (require_task_project_role rt Role.admin token i) _ w e h
          (require_task_project_role-same rt Role.admin token (opened w) i),
    λ a.
        refuse (require_task_project_role rt Role.admin token i) _ w e h
          (require_task_project_role-same rt Role.admin token (opened w) i),
  )

module _ (rt : Runtime) (token : Text) (p : ℕ) (w : World) (e : Error) where
  -- A caller who is refused as a member of a project gets the refusal from six of the project's
  -- routes: the one that makes a task, and those that list the project's tasks, its labels, its members
  -- and its activity, and give its presence over HTTP. They give nothing out, and write and send
  -- nothing.
  pub refused_by_project :
      (require_project_role rt Role.member token p (opened w)).0 ≡ err e
      → ((task_in : TaskCreate) → create_task rt token p task_in w ≡ (err e, opened w))
        × ((pg : Postgres) (f : TaskFilter) (sort_by : TaskSortField) (order : SortOrder)
              (page page_size : ℕ)
            → list_tasks rt token pg p f sort_by order page page_size w ≡ (err e, opened w))
        × (list_labels rt token p w ≡ (err e, opened w))
        × (list_project_members rt token p w ≡ (err e, opened w))
        × ((pg : Postgres) (page page_size : ℕ)
            → list_project_activity rt token pg p page page_size w ≡ (err e, opened w))
        × ((hashes : Hashes) → get_project_presence rt token hashes p w ≡ (err e, opened w))
  unfolding create_task list_tasks list_labels list_project_members list_project_activity
      get_project_presence
  refused_by_project h =
      let same = require_project_role-same rt Role.member token (opened w) p in
      (
        λ task_in. refuse (require_project_role rt Role.member token p) _ w e h same,
        λ pg f sort_by order page page_size.
            refuse (require_project_role rt Role.member token p) _ w e h same,
        refuse (require_project_role rt Role.member token p) _ w e h same,
        refuse (require_project_role rt Role.member token p) _ w e h same,
        λ pg page page_size. refuse (require_project_role rt Role.member token p) _ w e h same,
        λ hashes. refuse (require_project_role rt Role.member token p) _ w e h same,
      )
