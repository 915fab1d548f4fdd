-- ===== src/App/Routes.antt =====
-- The route table: the prefixes and the decorators of api/routers/*.py, and the `include_router`
-- calls of main.py.
pub mod Matching
use collabflow.Common.{String, Text, codes, List, [], ◌∷◌, ◌++◌, map}

pub data Method : Type 0 where
  get post patch delete websocket : Method

-- A route by its method, its path with the prefix in front, and the router and the function.
pub record Route : Type 0 where
  pub method : Method
  pub path : Text
  pub endpoint : Text

-- `@router.get(path)` on a function
abbrev pub on : Method → (path endpoint : String) → Route
on method path endpoint = record { method = method; path = codes path; endpoint = codes endpoint }

-- `APIRouter(prefix=prefix)` with its routes
abbrev pub api_router : (prefix : String) → List Route → List Route
api_router prefix routes =
    map (λ r. record { method = r.method; path = codes prefix ++ r.path; endpoint = r.endpoint })
      routes

abbrev pub auth_router : List Route
auth_router = api_router "/api/auth" (
    on Method.post "/register" "auth.register"
    ∷ on Method.post "/login" "auth.login"
    ∷ on Method.post "/refresh" "auth.refresh"
    ∷ on Method.get "/me" "auth.read_current_user"
    ∷ [])

abbrev pub organizations_router : List Route
organizations_router = api_router "/api/organizations" (
    on Method.post "" "organizations.create_organization"
    ∷ on Method.get "" "organizations.list_organizations"
    ∷ [])

abbrev pub workspaces_router : List Route
workspaces_router = api_router "/api/organizations/{organization_id}/workspaces" (
    on Method.post "" "workspaces.create_workspace"
    ∷ on Method.get "" "workspaces.list_workspaces"
    ∷ [])

abbrev pub workspaces_member_router : List Route
workspaces_member_router = api_router "/api/workspaces/{workspace_id}" (
    on Method.get "/members" "workspaces.list_workspace_members"
    ∷ on Method.post "/members" "workspaces.invite_workspace_member"
    ∷ [])

abbrev pub projects_router : List Route
projects_router =
    api_router "/api/workspaces/{workspace_id}/projects"
      (on Method.post "" "projects.create_project" ∷ on Method.get "" "projects.list_projects" ∷ [])

abbrev pub projects_member_router : List Route
projects_member_router = api_router "/api/projects/{project_id}" (
    on Method.get "/members" "projects.list_project_members"
    ∷ on Method.post "/members" "projects.invite_project_member"
    ∷ on Method.get "/presence" "projects.get_project_presence"
    ∷ [])

abbrev pub tasks_project_router : List Route
tasks_project_router =
    api_router "/api/projects/{project_id}/tasks"
      (on Method.post "" "tasks.create_task" ∷ on Method.get "" "tasks.list_tasks" ∷ [])

abbrev pub tasks_task_router : List Route
tasks_task_router = api_router "/api/tasks/{task_id}" (
    on Method.get "" "tasks.get_task"
    ∷ on Method.patch "" "tasks.update_task"
    ∷ on Method.delete "" "tasks.delete_task"
    ∷ on Method.get "/subtasks" "tasks.list_subtasks"
    ∷ [])

abbrev pub labels_router : List Route
labels_router =
    api_router "/api/projects/{project_id}/labels"
      (on Method.post "" "labels.create_label" ∷ on Method.get "" "labels.list_labels" ∷ [])

abbrev pub comments_router : List Route
comments_router =
    api_router "/api/tasks/{task_id}/comments"
      (on Method.post "" "comments.create_comment" ∷ on Method.get "" "comments.list_comments" ∷ [])

abbrev pub activity_project_router : List Route
activity_project_router =
    api_router "/api/projects/{project_id}/activity"
      (on Method.get "" "activity.list_project_activity" ∷ [])

abbrev pub activity_task_router : List Route
activity_task_router =
    api_router "/api/tasks/{task_id}/activity" (on Method.get "" "activity.list_task_activity" ∷ [])

abbrev pub notifications_router : List Route
notifications_router = api_router "/api/notifications" (
    on Method.get "" "notifications.list_notifications"
    ∷ on Method.get "/unread-count" "notifications.get_unread_count"
    ∷ on Method.post "/read-all" "notifications.mark_all_read"
    ∷ on Method.post "/{notification_id}/read" "notifications.mark_notification_read"
    ∷ [])

abbrev pub attachments_router : List Route
attachments_router = api_router "/api/tasks/{task_id}/attachments" (
    on Method.post "" "attachments.upload_attachment"
    ∷ on Method.get "" "attachments.list_attachments"
    ∷ on Method.get "/{attachment_id}/download" "attachments.download_attachment"
    ∷ on Method.delete "/{attachment_id}" "attachments.delete_attachment"
    ∷ [])

abbrev pub ws_router : List Route
ws_router = on Method.websocket "/ws/projects/{project_id}" "ws.project_websocket" ∷ []

abbrev pub ws_notifications_router : List Route
ws_notifications_router = on Method.websocket "/ws/notifications" "ws.notifications_websocket" ∷ []

-- The `include_router` calls, in order, and then `@app.get("/health")`.
unfoldable pub routes : List Route
routes =
    auth_router
    ++ organizations_router
    ++ workspaces_router
    ++ workspaces_member_router
    ++ projects_router
    ++ projects_member_router
    ++ tasks_project_router
    ++ tasks_task_router
    ++ labels_router
    ++ comments_router
    ++ activity_project_router
    ++ activity_task_router
    ++ notifications_router
    ++ attachments_router
    ++ ws_router
    ++ ws_notifications_router
    ++ on Method.get "/health" "main.health" ∷ []
