-- ===== src/Service/Activity.antt =====
-- backend/app/services/activity_service.py
use collabflow.Common.{ℕ, Option, List, Text}
use collabflow.Models.{ActivityLog, ActivityAction, Change}
use collabflow.World.{Exec}
use collabflow.Crud.Activity

unfoldable pub log :
    (project_id actor_id : ℕ)
    → ActivityAction
    → (summary : Text) → (task_id : Option ℕ) → (metadata : Option (List Change)) → Exec ActivityLog
unfolding Activity.create
log project_id actor_id action summary task_id metadata =
    Activity.create project_id actor_id action summary task_id metadata
