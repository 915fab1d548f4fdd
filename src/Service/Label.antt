-- ===== src/Service/Label.antt =====
-- backend/app/services/label_service.py
pub mod Laws
use collabflow.Common.{ℕ, Text, none, format}
use collabflow.Models.{Label, ActivityAction}
use collabflow.World.{
  Exec, ◌>>=◌, ◌>>◌, pure, raise, rescue, commit, rollback, Error, integrity_error, service_error,
}
use collabflow.Crud.Label
use collabflow.Service.Activity.{log}

-- except IntegrityError
abbrev pub on_integrity_error : Error → Exec Label
on_integrity_error integrity_error = do
  rollback
  raise (service_error "A label with this name already exists in this project")
on_integrity_error e = raise e

unfoldable pub create_label : (project_id : ℕ) → (name color : Text) → (actor_id : ℕ) → Exec Label
unfolding Label.create log commit rollback
create_label project_id name color actor_id =
    rescue
      (do
        label ← Label.create project_id name color
        _ ←
            log project_id actor_id ActivityAction.label_created (format "created label '" name "'")
              none none
        commit
        pure label)
      on_integrity_error
