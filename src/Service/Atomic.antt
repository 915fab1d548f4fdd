-- ===== src/Service/Atomic.antt =====
-- What label, project and organization services leave behind when they raise.
use collabflow.Common.{ℕ, ◌≡◌, arith, Text}
use collabflow.World.{World, err, Error, Untouched}
use collabflow.Runtime.{Runtime}
use collabflow.Service.Label as LabelService
use collabflow.Service.Project as ProjectService
use collabflow.Service.Organization as OrganizationService

pub create_label_error :
    (p : ℕ) (name color : Text) (a : ℕ) (w : World) (e : Error)
    → (LabelService.create_label p name color a w).0 ≡ err e
    → Untouched w (LabelService.create_label p name color a w).1
unfolding LabelService.create_label
create_label_error p name color a w e h = ground arith

pub create_project_error :
    (rt : Runtime) (p : ℕ) (name : Text) (d : _) (a : ℕ) (w : World) (e : Error)
    → (ProjectService.create_project rt p name d a w).0 ≡ err e
    → Untouched w (ProjectService.create_project rt p name d a w).1
unfolding ProjectService.create_project
create_project_error rt p name d a w e h = ground arith

pub create_org_error :
    (rt : Runtime) (name : Text) (a : ℕ) (w : World) (e : Error)
    → (OrganizationService.create_organization_with_owner rt name a w).0 ≡ err e
    → Untouched w (OrganizationService.create_organization_with_owner rt name a w).1
unfolding OrganizationService.create_organization_with_owner
create_org_error rt name a w e h = ground arith
