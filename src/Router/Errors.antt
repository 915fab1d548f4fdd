-- ===== src/Router/Errors.antt =====
-- The `except …ServiceError as exc: raise HTTPException(status)` of the routers.
use collabflow.Common.{ℕ}
use collabflow.World.{Exec, Error, auth_error, service_error, http_error, raise, rescue}

abbrev pub as_http : ℕ → Error → Error
as_http status (service_error detail) = http_error status detail
as_http status (auth_error detail) = http_error status detail
as_http status e = e

abbrev pub with_status : {A : Type 0} → ℕ → Exec A → Exec A
with_status status m = rescue m (λ e. raise (as_http status e))
