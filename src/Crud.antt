-- ===== src/Crud.antt =====
-- backend/app/crud: the queries and the flushes on each table. A flush that breaks one of the unique
-- constraints of backend/app/models raises `integrity_error`. Foreign keys are not checked here: that
-- every reference is to a row is a matter of the services' invariant.
pub mod Postgres
pub mod User
pub mod Organization
pub mod Workspace
pub mod Project
pub mod Task
pub mod Label
pub mod Comment
pub mod Activity
pub mod Notification
pub mod Attachment
