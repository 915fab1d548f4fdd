-- ===== src/Service.antt =====
-- backend/app/services: what the routers call. The children hold a service each.
pub mod Events
pub mod Activity
pub mod Notification
pub mod Auth
pub mod Atomic
pub mod Task
pub mod Label
pub mod Comment
pub mod Organization
pub mod Workspace
pub mod Project
pub mod Attachment
