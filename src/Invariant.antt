-- ===== src/Invariant.antt =====
-- The invariant of the committed database, from the tables up to histories of requests.
pub mod Sound
pub mod Save
pub mod Delete
pub mod Subtasks
pub mod Frame
pub mod Steps
pub mod Updates
pub mod Members
pub mod Good
pub mod Rules
pub mod Elsewhere
pub mod Joining
pub mod Services
pub mod Handlers
pub mod Bystanders
pub mod Requests
pub mod Isolation
pub mod Outside
