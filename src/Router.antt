-- ===== src/Router.antt =====
-- backend/app/api/routers: the handlers behind the HTTP routes. A handler is given the bearer token
-- and the parts of the request that FastAPI and pydantic have validated (lengths, page >= 1,
-- 1 <= page_size <= 100). `request` opens its session and closes it.
pub mod Ownership
pub mod Refusal
pub mod Presence
pub mod Errors
pub mod Access
pub mod Auth
pub mod Spaces
pub mod Projects
pub mod Tasks
pub mod Discussion
pub mod Files
pub mod Notifications
pub mod Listing
