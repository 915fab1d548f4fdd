-- ===== src/Realtime.antt =====
-- backend/app/ws: who is connected to this process, who is present in a project, and the life of a
-- WebSocket.
pub mod Dict
pub mod Connections
pub mod NotificationConnections
pub mod Presence
pub mod Socket
pub mod Listener
pub mod Life
