-- ===== src/App.antt =====
-- The process around the routes: main.py, core/redis.py, core/storage.py and core/email.py of
-- backend/app.
pub mod Clients
pub mod Bucket
pub mod Health
pub mod Logging
pub mod Mail
pub mod Lifespan
pub mod Routes
pub mod Application
