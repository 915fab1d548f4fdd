-- ===== src/Migrations.antt =====
-- backend/migrations: what a migration may do to the catalog of the database, and the five
-- migrations. The operations are Alembic's and PostgreSQL's: an operation that the server refuses
-- stops the run.
pub mod Catalog
pub mod Columns
pub mod Frame
pub mod Server
pub mod Heads
pub mod Values
pub mod Metadata
pub mod Steps
pub mod Chain
pub mod Env
pub mod Versions
unfoldable pub use Catalog.*
unfoldable pub use Columns.*
unfoldable pub use Versions.*
