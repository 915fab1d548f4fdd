-- ===== src/Models.antt =====
-- The tables of backend/app/models. A UUID is a number: `uuid4` is the draw of a number that no
-- earlier draw had (World), and `str(uuid)` is written as the id itself. `updated_at`, which only
-- the read schemas pass on, is left out. A Python relationship is a query on the table that it names.
mod Enums
mod Rows
pub use Enums.*
pub use Rows.*
