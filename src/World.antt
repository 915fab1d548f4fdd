-- ===== src/World.antt =====
-- What a request works on: the session of db/session.py over the committed database, the Redis
-- channels, the Celery queue, the bucket, and the two sources of values that the code draws on.
--
-- A flush writes the session; a commit makes it durable; closing the session drops what was not
-- committed. `expire_on_commit=False` leaves loaded rows as they are, and a `refresh` after a commit
-- reads back the row that the session holds, so it changes nothing and is not written.
mod State
mod Actions
mod Frame
mod Runs
pub use Runs.*
pub use Frame.*
pub use State.*
unfoldable pub use Actions.*
