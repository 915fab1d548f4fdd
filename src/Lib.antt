-- ===== src/Lib.antt =====
-- CollabFlow's backend: a FastAPI application over PostgreSQL, Redis and an S3 bucket. Users belong
-- to organizations, workspaces and projects with a role; projects hold tasks with labels, comments
-- and attachments; what happens goes into an activity log, out on Redis channels to the WebSockets,
-- and into notifications with a mail each. Paths below start at backend/app, those of migrations/
-- at backend.
--
-- How the parts work together. A router (api/routers) opens a session (db/session.py), asks a
-- dependency (core/deps.py) for the caller and the caller's role, and calls a service (services). A
-- service reads and writes through crud, logs the activity, commits, and only then publishes events
-- (ws/events.py) and dispatches notifications. The sockets (api/routers/ws.py) register with a
-- connection manager and count presence in Redis (ws/presence.py). Two listeners
-- (ws/redis_listener.py, started by main.py) relay what was published to the sockets of their
-- process. Request bodies pass the schemas before a router sees them, and the tables are made by
-- the migrations.
--
-- Files and code:
--   Common             shared names, Boolean tests, lists and texts
--   Models             models: Rows has a record for each table, Enums the enumerations
--   World              State: the session, the committed database, what was published, the mail queue,
--                      the bucket's keys, the clock and the number of UUIDs drawn; Actions: an async
--                      def of the code is an action from a state to a result and a state
--   Runtime            what is taken from str, re, uuid, python-jose and passlib, as parameters, with
--                      their documented behaviour as records of laws
--   Config, Security   core/config.py, core/security.py
--   Slugs, Mentions    core/slugs.py, core/mentions.py; Mentions/Pattern has what its pattern finds
--   Storage            core/storage.py; Download has the presigned download
--   Decimal            numerals as f-strings write them
--   Crud               crud, a module for each file; Task/Delete has the cascades of the models;
--                      Task/Order has what the task list's order and filters mean;
--                      Postgres has ORDER BY, ILIKE and the collation as parameters
--   Service            services, a module for each file; Events is the publishing half of ws/events.py,
--                      Task/Update is update_task, Task/Update/Changes its pure part
--   Deps               core/deps.py
--   Responses          the read half of schemas, and the list responses
--   Router             api/routers: Auth, Spaces (organizations, workspaces), Projects (projects,
--                      labels, activity), Tasks, Discussion (comments, activity), Files
--                      (attachments), Notifications; Listing has the task list page by page
--   Channels           the channel names of ws/events.py
--   Realtime           Connections and NotificationConnections (ws/connection_manager.py,
--                      ws/notification_manager.py), Presence (ws/presence.py), Socket
--                      (api/routers/ws.py), Life (its sockets through time), Listener
--                      (ws/redis_listener.py and its two instances in main.py), Dict for Python's
--                      dict and set
--   Worker             workers/tasks.py; Days runs it over several days, Schedule is
--                      workers/celery_app.py
--   App                the process: core/redis.py and the clients of core/storage.py, the bucket, the
--                      health route and lifespan of main.py, core/email.py; Routes has the routing
--                      table, Logging core/logging_config.py, Application the rest of main.py
--   Invariant          the soundness of tasks under every history of requests and daily jobs, and the
--                      tasks of a project under the requests of strangers; Subtasks has what a
--                      deletion takes; Rules has what any such predicate needs
--   Migrations         migrations/versions: Catalog has the operations on the database's catalog, Versions
--                      a module for each revision, Metadata what the classes of models declare,
--                      Heads the catalog at each revision, Server the database server as a parameter,
--                      Env is migrations/env.py with Alembic's context as a parameter
--   Schemas            schemas: the bounds of the request bodies and the colour of a label; Widths has
--                      the columns that they are written to
--   Tests              a concrete runtime, ORDER BY and database, and runs on them
--
-- How the code is modelled. A UUID is the number of the draw that made it, so that ids rise with
-- time; a table is a list with its newest row first. A flush writes the session and raises on a
-- unique constraint; commit copies the session to the committed database, rollback copies it back,
-- and a request starts from the committed database and drops what it did not commit. Foreign keys
-- are not checked, since the code passes ids of rows that it has read. The server default
-- created_at is the clock; updated_at is left out, and refresh, which reads back what was written,
-- is no step. A file's content is its length, and the bucket is the list of its keys. A server
-- orders the rows of one ORDER BY alike each time it is asked, ties included, which PostgreSQL does
-- not promise. Times and dates are numbers, and times of tokens are seconds. An error carries its
-- text, but a value inside the text (a role's name, the size limit) is left out. Inputs of the
-- routes are what pydantic lets through. The calls of Redis, of the mail queue and of the bucket
-- return: what publish, delay, upload_bytes and delete_object raise when their server cannot be
-- reached, in part after a commit, is not modelled. A request runs without another one in between,
-- but for send_to_project and leave, whose steps are apart; in Realtime/Connections/Refinement
-- other tasks run while a send is awaited. In Realtime/Life, for one process, a socket's opening is
-- one step, whether its snapshot can be sent or not, and its closing is two: up to the HINCRBY of
-- leave, and its HDEL with the event; no socket opens while a leave of the same user and project is
-- between the two. In Realtime/Listener the stream of messages is a list, and a cancellation is
-- taken between two messages. In Migrations the server is a parameter that carries out what its
-- catalog allows, a CREATE INDEX only under a free name and on columns that are there; server
-- defaults are left out, and what a run of Alembic leaves is stated for a database that has its
-- table alembic_version already.
--
-- Fuel. The loop of _unique_org_slug runs on one round more than there are organizations, which is
-- enough since its candidates differ. A decimal numeral of n runs on n + 1 digits, which is enough
-- since n has fewer. Everything else is structural recursion.
--
-- Not modelled: JSON, the database engine and session factory, updated_at, boto3's signatures, the
-- path matching and the middleware of the framework, the broker of Celery, the tests of the
-- repository and the frontend.
pub mod Common
pub mod Models
pub mod World
pub mod Crud
pub mod Runtime
pub mod Slugs
pub mod Mentions
pub mod Storage
pub mod Config
pub mod Security
pub mod Service
pub mod Decimal
pub mod Deps
pub mod Responses
pub mod Router
pub mod Channels
pub mod Realtime
pub mod Worker
pub mod App
pub mod Invariant
pub mod Migrations
pub mod Schemas
pub mod Tests
