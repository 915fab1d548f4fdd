-- ===== src/Migrations/Env.antt =====
-- migrations/env.py: how Alembic runs a list of operations, on the server or into a script.
pub mod Laws
use collabflow.Common.{
  codes, Bool, true, false, Option, none, some, Text, List, [], ◌∷◌, ◌≡◌, contains,
}
use collabflow.Migrations.Catalog.{Catalog, Op, has_table}
use collabflow.Migrations.Server.{Server, execute_all}

-- Alembic writes the revision into a table of its own, which it makes where it is missing.
unfoldable pub is_versioned : Catalog → Bool
unfolding has_table
is_versioned c = has_table (codes "alembic_version") c.tables

-- What env.py relies on of Alembic: the option of its Config, whose values are interpolated, so that a
-- lone `%` is an error; and the transaction around the operations, which PostgreSQL has for DDL too. What
-- a run leaves in the catalog is stated where Alembic's own table is there before and after it.
pub record Context (server : Server) : Type 0 where
  -- `set_main_option` and `get_main_option`
  pub main_option : Text → Option Text
  pub main_option-plain : (url : Text) → contains url 37 ≡ false → main_option url ≡ some url
  -- `with context.begin_transaction(): context.run_migrations()`: whether it was left without an
  -- exception, and the state of the server.
  pub begin_transaction : (server.State → Option server.State) → server.State → Bool × server.State
  pub commits :
      (body : server.State → Option server.State) (s t : server.State)
      → is_versioned (server.catalog s) ≡ true
      → is_versioned (server.catalog t) ≡ true
      → body s ≡ some t
      → begin_transaction body s ≡ (true, t)
  pub rolls_back :
      (body : server.State → Option server.State) (s : server.State)
      → body s ≡ none
      → begin_transaction body s ≡ (false, s)
  -- The script that is written in the offline mode.
  pub script : List Op → Text

pub data Connecting : Type 0 where
  connects : (url : Text) → Connecting
  closes disposes : Connecting

module _ {server : Server} (context : Context server) where
  unfoldable pub do_run_migrations : List Op → server.State → Bool × server.State
  do_run_migrations ops s = context.begin_transaction (execute_all server ops) s

  -- An exception leaves the `async with`, and the engine is not disposed of.
  abbrev pub disposed : Bool × server.State → (url : Text) → Bool × server.State × List Connecting
  disposed (true, s) url = (true, s, connects url ∷ closes ∷ disposes ∷ [])
  disposed (false, s) url = (false, s, connects url ∷ closes ∷ [])

  unfoldable pub run_async_migrations :
      (url : Text) → List Op → server.State → Bool × server.State × List Connecting
  unfolding do_run_migrations
  run_async_migrations url ops s = disposed (do_run_migrations ops s) url

  -- How the file ends: with the ValueError of the option, with a script for the url, or with a run.
  pub data Outcome : Type 0 where
    value_error : Outcome
    scripted : (url text : Text) → Outcome
    migrated : Bool × server.State × List Connecting → Outcome

  abbrev pub run_in_mode :
      (is_offline_mode : Bool) → (url : Text) → List Op → server.State → Outcome
  run_in_mode true url ops s = scripted url (context.script ops)
  run_in_mode false url ops s = migrated (run_async_migrations url ops s)

  abbrev pub with_url : Option Text → (is_offline_mode : Bool) → List Op → server.State → Outcome
  with_url none is_offline_mode ops s = value_error
  with_url (some url) is_offline_mode ops s = run_in_mode is_offline_mode url ops s

  unfoldable pub env :
      (database_url : Text) → (is_offline_mode : Bool) → List Op → server.State → Outcome
  unfolding run_async_migrations
  env database_url is_offline_mode ops s =
      with_url (context.main_option database_url) is_offline_mode ops s
