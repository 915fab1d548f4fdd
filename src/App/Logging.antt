-- ===== src/App/Logging.antt =====
-- core/logging_config.py, and the formatter of workers/celery_app.py. The loggers are those of Python's
-- logging module, as far as the code touches them: the root, `app`, and loggers with a level and
-- handlers of their own, or without.
pub mod Laws
use collabflow.Common.{
  ◌==◌, ℕ, Bool, Option, none, some, Text, List, [], ◌∷◌, ◌++◌, map, codes, leb, if◌then◌else◌,
}

pub record LogRecord : Type 0 where
  pub created : ℕ
  pub levelno : ℕ
  pub levelname : Text
  pub name : Text
  pub message : Text
  -- the formatted exception, if there is one
  pub exc_info : Option Text

pub data Formatter : Type 0 where
  default_formatter json_formatter : Formatter

-- A StreamHandler without a level of its own.
pub record Handler : Type 0 where
  pub stream : Text
  pub formatter : Formatter

-- A level of 0 is NOTSET.
pub record Logger : Type 0 where
  pub level : ℕ
  pub handlers : List Handler

pub record Logging : Type 0 where
  pub root : Logger
  pub app : Logger

abbrev pub debug_level : ℕ
debug_level = 10

abbrev pub info_level : ℕ
info_level = 20

abbrev exception_of : Option Text → List (Text × Text)
exception_of none = []
exception_of (some exception) = (codes "exception", exception) ∷ []

-- The payload of `JSONFormatter.format`, in front of json.dumps; `isoformat` is the time in UTC.
unfoldable pub format_payload : (isoformat : ℕ → Text) → LogRecord → List (Text × Text)
format_payload isoformat r =
    (codes "timestamp", isoformat r.created)
    ∷ (codes "level", r.levelname)
    ∷ (codes "logger", r.name)
    ∷ (codes "message", r.message)
    ∷ exception_of r.exc_info

abbrev stdout_handler : Handler
stdout_handler = record { stream = codes "stdout"; formatter = default_formatter }

abbrev set_formatter : Formatter → Handler → Handler
set_formatter f h = record h { formatter = f }

-- `handlers.clear()` and `addHandler`
abbrev set_up_root : Logger → Logger
set_up_root root = record root {
  level = info_level;
  handlers = [] ++ set_formatter json_formatter stdout_handler ∷ [];
}

unfoldable pub setup_logging : (debug : Bool) → Logging → Logging
setup_logging debug l = record {
  root = set_up_root l.root;
  app = if debug then record l.app { level = debug_level } else l.app;
}

-- celery_app._use_json_formatter
unfoldable pub use_json_formatter : Logger → Logger
use_json_formatter logger = record logger {
  handlers = map (set_formatter json_formatter) logger.handlers;
}

-- What the logging module does with a record of a logger: it goes to the handlers of the logger and of
-- those above it, if it reaches the level of the nearest of these that has one.
abbrev nearest_level : List Logger → ℕ
nearest_level [] = 0
nearest_level (l ∷ above) = if l.level == 0 then nearest_level above else l.level

abbrev handlers_of : List Logger → List Handler
handlers_of [] = []
handlers_of (l ∷ above) = l.handlers ++ handlers_of above

-- The handlers that print the record: `path` is the logger with those above it.
unfoldable pub printed_by : (path : List Logger) → LogRecord → List Handler
printed_by path r = if leb (nearest_level path) r.levelno then handlers_of path else []
