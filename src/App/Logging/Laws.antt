-- ===== src/App/Logging/Laws.antt =====
-- Each record is printed once.
use collabflow.Common.{
  ℕ, ◌≡◌, refl, Bool, true, false, ◌&&◌, List, [], ◌∷◌, codes, leb, if◌then◌else◌,
}
use collabflow.App.Logging.{
  Logger, Logging, LogRecord, json_formatter, setup_logging, printed_by, debug_level, info_level,
}

-- The loggers between a logger and the root: `app` is among them, or not.
abbrev pub path_to : (own : Logger) → (under_app : Bool) → Logging → List Logger
path_to own under_app l = if under_app then own ∷ l.app ∷ l.root ∷ [] else own ∷ l.root ∷ []

-- The least level that gets through.
abbrev pub threshold : (debug under_app : Bool) → ℕ
threshold debug under_app = if debug && under_app then debug_level else info_level

-- A logger without a level and handlers of its own, and a process where `app` is one.
abbrev pub bare : Logger
bare = record { level = 0; handlers = [] }

abbrev pub start : (root : Logger) → Logging
start root = record { root = root; app = bare }

-- After setup_logging, whatever level and handlers the root had before, a record of a logger that has none
-- of its own, like `app`, is printed by one handler, on stdout and as JSON, if its level is INFO or more,
-- or DEBUG or more for the loggers under `app` in debug mode, and otherwise by none; a second call changes
-- nothing.
pub setup_logging-printed :
    (debug under_app : Bool) (root : Logger) (r : LogRecord)
    → (printed_by (path_to bare under_app (setup_logging debug (start root))) r ≡ (
        if leb (threshold debug under_app) r.levelno
        then record { stream = codes "stdout"; formatter = json_formatter } ∷ []
        else []))
      × (setup_logging debug (setup_logging debug (start root)) ≡ setup_logging debug (start root))
unfolding setup_logging printed_by
setup_logging-printed true true root r = (refl, refl)
setup_logging-printed true false root r = (refl, refl)
setup_logging-printed false true root r = (refl, refl)
setup_logging-printed false false root r = (refl, refl)
