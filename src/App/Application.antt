-- ===== src/App/Application.antt =====
-- What main.py does when it is imported: logging, Sentry, the application with its middleware and routes.
use collabflow.Common.{Bool, true, Option, none, some, Text, List, [], ◌∷◌}
use collabflow.Config.{Settings}
use collabflow.App.Logging.{Logging, setup_logging}
use collabflow.App.Routes.{Route, routes}

pub record SentryInit : Type 0 where
  pub dsn : Text
  pub environment : Text

-- `if settings.sentry_dsn`, where an empty text is as good as none
abbrev pub sentry_init : (sentry_dsn : Option Text) → (environment : Text) → Option SentryInit
sentry_init none environment = none
sentry_init (some []) environment = none
sentry_init (some (c ∷ dsn)) environment =
    some (record { dsn = c ∷ dsn; environment = environment })

pub record Application : Type 0 where
  pub title : Text
  pub allow_origins : List Text
  pub allow_credentials : Bool
  pub sentry : Option SentryInit
  pub routes : List Route

abbrev pub application : Settings → Application
application settings = record {
  title = settings.app_name;
  allow_origins = settings.cors_origins;
  allow_credentials = true;
  sentry = sentry_init settings.sentry_dsn settings.environment;
  routes = routes;
}

unfoldable pub main : Settings → Logging → Application × Logging
unfolding setup_logging
main settings l = (application settings, setup_logging settings.debug l)
