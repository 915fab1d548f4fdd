-- ===== src/Migrations/Env/Laws.antt =====
-- A run of env.py as a whole.
use collabflow.Common.{◌≡◌, ◌∙◌, ap, false, none, Text, List, [], ◌∷◌, contains}
use collabflow.Migrations.Catalog.{Catalog, Op}
use collabflow.Migrations.Server.{Server, execute_all}
use collabflow.Migrations.Env.{Context, migrated, with_url, disposed, connects, closes, env}

module _ (server : Server) (context : Context server) (url : Text) where
  env-plain :
      (ops : List Op) (s : server.State)
      → contains url 37 ≡ false
      → env context url false ops s
        ≡ migrated (disposed context (context.begin_transaction (execute_all server ops) s) url)
  unfolding env
  env-plain ops s plain =
      ap (λ u. with_url context u false ops s) (context.main_option-plain url plain)

  pub env-refused :
      (ops : List Op) (s : server.State)
      → contains url 37 ≡ false
      → execute_all server ops s ≡ none
      → env context url false ops s ≡ migrated (false, s, connects url ∷ closes ∷ [])
  env-refused ops s plain refused =
      env-plain ops s plain
      ∙ ap (λ r. migrated (disposed context r url))
          (context.rolls_back (execute_all server ops) s refused)
