-- ===== src/Tests/Migrations.antt =====
-- The migrations in a database that has Alembic's own table.
use collabflow.Common.{
  true, false, Bool, Option, none, some, refl, ap, arith, contains, [], ◌∷◌, Text, codes,
  if◌then◌else◌,
}
use collabflow.Migrations.Catalog.{Catalog, apply, string}
use collabflow.Migrations.Versions.Foundation
use collabflow.Migrations.Versions.CoreDomain
use collabflow.Migrations.Versions.ActivityLog
use collabflow.Migrations.Versions.Notifications
use collabflow.Migrations.Versions.Attachments
use collabflow.Migrations.Columns.{column, key, table}
use collabflow.Migrations.Heads.{after}
use collabflow.Migrations.Server.{Server}
use collabflow.Migrations.Env.{Context}

abbrev plain_server : Server
plain_server = record {
  State = Catalog;
  execute = apply;
  catalog = λ c. c;
  obeys = λ op s c h. (c, h, refl);
}

abbrev versions_only : Catalog
versions_only = record {
  types = [];
  tables = table "alembic_version" (key (column "version_num" (string 32) false) ∷ []) [] ∷ [];
}

abbrev settled : Option Catalog → Catalog → Bool × Catalog
settled none s = (false, s)
settled (some t) s = (true, t)

abbrev plain_context : Context plain_server
plain_context = record {
  main_option = λ url. if contains url 37 then none else some url;
  main_option-plain = λ url h. ground (arith, h);
  begin_transaction = λ body s. settled (body s) s;
  commits = λ body s t before after h. ap (λ r. settled r s) h;
  rolls_back = λ body s h. ap (λ r. settled r s) h;
  script = λ ops. [];
}

abbrev local_url : Text
local_url = codes "postgresql+asyncpg://db/collabflow"
