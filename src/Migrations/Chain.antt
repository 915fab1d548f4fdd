-- ===== src/Migrations/Chain.antt =====
-- The chain of the revisions: from an empty schema to the head, and back.
use collabflow.Common.{true, some, List, [], ◌∷◌, ◌++◌, ◌≡◌, ◌∙◌, ap, inl, inr, Option-cases, arith}
use collabflow.Migrations.Catalog.{Catalog, Op, run, then_run, apply}
use collabflow.Migrations.Versions.{
  foundation, core_domain, activity_log, notifications, attachments, upgrade, upgrade_head,
}
use collabflow.Migrations.Heads.{empty, after}
use collabflow.Migrations.Steps.{run-upgrade, after-Matches}
use collabflow.Migrations.Metadata.{metadata, Matches}
use collabflow.Migrations.Versions.Foundation
use collabflow.Migrations.Versions.CoreDomain
use collabflow.Migrations.Versions.ActivityLog
use collabflow.Migrations.Versions.Notifications
use collabflow.Migrations.Versions.Attachments
use collabflow.Migrations.Frame.{beside, all_spare}
use collabflow.Migrations.Frame.Runs.{run-beside}
use collabflow.Migrations.Server.{Server, Leads, execute_all-run}

run-append : (xs ys : List Op) (c d : Catalog) → run xs c ≡ some d → run (xs ++ ys) c ≡ run ys d
unfolding run
run-append [] ys c d h = ap (run ys) (ground arith)
run-append (x ∷ xs) ys c d h = elim (Option-cases (apply x c)) [
  | inl refused ↦ ground (arith, refused)
  | inr (e, done) ↦ ap (λ r. then_run r (run (xs ++ ys))) done ∙ run-append xs ys e d (rw done at h)
]

run-upgrade_head : run upgrade_head empty ≡ some (after attachments)
unfolding upgrade_head Foundation.upgrade CoreDomain.upgrade ActivityLog.upgrade
    Notifications.upgrade Attachments.upgrade
run-upgrade_head =
    run-append _ _ _ _ (run-upgrade foundation)
    ∙ run-append _ _ _ _ (run-upgrade core_domain)
    ∙ run-append _ _ _ _ (run-upgrade activity_log)
    ∙ run-append _ _ _ _ (run-upgrade notifications)
    ∙ run-upgrade attachments

module _ (server : Server) (s : server.State) (rest : Catalog) where
  -- On a server whose catalog `rest` has none of the names that the upgrade to the head mentions, that
  -- upgrade runs without a refusal and adds what the models declare: their enum types, tables, columns
  -- (names, types, nullability, keys, foreign keys with their `ondelete`), constraints and indexes.
  pub upgrade_head-metadata :
      server.catalog s ≡ rest
      → all_spare upgrade_head rest ≡ true
      → (head : Catalog) × Leads server upgrade_head s (beside head rest) × Matches head metadata
  upgrade_head-metadata at_rest apart =
      let runs = run-beside upgrade_head empty rest (after attachments) apart run-upgrade_head in
      (after attachments, execute_all-run server _ s _ _ at_rest runs, after-Matches)
