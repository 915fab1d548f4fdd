-- ===== src/Migrations/Steps.antt =====
-- Each revision, run both ways in a database of its own.
use collabflow.Common.{some, ◌∷◌, any, select, text_eq, ◌≡◌, refl}
use collabflow.Migrations.Catalog.{
  Table, Catalog, run, apply, has_table, has_type, retype, renamed, extended, indexed,
}
use collabflow.Migrations.Versions.{
  Revision, foundation, core_domain, activity_log, notifications, attachments, down_revision,
  upgrade, downgrade,
}
use collabflow.Migrations.Heads.{
  foundation_tables, core_domain_tables, activity_log_tables, notifications_tables,
  attachments_tables, after, before, rolled_back, all_actions,
}
use collabflow.Migrations.Metadata.{metadata, Matches, MatchesTable}
use mathlib.Core.List.Perm
use collabflow.Migrations.Versions.Foundation
use collabflow.Migrations.Versions.CoreDomain
use collabflow.Migrations.Versions.ActivityLog
use collabflow.Migrations.Versions.Notifications
use collabflow.Migrations.Versions.Attachments

upgrade_foundation :
    run (upgrade foundation) (before (down_revision foundation)) ≡ some (after foundation)
unfolding after foundation_tables core_domain_tables activity_log_tables notifications_tables
    attachments_tables upgrade downgrade Foundation.upgrade Foundation.downgrade run apply any
    select has_table has_type retype renamed extended indexed text_eq
upgrade_foundation = refl

upgrade_core_domain :
    run (upgrade core_domain) (before (down_revision core_domain)) ≡ some (after core_domain)
unfolding after foundation_tables core_domain_tables activity_log_tables notifications_tables
    attachments_tables upgrade downgrade CoreDomain.upgrade CoreDomain.downgrade run apply any
    select has_table has_type retype renamed extended indexed text_eq
upgrade_core_domain = refl

upgrade_activity_log :
    run (upgrade activity_log) (before (down_revision activity_log)) ≡ some (after activity_log)
unfolding after foundation_tables core_domain_tables activity_log_tables notifications_tables
    attachments_tables upgrade downgrade ActivityLog.upgrade ActivityLog.downgrade run apply any
    select has_table has_type retype renamed extended indexed text_eq
upgrade_activity_log = refl

upgrade_notifications :
    run (upgrade notifications) (before (down_revision notifications)) ≡ some (after notifications)
unfolding after foundation_tables core_domain_tables activity_log_tables notifications_tables
    attachments_tables upgrade downgrade Notifications.upgrade Notifications.downgrade run apply any
    select has_table has_type retype renamed extended indexed text_eq
upgrade_notifications = refl

upgrade_attachments :
    run (upgrade attachments) (before (down_revision attachments)) ≡ some (after attachments)
unfolding after foundation_tables core_domain_tables activity_log_tables notifications_tables
    attachments_tables upgrade downgrade Attachments.upgrade Attachments.downgrade run apply any
    select has_table has_type retype renamed extended indexed text_eq
upgrade_attachments = refl

downgrade_foundation :
    run (downgrade foundation) (after foundation) ≡ some (before (down_revision foundation))
unfolding after foundation_tables core_domain_tables activity_log_tables notifications_tables
    attachments_tables upgrade downgrade Foundation.upgrade Foundation.downgrade run apply any
    select has_table has_type retype renamed extended indexed text_eq
downgrade_foundation = refl

downgrade_core_domain :
    run (downgrade core_domain) (after core_domain) ≡ some (before (down_revision core_domain))
unfolding after foundation_tables core_domain_tables activity_log_tables notifications_tables
    attachments_tables upgrade downgrade CoreDomain.upgrade CoreDomain.downgrade run apply any
    select has_table has_type retype renamed extended indexed text_eq
downgrade_core_domain = refl

downgrade_activity_log :
    run (downgrade activity_log) (after activity_log) ≡ some (before (down_revision activity_log))
unfolding after foundation_tables core_domain_tables activity_log_tables notifications_tables
    attachments_tables upgrade downgrade ActivityLog.upgrade ActivityLog.downgrade run apply any
    select has_table has_type retype renamed extended indexed text_eq
downgrade_activity_log = refl

downgrade_notifications :
    run (downgrade notifications) (after notifications)
    ≡ some (before (down_revision notifications))
unfolding after foundation_tables core_domain_tables activity_log_tables notifications_tables
    attachments_tables upgrade downgrade Notifications.upgrade Notifications.downgrade run apply any
    select has_table has_type retype renamed extended indexed text_eq
downgrade_notifications = refl

downgrade_attachments :
    run (downgrade attachments) (after attachments) ≡ some (rolled_back attachments)
unfolding after notifications_tables attachments_tables activity_log_tables core_domain_tables
    foundation_tables upgrade downgrade Attachments.upgrade Attachments.downgrade run apply any
    select has_table has_type retype renamed extended indexed text_eq
downgrade_attachments = refl

again_attachments : run (upgrade attachments) (rolled_back attachments) ≡ some (after attachments)
unfolding after notifications_tables attachments_tables activity_log_tables core_domain_tables
    foundation_tables upgrade downgrade Attachments.upgrade Attachments.downgrade run apply any
    select has_table has_type retype renamed extended indexed text_eq
again_attachments = refl

pub run-upgrade : (r : Revision) → run (upgrade r) (before (down_revision r)) ≡ some (after r)
run-upgrade foundation = upgrade_foundation
run-upgrade core_domain = upgrade_core_domain
run-upgrade activity_log = upgrade_activity_log
run-upgrade notifications = upgrade_notifications
run-upgrade attachments = upgrade_attachments

pub run-downgrade : (r : Revision) → run (downgrade r) (after r) ≡ some (rolled_back r)
run-downgrade foundation = downgrade_foundation
run-downgrade core_domain = downgrade_core_domain
run-downgrade activity_log = downgrade_activity_log
run-downgrade notifications = downgrade_notifications
run-downgrade attachments = downgrade_attachments

pub run-upgrade-rolled_back : (r : Revision) → run (upgrade r) (rolled_back r) ≡ some (after r)
run-upgrade-rolled_back foundation = upgrade_foundation
run-upgrade-rolled_back core_domain = upgrade_core_domain
run-upgrade-rolled_back activity_log = upgrade_activity_log
run-upgrade-rolled_back notifications = upgrade_notifications
run-upgrade-rolled_back attachments = again_attachments

-- The two actions that are left go with their type.
abbrev pub left_over : Catalog
left_over = record (after activity_log) { types = all_actions ∷ (after core_domain).types }

pub run-downgrade_notifications :
    run (downgrade notifications) (rolled_back attachments) ≡ some left_over
unfolding after notifications_tables attachments_tables activity_log_tables core_domain_tables
    foundation_tables upgrade downgrade Notifications.downgrade run apply any select has_table
    has_type retype renamed extended indexed text_eq
run-downgrade_notifications = refl

pub run-downgrade_activity_log : run (downgrade activity_log) left_over ≡ some (after core_domain)
unfolding after notifications_tables attachments_tables activity_log_tables core_domain_tables
    foundation_tables upgrade downgrade ActivityLog.downgrade run apply any select has_table
    has_type retype renamed extended indexed text_eq
run-downgrade_activity_log = refl

pub after-Matches : Matches (after attachments) metadata
unfolding Matches metadata after attachments_tables notifications_tables activity_log_tables
    core_domain_tables foundation_tables
after-Matches = (
  refl,
  (
    same,
    (
      same,
      (
        same,
        (
          same,
          (
            same,
            (
              same,
              (
                (refl, refl, refl, Perm.cons _ (Perm.swap _ _ _)),
                (
                  same,
                  (
                    (refl, refl, refl, Perm.swap _ _ _),
                    (same, ((refl, refl, refl, Perm.swap _ _ _), (same, (same, tt)))),
                  ),
                ),
              ),
            ),
          ),
        ),
      ),
    ),
  ),
)
  where
    same : {t : Table} → MatchesTable t t
    same {t} = (refl, refl, refl, Perm.refl t.indexes)
