-- ===== src/Migrations/Versions.antt =====
-- migrations/versions: the five revisions in the order of their `down_revision`, and what Alembic runs to go
-- from one to another.
pub mod Foundation
pub mod CoreDomain
pub mod ActivityLog
pub mod Notifications
pub mod Attachments
use collabflow.Common.{Option, none, some, List, ◌++◌}
use collabflow.Migrations.Catalog.{Op}

pub data Revision : Type 0 where
  foundation core_domain activity_log notifications attachments : Revision

abbrev pub down_revision : Revision → Option Revision
down_revision foundation = none
down_revision core_domain = some foundation
down_revision activity_log = some core_domain
down_revision notifications = some activity_log
down_revision attachments = some notifications

unfoldable pub upgrade : Revision → List Op
upgrade foundation = Foundation.upgrade
upgrade core_domain = CoreDomain.upgrade
upgrade activity_log = ActivityLog.upgrade
upgrade notifications = Notifications.upgrade
upgrade attachments = Attachments.upgrade

unfoldable pub downgrade : Revision → List Op
downgrade foundation = Foundation.downgrade
downgrade core_domain = CoreDomain.downgrade
downgrade activity_log = ActivityLog.downgrade
downgrade notifications = Notifications.downgrade
downgrade attachments = Attachments.downgrade

unfoldable pub upgrade_head : List Op
unfolding upgrade
upgrade_head =
    upgrade foundation
    ++ upgrade core_domain
    ++ upgrade activity_log
    ++ upgrade notifications
    ++ upgrade attachments

unfoldable pub downgrade_base : List Op
unfolding downgrade
downgrade_base =
    downgrade attachments
    ++ downgrade notifications
    ++ downgrade activity_log
    ++ downgrade core_domain
    ++ downgrade foundation
