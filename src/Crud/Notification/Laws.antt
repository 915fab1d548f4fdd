-- ===== src/Crud/Notification/Laws.antt =====
-- Reading notifications, and who sees them.
use collabflow.Common.{
  ==_iff, ℕ, ◌≡◌, ◌≢◌, refl, some, List, [], ◌∷◌, map, select, length, arith, if◌then◌else◌,
}
use collabflow.Models.{Notification}
use collabflow.World.{World, ok}
use collabflow.Crud.Notification.{mark_all_read, unread_count, is_unread_of}

abbrev read_at : (time user_id : ℕ) → Notification → Notification
read_at time u n = if is_unread_of u n then record n { read_at = some time } else n

none_unread :
    (time u : ℕ) (ns : List Notification) → select (is_unread_of u) (map (read_at time u) ns) ≡ []
unfolding is_unread_of select
none_unread time u [] = refl
none_unread time u (n ∷ ns) = ground (arith, none_unread time u ns)

others_unread :
    (time u v : ℕ) (ns : List Notification)
    → u ≢ v
    → length (select (is_unread_of v) (map (read_at time u) ns))
      ≡ length (select (is_unread_of v) ns)
unfolding is_unread_of select
others_unread time u v [] h = refl
others_unread time u v (n ∷ ns) h = ground (arith, others_unread time u v ns h, ==_iff u v)

-- `mark_all_read` returns the user's count of unread notifications, leaves it at 0, and leaves every
-- other user's count alone.
pub unread_count-mark_all_read :
    (u : ℕ) (w : World)
    → ((mark_all_read u w).0 ≡ (unread_count u w).0)
      × ((unread_count u (mark_all_read u w).1).0 ≡ ok 0)
      × ((v : ℕ) → u ≢ v → (unread_count v (mark_all_read u w).1).0 ≡ (unread_count v w).0)
unfolding mark_all_read unread_count
unread_count-mark_all_read u w = (
  refl,
  rw (none_unread w.clock u w.session.notifications) refl,
  λ v h. rw (others_unread w.clock u v w.session.notifications h) refl,
)
