-- ===== src/Tests/Listings.antt =====
-- The pages of the task list on the small database.
use mathlib.Core.List.{Perm}
use collabflow.Models.{Task}
use collabflow.Crud.Task.Order.{IsCollated, AreInOrder, Fits}
use collabflow.Common.{
  Text, [], ◌∷◌, text_leb, ◌⊎◌, inl, inr, ◌↔◌, ◌*◌, ◌≤◌, ◌≡◌, refl, true, none, find, any, select,
  length, map, arith,
}
use collabflow.Models.{Role}
use collabflow.World.{ok}
use collabflow.Deps.{require_project_role}
use collabflow.Crud.Task.{TaskFilter, by_position, asc, matches}
use collabflow.Responses.{task_read}
use collabflow.Responses.Listing.{list_query}
use collabflow.Router.Tasks.{list_tasks}
use collabflow.Router.Listing.{items_of, total_of, rows, sorted, walk, list_tasks-pages}
use collabflow.Invariant.Good.{opened}
use collabflow.Tests.Libraries.{plain_runtime}
use collabflow.Tests.Sorting.{plain_postgres}
use collabflow.Tests.Tables.{bob, small_world, bob_token}

abbrev no_filter : TaskFilter
no_filter = record {
  status = none;
  priority = none;
  assignee_id = none;
  label_id = none;
  search = none;
}

bob_admitted :
    (require_project_role plain_runtime Role.member bob_token 6 (opened small_world)).0 ≡ ok bob
unfolding require_project_role find
bob_admitted = refl

asked : list_query 1 20 ≡ true
unfolding list_query
asked = refl

listed :
    length (sorted plain_runtime bob_token plain_postgres 6 no_filter by_position asc small_world)
    ≤ 1 * 20
unfolding select matches any
listed = omega arith

text_leb_total : (s t : Text) → (text_leb s t ≡ true) ⊎ (text_leb t s ≡ true)
unfolding text_leb
text_leb_total [] t = inl refl
text_leb_total (a ∷ s) [] = inr refl
text_leb_total (a ∷ s) (b ∷ t) = ground (arith, text_leb_total s t)

text_leb_trans : (s t u : Text) → text_leb s t ≡ true → text_leb t u ≡ true → text_leb s u ≡ true
unfolding text_leb
text_leb_trans [] t u h k = refl
text_leb_trans (a ∷ s) [] u h k = ground (arith, h)
text_leb_trans (a ∷ s) (b ∷ t) [] h k = ground (arith, k)
text_leb_trans (a ∷ s) (b ∷ t) (c ∷ u) h k = ground (arith, h, k, text_leb_trans s t u)

plain_postgres-IsCollated : IsCollated plain_postgres
plain_postgres-IsCollated = record { total = text_leb_total; trans = text_leb_trans }

list_tasks-pages_example :
    (length (
        items_of
          (list_tasks plain_runtime bob_token plain_postgres 6 no_filter by_position asc 1 20
            small_world).0)
      ≤ 100)
    × (total_of
          (list_tasks plain_runtime bob_token plain_postgres 6 no_filter by_position asc 1 20
            small_world).0
        ≡ length
            (rows plain_runtime bob_token plain_postgres 6 no_filter by_position asc small_world))
    × (walk plain_runtime bob_token plain_postgres 6 no_filter by_position asc small_world 1 20
        ≡ map
            (task_read small_world.committed)
            (sorted plain_runtime bob_token plain_postgres 6 no_filter by_position asc small_world))
    × Perm
        (sorted plain_runtime bob_token plain_postgres 6 no_filter by_position asc small_world)
        (rows plain_runtime bob_token plain_postgres 6 no_filter by_position asc small_world)
    × AreInOrder plain_postgres by_position asc
        (sorted plain_runtime bob_token plain_postgres 6 no_filter by_position asc small_world)
    × ((t : Task)
        → (matches plain_postgres small_world.committed 6 no_filter t ≡ true)
          ↔ Fits plain_postgres small_world.committed 6 no_filter t)
list_tasks-pages_example =
    list_tasks-pages plain_runtime bob_token plain_postgres 6 no_filter by_position asc small_world
      1 1 20 bob plain_postgres-IsCollated asked bob_admitted listed
