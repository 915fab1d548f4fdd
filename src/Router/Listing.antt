-- ===== src/Router/Listing.antt =====
-- The task list, page by page.
use mathlib.Core.List.{Perm}
use collabflow.Crud.Task.Order.{IsCollated, AreInOrder, Fits, order_by-AreInOrder, matches_iff}
use collabflow.Common.{
  ◌↔◌, ℕ, zero, suc, ◌*◌, ◌≤◌, ◌≡◌, refl, sym, ◌∙◌, ap, List, [], ◌∷◌, ◌++◌, arith, true, take,
  length, Text, map, select,
}
use collabflow.World.{World, Result, ok, err, continue-ok}
use collabflow.Models.{Task, User, Role}
use collabflow.Runtime.{Runtime}
use collabflow.Crud.Postgres.{Postgres, page_of}
use collabflow.Crud.Postgres.Pages.{pages, pages-cover}
use collabflow.Crud.Task.{
  TaskFilter, TaskSortField, SortOrder, matches, order_clause, list_by_project,
}
use collabflow.Deps.{require_project_role}
use collabflow.Responses.{TaskRead, task_read}
use collabflow.Responses.Listing.{TaskListResponse, list_response, list_query}
use collabflow.Router.Access.{require_project_role-same}
use collabflow.Router.Tasks.{list_tasks}
use collabflow.Invariant.Good.{opened}

length-map : {A B : Type 0} (f : A → B) (xs : List A) → length (map f xs) ≡ length xs
length-map f [] = refl
length-map f (x ∷ xs) = ap suc (length-map f xs)

map-append : {A B : Type 0} (f : A → B) (xs ys : List A) → map f (xs ++ ys) ≡ map f xs ++ map f ys
map-append f [] ys = refl
map-append f (x ∷ xs) ys = ap (λ l. f x ∷ l) (map-append f xs ys)

length-take : {A : Type 0} (n : ℕ) (xs : List A) → length (take n xs) ≤ n
length-take zero xs = omega arith
length-take (suc n) [] = omega arith
length-take (suc n) (x ∷ xs) = let rest : length (take n xs) ≤ n = length-take n xs in omega arith

-- The items of an answer; an error has none.
abbrev pub items_of : Result TaskListResponse → List TaskRead
items_of (ok r) = r.items
items_of (err e) = []

abbrev pub total_of : Result TaskListResponse → ℕ
total_of (ok r) = r.total
total_of (err e) = 0

module _ (rt : Runtime) (token : Text) (pg : Postgres) (project_id : ℕ) (f : TaskFilter)
    (sort_by : TaskSortField) (order : SortOrder) (w : World) where
  -- The matching rows, in the order asked for.
  abbrev pub rows : List Task
  rows = select (matches pg w.committed project_id f) w.committed.tasks

  abbrev pub sorted : List Task
  sorted = pg.order_by Task (order_clause pg sort_by order) rows

  -- The items of the answers to pages 1 to `n`, one after the other.
  unfoldable pub walk : (n page_size : ℕ) → List TaskRead
  walk zero page_size = []
  walk (suc n) page_size =
      walk n page_size
      ++ items_of (list_tasks rt token pg project_id f sort_by order (suc n) page_size w).0

  -- What is left of the handler after the check of the role.
  list_tasks-continue :
      (page page_size : ℕ) (u : User)
      → (require_project_role rt Role.member token project_id (opened w)).0 ≡ ok u
      → (list_tasks rt token pg project_id f sort_by order page page_size w).0
        ≡ ok (
            list_response
              (task_read w.committed)
              page
              page_size
              (page_of page page_size sorted, length rows))
  unfolding list_tasks list_by_project
  list_tasks-continue page page_size u h =
      ap (λ r. r.0)
        (continue-ok (require_project_role rt Role.member token project_id (opened w)) u _ h)
      ∙ ap
          (λ (v : World). ok (
            list_response (task_read v.session) page page_size (
              page_of page page_size (
                  pg.order_by Task (order_clause pg sort_by order)
                    (select (matches pg v.session project_id f) v.session.tasks)),
              length (select (matches pg v.session project_id f) v.session.tasks),
            )))
          (require_project_role-same rt Role.member token (opened w) project_id)

  walk-pages :
      (n page_size : ℕ) (u : User)
      → (require_project_role rt Role.member token project_id (opened w)).0 ≡ ok u
      → walk n page_size ≡ map (task_read w.committed) (pages n page_size sorted)
  unfolding walk pages
  walk-pages zero page_size u h = refl
  walk-pages (suc n) page_size u h = rw (list_tasks-continue (suc n) page_size u h) (
      rw (walk-pages n page_size u h) (
        sym (
          map-append (task_read w.committed) (pages n page_size sorted)
            (page_of (suc n) page_size sorted))))

  -- A member who asks for a page of tasks gets at most 100 tasks and the number of the tasks that match;
  -- where the server orders the tasks for each page alike, the answers to the pages from the first on are
  -- together the matching tasks, once their number is reached. A task matches if it is a task of the
  -- project without a parent and passes each filter that is given, and where the server's collation is a
  -- total order the tasks come by the field asked for, ascending or descending as asked.
  pub list_tasks-pages :
      (page n page_size : ℕ) (u : User)
      → IsCollated pg
      → list_query page page_size ≡ true
      → (require_project_role rt Role.member token project_id (opened w)).0 ≡ ok u
      → length sorted ≤ n * page_size
      → (length (items_of (list_tasks rt token pg project_id f sort_by order page page_size w).0)
          ≤ 100)
        × (total_of (list_tasks rt token pg project_id f sort_by order page page_size w).0
            ≡ length rows)
        × (walk n page_size ≡ map (task_read w.committed) sorted)
        × Perm sorted rows
        × AreInOrder pg sort_by order sorted
        × ((t : Task)
            → (matches pg w.committed project_id f t ≡ true) ↔ Fits pg w.committed project_id f t)
  unfolding list_query page_of
  list_tasks-pages page n page_size u collated q h enough =
      let answer = list_tasks-continue page page_size u h in
      let short : length
            (items_of (list_tasks rt token pg project_id f sort_by order page page_size w).0)
          ≤ page_size =
        rw answer (
          rw (length-map (task_read w.committed) (page_of page page_size sorted))
            (length-take page_size _)) in
      (
        ground (arith, short, q),
        ap total_of answer,
        walk-pages n page_size u h
            ∙ ap (map (task_read w.committed)) ((pages-cover n page_size sorted).1 enough),
        pg.order_by-perm Task (order_clause pg sort_by order) rows,
        order_by-AreInOrder pg collated sort_by order rows,
        matches_iff pg w.committed project_id f,
      )
