-- ===== src/Tests/Strangers.antt =====
-- A caller who is not a member of the project.
use collabflow.Common.{
  ◌==◌, ==_iff, ◌<◌, ◌≡◌, refl, ap, ◌∙◌, true, none, ◌∷◌, List, Text, codes, find, find-test,
  select, [], arith,
}
use collabflow.Config.{default_settings}
use collabflow.Models.{Role, User}
use collabflow.World.{World, ok}
use collabflow.Crud.Project.{is_membership}
use collabflow.Deps.{get_current_user, require_project_role}
use collabflow.World.{err, Error, http_error}
use collabflow.Common.{ℕ}
use collabflow.Crud.Postgres.{Postgres}
use collabflow.Crud.Task.{TaskFilter, TaskSortField, SortOrder}
use collabflow.Realtime.Presence.{Hashes}
use collabflow.Router.Refusal.{refused_by_project}
use collabflow.Router.Projects.{
  list_labels, list_project_members, list_project_activity, get_project_presence,
}
use collabflow.Router.Tasks.{TaskCreate, create_task, list_tasks}
use collabflow.Invariant.Good.{IsGood, opened}
use collabflow.Invariant.Elsewhere.{tasks_of}
use collabflow.Invariant.Joining.{members_of}
use collabflow.Invariant.Outside.{IsOutside, serve_all-outside}
use collabflow.Invariant.Requests.{Request, invites_to_project, serve_all, deletes_task}
use collabflow.Tests.Libraries.{plain_runtime}
use collabflow.Tests.Sorting.{plain_postgres}
use collabflow.Tests.Histories.{small_world-IsGood}
use collabflow.Tests.Tables.{tables, small_world, token_of}

abbrev dave : User
dave = record {
  id = 19;
  email = codes "dave@site.org";
  hashed_password = codes "dates";
  full_name = codes "Dave";
  is_active = true;
  created_at = 0;
}

abbrev wider_world : World
wider_world = record small_world { committed = record tables { users = dave ∷ tables.users } }

wider_world-IsGood : IsGood wider_world
wider_world-IsGood = record { tasks = small_world-IsGood.tasks }

dave_only :
    (v : World) (u : User) → (get_current_user plain_runtime (token_of 19) v).0 ≡ ok u → u.id ≡ 19
unfolding get_current_user find
dave_only v u called =
    ground (arith, called, find-test (λ x. x.id == 19) v.session.users u, ==_iff u.id 19)

no_member : find (is_membership 6 19) (members_of 6 tables.project_memberships) ≡ none
unfolding find members_of select
no_member = refl

dave-IsOutside : IsOutside plain_runtime 6 (members_of 6 tables.project_memberships) (token_of 19)
dave-IsOutside v u called =
    ap (λ i. find (is_membership 6 i) (members_of 6 tables.project_memberships))
      (dave_only v u called)
    ∙ no_member

nobody-IsOutside : IsOutside plain_runtime 6 (members_of 6 tables.project_memberships) []
unfolding get_current_user
nobody-IsOutside v u called = ground (arith, called)

abbrev attempts : List (Text × Request)
attempts =
    (token_of 19, deletes_task 9)
    ∷ (token_of 19, invites_to_project 6 (codes "dave@site.org") Role.owner)
    ∷ ([], deletes_task 9)
    ∷ []

project_drawn : 6 < 20
project_drawn = omega arith

serve_all-outside_example :
    (tasks_of 6
        (serve_all plain_runtime default_settings plain_postgres attempts
          wider_world).committed.tasks
      ≡ tasks_of 6 wider_world.committed.tasks)
    × (members_of 6
          (serve_all plain_runtime default_settings plain_postgres attempts
            wider_world).committed.project_memberships
        ≡ members_of 6 wider_world.committed.project_memberships)
serve_all-outside_example =
    serve_all-outside plain_runtime default_settings plain_postgres 6 attempts wider_world
      (dave-IsOutside, (dave-IsOutside, (nobody-IsOutside, tt))) project_drawn wider_world-IsGood

abbrev no_member_error : Error
no_member_error = http_error 403 "Not a member of this project"

dave_refused :
    (require_project_role plain_runtime Role.member (token_of 19) 6 (opened wider_world)).0
    ≡ err no_member_error
unfolding require_project_role find
dave_refused = refl

refused_by_project_example :
    ((task_in : TaskCreate)
      → create_task plain_runtime (token_of 19) 6 task_in wider_world
        ≡ (err no_member_error, opened wider_world))
    × ((pg : Postgres) (f : TaskFilter) (sort_by : TaskSortField) (order : SortOrder)
          (page page_size : ℕ)
        → list_tasks plain_runtime (token_of 19) pg 6 f sort_by order page page_size wider_world
          ≡ (err no_member_error, opened wider_world))
    × (list_labels plain_runtime (token_of 19) 6 wider_world
        ≡ (err no_member_error, opened wider_world))
    × (list_project_members plain_runtime (token_of 19) 6 wider_world
        ≡ (err no_member_error, opened wider_world))
    × ((pg : Postgres) (page page_size : ℕ)
        → list_project_activity plain_runtime (token_of 19) pg 6 page page_size wider_world
          ≡ (err no_member_error, opened wider_world))
    × ((hashes : Hashes)
        → get_project_presence plain_runtime (token_of 19) hashes 6 wider_world
          ≡ (err no_member_error, opened wider_world))
refused_by_project_example =
    refused_by_project plain_runtime (token_of 19) 6 wider_world no_member_error dave_refused
