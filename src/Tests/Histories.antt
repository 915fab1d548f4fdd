-- ===== src/Tests/Histories.antt =====
-- A history of requests on the small database.
use collabflow.Common.{◌<◌, refl, none, some, Text, List, [], ◌∷◌, codes, arith, any}
use collabflow.Config.{default_settings}
use collabflow.Models.{TaskStatus, TaskPriority}
use collabflow.Router.Tasks.{TaskCreate}
use collabflow.Invariant.Good.{IsGood}
use collabflow.Invariant.Requests.{
  Request, creates_task, deletes_task, creates_comment, uploads_attachment, marks_all_read, reminds,
  serve_all, serve_all-IsGood,
}
use collabflow.Tests.Libraries.{plain_runtime}
use collabflow.Tests.Sorting.{plain_postgres}
use collabflow.Tests.Tables.{small_world, alice_token, bob_token}

pub small_world-IsGood : IsGood small_world
unfolding any
small_world-IsGood = record { tasks = (first, refl, refl, (second, refl, refl, tt)) }
  where
    first : 10 < 20
    first = omega arith

    second : 9 < 10
    second = omega arith

abbrev asked_task : TaskCreate
asked_task = record {
  title = codes "Ship";
  description = none;
  status = TaskStatus.todo;
  priority = TaskPriority.high;
  assignee_id = some 2;
  due_date = none;
  parent_task_id = some 9;
}

abbrev busy_day : List (Text × Request)
busy_day =
    (bob_token, creates_task 6 asked_task)
    ∷ (bob_token, creates_comment 9 (codes "see @alice@site.org"))
    ∷ (bob_token, uploads_attachment 9 (some (codes "plan.pdf")) none 100)
    ∷ (bob_token, marks_all_read)
    ∷ ([], reminds (λ day. codes "2026-08-27") 4)
    ∷ (bob_token, deletes_task 9)
    ∷ (alice_token, deletes_task 9)
    ∷ []

serve_all-IsGood_example :
    IsGood (serve_all plain_runtime default_settings plain_postgres busy_day small_world)
serve_all-IsGood_example =
    serve_all-IsGood plain_runtime default_settings plain_postgres busy_day small_world
      small_world-IsGood
