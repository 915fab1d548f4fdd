-- ===== src/Crud/Task.antt =====
-- backend/app/crud/task.py
pub mod Delete
pub mod Order
use Prim.Native.Nat.{max}
use collabflow.Common.{
  ◌==◌, ℕ, ◌+◌, Bool, true, not, ◌&&◌, ◌||◌, ◌∷◌, [], List, map, Option, none, some, Text, leb,
  find, any, select, contains, is_some, is_some_of, length, if◌then◌else◌,
}
use collabflow.Models.{
  Task, TaskStatus, TaskPriority, status_rank, priority_rank, status_eq, priority_eq, TaskLabel,
}
use collabflow.World.{Db, Exec, ◌>>=◌, ◌>>◌, query, write, uuid4, now, pure}
use collabflow.Crud.Postgres.{Postgres, page_of}

unfoldable pub get_by_id : ℕ → Exec (Option Task)
get_by_id task_id = query λ db. find (λ t. t.id == task_id) db.tasks

abbrev pub in_column : ℕ → TaskStatus → Task → Bool
in_column project_id status t = (t.project_id == project_id) && status_eq t.status status

-- `(max_position or 0)`: the greatest position in the column
unfoldable pub max_position : ℕ → TaskStatus → List Task → ℕ
max_position project_id status [] = 0
max_position project_id status (t ∷ tasks) =
    let rest = max_position project_id status tasks in
    if in_column project_id status t then max t.position rest else rest

-- The arguments of `create`, which `create_task` has too.
pub record NewTask : Type 0 where
  pub project_id : ℕ
  pub title : Text
  pub description : Option Text
  pub status : TaskStatus
  pub priority : TaskPriority
  pub assignee_id : Option ℕ
  pub due_date : Option ℕ
  pub parent_task_id : Option ℕ
  pub created_by_id : ℕ

unfoldable pub create : NewTask → Exec Task
create new = do
  highest ← query (λ db. max_position new.project_id new.status db.tasks)
  id ← uuid4
  created_at ← now
  let task : Task = record {
    id = id;
    project_id = new.project_id;
    title = new.title;
    description = new.description;
    status = new.status;
    priority = new.priority;
    assignee_id = new.assignee_id;
    due_date = new.due_date;
    parent_task_id = new.parent_task_id;
    created_by_id = new.created_by_id;
    position = highest + 1;
    created_at = created_at;
  }
  write (λ db. record db { tasks = task ∷ db.tasks })
  pure task

pub data TaskSortField : Type 0 where
  by_created_at by_due_date by_priority by_status by_position by_title : TaskSortField

pub data SortOrder : Type 0 where
  asc desc : SortOrder

-- NULL is greater than every date.
abbrev pub due_le : Option ℕ → Option ℕ → Bool
due_le a none = true
due_le none (some d) = Bool.false
due_le (some c) (some d) = leb c d

-- _SORT_COLUMNS
unfoldable pub sort_column : Postgres → TaskSortField → Task → Task → Bool
sort_column pg by_created_at a b = leb a.created_at b.created_at
sort_column pg by_due_date a b = due_le a.due_date b.due_date
sort_column pg by_priority a b = leb (priority_rank a.priority) (priority_rank b.priority)
sort_column pg by_status a b = leb (status_rank a.status) (status_rank b.status)
sort_column pg by_position a b = leb a.position b.position
sort_column pg by_title a b = pg.text_le a.title b.title

-- `sort_column.desc() if sort_order == SortOrder.DESC else sort_column.asc()`
unfoldable pub order_clause : Postgres → TaskSortField → SortOrder → Task → Task → Bool
unfolding sort_column
order_clause pg field asc a b = sort_column pg field a b
order_clause pg field desc a b = sort_column pg field b a

-- The optional filters of `list_by_project`; `none` is the default `None`.
pub record TaskFilter : Type 0 where
  pub status : Option TaskStatus
  pub priority : Option TaskPriority
  pub assignee_id : Option ℕ
  pub label_id : Option ℕ
  pub search : Option Text

-- A condition is added only if its argument is not `None`.
abbrev pub given : {A : Type 0} → Option A → (A → Bool) → Bool
given none test = true
given (some a) test = test a

unfoldable pub matches : Postgres → Db → ℕ → TaskFilter → Task → Bool
matches pg db project_id f t =
    (t.project_id == project_id)
    && not (is_some t.parent_task_id)
    && given f.status (λ s. status_eq t.status s)
    && given f.priority (λ p. priority_eq t.priority p)
    && given f.assignee_id (λ a. is_some_of t.assignee_id a)
    && given f.search (λ s. pg.ilike s t.title)
    && given f.label_id (λ l. any (λ r. (r.task_id == t.id) && (r.label_id == l)) db.task_labels)

unfoldable pub list_by_project :
    Postgres
    → (project_id : ℕ) → TaskFilter
    → TaskSortField
    → SortOrder
    → (page page_size : ℕ) → Exec (List Task × ℕ)
list_by_project pg project_id f sort_by sort_order page page_size = query λ db.
    let rows = select (matches pg db project_id f) db.tasks in
    let sorted = pg.order_by Task (order_clause pg sort_by sort_order) rows in
    (page_of page page_size sorted, length rows)

unfoldable pub list_subtasks : Postgres → ℕ → Exec (List Task)
list_subtasks pg parent_task_id = query λ db.
    pg.order_by Task (λ a b. leb a.position b.position)
      (select (λ t. is_some_of t.parent_task_id parent_task_id) db.tasks)

-- Assigned, not done, and due on the day.
unfoldable pub is_due_on : ℕ → Task → Bool
is_due_on due_date t =
    is_some_of t.due_date due_date
    && is_some t.assignee_id
    && not (status_eq t.status TaskStatus.done)

unfoldable pub list_due_on : ℕ → Exec (List Task)
list_due_on due_date = query λ db. select (is_due_on due_date) db.tasks
