-- ===== src/Invariant/Sound.antt =====
-- The invariant on tasks and memberships, and how it fares under changes of the tables.
use collabflow.Common.{
  ◌==◌, ℕ, ◌<◌, ◌≤◌, ◌≡◌, refl, Bool, true, ◌&&◌, Option, none, some, List, [], ◌∷◌, arith, any,
  find, is_some,
}
use collabflow.Models.{Task, ProjectMembership}
use collabflow.Crud.Project.{is_membership}
use collabflow.World.{Db}

-- An assignee is a member of the task's project.
abbrev pub assignee_is_member : List ProjectMembership → (project_id : ℕ) → Option ℕ → Bool
assignee_is_member memberships project_id none = true
assignee_is_member memberships project_id (some a) = any (is_membership project_id a) memberships

abbrev pub is_task_in : (task_id project_id : ℕ) → Task → Bool
is_task_in task_id project_id t = (t.id == task_id) && (t.project_id == project_id)

-- A parent is an older task of the same project.
abbrev pub parent_is_older : List Task → (project_id : ℕ) → Option ℕ → Bool
parent_is_older older project_id none = true
parent_is_older older project_id (some p) = any (is_task_in p project_id) older

-- Every task of the table: ids fall from the newest row on and stay under the bound.
abbrev pub TasksAreSound : List ProjectMembership → ℕ → List Task → Type 0
TasksAreSound memberships bound [] = Unit {0}
TasksAreSound memberships bound (t ∷ tasks) =
    (t.id < bound)
    × (assignee_is_member memberships t.project_id t.assignee_id ≡ true)
    × (parent_is_older tasks t.project_id t.parent_task_id ≡ true)
    × TasksAreSound memberships t.id tasks

pub record IsSound (drawn : ℕ) (db : Db) : Type 0 where
  pub tasks : TasksAreSound db.project_memberships drawn db.tasks

pub is_some-find : {A : Type 0} (p : A → Bool) (xs : List A) → is_some (find p xs) ≡ any p xs
unfolding any find
is_some-find p [] = refl
is_some-find p (y ∷ xs) = ground (arith, is_some-find p xs)

pub TasksAreSound-mono :
    (ms : List ProjectMembership) (m n : ℕ) (ts : List Task)
    → m ≤ n
    → TasksAreSound ms m ts
    → TasksAreSound ms n ts
TasksAreSound-mono ms m n [] h s = tt
TasksAreSound-mono ms m n (t ∷ ts) h s = (omega arith, s.1, s.2, s.3)

-- More memberships: every test that some row of `ms` passes, some row of `ms'` passes.
abbrev pub Includes : List ProjectMembership → List ProjectMembership → Type 0
Includes ms ms' = (p : ProjectMembership → Bool) → any p ms ≡ true → any p ms' ≡ true

assignee_is_member_mono :
    (ms ms' : List ProjectMembership) (q : ℕ) (a : Option ℕ)
    → Includes ms ms'
    → assignee_is_member ms q a ≡ true
    → assignee_is_member ms' q a ≡ true
assignee_is_member_mono ms ms' q none grown h = h
assignee_is_member_mono ms ms' q (some a) grown h = grown (is_membership q a) h

pub TasksAreSound-grown :
    (ms ms' : List ProjectMembership) (n : ℕ) (ts : List Task)
    → Includes ms ms'
    → TasksAreSound ms n ts
    → TasksAreSound ms' n ts
TasksAreSound-grown ms ms' n [] grown s = tt
TasksAreSound-grown ms ms' n (t ∷ ts) grown s = (
  s.0,
  assignee_is_member_mono ms ms' t.project_id t.assignee_id grown s.1,
  s.2,
  TasksAreSound-grown ms ms' t.id ts grown s.3,
)
