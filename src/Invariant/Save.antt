-- ===== src/Invariant/Save.antt =====
-- The invariant when `update_task` replaces a row.
use collabflow.Common.{
  ◌==◌, ==_iff, ℕ, ◌≤◌, ◌≡◌, refl, Bool, true, false, ◌&&◌, Option, none, some, List, [], ◌∷◌, map,
  arith, any, find, if◌then◌else◌, Bool-cases, inl, inr, &&-right,
}
use mathlib.Core.Path.{subst₂}
use collabflow.Models.{Task, ProjectMembership}
use collabflow.Service.Task.Update.{TaskUpdate, set_fields}
use collabflow.Invariant.Sound.{
  TasksAreSound, TasksAreSound-mono, assignee_is_member, parent_is_older, is_task_in,
}

abbrev pub same_parent : Option ℕ → Option ℕ → Bool
same_parent none none = true
same_parent none (some b) = false
same_parent (some a) none = false
same_parent (some a) (some b) = a == b

-- The row has the place of `task`: its project and its parent.
abbrev pub in_place : Task → Task → Bool
in_place task t =
    (t.project_id == task.project_id) && same_parent t.parent_task_id task.parent_task_id

-- Every row with the id of `task` is in its place.
unfoldable pub agree : Task → List Task → Bool
agree task [] = true
agree task (t ∷ ts) = (if t.id == task.id then in_place task t else true) && agree task ts

same_parent_refl : (p : Option ℕ) → same_parent p p ≡ true
same_parent_refl none = refl
same_parent_refl (some p) = ground arith

agree_below :
    (task : Task) (ms : List ProjectMembership) (bound : ℕ) (ts : List Task)
    → TasksAreSound ms bound ts
    → bound ≤ task.id
    → agree task ts ≡ true
unfolding agree
agree_below task ms bound [] s h = refl
agree_below task ms bound (t ∷ ts) s h = ground (arith, agree_below task ms t.id ts s.3)

-- Ids fall along the table, so that the first row with an id is the only one.
pub agree-find :
    (task : Task) (ms : List ProjectMembership) (bound : ℕ) (ts : List Task)
    → TasksAreSound ms bound ts
    → find (λ t. t.id == task.id) ts ≡ some task
    → agree task ts ≡ true
unfolding agree find
agree-find task ms bound [] s h = refl
agree-find task ms bound (t ∷ ts) s h = ground (
  arith,
  agree-find task ms t.id ts s.3,
  agree_below task ms t.id ts s.3,
  same_parent_refl task.parent_task_id,
)

abbrev pub save_in : Task → List Task → List Task
save_in task ts = map (λ t. if t.id == task.id then task else t) ts

any-save_in :
    (task : Task) (p q : ℕ) (ts : List Task)
    → agree task ts ≡ true
    → any (is_task_in p q) ts ≡ true
    → any (is_task_in p q) (save_in task ts) ≡ true
unfolding any agree
any-save_in task p q [] a h = h
any-save_in task p q (t ∷ ts) a h = ground (arith, any-save_in task p q ts)

parent_is_older-save_in :
    (task : Task) (q : ℕ) (p : Option ℕ) (ts : List Task)
    → agree task ts ≡ true
    → parent_is_older ts q p ≡ true
    → parent_is_older (save_in task ts) q p ≡ true
parent_is_older-save_in task q none ts a h = h
parent_is_older-save_in task q (some p) ts a h = any-save_in task p q ts a h

same_parent→≡ : (p q : Option ℕ) → same_parent p q ≡ true → p ≡ q
same_parent→≡ none none h = refl
same_parent→≡ none (some q) h = ground arith
same_parent→≡ (some p) none h = ground arith
same_parent→≡ (some p) (some q) h = ground arith

-- In the place of a row stands the new one.
replaced :
    (task t : Task) (ms : List ProjectMembership) (ts : List Task)
    → in_place task t ≡ true
    → parent_is_older ts t.project_id t.parent_task_id ≡ true
    → parent_is_older ts task.project_id task.parent_task_id ≡ true
replaced task t ms ts h p =
    subst₂ (λ a b. parent_is_older ts a b ≡ true) (ground arith)
      (same_parent→≡ t.parent_task_id task.parent_task_id (&&-right _ _ h)) p

-- Replacing a row by one in its place, whose assignee is a member, keeps the table sound.
pub TasksAreSound-save_in :
    (task : Task) (ms : List ProjectMembership) (bound : ℕ) (ts : List Task)
    → assignee_is_member ms task.project_id task.assignee_id ≡ true
    → agree task ts ≡ true
    → TasksAreSound ms bound ts
    → TasksAreSound ms bound (save_in task ts)
unfolding agree
TasksAreSound-save_in task ms bound [] m a s = tt
TasksAreSound-save_in task ms bound (t ∷ ts) m a s =
    let older : agree task ts ≡ true = &&-right _ _ a in
    let rest : TasksAreSound ms t.id (save_in task ts) =
      TasksAreSound-save_in task ms t.id ts m older s.3 in
    elim (Bool-cases (t.id == task.id)) [
      | inl hit ↦ rw hit (
        omega (arith, (==_iff t.id task.id).0 hit),
        m,
        parent_is_older-save_in task task.project_id task.parent_task_id ts older
            (replaced task t ms ts (ground arith) s.2),
        TasksAreSound-mono ms t.id task.id (save_in task ts)
            (omega (arith, (==_iff t.id task.id).0 hit)) rest,
      )
      | inr miss ↦
          rw miss (
            s.0,
            s.1,
            parent_is_older-save_in task t.project_id t.parent_task_id ts older s.2,
            rest,
          )
    ]

-- The fields that `update_task` sets leave a row in its place.
pub agree-set_fields :
    (u : TaskUpdate) (task : Task) (ts : List Task) → agree (set_fields u task) ts ≡ agree task ts
unfolding agree set_fields
agree-set_fields u task [] = refl
agree-set_fields u task (t ∷ ts) = cc (agree-set_fields u task ts)
