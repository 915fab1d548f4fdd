-- ===== src/Invariant/Delete.antt =====
-- The invariant when `delete` takes a task and its subtasks away.
use collabflow.Common.{
  ℕ, ◌<◌, ◌≤◌, ◌≡◌, refl, Bool, true, false, not, ◌&&◌, Option, none, some, List, [], ◌∷◌, arith,
  any, select, contains, if◌then◌else◌, Bool-cases, inl, inr, &&-left, &&-right,
}
use collabflow.Models.{Task, ProjectMembership}
use collabflow.Crud.Task.Delete.{doomed, parent_in}
use collabflow.Invariant.Sound.{TasksAreSound, TasksAreSound-mono, parent_is_older, is_task_in}

both_true : {a b : Bool} → a ≡ true → b ≡ true → (a && b) ≡ true
both_true h k = ground arith

-- With its parent a task goes too.
abbrev pub follows : List ℕ → Task → Bool
follows ids t = if parent_in ids t.parent_task_id then contains ids t.id else true

unfoldable pub closed : List ℕ → List Task → Bool
closed ids [] = true
closed ids (t ∷ ts) = follows ids t && closed ids ts

-- A task of a sound table has an id under its bound.
is_task_in_lt :
    (ms : List ProjectMembership) (bound p q : ℕ) (ts : List Task)
    → TasksAreSound ms bound ts
    → any (is_task_in p q) ts ≡ true
    → p < bound
unfolding any
is_task_in_lt ms bound p q [] s h = ground arith
is_task_in_lt ms bound p q (t ∷ ts) s h = ground (arith, is_task_in_lt ms t.id p q ts s.3)

parent_in-cons :
    (ms : List ProjectMembership) (bound a q : ℕ) (ids : List ℕ) (ts : List Task) (p : Option ℕ)
    → TasksAreSound ms bound ts
    → parent_is_older ts q p ≡ true
    → bound ≤ a
    → parent_in (a ∷ ids) p ≡ parent_in ids p
unfolding contains
parent_in-cons ms bound a q ids ts none s o h = refl
parent_in-cons ms bound a q ids ts (some p) s o h =
    ground (arith, is_task_in_lt ms bound p q ts s o)

follows-cons :
    (a : ℕ) (ids : List ℕ) (t : Task)
    → parent_in (a ∷ ids) t.parent_task_id ≡ parent_in ids t.parent_task_id
    → follows ids t ≡ true
    → follows (a ∷ ids) t ≡ true
follows-cons a ids t e h = rw e (unfold contains in ground arith)

-- One more id changes nothing for older tasks, whose parents it is not among.
closed-cons :
    (ms : List ProjectMembership) (bound a : ℕ) (ids : List ℕ) (ts : List Task)
    → TasksAreSound ms bound ts
    → bound ≤ a
    → closed ids ts ≡ true
    → closed (a ∷ ids) ts ≡ true
unfolding closed
closed-cons ms bound a ids [] s h c = refl
closed-cons ms bound a ids (t ∷ ts) s h c =
    both_true
      (follows-cons a ids t
        (parent_in-cons ms t.id a t.project_id ids ts t.parent_task_id s.3 s.2 (omega arith))
        (&&-left _ _ c))
      (closed-cons ms t.id a ids ts s.3 (omega arith) (&&-right _ _ c))

-- `doomed` finds the subtasks at every depth.
pub closed-doomed :
    (ms : List ProjectMembership) (bound root : ℕ) (ts : List Task)
    → TasksAreSound ms bound ts
    → closed (doomed root ts) ts ≡ true
unfolding closed doomed contains
closed-doomed ms bound root [] s = refl
closed-doomed ms bound root (t ∷ ts) s =
    ground
      (arith, closed-doomed ms t.id root ts s.3, closed-cons ms t.id t.id (doomed root ts) ts s.3)

abbrev pub survivors : List ℕ → List Task → List Task
survivors ids = select (λ t. not (contains ids t.id))

any-survivors :
    (ids : List ℕ) (p q : ℕ) (ts : List Task)
    → contains ids p ≡ false
    → any (is_task_in p q) ts ≡ true
    → any (is_task_in p q) (survivors ids ts) ≡ true
unfolding any select
any-survivors ids p q [] c h = h
any-survivors ids p q (t ∷ ts) c h = ground (arith, any-survivors ids p q ts)

parent_is_older-survivors :
    (ids : List ℕ) (q : ℕ) (p : Option ℕ) (ts : List Task)
    → parent_in ids p ≡ false
    → parent_is_older ts q p ≡ true
    → parent_is_older (survivors ids ts) q p ≡ true
parent_is_older-survivors ids q none ts c h = h
parent_is_older-survivors ids q (some p) ts c h = any-survivors ids p q ts c h

-- What stays has its parent left.
pub no_orphans :
    (ids : List ℕ) (ts : List Task)
    → closed ids ts ≡ true
    → any (λ t. parent_in ids t.parent_task_id) (survivors ids ts) ≡ false
unfolding closed any select
no_orphans ids [] c = refl
no_orphans ids (t ∷ ts) c = ground (arith, no_orphans ids ts)

-- Taking a closed set of tasks away keeps the table sound.
pub TasksAreSound-survivors :
    (ids : List ℕ) (ms : List ProjectMembership) (bound : ℕ) (ts : List Task)
    → closed ids ts ≡ true
    → TasksAreSound ms bound ts
    → TasksAreSound ms bound (survivors ids ts)
unfolding closed select
TasksAreSound-survivors ids ms bound [] c s = tt
TasksAreSound-survivors ids ms bound (t ∷ ts) c s =
    let rest : TasksAreSound ms t.id (survivors ids ts) =
      TasksAreSound-survivors ids ms t.id ts (&&-right _ _ c) s.3 in
    elim (Bool-cases (contains ids t.id)) [
      | inl gone ↦ rw gone (TasksAreSound-mono ms t.id bound (survivors ids ts) (omega arith) rest)
      | inr kept ↦ rw kept (
        s.0,
        s.1,
        parent_is_older-survivors ids t.project_id t.parent_task_id ts
            (stays ids t kept (&&-left _ _ c)) s.2,
        rest,
      )
    ]
  where
    stays :
        (ids : List ℕ) (t : Task)
        → contains ids t.id ≡ false
        → follows ids t ≡ true
        → parent_in ids t.parent_task_id ≡ false
    stays ids t k f = ground arith
