-- ===== src/Invariant/Elsewhere.antt =====
-- The tasks of one project, while rows of other projects are saved and deleted.
use collabflow.Common.{
  ◌==◌, ==_iff, ℕ, ◌≤◌, ◌≡◌, refl, Bool, true, false, not, ◌&&◌, Option, none, some, List, [], ◌∷◌,
  arith, any, select, contains, Bool-cases, inl, inr, &&-right,
}
use collabflow.Models.{Task, ProjectMembership}
use collabflow.Crud.Task.Delete.{doomed, parent_in}
use collabflow.Invariant.Sound.{TasksAreSound, parent_is_older, is_task_in}
use collabflow.Invariant.Save.{agree, save_in}
use collabflow.Invariant.Delete.{survivors}

unfoldable pub tasks_of : (project_id : ℕ) → List Task → List Task
tasks_of p ts = select (λ t. t.project_id == p) ts

-- The rows with these ids are of other projects.
unfoldable pub elsewhere : (project_id : ℕ) → List ℕ → List Task → Bool
elsewhere p ids [] = true
elsewhere p ids (t ∷ ts) = not (contains ids t.id && (t.project_id == p)) && elsewhere p ids ts

module _ (p : ℕ) where
  pub tasks_of-cons :
      (t : Task) (ts : List Task)
      → (t.project_id == p) ≡ false
      → tasks_of p (t ∷ ts) ≡ tasks_of p ts
  unfolding tasks_of select
  tasks_of-cons t ts h = rw h refl

  pub tasks_of-save_in :
      (task : Task) (ts : List Task)
      → (task.project_id == p) ≡ false
      → agree task ts ≡ true
      → tasks_of p (save_in task ts) ≡ tasks_of p ts
  unfolding tasks_of select agree
  tasks_of-save_in task [] h a = refl
  tasks_of-save_in task (t ∷ ts) h a = ground (arith, tasks_of-save_in task ts, h, a)

  pub tasks_of-survivors :
      (ids : List ℕ) (ts : List Task)
      → elsewhere p ids ts ≡ true
      → tasks_of p (survivors ids ts) ≡ tasks_of p ts
  unfolding tasks_of select elsewhere
  tasks_of-survivors ids [] e = refl
  tasks_of-survivors ids (t ∷ ts) e = ground (arith, tasks_of-survivors ids ts, e)

  -- A row that agrees with all that have its id.
  pub agree-elsewhere :
      (task : Task) (ts : List Task)
      → (task.project_id == p) ≡ false
      → agree task ts ≡ true
      → elsewhere p (task.id ∷ []) ts ≡ true
  unfolding elsewhere agree contains
  agree-elsewhere task [] h a = refl
  agree-elsewhere task (t ∷ ts) h a = ground (arith, agree-elsewhere task ts, h, a)

  -- One more id changes nothing for older rows.
  elsewhere-cons :
      (ms : List ProjectMembership) (bound a : ℕ) (ids : List ℕ) (ts : List Task)
      → TasksAreSound ms bound ts
      → bound ≤ a
      → elsewhere p ids ts ≡ true
      → elsewhere p (a ∷ ids) ts ≡ true
  unfolding elsewhere contains
  elsewhere-cons ms bound a ids [] s h e = refl
  elsewhere-cons ms bound a ids (t ∷ ts) s h e =
      ground (arith, s.0, h, e, elsewhere-cons ms t.id a ids ts s.3)

  -- The parent that goes is of another project, and so is the subtask.
  parent-elsewhere :
      (ids : List ℕ) (a q : ℕ) (ts : List Task)
      → elsewhere p ids ts ≡ true
      → contains ids a ≡ true
      → any (is_task_in a q) ts ≡ true
      → (q == p) ≡ false
  unfolding elsewhere any
  parent-elsewhere ids a q [] e c h = ground (arith, h)
  parent-elsewhere ids a q (t ∷ ts) e c h =
      ground (arith, parent-elsewhere ids a q ts, e, c, h, ==_iff t.id a, ==_iff t.project_id q)

  subtask-elsewhere :
      (ids : List ℕ) (parent : Option ℕ) (q : ℕ) (ts : List Task)
      → elsewhere p ids ts ≡ true
      → parent_in ids parent ≡ true
      → parent_is_older ts q parent ≡ true
      → (q == p) ≡ false
  subtask-elsewhere ids none q ts e c h = ground (arith, c)
  subtask-elsewhere ids (some a) q ts e c h = parent-elsewhere ids a q ts e c h

-- What goes with the root has the id of an older row, or is the root.
doomed-root :
    (ms : List ProjectMembership) (bound root a : ℕ) (ts : List Task)
    → TasksAreSound ms bound ts
    → bound ≤ a
    → contains (doomed root ts) a ≡ true
    → root ≡ a
unfolding doomed contains
doomed-root ms bound root a [] s h c = ground (arith, c)
doomed-root ms bound root a (t ∷ ts) s h c =
    ground (arith, s.0, h, c, doomed-root ms t.id root a ts s.3)

tail_elsewhere :
    (p root : ℕ) (t : Task) (ts : List Task)
    → elsewhere p (root ∷ []) (t ∷ ts) ≡ true
    → elsewhere p (root ∷ []) ts ≡ true
unfolding elsewhere
tail_elsewhere p root t ts e = &&-right _ _ e

goes_along :
    (p : ℕ) (ms : List ProjectMembership) (ids : List ℕ) (t : Task) (ts : List Task)
    → TasksAreSound ms t.id ts
    → (t.project_id == p) ≡ false
    → elsewhere p ids ts ≡ true
    → elsewhere p (t.id ∷ ids) (t ∷ ts) ≡ true
unfolding elsewhere contains
goes_along p ms ids t ts s h e =
    let older = elsewhere-cons p ms t.id t.id ids ts s (omega arith) e in ground (arith, h, older)

stays_or_root :
    (p : ℕ) (ms : List ProjectMembership) (root : ℕ) (t : Task) (ts : List Task)
    → TasksAreSound ms t.id ts
    → elsewhere p (root ∷ []) (t ∷ ts) ≡ true
    → elsewhere p (doomed root ts) ts ≡ true
    → elsewhere p (doomed root ts) (t ∷ ts) ≡ true
unfolding elsewhere contains
stays_or_root p ms root t ts s e older =
    ground (arith, e, older, doomed-root ms t.id root t.id ts s, ==_iff root t.id)

-- If the root is of another project, so is all that goes with it.
pub elsewhere-doomed :
    (p : ℕ) (ms : List ProjectMembership) (bound root : ℕ) (ts : List Task)
    → TasksAreSound ms bound ts
    → elsewhere p (root ∷ []) ts ≡ true
    → elsewhere p (doomed root ts) ts ≡ true
unfolding doomed
elsewhere-doomed p ms bound root [] s e = unfold elsewhere in refl
elsewhere-doomed p ms bound root (t ∷ ts) s e =
    let older = elsewhere-doomed p ms t.id root ts s.3 (tail_elsewhere p root t ts e) in
    elim (Bool-cases (parent_in (doomed root ts) t.parent_task_id)) [
      | inl goes ↦ rw goes (
          goes_along p ms (doomed root ts) t ts s.3
            (subtask-elsewhere p (doomed root ts) t.parent_task_id t.project_id ts older goes s.2)
            older)
      | inr stays ↦ rw stays (stays_or_root p ms root t ts s.3 e older)
    ]
