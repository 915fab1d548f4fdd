-- ===== src/Invariant/Good.antt =====
-- From what an operation shows to the invariant of the committed database.
use mathlib.Core.Path.{subst, sym}
use native.Mathlib.Nat.{le_refl}
use collabflow.Common.{ℕ, refl, List}
use collabflow.World.{World}
use collabflow.Models.{Task, ProjectMembership}
use collabflow.Invariant.Sound.{IsSound, TasksAreSound, TasksAreSound-mono, TasksAreSound-grown}
use collabflow.Invariant.Frame.{Shows}
use collabflow.Invariant.Members.{Grows}

-- The committed tasks are sound.
abbrev pub IsGood : World → Type 0
IsGood w = IsSound w.drawn w.committed

-- A session that was just opened.
abbrev pub opened : World → World
opened w = record w { session = w.committed }

pub Shows-opened :
    (w : World) → Shows w.committed.tasks w.committed.project_memberships w.drawn (opened w)
Shows-opened w = record {
  session_tasks = refl;
  session_members = refl;
  committed_tasks = refl;
  committed_members = refl;
  drawn = le_refl w.drawn;
}

pub Grows-IsGood :
    (ts : List Task) (ms : List ProjectMembership) (n : ℕ) (w : World)
    → TasksAreSound ms n ts
    → Grows ts ms n w
    → IsGood w
Grows-IsGood ts ms n w s g = record {
  tasks = subst (TasksAreSound w.committed.project_memberships w.drawn) (sym g.committed_tasks) (
      TasksAreSound-mono w.committed.project_memberships n w.drawn ts g.drawn
        (TasksAreSound-grown ms w.committed.project_memberships n ts g.committed_members s));
}

pub Shows-IsGood :
    (ts : List Task) (ms : List ProjectMembership) (n : ℕ) (w : World)
    → TasksAreSound ms n ts
    → Shows ts ms n w
    → IsGood w
Shows-IsGood ts ms n w s h = Grows-IsGood ts ms n w s (record {
  committed_tasks = h.committed_tasks;
  committed_members = λ p e. rw h.committed_members e;
  drawn = h.drawn;
})
