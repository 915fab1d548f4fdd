-- ===== src/Invariant/Isolation.antt =====
-- The tasks of a project are out of reach for a caller who is not its member.
use collabflow.Common.{
  List, ◌∷◌, suc, ◌<◌, ◌≤◌, ◌==◌, ==_iff, ℕ, ◌≡◌, refl, ap, ◌∙◌, sym, true, false, none, some, Text,
  arith, find, Bool-cases, inl, inr,
}
use collabflow.World.{Untouched, World, Db, Result, ok, err}
use collabflow.Models.{Task, User, Role}
use collabflow.Runtime.{Runtime}
use collabflow.Config.{Settings}
use collabflow.Crud.Postgres.{Postgres}
use collabflow.Crud.Project.{is_membership}
use collabflow.Crud.Task.{NewTask}
use collabflow.Crud.Task.Delete.{doomed}
use collabflow.Deps.{get_current_user, require_task_project_role}
use collabflow.Router.Access.{
  suffices, require_project_role_iff, require_task_project_role_iff, require_task-found,
}
use collabflow.Service.Task.{create_task, delete_task}
use collabflow.Service.Task.Laws.{create_task-ok}
use collabflow.Service.Task.Atomic.{create_task_error, update_task_error}
use collabflow.Service.Task.Update.{TaskUpdate, update_task, set_fields}
use collabflow.Invariant.Good.{IsGood, opened, Shows-opened}
use collabflow.Invariant.Rules.{Holds, IsKept}
use collabflow.Invariant.Members.{create_project-Grows, invite_member-Grows}
use collabflow.Invariant.Joining.{members_of, create_project-members, invite_member-members}
use collabflow.Invariant.Frame.{Shows}
use collabflow.Invariant.Delete.{survivors}
use collabflow.Invariant.Steps.{create_task-Shows, create_task-drawn}
use collabflow.Invariant.Save.{save_in, agree-find, agree-set_fields}
use collabflow.Invariant.Updates.{delete_task-tables, update_task-Shows, update_task-drawn}
use collabflow.Invariant.Services.{find_own_id}
use collabflow.Invariant.Elsewhere.{
  tasks_of, tasks_of-cons, tasks_of-save_in, tasks_of-survivors, agree-elsewhere, elsewhere-doomed,
}
use collabflow.Invariant.Requests.{Request, serve, serve-Holds}

later : {p m n : ℕ} → p < m → m ≤ n → p < n
later h k = omega arith

module _ (rt : Runtime) (token : Text) (p : ℕ) (w : World) where
  -- The caller of the token, if there is one, is no member of the project.
  abbrev pub IsStranger : Type 0
  IsStranger =
      (u : User)
      → (get_current_user rt token (opened w)).0 ≡ ok u
      → find (is_membership p u.id) w.committed.project_memberships ≡ none

  -- The committed tasks and memberships of the project, which was there before, are the same.
  abbrev pub Same : ℕ → Db → Type 0
  Same n db =
      (tasks_of p db.tasks ≡ tasks_of p w.committed.tasks)
      × (members_of p db.project_memberships ≡ members_of p w.committed.project_memberships)
      × (p < n)

  -- An operation that left the committed database alone.
  Untouched-Same :
      (w' : World) → p < w.drawn → w.drawn ≤ w'.drawn → Untouched (opened w) w' → Holds Same w'
  Untouched-Same w' h d u = (
    ap (λ db. tasks_of p db.tasks) u.committed,
    ap (λ db. members_of p db.project_memberships) u.committed,
    omega arith,
  )

  -- One that left the memberships, and the tasks of the project.
  Shows-Same :
      (ts : List Task) (n : ℕ) (w' : World)
      → p < w.drawn
      → w.drawn ≤ w'.drawn
      → tasks_of p ts ≡ tasks_of p w.committed.tasks
      → Shows ts w.committed.project_memberships n w'
      → Holds Same w'
  Shows-Same ts n w' h d e s =
      (ap (tasks_of p) s.committed_tasks ∙ e, ap (members_of p) s.committed_members, omega arith)

  module _ (stranger : IsStranger) where
    allowed-elsewhere :
        (q : ℕ) (role : Role) (u : User)
        → (get_current_user rt token (opened w)).0 ≡ ok u
        → suffices role (find (is_membership q u.id) w.committed.project_memberships) ≡ true
        → (q == p) ≡ false
    allowed-elsewhere q role u caller enough = elim (Bool-cases (q == p)) [
      | inl own ↦
          let same =
            ap (λ x. suffices role (find (is_membership x u.id) w.committed.project_memberships))
              ((==_iff q p).0 own) in
          ground (arith, sym enough ∙ same ∙ ap (suffices role) (stranger u caller))
      | inr other ↦ other
    ]

    task-elsewhere :
        (role : Role) (i : ℕ) (task : Task) (r : Result User)
        → (get_current_user rt token (opened w)).0 ≡ r
        → (require_task_project_role rt role token i (opened w)).0 ≡ ok task
        → (task.project_id == p) ≡ false
    unfolding require_task_project_role
    task-elsewhere role i task (ok u) caller allowed =
        allowed-elsewhere task.project_id role u caller
          ((require_task_project_role_iff rt role token i (opened w) u task caller).0 allowed).1
    task-elsewhere role i task (err e) caller allowed = ground (arith, caller, allowed)

    created :
        (new : NewTask) (r : Result Task)
        → p < w.drawn
        → (new.project_id == p) ≡ false
        → (create_task new (opened w)).0 ≡ r
        → Holds Same (create_task new (opened w)).1
    created new (err e) there other h =
        Untouched-Same (create_task new (opened w)).1 there (create_task-drawn new (opened w))
          (create_task_error new (opened w) e h)
    created new (ok t) there other h =
        let (committed, asked, _) = create_task-ok new (opened w) t h in
        let project : t.project_id ≡ new.project_id = ap (λ (n : NewTask). n.project_id) asked in
        Shows-Same (t ∷ w.committed.tasks) (suc t.id) (create_task new (opened w)).1 there
          (create_task-drawn new (opened w))
          (tasks_of-cons p t w.committed.tasks (rw project other))
          (create_task-Shows new (opened w) t (Shows-opened w) h)

    updated :
        (u : TaskUpdate) (task : Task) (a : ℕ) (r : Result Task)
        → p < w.drawn
        → IsGood w
        → (task.project_id == p) ≡ false
        → find (λ t. t.id == task.id) w.committed.tasks ≡ some task
        → (update_task task u a (opened w)).0 ≡ r
        → Holds Same (update_task task u a (opened w)).1
    updated u task a (err e) there g other row h =
        Untouched-Same (update_task task u a (opened w)).1 there
          (update_task-drawn task u a (opened w)) (update_task_error task u a (opened w) e h)
    updated u task a (ok t) there g other row h =
        let ts = w.committed.tasks in
        let ms = w.committed.project_memberships in
        Shows-Same (save_in (set_fields u task) ts) w.drawn (update_task task u a (opened w)).1
          there (update_task-drawn task u a (opened w))
          (tasks_of-save_in p (set_fields u task) ts (unfold set_fields in other)
            (agree-set_fields u task ts ∙ agree-find task ms w.drawn ts g.tasks row))
          (update_task-Shows task t u a (opened w) (Shows-opened w) h)

    deleted :
        (pg : Postgres) (task : Task) (a : ℕ)
        → p < w.drawn
        → IsGood w
        → (task.project_id == p) ≡ false
        → find (λ t. t.id == task.id) w.committed.tasks ≡ some task
        → Holds Same (delete_task pg task a (opened w)).1
    deleted pg task a there g other row =
        let ts = w.committed.tasks in
        let ms = w.committed.project_memberships in
        let shown = delete_task-tables pg task a (opened w) (Shows-opened w) in
        Shows-Same (survivors (doomed task.id ts) ts) w.drawn (delete_task pg task a (opened w)).1
          there shown.drawn
          (tasks_of-survivors p (doomed task.id ts) ts (
            elsewhere-doomed p ms w.drawn task.id ts g.tasks
              (agree-elsewhere p task ts other (agree-find task ms w.drawn ts g.tasks row))))
          shown

    Same-IsKept : p < w.drawn → IsGood w → IsKept Same rt token w
    Same-IsKept there g = record {
      start = (refl, refl, there);
      frame = λ w' s. Shows-Same w.committed.tasks w.drawn w' there s.drawn refl s;
      founds = λ o name d u.
          let grown = create_project-Grows rt o name d u (opened w) (Shows-opened w) in
          (
            ap (tasks_of p) grown.committed_tasks,
            create_project-members rt p o name d u (opened w) (Shows-opened w) there,
            later there grown.drawn,
          );
      invites = λ q email role u allowed.
          let grown = invite_member-Grows q email role u.id (opened w) (Shows-opened w) in
          let (caller, enough) =
            (require_project_role_iff rt Role.admin token q (opened w) u).0 allowed in
          (
            ap (tasks_of p) grown.committed_tasks,
            invite_member-members p q email role u.id (opened w) (Shows-opened w)
                (allowed-elsewhere q Role.admin u caller enough),
            later there grown.drawn,
          );
      creates = λ new u allowed.
          let (caller, enough) =
            (require_project_role_iff rt Role.member token new.project_id (opened w) u).0 allowed in
          created new (create_task new (opened w)).0 there
            (allowed-elsewhere new.project_id Role.member u caller enough) refl;
      updates = λ i u task a allowed.
          updated u task a (update_task task u a (opened w)).0 there g
            (task-elsewhere Role.member i task (get_current_user rt token (opened w)).0 refl
              allowed)
            (find_own_id i w.committed.tasks task
              (require_task-found rt Role.member token (opened w) i task allowed))
            refl;
      deletes = λ pg i task a allowed.
          deleted pg task a there g
            (task-elsewhere Role.admin i task (get_current_user rt token (opened w)).0 refl allowed)
            (find_own_id i w.committed.tasks task
              (require_task-found rt Role.admin token (opened w) i task allowed));
    }

  -- No request of a stranger touches the project.
  pub serve-Same :
      (settings : Settings) (pg : Postgres) (r : Request)
      → IsStranger
      → p < w.drawn
      → IsGood w
      → Holds Same (serve rt settings pg token r w)
  serve-Same settings pg r stranger there g =
      serve-Holds {P = Same} rt settings pg token r w (Same-IsKept stranger there g)
