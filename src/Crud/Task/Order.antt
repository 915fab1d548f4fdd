-- ===== src/Crud/Task/Order.antt =====
-- What the ORDER BY and the conditions of `list_by_project` mean.
use mathlib.Core.Path.{subst}
use collabflow.Common.{
  ℕ, ◌≤◌, ◌≡◌, ◌↔◌, ◌⊎◌, inl, inr, refl, true, Bool, Option, none, some, List, [], ◌∷◌, All,
  All-mono, arith, any, leb, sym, ap, ◌∙◌, ==_iff, is_some_of, is_some, not, if◌then◌else◌, ◌&&◌,
  ◌==◌,
}
use collabflow.Models.{
  Task, TaskLabel, TaskStatus, TaskPriority, status_rank, priority_rank, status_eq, priority_eq,
}
use collabflow.World.{Db}
use collabflow.Crud.Postgres.{Postgres, IsOrdered}
use collabflow.Crud.Task.{
  TaskSortField, by_created_at, by_due_date, by_priority, by_status, by_position, by_title,
  SortOrder, asc, desc, order_clause, TaskFilter, matches, sort_column, due_le, given,
}

-- The titles of the database are in a total order.
pub record IsCollated (pg : Postgres) : Type 0 where
  pub total : (x y : _) → (pg.text_le x y ≡ true) ⊎ (pg.text_le y x ≡ true)
  pub trans : (x y z : _) → pg.text_le x y ≡ true → pg.text_le y z ≡ true → pg.text_le x z ≡ true

-- The earlier date first, no date last.
abbrev pub IsDueBy : Option ℕ → Option ℕ → Type 0
IsDueBy a none = Unit
IsDueBy none (some d) = ⊥
IsDueBy (some c) (some d) = c ≤ d

abbrev pub Precedes : Postgres → TaskSortField → Task → Task → Type 0
Precedes pg by_created_at a b = a.created_at ≤ b.created_at
Precedes pg by_due_date a b = IsDueBy a.due_date b.due_date
Precedes pg by_priority a b = priority_rank a.priority ≤ priority_rank b.priority
Precedes pg by_status a b = status_rank a.status ≤ status_rank b.status
Precedes pg by_position a b = a.position ≤ b.position
Precedes pg by_title a b = pg.text_le a.title b.title ≡ true

-- `a` may come in front of `b`.
abbrev pub MayPrecede : Postgres → TaskSortField → SortOrder → Task → Task → Type 0
MayPrecede pg field asc a b = Precedes pg field a b
MayPrecede pg field desc a b = Precedes pg field b a

abbrev pub AreInOrder : Postgres → TaskSortField → SortOrder → List Task → Type 0
AreInOrder pg field order [] = Unit
AreInOrder pg field order (t ∷ ts) =
    All (MayPrecede pg field order t) ts × AreInOrder pg field order ts

due-IsDueBy : (a b : Option ℕ) → due_le a b ≡ true → IsDueBy a b
due-IsDueBy a none h = tt
due-IsDueBy none (some d) h = ground (arith, h)
due-IsDueBy (some c) (some d) h = ground (arith, h)

due_le_total : (a b : Option ℕ) → (due_le a b ≡ true) ⊎ (due_le b a ≡ true)
due_le_total a none = inl refl
due_le_total none (some d) = inr refl
due_le_total (some c) (some d) = ground arith

due_le_trans : (a b c : Option ℕ) → due_le a b ≡ true → due_le b c ≡ true → due_le a c ≡ true
due_le_trans a b none h k = refl
due_le_trans a none (some e) h k = ground (arith, k)
due_le_trans none (some d) (some e) h k = ground (arith, h)
due_le_trans (some c) (some d) (some e) h k = ground (arith, h, k)

leb_total : (a b : ℕ) → (leb a b ≡ true) ⊎ (leb b a ≡ true)
leb_total a b = ground arith

leb_trans : (a b c : ℕ) → leb a b ≡ true → leb b c ≡ true → leb a c ≡ true
leb_trans a b c h k = ground (arith, h, k)

module _ (pg : Postgres) where
  sort_column-Precedes :
      (field : TaskSortField) (a b : Task) → sort_column pg field a b ≡ true → Precedes pg field a b
  unfolding sort_column
  sort_column-Precedes by_created_at a b h = ground (arith, h)
  sort_column-Precedes by_due_date a b h = due-IsDueBy a.due_date b.due_date h
  sort_column-Precedes by_priority a b h = ground (arith, h)
  sort_column-Precedes by_status a b h = ground (arith, h)
  sort_column-Precedes by_position a b h = ground (arith, h)
  sort_column-Precedes by_title a b h = h

  order_clause-MayPrecede :
      (field : TaskSortField) (order : SortOrder) (a b : Task)
      → order_clause pg field order a b ≡ true
      → MayPrecede pg field order a b
  unfolding order_clause
  order_clause-MayPrecede field asc a b h = sort_column-Precedes field a b h
  order_clause-MayPrecede field desc a b h = sort_column-Precedes field b a h

  module _ (collated : IsCollated pg) where
    sort_column_total :
        (field : TaskSortField) (a b : Task)
        → (sort_column pg field a b ≡ true) ⊎ (sort_column pg field b a ≡ true)
    unfolding sort_column
    sort_column_total by_created_at a b = ground arith
    sort_column_total by_due_date a b = due_le_total a.due_date b.due_date
    sort_column_total by_priority a b =
        leb_total (priority_rank a.priority) (priority_rank b.priority)
    sort_column_total by_status a b = leb_total (status_rank a.status) (status_rank b.status)
    sort_column_total by_position a b = ground arith
    sort_column_total by_title a b = collated.total a.title b.title

    sort_column_trans :
        (field : TaskSortField) (a b c : Task)
        → sort_column pg field a b ≡ true
        → sort_column pg field b c ≡ true
        → sort_column pg field a c ≡ true
    unfolding sort_column
    sort_column_trans by_created_at a b c h k = leb_trans a.created_at b.created_at c.created_at h k
    sort_column_trans by_due_date a b c h k = due_le_trans a.due_date b.due_date c.due_date h k
    sort_column_trans by_priority a b c h k =
        leb_trans (priority_rank a.priority) (priority_rank b.priority) (priority_rank c.priority) h
          k
    sort_column_trans by_status a b c h k =
        leb_trans (status_rank a.status) (status_rank b.status) (status_rank c.status) h k
    sort_column_trans by_position a b c h k = leb_trans a.position b.position c.position h k
    sort_column_trans by_title a b c h k = collated.trans a.title b.title c.title h k

    ordered :
        (field : TaskSortField) (order : SortOrder) (rows : List Task)
        → IsOrdered
            (order_clause pg field order)
            (pg.order_by Task (order_clause pg field order) rows)
    unfolding order_clause
    ordered field asc rows =
        pg.order_by-IsOrdered Task (order_clause pg field asc) rows (sort_column_total field)
          (sort_column_trans field)
    ordered field desc rows =
        pg.order_by-IsOrdered Task (order_clause pg field desc) rows
          (λ a b. sort_column_total field b a) (λ a b c h k. sort_column_trans field c b a k h)

    IsOrdered-AreInOrder :
        (field : TaskSortField) (order : SortOrder) (rows : List Task)
        → IsOrdered (order_clause pg field order) rows
        → AreInOrder pg field order rows
    IsOrdered-AreInOrder field order [] h = tt
    IsOrdered-AreInOrder field order (t ∷ ts) h = (
      All-mono (λ u. order_clause pg field order t u ≡ true) (MayPrecede pg field order t) ts
          (λ u. order_clause-MayPrecede field order t u) h.0,
      IsOrdered-AreInOrder field order ts h.1,
    )

    -- The rows that the server gives are in the order of the field, up or down.
    pub order_by-AreInOrder :
        (field : TaskSortField) (order : SortOrder) (rows : List Task)
        → AreInOrder pg field order (pg.order_by Task (order_clause pg field order) rows)
    order_by-AreInOrder field order rows =
        IsOrdered-AreInOrder field order (pg.order_by Task (order_clause pg field order) rows)
          (ordered field order rows)

-- What the filters ask of a task.
pub record Fits (pg : Postgres) (db : Db) (project_id : ℕ) (f : TaskFilter) (t : Task)
    : Type 0 where
  pub project : t.project_id ≡ project_id
  pub top : t.parent_task_id ≡ none
  pub status : (s : TaskStatus) → f.status ≡ some s → t.status ≡ s
  pub priority : (p : TaskPriority) → f.priority ≡ some p → t.priority ≡ p
  pub assignee : (a : ℕ) → f.assignee_id ≡ some a → t.assignee_id ≡ some a
  pub search : (s : _) → f.search ≡ some s → pg.ilike s t.title ≡ true
  pub label :
      (l : ℕ)
      → f.label_id ≡ some l
      → any (λ (r : TaskLabel). (r.task_id == t.id) && (r.label_id == l)) db.task_labels ≡ true

abbrev status_of : ℕ → TaskStatus
status_of n =
    if n == 0
    then TaskStatus.todo
    else if n == 1
    then TaskStatus.in_progress
    else if n == 2
    then TaskStatus.in_review
    else TaskStatus.done

status_of-rank : (s : TaskStatus) → status_of (status_rank s) ≡ s
status_of-rank TaskStatus.todo = refl
status_of-rank TaskStatus.in_progress = refl
status_of-rank TaskStatus.in_review = refl
status_of-rank TaskStatus.done = refl

abbrev priority_of : ℕ → TaskPriority
priority_of n =
    if n == 0
    then TaskPriority.low
    else if n == 1
    then TaskPriority.medium
    else if n == 2
    then TaskPriority.high
    else TaskPriority.urgent

priority_of-rank : (p : TaskPriority) → priority_of (priority_rank p) ≡ p
priority_of-rank TaskPriority.low = refl
priority_of-rank TaskPriority.medium = refl
priority_of-rank TaskPriority.high = refl
priority_of-rank TaskPriority.urgent = refl

status_eq_iff : (s t : TaskStatus) → (status_eq s t ≡ true) ↔ (s ≡ t)
status_eq_iff s t = (
  λ h.
      sym (status_of-rank s)
      ∙ ap status_of ((==_iff (status_rank s) (status_rank t)).0 h)
      ∙ status_of-rank t,
  λ e. (==_iff (status_rank s) (status_rank t)).1 (ap status_rank e),
)

priority_eq_iff : (p q : TaskPriority) → (priority_eq p q ≡ true) ↔ (p ≡ q)
priority_eq_iff p q = (
  λ h.
      sym (priority_of-rank p)
      ∙ ap priority_of ((==_iff (priority_rank p) (priority_rank q)).0 h)
      ∙ priority_of-rank q,
  λ e. (==_iff (priority_rank p) (priority_rank q)).1 (ap priority_rank e),
)

is_some_of_iff : (o : Option ℕ) (a : ℕ) → (is_some_of o a ≡ true) ↔ (o ≡ some a)
is_some_of_iff none a = (λ h. ground (arith, h), λ h. ground (arith, h))
is_some_of_iff (some b) a = (λ h. ap (λ n. some n) ((==_iff b a).0 h), λ h. ground (arith, h))

abbrev from_some : {A : Type 0} → A → Option A → A
from_some b none = b
from_some b (some a) = a

is_top_iff : (o : Option ℕ) → (not (is_some o) ≡ true) ↔ (o ≡ none)
is_top_iff none = (λ h. refl, λ h. refl)
is_top_iff (some a) = (λ h. ground (arith, h), λ h. ground (arith, h))

-- A condition that is added for an argument holds for it.
given_iff :
    {A : Type 0} (o : Option A) (test : A → Bool) (P : A → Type 0)
    → ((a : A) → (test a ≡ true) ↔ P a)
    → (given o test ≡ true) ↔ ((a : A) → o ≡ some a → P a)
given_iff none test P means = (λ h a e. ground (arith, e), λ h. refl)
given_iff (some b) test P means =
    (λ h a e. subst P (ap (from_some b) e) ((means b).0 h), λ h. (means b).1 (h b refl))

all_seven :
    (a b c d e f g : Bool)
    → ((a && b && c && d && e && f && g) ≡ true)
      ↔ ((a ≡ true) × (b ≡ true) × (c ≡ true) × (d ≡ true) × (e ≡ true) × (f ≡ true) × (g ≡ true))
all_seven a b c d e f g = ground arith

-- A task matches exactly if it fits.
pub matches_iff :
    (pg : Postgres) (db : Db) (project_id : ℕ) (f : TaskFilter) (t : Task)
    → (matches pg db project_id f t ≡ true) ↔ Fits pg db project_id f t
unfolding matches
matches_iff pg db q f t =
    let status =
      given_iff f.status (λ s. status_eq t.status s) (λ s. t.status ≡ s) (status_eq_iff t.status) in
    let priority =
      given_iff f.priority (λ p. priority_eq t.priority p) (λ p. t.priority ≡ p)
        (priority_eq_iff t.priority) in
    let assignee =
      given_iff f.assignee_id (λ a. is_some_of t.assignee_id a) (λ a. t.assignee_id ≡ some a)
        (is_some_of_iff t.assignee_id) in
    let search =
      given_iff f.search (λ s. pg.ilike s t.title) (λ s. pg.ilike s t.title ≡ true)
        (λ s. (λ h. h, λ h. h)) in
    let label =
      given_iff f.label_id (λ l. any (λ r. (r.task_id == t.id) && (r.label_id == l)) db.task_labels)
        (λ l.
          any (λ (r : TaskLabel). (r.task_id == t.id) && (r.label_id == l)) db.task_labels ≡ true)
        (λ l. (λ h. h, λ h. h)) in
    let parts = all_seven _ _ _ _ _ _ _ in
    (
      λ h. record {
        project = (==_iff t.project_id q).0 (parts.0 h).0;
        top = (is_top_iff t.parent_task_id).0 (parts.0 h).1;
        status = status.0 (parts.0 h).2;
        priority = priority.0 (parts.0 h).3;
        assignee = assignee.0 (parts.0 h).4;
        search = search.0 (parts.0 h).5;
        label = label.0 (parts.0 h).6;
      },
      λ fits. parts.1 (
        (==_iff t.project_id q).1 fits.project,
        (is_top_iff t.parent_task_id).1 fits.top,
        status.1 fits.status,
        priority.1 fits.priority,
        assignee.1 fits.assignee,
        search.1 fits.search,
        label.1 fits.label,
      ),
    )
