-- ===== src/Service/Task/Update/Changes.antt =====
-- The pure part of `update_task`: the fields that are set, the entries of `changes`, and the names
-- that the log entry shows.
use collabflow.Common.{
  ◌==◌, ℕ, Bool, true, false, ◌||◌, Option, none, some, Text, List, [], ◌∷◌, ◌++◌, map, codes,
  text_eq, text_leb, if◌then◌else◌,
}
use collabflow.Models.{
  Task, Change, title_change, description_change, status_change, priority_change, assignee_change,
  due_date_change, labels_change, TaskStatus, TaskPriority, status_eq, priority_eq,
}

-- `TaskUpdate.model_dump(exclude_unset=True)`: `none` is a field that was not sent, and `some none`
-- one that was sent as null. Of `label_ids` the code tells only a list from the rest.
pub record TaskUpdate : Type 0 where
  pub title : Option (Option Text)
  pub description : Option (Option Text)
  pub status : Option (Option TaskStatus)
  pub priority : Option (Option TaskPriority)
  pub assignee_id : Option (Option ℕ)
  pub due_date : Option (Option ℕ)
  pub label_ids : Option (List ℕ)

-- setattr of a nullable column
abbrev pub set_to {ℓ} : {A : Type ℓ} → Option A → A → A
set_to none old = old
set_to (some new) old = new

-- setattr of a column that is NOT NULL: a null stays out of the model's row, and `has_null` says
-- that the flush refuses it
abbrev pub set_required {ℓ} : {A : Type ℓ} → Option (Option A) → A → A
set_required (some (some new)) old = new
set_required _ old = old

-- A value that a NOT NULL column does not take.
abbrev pub is_null {ℓ} : {A : Type ℓ} → Option (Option A) → Bool
is_null (some none) = true
is_null _ = false

-- The columns of models/task.py that an update can set and that are NOT NULL: title, status, priority.
-- The database refuses the flush of a null in one of them.
unfoldable pub has_null : TaskUpdate → Bool
has_null u = is_null u.title || is_null u.status || is_null u.priority

-- The loop over `updates.items()`.
unfoldable pub set_fields : TaskUpdate → Task → Task
set_fields u task = record task {
  title = set_required u.title task.title;
  description = set_to u.description task.description;
  status = set_required u.status task.status;
  priority = set_required u.priority task.priority;
  assignee_id = set_to u.assignee_id task.assignee_id;
  due_date = set_to u.due_date task.due_date;
}

abbrev pub option_eq {ℓ} : {A : Type ℓ} → (A → A → Bool) → Option A → Option A → Bool
option_eq eq none none = true
option_eq eq (some a) (some b) = eq a b
option_eq eq _ _ = false

-- `if old_value != new_value: changes[field] = …`
abbrev pub changed {ℓ} : {A : Type ℓ} → (A → A → Bool) → (A → A → Change) → A → A → List Change
changed eq entry old new = if eq old new then [] else entry old new ∷ []

unfoldable pub field_changes : Task → Task → List Change
field_changes old new =
    changed text_eq title_change old.title new.title
    ++ changed (option_eq text_eq) description_change old.description new.description
    ++ changed status_eq status_change old.status new.status
    ++ changed priority_eq priority_change old.priority new.priority
    ++ changed (option_eq ◌==◌) assignee_change old.assignee_id new.assignee_id
    ++ changed (option_eq ◌==◌) due_date_change old.due_date new.due_date

-- sorted(names)
unfoldable pub insert_text : Text → List Text → List Text
insert_text s [] = s ∷ []
insert_text s (t ∷ ts) = if text_leb s t then s ∷ t ∷ ts else t ∷ insert_text s ts

unfoldable pub sorted : List Text → List Text
unfolding insert_text
sorted [] = []
sorted (s ∷ ss) = insert_text s (sorted ss)

unfoldable pub texts_eq : List Text → List Text → Bool
texts_eq [] [] = true
texts_eq (s ∷ ss) (t ∷ ts) = if text_eq s t then texts_eq ss ts else false
texts_eq _ _ = false

-- The key of an entry.
abbrev pub field_name : Change → Text
field_name (title_change _ _) = codes "title"
field_name (description_change _ _) = codes "description"
field_name (status_change _ _) = codes "status"
field_name (priority_change _ _) = codes "priority"
field_name (assignee_change _ _) = codes "assignee_id"
field_name (due_date_change _ _) = codes "due_date"
field_name (labels_change _ _) = codes "labels"

-- ", ".join(texts)
unfoldable pub join : List Text → Text
join [] = []
join (s ∷ []) = s
join (s ∷ t ∷ ts) = s ++ codes ", " ++ join (t ∷ ts)

-- f"updated task '{task.title}' ({changed_fields})"
unfoldable pub update_summary : Text → List Change → Text
unfolding sorted join
update_summary title changes =
    codes "updated task '"
    ++ title
    ++ codes "' ("
    ++ join (sorted (map field_name changes))
    ++ codes ")"

-- "assignee_id" in changes
abbrev pub changes_assignee : List Change → Bool
changes_assignee [] = false
changes_assignee (assignee_change _ _ ∷ changes) = true
changes_assignee (_ ∷ changes) = changes_assignee changes
