-- ===== src/Crud/Task/Delete/Laws.antt =====
-- What a deletion leaves behind.
use collabflow.Common.{
  ℕ, ◌≡◌, refl, Bool, false, not, List, [], ◌∷◌, Option, none, some, map, select, any, contains,
  arith,
}
use collabflow.Models.{Task, Comment, Attachment, TaskLabel, ActivityLog, Notification}
use collabflow.World.{Db}
use collabflow.Crud.Task.Delete.{without_tasks, set_null, forget_entry, forget_notification}

-- A row that refers to one of the tasks.
abbrev pub refers : List ℕ → Option ℕ → Bool
refers ids none = false
refers ids (some i) = contains ids i

-- No row of the database is one of the tasks, and no row of another table refers to one.
pub record IsFree (ids : List ℕ) (db : Db) : Type 0 where
  pub tasks : any (λ t. contains ids t.id) db.tasks ≡ false
  pub comments : any (λ c. contains ids c.task_id) db.comments ≡ false
  pub task_labels : any (λ r. contains ids r.task_id) db.task_labels ≡ false
  pub attachments : any (λ a. contains ids a.task_id) db.attachments ≡ false
  pub activity_logs : any (λ e. refers ids e.task_id) db.activity_logs ≡ false
  pub notifications : any (λ n. refers ids n.task_id) db.notifications ≡ false

any-select : {A : Type 0} (p : A → Bool) (xs : List A) → any p (select (λ x. not (p x)) xs) ≡ false
unfolding any select
any-select p [] = refl
any-select p (x ∷ xs) = ground (arith, any-select p xs)

any-map :
    {A : Type 0} (p : A → Bool) (f : A → A) (xs : List A)
    → ((x : A) → p (f x) ≡ false)
    → any p (map f xs) ≡ false
unfolding any
any-map p f [] h = refl
any-map p f (x ∷ xs) h = ground (arith, h x, any-map p f xs h)

refers-set_null : (ids : List ℕ) (i : Option ℕ) → refers ids (set_null ids i) ≡ false
refers-set_null ids none = refl
refers-set_null ids (some i) = ground arith

-- No row that is left has or names one of the ids, and every log entry and notification is still there.
pub without_tasks-IsFree :
    (ids : List ℕ) (db : Db)
    → IsFree ids (without_tasks ids db)
      × (map (λ (e : ActivityLog). e.id) (without_tasks ids db).activity_logs
          ≡ map (λ (e : ActivityLog). e.id) db.activity_logs)
      × (map (λ (n : Notification). n.id) (without_tasks ids db).notifications
          ≡ map (λ (n : Notification). n.id) db.notifications)
unfolding without_tasks
without_tasks-IsFree ids db = (
  record {
    tasks = any-select (λ (t : Task). contains ids t.id) db.tasks;
    comments = any-select (λ (c : Comment). contains ids c.task_id) db.comments;
    task_labels = any-select (λ (r : TaskLabel). contains ids r.task_id) db.task_labels;
    attachments = any-select (λ (a : Attachment). contains ids a.task_id) db.attachments;
    activity_logs =
        any-map (λ (e : ActivityLog). refers ids e.task_id) (forget_entry ids) db.activity_logs
          (λ e. refers-set_null ids e.task_id);
    notifications =
        any-map (λ (n : Notification). refers ids n.task_id) (forget_notification ids)
          db.notifications (λ n. refers-set_null ids n.task_id);
  },
  entries ids db.activity_logs,
  notes ids db.notifications,
)
  where
    entries :
        (ids : List ℕ) (es : List ActivityLog)
        → map (λ (e : ActivityLog). e.id) (map (forget_entry ids) es)
          ≡ map (λ (e : ActivityLog). e.id) es
    entries ids [] = refl
    entries ids (e ∷ es) = rw (entries ids es) refl

    notes :
        (ids : List ℕ) (es : List Notification)
        → map (λ (e : Notification). e.id) (map (forget_notification ids) es)
          ≡ map (λ (e : Notification). e.id) es
    notes ids [] = refl
    notes ids (e ∷ es) = rw (notes ids es) refl
