-- ===== src/Crud/Label.antt =====
-- backend/app/crud/label.py
use collabflow.Common.{◌==◌, ℕ, Bool, ◌&&◌, ◌∷◌, List, Option, Text, text_eq, find, any, select}
use collabflow.Models.{Label}
use collabflow.World.{
  Db, Exec, ◌>>=◌, ◌>>◌, query, write, raise_if, integrity_error, uuid4, now, pure,
}

unfoldable pub get_by_id : ℕ → Exec (Option Label)
get_by_id label_id = query λ db. find (λ l. l.id == label_id) db.labels

-- UNIQUE (project_id, name)
unfoldable pub name_taken : ℕ → Text → Db → Bool
name_taken project_id name db =
    any (λ l. (l.project_id == project_id) && text_eq l.name name) db.labels

unfoldable pub create : (project_id : ℕ) → (name color : Text) → Exec Label
create project_id name color = do
  taken ← query (name_taken project_id name)
  raise_if taken integrity_error
  id ← uuid4
  created_at ← now
  let label : Label = record {
    id = id;
    project_id = project_id;
    name = name;
    color = color;
    created_at = created_at;
  }
  write (λ db. record db { labels = label ∷ db.labels })
  pure label

unfoldable pub list_by_project : ℕ → Exec (List Label)
list_by_project project_id = query λ db. select (λ l. l.project_id == project_id) db.labels
