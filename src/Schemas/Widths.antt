-- ===== src/Schemas/Widths.antt =====
-- The columns that the bodies are written to, of the widths that the models declare.
use collabflow.Common.{
  ◌==◌, ◌≡◌, Bool, true, false, Option, none, some, Text, List, [], ◌∷◌, ◌++◌, String, codes, leb,
  length, find, text_eq,
}
use collabflow.Migrations.Catalog.{ColumnType, Column, Table, string, text}
use collabflow.Migrations.Metadata as Metadata
use collabflow.Service.Auth.{UserCreate}
use collabflow.Service.Task.Update.{TaskUpdate}
use collabflow.Router.Tasks.{TaskCreate}
use collabflow.Schemas.{
  EmailType, user_create, organization_create, workspace_create, project_create, task_create,
  task_update, comment_create, label_create,
}

-- A value for a column of a table.
pub record Value : Type 0 where
  pub table : Table
  pub column : Text
  pub value : Text

abbrev pub value_for : Table → String → Text → Value
value_for table column value = record { table = table; column = codes column; value = value }

abbrev fits_type : ColumnType → Text → Bool
fits_type (string width) value = leb (length value) width
fits_type text value = true
fits_type _ value = false

abbrev fits_column : Option Column → Text → Bool
fits_column none value = false
fits_column (some c) value = fits_type c.type value

-- PostgreSQL takes the value: the table has the column, and a VARCHAR is wide enough.
unfoldable pub fits : Value → Bool
unfolding find text_eq
fits v = fits_column (find (λ c. text_eq c.name v.column) v.table.columns) v.value

abbrev pub if_text : (Text → Value) → Option Text → List Value
if_text to none = []
if_text to (some t) = to t ∷ []

abbrev pub if_set : (Text → Value) → Option (Option Text) → List Value
if_set to none = []
if_set to (some field) = if_text to field

-- A body that reached its handler, with the texts that the handler writes as they came.
pub data Body : Type 0 where
  user : UserCreate → Body
  organization workspace : (name : Text) → Body
  project : (name : Text) → (description : Option Text) → Body
  task : TaskCreate → Body
  update : TaskUpdate → Body
  comment : (body : Text) → Body
  label : (name color : Text) → Body

unfoldable pub values : Body → List Value
values (user u) =
    value_for Metadata.users "email" u.email ∷ value_for Metadata.users "full_name" u.full_name ∷ []
values (organization name) = value_for Metadata.organizations "name" name ∷ []
values (workspace name) = value_for Metadata.workspaces "name" name ∷ []
values (project name description) =
    value_for Metadata.projects "name" name
    ∷ if_text (value_for Metadata.projects "description") description
values (task t) =
    value_for Metadata.tasks "title" t.title
    ∷ if_text (value_for Metadata.tasks "description") t.description
values (update u) =
    if_set (value_for Metadata.tasks "title") u.title
    ++ if_set (value_for Metadata.tasks "description") u.description
values (comment body) = value_for Metadata.comments "body" body ∷ []
values (label name color) =
    value_for Metadata.labels "name" name ∷ value_for Metadata.labels "color" color ∷ []

-- The validators, by schema; `sent` is the body before the address is normalised.
abbrev pub IsAccepted : EmailType → Body → Type 0
IsAccepted e (user u) = (sent : UserCreate) × (user_create e sent ≡ some u)
IsAccepted e (organization name) = organization_create name ≡ true
IsAccepted e (workspace name) = workspace_create name ≡ true
IsAccepted e (project name description) = project_create name description ≡ true
IsAccepted e (task t) = task_create t ≡ true
IsAccepted e (update u) = task_update u ≡ true
IsAccepted e (comment body) = comment_create body ≡ true
IsAccepted e (label name color) = label_create name color ≡ true

-- The colour of a label with a newline behind it.
abbrev pub ends_with_newline : Text → Bool
ends_with_newline [] = false
ends_with_newline (c ∷ []) = c == 10
ends_with_newline (c ∷ d ∷ t) = ends_with_newline (d ∷ t)

abbrev pub newline_color : Body → Bool
newline_color (label name color) = ends_with_newline color
newline_color _ = false
