-- ===== src/Schemas.antt =====
-- backend/app/schemas: which request bodies pydantic lets through to the handlers. `none` and `false`
-- are the ValidationError that FastAPI answers with 422.
pub mod Color
pub mod Widths
pub mod Fitting
use collabflow.Common.{
  ℕ, Bool, true, ◌&&◌, if◌then◌else◌, Option, none, some, Text, length, leb, ◌≤◌, ◌≡◌,
}
use collabflow.Service.Auth.{UserCreate}
use collabflow.Service.Task.Update.{TaskUpdate}
use collabflow.Router.Tasks.{TaskCreate}
use collabflow.Schemas.Color.{validate_hex_color}

-- EmailStr: the normalised address, or an error. An address has at most 254 characters.
pub record EmailType : Type 0 where
  pub validate : Text → Option Text
  pub short : (text email : Text) → validate text ≡ some email → length email ≤ 254

-- Field(min_length=…, max_length=…)
abbrev pub is_within : (min_length max_length : ℕ) → Text → Bool
is_within min_length max_length text = leb min_length (length text) && leb (length text) max_length

-- A field that may be null.
abbrev pub is_null_or : (Text → Bool) → Option Text → Bool
is_null_or test none = true
is_null_or test (some text) = test text

-- A field that may be left out, or null.
abbrev pub is_unset_or : (Text → Bool) → Option (Option Text) → Bool
is_unset_or test none = true
is_unset_or test (some field) = is_null_or test field

abbrev with_email : Option Text → UserCreate → Option UserCreate
with_email none user_in = none
with_email (some email) user_in = some (record user_in { email = email })

unfoldable pub user_create : EmailType → UserCreate → Option UserCreate
user_create email_type user_in =
    if is_within 8 128 user_in.password && is_within 1 255 user_in.full_name
    then with_email (email_type.validate user_in.email) user_in
    else none

-- OrganizationCreate and WorkspaceCreate
unfoldable pub organization_create : (name : Text) → Bool
organization_create name = is_within 1 255 name

unfoldable pub workspace_create : (name : Text) → Bool
workspace_create name = is_within 1 255 name

unfoldable pub project_create : (name : Text) → (description : Option Text) → Bool
project_create name description = is_within 1 255 name && is_null_or (is_within 0 5000) description

unfoldable pub task_create : TaskCreate → Bool
task_create task_in =
    is_within 1 500 task_in.title && is_null_or (is_within 0 20000) task_in.description

unfoldable pub task_update : TaskUpdate → Bool
task_update updates =
    is_unset_or (is_within 1 500) updates.title
    && is_unset_or (is_within 0 20000) updates.description

unfoldable pub comment_create : (body : Text) → Bool
comment_create body = is_within 1 10000 body

unfoldable pub label_create : (name color : Text) → Bool
unfolding validate_hex_color
label_create name color = is_within 1 100 name && validate_hex_color color
