-- ===== src/Service/Auth.antt =====
-- backend/app/services/auth_service.py
pub mod Laws
use collabflow.Common.{not, Option, none, some, Text, is_some}
use collabflow.Config.{Settings}
use collabflow.Models.{User}
use collabflow.Runtime.{Runtime, refresh}
use collabflow.Security.{create_access_token, create_refresh_token, decode_token}
use collabflow.World.{
  Exec, ◌>>=◌, ◌>>◌, pure, raise, raise_if, lift, rescue, now, uuid4, auth_error,
}
use collabflow.Crud.User

-- schemas/user.py
pub record UserCreate : Type 0 where
  pub email : Text
  pub password : Text
  pub full_name : Text

-- schemas/auth.py
pub record TokenPair : Type 0 where
  pub access_token : Text
  pub refresh_token : Text

module _ (rt : Runtime) where
  -- The salt of the hash is a draw.
  unfoldable pub register_user : UserCreate → Exec User
  unfolding User.get_by_email User.create
  register_user user_in = do
    existing ← User.get_by_email user_in.email
    raise_if (is_some existing) (auth_error "A user with this email already exists")
    salt ← uuid4
    User.create user_in.email (rt.hash salt user_in.password) user_in.full_name

  abbrev pub check_user : Text → Option User → Exec User
  check_user password none = raise (auth_error "Incorrect email or password")
  check_user password (some user) = do
    raise_if (not (rt.verify password user.hashed_password))
        (auth_error "Incorrect email or password")
    raise_if (not user.is_active) (auth_error "User account is inactive")
    pure user

  unfoldable pub authenticate : (email password : Text) → Exec User
  unfolding User.get_by_email
  authenticate email password = do user ← User.get_by_email email; check_user password user

  unfoldable pub issue_token_pair : Settings → User → Exec TokenPair
  unfolding create_access_token create_refresh_token
  issue_token_pair settings user = do
    time ← now
    pure (record {
      access_token = create_access_token rt settings time user.id;
      refresh_token = create_refresh_token rt settings time user.id;
    })

  -- user is None or not user.is_active
  abbrev pub check_active : Option User → Exec User
  check_active none = raise (auth_error "User no longer active")
  check_active (some user) = do
    raise_if (not user.is_active) (auth_error "User no longer active")
    pure user

  unfoldable pub refresh_access_token : Settings → (refresh_token : Text) → Exec Text
  unfolding decode_token User.get_by_id create_access_token
  refresh_access_token settings refresh_token = do
    time ← now
    user_id ←
        rescue (lift (decode_token rt time refresh_token refresh))
          (λ _. raise (auth_error "Invalid or expired refresh token"))
    found ← User.get_by_id user_id
    user ← check_active found
    pure (create_access_token rt settings time user.id)
