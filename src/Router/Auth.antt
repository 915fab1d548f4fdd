-- ===== src/Router/Auth.antt =====
-- backend/app/api/routers/auth.py
use collabflow.Common.{Text}
use collabflow.Config.{Settings}
use collabflow.Models.{User}
use collabflow.Runtime.{Runtime}
use collabflow.World.{◌>>◌, ◌>>=◌, Exec, pure, commit, request}
use collabflow.Deps.{get_current_user}
use collabflow.Router.Errors.{with_status}
use collabflow.Service.Auth.{
  UserCreate, TokenPair, register_user, authenticate, issue_token_pair, refresh_access_token,
}

module _ (rt : Runtime) where
  unfoldable pub register : UserCreate → Exec User
  unfolding request
  register user_in =
      request (do user ← with_status 409 (register_user rt user_in); commit; pure user)

  unfoldable pub login : Settings → (email password : Text) → Exec TokenPair
  unfolding request
  login settings email password = request (do
    user ← with_status 401 (authenticate rt email password)
    issue_token_pair rt settings user)

  unfoldable pub refresh : Settings → (refresh_token : Text) → Exec Text
  unfolding request
  refresh settings refresh_token =
      request (with_status 401 (refresh_access_token rt settings refresh_token))

  unfoldable pub read_current_user : (token : Text) → Exec User
  unfolding request
  read_current_user token = request (get_current_user rt token)
