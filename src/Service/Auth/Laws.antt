-- ===== src/Service/Auth/Laws.antt =====
-- An account from its registration to its tokens.
use collabflow.Common.{
  ℕ, ◌<◌, ◌+◌, ◌*◌, ◌≡◌, refl, true, Text, find, text_eq, text_eq_refl, arith, some, Option-cases,
  find-test, inl, inr, ◌==◌,
}
use collabflow.Config.{Settings}
use collabflow.Models.{User}
use collabflow.Runtime.{Runtime, JwtLaws, PasswordLaws}
use collabflow.World.{World, err, ok, auth_error}
use collabflow.Security.{create_access_token, create_refresh_token}
use collabflow.Security.Laws.{decode_token-create_token}
use collabflow.Service.Auth.{UserCreate, register_user, authenticate, refresh_access_token}

-- Where a password verifies against its hash: whoever has registered is let in with the email and
-- the password of the registration.
pub authenticate-register_user :
    (rt : Runtime) (laws : PasswordLaws rt) (user_in : UserCreate) (w : World) (u : User)
    → (register_user rt user_in w).0 ≡ ok u
    → (authenticate rt user_in.email user_in.password (register_user rt user_in w).1).0 ≡ ok u
unfolding register_user authenticate find
authenticate-register_user rt laws user_in w u h =
    ground (arith, text_eq_refl user_in.email, laws.verify-hash w.drawn user_in.password)

-- An email that a user has is refused, and nothing changes.
pub register_user-taken :
    (rt : Runtime) (user_in : UserCreate) (w : World) (u : User)
    → find (λ u. text_eq u.email user_in.email) w.session.users ≡ some u
    → register_user rt user_in w ≡ (err (auth_error "A user with this email already exists"), w)
unfolding register_user
register_user-taken rt user_in w u h = rw h refl

-- Whom `authenticate` lets in has the email, a hash that the password verifies against, and an
-- active account.
pub authenticate-ok :
    (rt : Runtime) (email password : Text) (w : World) (u : User)
    → (authenticate rt email password w).0 ≡ ok u
    → (text_eq u.email email ≡ true)
      × (rt.verify password u.hashed_password ≡ true)
      × (u.is_active ≡ true)
unfolding authenticate
authenticate-ok rt email password w u h = (
  elim (Option-cases (find (λ u. text_eq u.email email) w.session.users)) [
    | inl e ↦ ground (arith, e)
    | inr (v, e) ↦ ground (arith, e, find-test (λ u. text_eq u.email email) w.session.users v e)
  ],
  ground arith,
  ground arith,
)

module _ (rt : Runtime) (laws : JwtLaws rt) (settings : Settings) where
  -- For an active user, a refresh token is worth a new access token until it expires, and an access
  -- token that has not expired is refused in its place.
  pub refresh_access_token-create_refresh_token :
      (time : ℕ) (later : World) (u : User)
      → find (λ v. v.id == u.id) later.session.users ≡ some u
      → u.is_active ≡ true
      → later.clock < time + settings.refresh_token_expire_days * 86400
      → later.clock < time + settings.access_token_expire_minutes * 60
      → ((refresh_access_token rt settings (create_refresh_token rt settings time u.id) later).0
          ≡ ok (create_access_token rt settings later.clock u.id))
        × ((refresh_access_token rt settings (create_access_token rt settings time u.id) later).0
            ≡ err (auth_error "Invalid or expired refresh token"))
  unfolding refresh_access_token create_refresh_token create_access_token
  refresh_access_token-create_refresh_token time later u found active fresh fresh' = (
    rw
        ((decode_token-create_token rt laws time u.id (settings.refresh_token_expire_days * 86400)
          later.clock fresh).1)
        (ground (arith, found, active)),
    rw
        ((decode_token-create_token rt laws time u.id (settings.access_token_expire_minutes * 60)
          later.clock fresh').2)
        refl,
  )
