-- ===== src/Crud/User.antt =====
-- backend/app/crud/user.py
use collabflow.Common.{◌==◌, ℕ, Bool, true, ◌∷◌, Option, Text, text_eq, find, any}
use collabflow.Models.{User}
use collabflow.World.{
  Db, Exec, ◌>>=◌, ◌>>◌, query, write, raise_if, integrity_error, uuid4, now, pure,
}

unfoldable pub get_by_id : ℕ → Exec (Option User)
get_by_id user_id = query λ db. find (λ u. u.id == user_id) db.users

unfoldable pub get_by_email : Text → Exec (Option User)
get_by_email email = query λ db. find (λ u. text_eq u.email email) db.users

-- UNIQUE (email)
unfoldable pub email_taken : Text → Db → Bool
email_taken email db = any (λ u. text_eq u.email email) db.users

-- The caller hands over `hash_password(user_in.password)`.
unfoldable pub create : (email hashed_password full_name : Text) → Exec User
unfolding email_taken
create email hashed_password full_name = do
  taken ← query (email_taken email)
  raise_if taken integrity_error
  id ← uuid4
  created_at ← now
  let user : User = record {
    id = id;
    email = email;
    hashed_password = hashed_password;
    full_name = full_name;
    is_active = true;
    created_at = created_at;
  }
  write (λ db. record db { users = user ∷ db.users })
  pure user
