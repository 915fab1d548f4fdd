-- ===== src/Security.antt =====
-- backend/app/core/security.py. Times are in seconds.
pub mod Laws
use collabflow.Common.{ℕ, ◌+◌, ◌*◌, Bool, true, false, Option, none, some, Text}
use collabflow.Config.{Settings}
use collabflow.Runtime.{Runtime, Claims, TokenType, access, refresh}
use collabflow.World.{Result, ok, err, invalid_token}

module _ (rt : Runtime) where
  unfoldable pub create_token : (now subject : ℕ) → TokenType → (expires_delta : ℕ) → Text
  create_token now subject token_type expires_delta =
      rt.encode (record {
        sub = some subject;
        type = some token_type;
        iat = now;
        exp = now + expires_delta;
      })

  unfoldable pub create_access_token : Settings → (now user_id : ℕ) → Text
  unfolding create_token
  create_access_token settings now user_id =
      create_token now user_id access (settings.access_token_expire_minutes * 60)

  unfoldable pub create_refresh_token : Settings → (now user_id : ℕ) → Text
  unfolding create_token
  create_refresh_token settings now user_id =
      create_token now user_id refresh (settings.refresh_token_expire_days * 86400)

abbrev pub is_type : TokenType → Option TokenType → Bool
is_type access (some access) = true
is_type refresh (some refresh) = true
is_type _ _ = false

abbrev pub expected : TokenType → Result ℕ
expected access = err (invalid_token "Expected a access token")
expected refresh = err (invalid_token "Expected a refresh token")

abbrev pub subject_of : Option ℕ → Result ℕ
subject_of none = err (invalid_token "Token missing subject")
subject_of (some sub) = ok sub

abbrev pub checked : Bool → TokenType → Option ℕ → Result ℕ
checked true expected_type sub = subject_of sub
checked false expected_type sub = expected expected_type

abbrev pub check_claims : Option Claims → TokenType → Result ℕ
check_claims none expected_type = err (invalid_token "Could not validate token")
check_claims (some c) expected_type = checked (is_type expected_type c.type) expected_type c.sub

unfoldable pub decode_token : Runtime → (now : ℕ) → (token : Text) → TokenType → Result ℕ
decode_token rt now token expected_type = check_claims (rt.decode now token) expected_type
