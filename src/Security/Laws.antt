-- ===== src/Security/Laws.antt =====
-- The tokens that the code issues, read back.
use collabflow.Common.{ℕ, ◌<◌, ◌≤◌, ◌≡◌, ◌+◌, refl, some}
use collabflow.Runtime.{Runtime, JwtLaws, access, refresh, TokenType, Claims}
use collabflow.World.{ok, err, invalid_token}
use collabflow.Security.{create_token, decode_token, check_claims, expected}

module _ (rt : Runtime) (laws : JwtLaws rt) (now subject delta : ℕ) where
  claims : TokenType → Claims
  claims type = record { sub = some subject; type = some type; iat = now; exp = now + delta }

  fresh :
      (type wanted : TokenType) (time : ℕ)
      → time < now + delta
      → decode_token rt time (create_token rt now subject type delta) wanted
        ≡ check_claims (some (claims type)) wanted
  unfolding decode_token create_token claims
  fresh type wanted time h = rw (laws.decode-encode (claims type) time h) refl

  stale :
      (type wanted : TokenType) (time : ℕ)
      → now + delta ≤ time
      → decode_token rt time (create_token rt now subject type delta) wanted
        ≡ err (invalid_token "Could not validate token")
  unfolding decode_token create_token claims
  stale type wanted time h = rw (laws.decode_expired (claims type) time h) refl

  -- Until it expires, a token is accepted as one of its own type, for the user it was issued to, and
  -- refused as one of the other type.
  pub decode_token-create_token :
      (time : ℕ)
      → time < now + delta
      → (decode_token rt time (create_token rt now subject access delta) access ≡ ok subject)
        × (decode_token rt time (create_token rt now subject refresh delta) refresh ≡ ok subject)
        × (decode_token rt time (create_token rt now subject access delta) refresh
            ≡ expected refresh)
        × (decode_token rt time (create_token rt now subject refresh delta) access
            ≡ expected access)
  unfolding claims
  decode_token-create_token time h = (
    fresh access access time h,
    fresh refresh refresh time h,
    fresh access refresh time h,
    fresh refresh access time h,
  )

  -- From its expiry on a token is refused.
  pub decode_token-expired :
      (type wanted : TokenType) (time : ℕ)
      → now + delta ≤ time
      → decode_token rt time (create_token rt now subject type delta) wanted
        ≡ err (invalid_token "Could not validate token")
  decode_token-expired = stale
