-- ===== src/Runtime.antt =====
-- What the code takes from Python's `str`, `re`, `uuid`, from python-jose and from passlib, with the
-- documented behaviour that the theorems rely on.
use collabflow.Common.{ℕ, ◌<◌, ◌≤◌, ◌≡◌, Bool, true, false, Option, none, some, Text, contains}

pub data TokenType : Type 0 where
  access refresh : TokenType

-- A decoded payload: the claims `sub`, `type`, `iat` and `exp`. `str(subject)` is the id itself, and
-- a `type` that is neither of the two values is `none`.
pub record Claims : Type 0 where
  pub sub : Option ℕ
  pub type : Option TokenType
  pub iat : ℕ
  pub exp : ℕ

pub record Runtime : Type 0 where
  -- str.lower, and the classes \w and \s of `re` and `str.strip`
  pub lower : Text → Text
  pub is_word : ℕ → Bool
  pub is_space : ℕ → Bool
  -- str(u), u.hex and UUID(text), where `none` is a ValueError
  pub uuid_str : ℕ → Text
  pub uuid_hex : ℕ → Text
  pub uuid_of : Text → Option ℕ
  -- pwd_context.hash, with the salt it draws, and pwd_context.verify
  pub hash : (salt : ℕ) → (password : Text) → Text
  pub verify : (password hashed : Text) → Bool
  -- jwt.encode, and jwt.decode at a time, where `none` is a JWTError
  pub encode : Claims → Text
  pub decode : (time : ℕ) → (token : Text) → Option Claims

-- None of `@`, `.`, `+`, `-` is a word character.
pub record WordLaws (rt : Runtime) : Type 0 where
  pub at_sign : rt.is_word 64 ≡ false
  pub full_stop : rt.is_word 46 ≡ false

-- A UUID is read back from its text, which holds no colon.
pub record UuidLaws (rt : Runtime) : Type 0 where
  pub uuid_of-uuid_str : (u : ℕ) → rt.uuid_of (rt.uuid_str u) ≡ some u
  pub no_colon : (u : ℕ) → contains (rt.uuid_str u) 58 ≡ false

-- A token is read back until it expires, and not from then on.
pub record JwtLaws (rt : Runtime) : Type 0 where
  pub decode-encode : (c : Claims) (time : ℕ) → time < c.exp → rt.decode time (rt.encode c) ≡ some c
  pub decode_expired : (c : Claims) (time : ℕ) → c.exp ≤ time → rt.decode time (rt.encode c) ≡ none

-- A password verifies against its own hashes.
pub record PasswordLaws (rt : Runtime) : Type 0 where
  pub verify-hash : (salt : ℕ) (password : Text) → rt.verify password (rt.hash salt password) ≡ true
