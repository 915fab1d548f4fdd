-- ===== src/Tests/Libraries.antt =====
-- A concrete runtime with the documented behaviour of the libraries, and a concrete ORDER BY.
use collabflow.Common.{
  ◌==◌, ℕ, zero, suc, ◌<◌, ◌≤◌, ◌≡◌, refl, ap, Bool, false, ◌||◌, ◌&&◌, Option, none, some, Text,
  [], ◌∷◌, ltb, leb, length, text_eq, text_eq_refl, contains, arith, if◌then◌else◌,
}
use collabflow.Runtime.{
  Runtime, Claims, TokenType, access, refresh, UuidLaws, JwtLaws, PasswordLaws,
}

-- A UUID in unary.
abbrev pub strokes : ℕ → Text
strokes zero = []
strokes (suc n) = b'0' ∷ strokes n

abbrev pub optional_code : Option ℕ → ℕ
optional_code none = 0
optional_code (some n) = suc n

abbrev pub optional_of : ℕ → Option ℕ
optional_of zero = none
optional_of (suc n) = some n

abbrev pub type_code : Option TokenType → ℕ
type_code none = 0
type_code (some access) = 1
type_code (some refresh) = 2

abbrev pub type_of : ℕ → Option TokenType
type_of zero = none
type_of (suc zero) = some access
type_of (suc (suc n)) = some refresh

abbrev pub claims_of : (time : ℕ) → Text → Option Claims
claims_of time (s ∷ t ∷ i ∷ e ∷ []) =
    if ltb time e
    then some (record { sub = optional_of s; type = type_of t; iat = i; exp = e })
    else none
claims_of time _ = none

abbrev pub code_of : Claims → Text
code_of c = optional_code c.sub ∷ type_code c.type ∷ c.iat ∷ c.exp ∷ []

abbrev pub is_letter : ℕ → Bool
is_letter c = (leb b'a' c && leb c b'z') || (leb b'0' c && leb c b'9')

abbrev pub plain_runtime : Runtime
plain_runtime = record {
  lower = λ s. s;
  is_word = is_letter;
  is_space = λ c. c == 32;
  uuid_str = strokes;
  uuid_hex = strokes;
  uuid_of = λ s. some (length s);
  hash = λ salt password. password;
  verify = text_eq;
  encode = code_of;
  decode = claims_of;
}

pub length-strokes : (n : ℕ) → length (strokes n) ≡ n
length-strokes zero = refl
length-strokes (suc n) = ap suc (length-strokes n)

pub strokes_no_colon : (n : ℕ) → contains (strokes n) 58 ≡ false
unfolding contains
strokes_no_colon zero = refl
strokes_no_colon (suc n) = strokes_no_colon n

abbrev pub plain_uuids : UuidLaws plain_runtime
plain_uuids = record {
  uuid_of-uuid_str = λ u. ap some (length-strokes u);
  no_colon = strokes_no_colon;
}

optional_round : (o : Option ℕ) → optional_of (optional_code o) ≡ o
optional_round none = refl
optional_round (some n) = refl

type_round : (o : Option TokenType) → type_of (type_code o) ≡ o
type_round none = refl
type_round (some access) = refl
type_round (some refresh) = refl

pub claims_round : (c : Claims) (time : ℕ) → time < c.exp → claims_of time (code_of c) ≡ some c
claims_round c time h = ground (arith, optional_round c.sub, type_round c.type)

pub claims_expired : (c : Claims) (time : ℕ) → c.exp ≤ time → claims_of time (code_of c) ≡ none
claims_expired c time h = ground arith

abbrev pub plain_jwt : JwtLaws plain_runtime
plain_jwt = record { decode-encode = claims_round; decode_expired = claims_expired }

abbrev pub plain_passwords : PasswordLaws plain_runtime
plain_passwords = record { verify-hash = λ salt password. text_eq_refl password }
