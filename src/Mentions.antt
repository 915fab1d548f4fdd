-- ===== src/Mentions.antt =====
-- backend/app/core/mentions.py. In `@([\w.+-]+@[\w-]+\.[\w.-]+)` no class holds the character that
-- follows it in the pattern, so that each part is the whole run of its class and the matcher has
-- nothing to retry.
pub mod Pattern
use collabflow.Common.{
  ℕ, zero, suc, ◌+◌, Bool, true, false, ◌&&◌, ◌||◌, Text, List, [], ◌∷◌, ◌++◌, ◌==◌, any, text_eq,
  Option, none, some, if◌then◌else◌, length,
}
use collabflow.Runtime.{Runtime}

module _ (rt : Runtime) where
  -- [\w.+-]
  unfoldable pub is_local : ℕ → Bool
  is_local c = rt.is_word c || (c == b'.') || (c == b'+') || (c == b'-')

  -- [\w-]
  unfoldable pub is_domain : ℕ → Bool
  is_domain c = rt.is_word c || (c == b'-')

  -- [\w.-]
  unfoldable pub is_tail : ℕ → Bool
  is_tail c = rt.is_word c || (c == b'.') || (c == b'-')

-- The longest run of a class at the front of a text, and what follows it.
unfoldable pub span : (ℕ → Bool) → Text → Text × Text
span p [] = ([], [])
span p (c ∷ s) = let (run, rest) = span p s in if p c then (c ∷ run, rest) else ([], c ∷ s)

-- Class+ : the run must not be empty.
abbrev pub some_run : Text × Text → Option (Text × Text)
some_run ([], rest) = none
some_run (c ∷ run, rest) = some (c ∷ run, rest)

-- One given character.
abbrev pub literal : ℕ → Text → Option Text
literal k [] = none
literal k (c ∷ s) = if c == k then some s else none

infixl 5 ◌>>=◌
abbrev pub ◌>>=◌ : {A B : Type 0} → Option A → (A → Option B) → Option B
none >>= f = none
some a >>= f = f a

-- group(1) of a match whose first `@` stands just before the text.
unfoldable pub mention_at : Runtime → Text → Option Text
mention_at rt s = do
  (local, s₁) ← some_run (span (is_local rt) s)
  s₂ ← literal b'@' s₁
  (domain, s₃) ← some_run (span (is_domain rt) s₂)
  s₄ ← literal b'.' s₃
  (tail, _) ← some_run (span (is_tail rt) s₄)
  some (local ++ b'@' ∷ domain ++ b'.' ∷ tail)

-- A character before which a match may begin.
abbrev pub mention_from : Runtime → ℕ → Text → Option Text
mention_from rt c s = if c == b'@' then mention_at rt s else none

-- How far the matcher moves on behind the first character of a match.
abbrev pub match_length : Option Text → ℕ
match_length none = 0
match_length (some email) = length email

abbrev pub cons_match : Option Text → List Text → List Text
cons_match none found = found
cons_match (some email) found = email ∷ found

-- finditer: the number of characters still to skip comes first.
unfoldable pub find_mentions : Runtime → ℕ → Text → List Text
unfolding mention_at
find_mentions rt skip [] = []
find_mentions rt zero (c ∷ s) =
    let m = mention_from rt c s in cons_match m (find_mentions rt (match_length m) s)
find_mentions rt (suc skip) (c ∷ s) = find_mentions rt skip s

-- seen.setdefault(email, None)
abbrev pub set_default : List Text → Text → List Text
set_default seen email = if any (λ e. text_eq e email) seen then seen else seen ++ email ∷ []

unfoldable pub first_seen : List Text → List Text → List Text
first_seen seen [] = seen
first_seen seen (email ∷ emails) = first_seen (set_default seen email) emails

unfoldable pub extract_mentioned_emails : Runtime → Text → List Text
unfolding find_mentions first_seen
extract_mentioned_emails rt body = first_seen [] (find_mentions rt 0 body)
