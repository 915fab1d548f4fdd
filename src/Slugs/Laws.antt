-- ===== src/Slugs/Laws.antt =====
-- The shape of a slug.
use collabflow.Common.{
  ◌==◌, ℕ, ◌≡◌, ◌⊎◌, inl, inr, refl, Bool, true, false, not, ◌&&◌, Text, [], ◌∷◌, arith, take,
  if◌then◌else◌,
}
use collabflow.Runtime.{Runtime}
use collabflow.Slugs.{
  is_slug_char, dash_runs, strip_left, strip_right, strip, text_or, slugify, cons_unless_last_dash,
}

-- Characters of a slug, and single dashes between them. The flag says that no dash may come next.
pub slug_from : Bool → Text → Bool
slug_from no_dash [] = not no_dash
slug_from no_dash (c ∷ s) =
    let in_word = slug_from false s in
    let behind_dash = slug_from true s in
    if is_slug_char c then in_word else (c == b'-') && not no_dash && behind_dash

abbrev pub is_slug : Text → Bool
is_slug s = slug_from true s

-- The same, but a dash may end the text.
tidy : Bool → Text → Bool
tidy no_dash [] = true
tidy no_dash (c ∷ s) =
    let in_word = tidy false s in
    let behind_dash = tidy true s in
    if is_slug_char c then in_word else (c == b'-') && not no_dash && behind_dash

tidy-dash_runs : (p : Bool) (s : Text) → tidy p (dash_runs p s) ≡ true
unfolding tidy dash_runs is_slug_char
tidy-dash_runs p [] = refl
tidy-dash_runs p (c ∷ s) = ground (arith, tidy-dash_runs true s, tidy-dash_runs false s)

tidy-strip_left : (p : Bool) (s : Text) → tidy p s ≡ true → tidy true (strip_left s) ≡ true
unfolding tidy strip_left is_slug_char
tidy-strip_left p [] h = refl
tidy-strip_left p (c ∷ s) h = ground (arith, tidy-strip_left true s)

abbrev empty_or : Bool → Text → Bool
empty_or p [] = true
empty_or p (c ∷ s) = slug_from p (c ∷ s)

empty_or-cons :
    (p : Bool) (c : ℕ) (s t : Text)
    → tidy p (c ∷ s) ≡ true
    → (tidy true s ≡ true → empty_or true t ≡ true)
    → (tidy false s ≡ true → empty_or false t ≡ true)
    → empty_or p (cons_unless_last_dash c t) ≡ true
unfolding tidy slug_from is_slug_char
empty_or-cons p c s [] h k l = ground arith
empty_or-cons p c s (d ∷ t) h k l = ground arith

empty_or-strip_right : (p : Bool) (s : Text) → tidy p s ≡ true → empty_or p (strip_right s) ≡ true
unfolding strip_right
empty_or-strip_right p [] h = refl
empty_or-strip_right p (c ∷ s) h =
    empty_or-cons p c s (strip_right s) h (empty_or-strip_right true s)
      (empty_or-strip_right false s)

slug_or_fallback :
    (s t : Text) → empty_or true s ≡ true → (is_slug (text_or s t) ≡ true) ⊎ (text_or s t ≡ t)
slug_or_fallback [] t h = inr refl
slug_or_fallback (c ∷ s) t h = inl h

dash_runs-same : (p : Bool) (s : Text) → slug_from p s ≡ true → dash_runs p s ≡ s
unfolding slug_from dash_runs is_slug_char
dash_runs-same p [] h = refl
dash_runs-same p (c ∷ s) h = ground (arith, dash_runs-same true s, dash_runs-same false s)

from_start : (s : Text) → slug_from true s ≡ true → slug_from false s ≡ true
unfolding slug_from is_slug_char
from_start [] h = refl
from_start (c ∷ s) h = ground arith

strip_left-same : (s : Text) → slug_from true s ≡ true → strip_left s ≡ s
unfolding slug_from strip_left is_slug_char
strip_left-same [] h = refl
strip_left-same (c ∷ s) h = ground arith

cons-same :
    (p : Bool) (c : ℕ) (s : Text) → slug_from p (c ∷ s) ≡ true → cons_unless_last_dash c s ≡ c ∷ s
unfolding slug_from is_slug_char
cons-same p c [] h = ground arith
cons-same p c (d ∷ s) h = refl

tail_from :
    (p : Bool) (c : ℕ) (s : Text)
    → slug_from p (c ∷ s) ≡ true
    → (slug_from true s ≡ true) ⊎ (slug_from false s ≡ true)
unfolding slug_from
tail_from p c s h = ground arith

strip_right-same : (p : Bool) (s : Text) → slug_from p s ≡ true → strip_right s ≡ s
unfolding strip_right
strip_right-same p [] h = refl
strip_right-same p (c ∷ s) h = elim (tail_from p c s h) [
  | inl dash ↦ rw (strip_right-same true s dash) (cons-same p c s h)
  | inr word ↦ rw (strip_right-same false s word) (cons-same p c s h)
]

text_or-same : (s t : Text) → slug_from true s ≡ true → text_or s t ≡ s
unfolding slug_from
text_or-same [] t h = ground arith
text_or-same (c ∷ s) t h = refl

-- A slug is made of lower-case letters and digits with single dashes between them, or is the
-- first eight digits of the UUID; and a lower-case text that is a slug already is its own slug.
pub slugify-is_slug :
    (rt : Runtime) (drawn : ℕ) (value : Text)
    → ((is_slug (slugify rt drawn value) ≡ true)
        ⊎ (slugify rt drawn value ≡ take 8 (rt.uuid_hex drawn)))
      × (rt.lower value ≡ value → is_slug value ≡ true → slugify rt drawn value ≡ value)
unfolding slugify strip
slugify-is_slug rt drawn value = (
  slug_or_fallback (strip_right (strip_left (dash_runs false (rt.lower value))))
      (take 8 (rt.uuid_hex drawn))
      (empty_or-strip_right true (strip_left (dash_runs false (rt.lower value))) (
        tidy-strip_left false (dash_runs false (rt.lower value))
          (tidy-dash_runs false (rt.lower value)))),
  λ l h. rw l (
      rw (dash_runs-same false value (from_start value h)) (
        rw (strip_left-same value h) (
          rw (strip_right-same true value h) (text_or-same value (take 8 (rt.uuid_hex drawn)) h)))),
)
