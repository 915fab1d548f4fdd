-- ===== src/Slugs.antt =====
-- backend/app/core/slugs.py
pub mod Laws
use collabflow.Common.{
  ℕ, Bool, true, false, ◌&&◌, ◌||◌, Text, List, [], ◌∷◌, leb, ◌==◌, if◌then◌else◌, take,
}
use collabflow.Runtime.{Runtime}

-- [a-z0-9]
unfoldable pub is_slug_char : ℕ → Bool
is_slug_char c = (leb b'a' c && leb c b'z') || (leb b'0' c && leb c b'9')

-- re.sub(r"[^a-z0-9]+", "-", s); the flag says that the run of other characters goes on
unfoldable pub dash_runs : Bool → Text → Text
dash_runs in_run [] = []
dash_runs in_run (c ∷ s) =
    let rest = dash_runs (if is_slug_char c then false else true) s in
    if is_slug_char c then c ∷ rest else if in_run then rest else b'-' ∷ rest

-- The two halves of s.strip("-").
unfoldable pub strip_left : Text → Text
strip_left [] = []
strip_left (c ∷ s) = if c == b'-' then strip_left s else c ∷ s

-- A dash in front of what is left goes if nothing is left behind it.
abbrev pub cons_unless_last_dash : ℕ → Text → Text
cons_unless_last_dash c [] = if c == b'-' then [] else c ∷ []
cons_unless_last_dash c (d ∷ s) = c ∷ d ∷ s

unfoldable pub strip_right : Text → Text
strip_right [] = []
strip_right (c ∷ s) = cons_unless_last_dash c (strip_right s)

unfoldable pub strip : Text → Text
unfolding strip_left strip_right
strip s = strip_right (strip_left s)

-- `a or b` on texts
abbrev pub text_or : Text → Text → Text
text_or [] t = t
text_or (c ∷ s) t = c ∷ s

-- `drawn` is the UUID that the fallback draws.
unfoldable pub slugify : Runtime → (drawn : ℕ) → Text → Text
unfolding strip dash_runs
slugify rt drawn value =
    text_or (strip (dash_runs false (rt.lower value))) (take 8 (rt.uuid_hex drawn))
