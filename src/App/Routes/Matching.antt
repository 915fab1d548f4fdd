-- ===== src/App/Routes/Matching.antt =====
-- Which urls a route of main.py answers, and that no two routes answer the same request.
use collabflow.Common.{
  ◌==◌, ==_refl, ℕ, ◌≡◌, refl, sym, ap, ◌∙◌, Bool, true, false, not, ◌&&◌, ◌||◌, List, [], ◌∷◌,
  arith, any, if◌then◌else◌, Text, text_eq, text_eq→≡, text_eq_refl, &&-right,
}
use mathlib.Core.List.{Memᴰ}
use mathlib.Core.List.Memᴰ.{head, tail}
use collabflow.App.Routes.{Method, Route, routes}

-- The segments between the slashes of a path.
abbrev push : ℕ → List Text → List Text
push c [] = (c ∷ []) ∷ []
push c (segment ∷ segments) = (c ∷ segment) ∷ segments

unfoldable pub segments : Text → List Text
segments [] = [] ∷ []
segments (c ∷ path) = let rest = segments path in if c == 47 then [] ∷ rest else push c rest

-- A path without its final newline.
unfoldable pub chomp : Text → Text
chomp [] = []
chomp (c ∷ []) = if c == 10 then [] else c ∷ []
chomp (c ∷ d ∷ path) = c ∷ chomp (d ∷ path)

-- `{name}`
abbrev pub is_param : Text → Bool
is_param [] = false
is_param (c ∷ segment) = c == 123

-- Segment by segment the url has the literals of the path.
unfoldable pub agrees : (path url : List Text) → Bool
agrees [] [] = true
agrees [] (u ∷ url) = false
agrees (p ∷ path) [] = false
agrees (p ∷ path) (u ∷ url) = (is_param p || text_eq p u) && agrees path url

unfoldable pub may_share : (path other : List Text) → Bool
may_share [] [] = true
may_share [] (q ∷ other) = false
may_share (p ∷ path) [] = false
may_share (p ∷ path) (q ∷ other) = (is_param p || is_param q || text_eq p q) && may_share path other

abbrev method_code : Method → ℕ
method_code Method.get = 0
method_code Method.post = 1
method_code Method.patch = 2
method_code Method.delete = 3
method_code Method.websocket = 4

unfoldable conflicts : Route → Route → Bool
conflicts r s =
    (method_code r.method == method_code s.method) && may_share (segments r.path) (segments s.path)

unfoldable no_conflicts : List Route → Bool
no_conflicts [] = true
no_conflicts (r ∷ rs) = not (any (conflicts r) rs) && no_conflicts rs

routes-no_conflicts : no_conflicts routes ≡ true
unfolding no_conflicts any conflicts may_share segments text_eq routes
routes-no_conflicts = refl

agrees-may_share :
    (path other url : List Text)
    → agrees path url ≡ true
    → agrees other url ≡ true
    → may_share path other ≡ true
unfolding agrees may_share
agrees-may_share [] [] url h k = refl
agrees-may_share [] (q ∷ other) [] h k = ground (arith, k)
agrees-may_share [] (q ∷ other) (u ∷ url) h k = ground (arith, h)
agrees-may_share (p ∷ path) [] [] h k = ground (arith, h)
agrees-may_share (p ∷ path) [] (u ∷ url) h k = ground (arith, k)
agrees-may_share (p ∷ path) (q ∷ other) [] h k = ground (arith, h)
agrees-may_share (p ∷ path) (q ∷ other) (u ∷ url) h k =
    ground
      (arith, agrees-may_share path other url, h, k, text_eq→≡ p u, text_eq→≡ q u, text_eq_refl u)

any-Mem :
    (p : Route → Bool) (r : Route) (rs : List Route) → Memᴰ r rs → p r ≡ true → any p rs ≡ true
unfolding any
any-Mem p r [] m h = elim m [ ]
any-Mem p r (s ∷ rs) (head e) h = ground (arith, ap p e, h)
any-Mem p r (s ∷ rs) (tail m) h = ground (arith, any-Mem p r rs m h)

conflicts-at_most_one :
    (rs : List Route) (r s : Route)
    → no_conflicts rs ≡ true
    → Memᴰ r rs
    → Memᴰ s rs
    → conflicts r s ≡ true
    → conflicts s r ≡ true
    → r ≡ s
unfolding no_conflicts
conflicts-at_most_one [] r s n m l h k = elim m [ ]
conflicts-at_most_one (t ∷ rs) r s n (head e) (head d) h k = e ∙ sym d
conflicts-at_most_one (t ∷ rs) r s n (head e) (tail m) h k =
    ground (arith, any-Mem (conflicts t) s rs m, ap (λ x. conflicts x s) e)
conflicts-at_most_one (t ∷ rs) r s n (tail m) (head e) h k =
    ground (arith, any-Mem (conflicts t) r rs m, ap (λ x. conflicts x r) e)
conflicts-at_most_one (t ∷ rs) r s n (tail m) (tail l) h k =
    conflicts-at_most_one rs r s (&&-right _ (no_conflicts rs) n) m l h k

agrees-conflicts :
    (r s : Route) (url : List Text)
    → r.method ≡ s.method
    → agrees (segments r.path) url ≡ true
    → agrees (segments s.path) url ≡ true
    → conflicts r s ≡ true
unfolding conflicts
agrees-conflicts r s url e h k = ground (
  arith,
  ap method_code e,
  ==_refl (method_code s.method),
  agrees-may_share (segments r.path) (segments s.path) url h k,
)

-- Where a path that the framework matches with a url agrees with it segment by segment, up to a newline
-- at the end of the url, a request is answered by at most one route of main.py: two that are registered for
-- its method and match its url are the same.
pub routes-unambiguous :
    (matches : (path url : Text) → Bool)
    → ((path url : Text)
        → matches path url ≡ true
        → agrees (segments path) (segments (chomp url)) ≡ true)
    → (r s : Route) (url : Text) → Memᴰ r routes
    → Memᴰ s routes
    → r.method ≡ s.method
    → matches r.path url ≡ true
    → matches s.path url ≡ true
    → r ≡ s
routes-unambiguous matches law r s url m l same h k =
    let a = law r.path url h in
    let b = law s.path url k in
    conflicts-at_most_one routes r s routes-no_conflicts m l
      (agrees-conflicts r s (segments (chomp url)) same a b)
      (agrees-conflicts s r (segments (chomp url)) (sym same) b a)
