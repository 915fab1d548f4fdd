-- ===== src/Tests/Routes.antt =====
-- The route table at work.
use collabflow.Common.{◌≡◌, refl, Bool, true, Text, codes, text_eq}
use mathlib.Core.List.Memᴰ.{head}
use collabflow.App.Routes.{Method, on, routes}
use collabflow.App.Routes.Matching.{segments, chomp, agrees, routes-unambiguous}

-- A framework that matches exactly the urls whose segments agree.
abbrev plain_match : (path url : Text) → Bool
plain_match path url = agrees (segments path) (segments (chomp url))

abbrev here : Text
here = codes "/api/auth/register"

here_matches : plain_match here here ≡ true
unfolding agrees segments chomp text_eq
here_matches = refl

routes-unambiguous_example :
    on Method.post "/api/auth/register" "auth.register"
    ≡ on Method.post "/api/auth/register" "auth.register"
unfolding routes
routes-unambiguous_example =
    routes-unambiguous plain_match (λ path url h. h)
      (on Method.post "/api/auth/register" "auth.register")
      (on Method.post "/api/auth/register" "auth.register") here (head refl) (head refl) refl
      here_matches here_matches
