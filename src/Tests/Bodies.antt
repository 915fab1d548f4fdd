-- ===== src/Tests/Bodies.antt =====
-- Bodies of requests, against their schemas.
use collabflow.Common.{
  ◌≤◌, ◌≡◌, ◌↔◌, refl, true, Option, none, some, Text, codes, length, leb, arith, if◌then◌else◌,
  All,
}
use collabflow.Service.Auth.{UserCreate}
use collabflow.Schemas.{EmailType, user_create}
use collabflow.Schemas.Color.{validate_hex_color, validate_hex_color_iff, IsColor}
use collabflow.Schemas.Widths.{user, fits, values}
use collabflow.Schemas.Fitting.{values-fit}

abbrev short_only : Text → Option Text
short_only t = if leb (length t) 254 then some t else none

short_only_short : (t email : Text) → short_only t ≡ some email → length email ≤ 254
short_only_short t email h = ground (arith, h)

abbrev plain_email : EmailType
plain_email = record { validate = short_only; short = short_only_short }

abbrev ann : UserCreate
ann = record { email = codes "ann@x.org"; password = codes "password1"; full_name = codes "Ann" }

ann_taken : user_create plain_email ann ≡ some ann
unfolding user_create
ann_taken = refl

values-fit_example : All (λ v. fits v ≡ true) (values (user ann))
values-fit_example = values-fit plain_email (user ann) (ann, ann_taken) refl

validate_hex_color_iff_example :
    (validate_hex_color (codes "#6b7280\n") ≡ true) ↔ IsColor (codes "#6b7280\n")
validate_hex_color_iff_example = validate_hex_color_iff (codes "#6b7280\n")
