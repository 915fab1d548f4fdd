-- ===== src/Schemas/Fitting.antt =====
-- What passes the schemas fits its columns.
use collabflow.Common.{
  ==_iff, ℕ, suc, ◌≡◌, refl, ap, Bool, true, false, not, Option, none, some, Text, List, [], ◌∷◌,
  ◌++◌, arith, leb, length, find, text_eq, inl, inr, ◌⊎◌, All, Option-cases,
}
use collabflow.Migrations.Metadata as Metadata
use collabflow.Service.Auth.{UserCreate}
use collabflow.Schemas.{
  EmailType, is_within, is_null_or, is_unset_or, user_create, organization_create, workspace_create,
  project_create, task_create, task_update, comment_create, label_create,
}
use collabflow.Schemas.Color.{validate_hex_color, validate_hex_color_iff, IsHex, are_hex_digits}
use collabflow.Schemas.Widths.{
  Value, value_for, fits, if_text, if_set, Body, user, organization, workspace, project, task,
  update, comment, label, values, IsAccepted, ends_with_newline, newline_color,
}

hex_no_newline : (digits : Text) → are_hex_digits digits ≡ true → ends_with_newline digits ≡ false
hex_no_newline [] h = refl
hex_no_newline (c ∷ []) h = ground (arith, h, ==_iff c 10)
hex_no_newline (c ∷ d ∷ digits) h = hex_no_newline (d ∷ digits) (ground (arith, h))

ends_with_newline-append : (t : Text) → ends_with_newline (t ++ 10 ∷ []) ≡ true
ends_with_newline-append [] = ground arith
ends_with_newline-append (c ∷ []) = ground arith
ends_with_newline-append (c ∷ d ∷ t) = ends_with_newline-append (d ∷ t)

length-append_one : (t : Text) (c : ℕ) → length (t ++ c ∷ []) ≡ suc (length t)
length-append_one [] c = refl
length-append_one (d ∷ t) c = ap suc (length-append_one t c)

-- A colour that passed is wide enough for its column exactly if it has no newline.
color_width :
    (color : Text)
    → validate_hex_color color ≡ true
    → leb (length color) 7 ≡ not (ends_with_newline color)
color_width color h =
    let (digits, e, hex) = (validate_hex_color_iff color).0 h in at_digits digits e hex
  where
    shaped :
        (rest digits : Text)
        → are_hex_digits digits ≡ true
        → length digits ≡ 6
        → ((rest ≡ digits) ⊎ (rest ≡ digits ++ 10 ∷ []))
        → leb (suc (length rest)) 7 ≡ not (ends_with_newline (b'#' ∷ rest))
    shaped rest (c ∷ digits) hex size (inl e) =
        rw e (ground (arith, size, hex_no_newline (c ∷ digits) hex))
    shaped rest (c ∷ digits) hex size (inr e) = rw e (
        ground
          (arith, size, length-append_one (c ∷ digits) 10, ends_with_newline-append (c ∷ digits)))
    shaped rest [] hex size e = ground (arith, size)

    at_digits :
        (rest : Text)
        → color ≡ b'#' ∷ rest
        → IsHex 6 rest
        → leb (length color) 7 ≡ not (ends_with_newline color)
    at_digits rest e (digits, hex, size, shape) = rw e (shaped rest digits hex size shape)

All-if_text :
    (test : Text → Bool) (to : Text → Value) (field : Option Text)
    → ((t : Text) → test t ≡ true → fits (to t) ≡ true)
    → is_null_or test field ≡ true
    → All (λ v. fits v ≡ true) (if_text to field)
All-if_text test to none fit h = tt
All-if_text test to (some t) fit h = (fit t h, tt)

All-if_set :
    (test : Text → Bool) (to : Text → Value) (field : Option (Option Text))
    → ((t : Text) → test t ≡ true → fits (to t) ≡ true)
    → is_unset_or test field ≡ true
    → All (λ v. fits v ≡ true) (if_set to field)
All-if_set test to none fit h = tt
All-if_set test to (some field) fit h = All-if_text test to field fit h

All-append {ℓ} :
    {A : Type ℓ} (P : A → Type 0) (xs ys : List A) → All P xs → All P ys → All P (xs ++ ys)
All-append P [] ys all more = more
All-append P (x ∷ xs) ys all more = (all.0, All-append P xs ys all.1 more)

user_create-some :
    (e : EmailType) (sent u : UserCreate)
    → user_create e sent ≡ some u
    → (e.validate sent.email ≡ some u.email) × (is_within 1 255 u.full_name ≡ true)
unfolding user_create
user_create-some e sent u h = elim (Option-cases (e.validate sent.email)) [
  | inl refused ↦ ground (arith, h, refused)
  | inr (email, found) ↦ ground (arith, h, found)
]

-- The texts of a body that passed its schema fit the columns that they are written to, as the models
-- declare them, except for the colour of a label that ends with a newline.
pub values-fit :
    (e : EmailType) (body : Body)
    → IsAccepted e body
    → newline_color body ≡ false
    → All (λ v. fits v ≡ true) (values body)
unfolding values fits find text_eq organization_create workspace_create project_create task_create
    task_update comment_create label_create
values-fit e (user u) (sent, h) plain =
    let (valid, name) = user_create-some e sent u h in
    (ground (arith, e.short sent.email u.email valid), (ground (arith, name), tt))
values-fit e (organization name) h plain = (ground (arith, h), tt)
values-fit e (workspace name) h plain = (ground (arith, h), tt)
values-fit e (project name description) h plain = (
  ground (arith, h),
  All-if_text (is_within 0 5000) (value_for Metadata.projects "description") description
      (λ t fit. refl) (ground (arith, h)),
)
values-fit e (task t) h plain = (
  ground (arith, h),
  All-if_text (is_within 0 20000) (value_for Metadata.tasks "description") t.description
      (λ t fit. refl) (ground (arith, h)),
)
values-fit e (update u) h plain =
    All-append _ (if_set (value_for Metadata.tasks "title") u.title) _
      (All-if_set (is_within 1 500) (value_for Metadata.tasks "title") u.title
        (λ t fit. ground (arith, fit)) (ground (arith, h)))
      (All-if_set (is_within 0 20000) (value_for Metadata.tasks "description") u.description
        (λ t fit. refl) (ground (arith, h)))
values-fit e (comment body) h plain = (refl, tt)
values-fit e (label name color) h plain =
    (ground (arith, h), (ground (arith, h, plain, color_width color (ground (arith, h))), tt))
