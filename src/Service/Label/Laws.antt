-- ===== src/Service/Label/Laws.antt =====
-- Creating labels under free and taken names.
use collabflow.Common.{
  ℕ, ◌≡◌, refl, true, false, Text, any, arith, ==_refl, text_eq_refl, Bool-cases, inl, inr,
}
use collabflow.World.{World, err, ok, service_error}
use collabflow.Service.Label.{create_label}
use collabflow.Crud.Label
use collabflow.Models

-- Creating a label whose name the project already has raises the message of the 409 answer and does
-- nothing but roll the session back.
pub create_label-duplicate :
    (p : ℕ) (name color : Text) (a : ℕ) (w : World)
    → Label.name_taken p name w.session ≡ true
    → ((create_label p name color a w).0
        ≡ err (service_error "A label with this name already exists in this project"))
      × ((create_label p name color a w).1 ≡ record w { session = w.committed })
unfolding create_label
create_label-duplicate p name color a w h = (rw h refl, rw h refl)

-- A label that is created had a name that was free in its project, and in the committed database
-- that name is taken.
pub create_label-ok :
    (p : ℕ) (name color : Text) (a : ℕ) (w : World) (l : Models.Label)
    → (create_label p name color a w).0 ≡ ok l
    → (Label.name_taken p name w.session ≡ false)
      × (Label.name_taken p name (create_label p name color a w).1.committed ≡ true)
unfolding create_label Label.name_taken any
create_label-ok p name color a w l h = elim (Bool-cases (Label.name_taken p name w.session)) [
  | inl taken ↦ ground (arith, create_label-duplicate p name color a w taken)
  | inr free ↦ (free, ground (arith, ==_refl p, text_eq_refl name))
]
