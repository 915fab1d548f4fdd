-- ===== src/Crud/Postgres.antt =====
-- What the queries leave to the database server: the order of a result, matching with ILIKE, and the
-- collation of texts. Ties in an ORDER BY may come in any order.
pub mod Pages
use mathlib.Core.List.{Perm}
use collabflow.Common.{ℕ, ◌-◌, ◌*◌, ◌≡◌, ◌⊎◌, Bool, true, List, [], ◌∷◌, Text, All, take, drop}

-- Each row goes before all that follow it.
abbrev pub IsOrdered : {A : Type 0} → (A → A → Bool) → List A → Type 0
IsOrdered le [] = Unit
IsOrdered le (x ∷ xs) = All (λ y. le x y ≡ true) xs × IsOrdered le xs

pub record Postgres : Type 1 where
  pub order_by : (A : Type 0) → (A → A → Bool) → List A → List A
  -- An ORDER BY gives back the rows of the query.
  pub order_by-perm :
      (A : Type 0) (le : A → A → Bool) (rows : List A) → Perm (order_by A le rows) rows
  -- By a total preorder it gives them in order.
  pub order_by-IsOrdered :
      (A : Type 0) (le : A → A → Bool) (rows : List A)
      → ((x y : A) → (le x y ≡ true) ⊎ (le y x ≡ true))
      → ((x y z : A) → le x y ≡ true → le y z ≡ true → le x z ≡ true)
      → IsOrdered le (order_by A le rows)
  -- `ilike search title`: title ILIKE '%search%'
  pub ilike : Text → Text → Bool
  pub text_le : Text → Text → Bool

-- .offset((page - 1) * page_size).limit(page_size)
unfoldable pub page_of : {A : Type 0} → (page page_size : ℕ) → List A → List A
page_of page page_size rows = take page_size (drop ((page - 1) * page_size) rows)
