-- ===== src/Tests/Sorting.antt =====
-- Insertion sort for ORDER BY.
use mathlib.Core.List.{Perm}
use mathlib.Core.List.Perm
use collabflow.Common.{
  ◌≡◌, Bool, true, false, List, [], ◌∷◌, arith, if◌then◌else◌, Bool-cases, inl, inr, ◌⊎◌, All,
  All-mono, text_leb,
}
use collabflow.Crud.Postgres.{Postgres, IsOrdered}

module _ {A : Type 0} (le : A → A → Bool) where
  abbrev pub insert : A → List A → List A
  insert x [] = x ∷ []
  insert x (y ∷ ys) = if le x y then x ∷ y ∷ ys else y ∷ insert x ys

  abbrev pub sort : List A → List A
  sort [] = []
  sort (x ∷ xs) = insert x (sort xs)

  insert-Perm : (x : A) (ys : List A) → Perm (insert x ys) (x ∷ ys)
  insert-Perm x [] = Perm.refl (x ∷ [])
  insert-Perm x (y ∷ ys) = elim (Bool-cases (le x y)) [
    | inl h ↦ rw h (Perm.refl (x ∷ y ∷ ys))
    | inr h ↦ rw h (Perm.trans (Perm.cons y (insert-Perm x ys)) (Perm.swap x y ys))
  ]

  pub sort-Perm : (xs : List A) → Perm (sort xs) xs
  sort-Perm [] = Perm.nil
  sort-Perm (x ∷ xs) = Perm.trans (insert-Perm x (sort xs)) (Perm.cons x (sort-Perm xs))

  All-insert :
      (x y : A) (ys : List A)
      → le x y ≡ true
      → All (λ z. le x z ≡ true) ys
      → All (λ z. le x z ≡ true) (insert y ys)
  All-insert x y [] h all = (h, tt)
  All-insert x y (z ∷ zs) h all = elim (Bool-cases (le y z)) [
    | inl c ↦ rw c (h, all)
    | inr c ↦ rw c (all.0, All-insert x y zs h all.1)
  ]

  module _ (total : (x y : A) → (le x y ≡ true) ⊎ (le y x ≡ true))
      (trans : (x y z : A) → le x y ≡ true → le y z ≡ true → le x z ≡ true) where
    insert-IsOrdered : (x : A) (ys : List A) → IsOrdered le ys → IsOrdered le (insert x ys)
    insert-IsOrdered x [] o = (tt, tt)
    insert-IsOrdered x (y ∷ ys) o = elim (Bool-cases (le x y)) [
      | inl h ↦
          rw h
            ((h, All-mono (λ z. le y z ≡ true) (λ z. le x z ≡ true) ys (λ z. trans x y z h) o.0), o)
      | inr h ↦ rw h (All-insert y x ys (other h (total x y)) o.0, insert-IsOrdered x ys o.1)
    ]
      where
        other : le x y ≡ false → (le x y ≡ true) ⊎ (le y x ≡ true) → le y x ≡ true
        other h t = ground (arith, h, t)

    pub sort-IsOrdered : (xs : List A) → IsOrdered le (sort xs)
    sort-IsOrdered [] = tt
    sort-IsOrdered (x ∷ xs) = insert-IsOrdered x (sort xs) (sort-IsOrdered xs)

abbrev pub plain_postgres : Postgres
plain_postgres = record {
  order_by = λ A le rows. sort le rows;
  order_by-perm = λ A le rows. sort-Perm le rows;
  order_by-IsOrdered = λ A le rows total trans. sort-IsOrdered le total trans rows;
  ilike = λ search title. true;
  text_le = text_leb;
}
