-- ===== src/Crud/Postgres/Pages.antt =====
-- The pages of a listing, one after the other.
use collabflow.Common.{
  ℕ, zero, suc, ◌+◌, ◌-◌, ◌*◌, ◌≤◌, ◌≡◌, refl, sym, ◌∙◌, ap, List, [], ◌∷◌, ◌++◌, arith, take, drop,
  length,
}
use collabflow.Crud.Postgres.{page_of}

module _ {A : Type 0} where
  -- Pages 1 to `n`.
  unfoldable pub pages : (n page_size : ℕ) → List A → List A
  pages zero page_size rows = []
  pages (suc n) page_size rows = pages n page_size rows ++ page_of (suc n) page_size rows

  take-nil : (n : ℕ) → take {A = A} n [] ≡ []
  take-nil zero = refl
  take-nil (suc n) = refl

  take-append : (a b : ℕ) (rows : List A) → take a rows ++ take b (drop a rows) ≡ take (a + b) rows
  take-append zero b rows = let e : b ≡ 0 + b = omega arith in ap (λ m. take m rows) e
  take-append (suc a) b [] = rw (take-nil b) (sym (take-nil (suc a + b)))
  take-append (suc a) b (r ∷ rows) =
      let e : suc (a + b) ≡ suc a + b = omega arith in
      ap (λ rs. r ∷ rs) (take-append a b rows) ∙ ap (λ m. take m (r ∷ rows)) e

  take-pages : (n size : ℕ) (rows : List A) → pages n size rows ≡ take (n * size) rows
  unfolding pages page_of
  take-pages zero size rows = let e : 0 ≡ 0 * size = omega arith in ap (λ m. take m rows) e
  take-pages (suc n) size rows =
      let e : suc n - 1 ≡ n = omega arith in
      let f : n * size + size ≡ suc n * size = grind arith in
      rw e
        (rw (take-pages n size rows) (take-append (n * size) size rows ∙ ap (λ m. take m rows) f))

  take-all : (n : ℕ) (rows : List A) → length rows ≤ n → take n rows ≡ rows
  take-all n [] h = take-nil n
  take-all zero (r ∷ rows) h = ground (arith, h)
  take-all (suc n) (r ∷ rows) h = ap (λ rs. r ∷ rs) (take-all n rows (omega arith))

  -- The pages of one size follow one another without a gap or a repetition: the first `n` of them are
  -- the first `n * size` rows, and all of the rows once there are enough.
  pub pages-cover :
      (n size : ℕ) (rows : List A)
      → (pages n size rows ≡ take (n * size) rows)
        × (length rows ≤ n * size → pages n size rows ≡ rows)
  pages-cover n size rows =
      (take-pages n size rows, λ h. take-pages n size rows ∙ take-all (n * size) rows h)
