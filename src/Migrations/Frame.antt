-- ===== src/Migrations/Frame.antt =====
-- Operations that leave the rest of a catalog alone.
pub mod Operations
pub mod Runs
use collabflow.Common.{
  any-append, Bool, true, false, not, ◌&&◌, ◌||◌, Text, List, [], ◌∷◌, ◌++◌, any, select, map, ◌≡◌,
  refl, ap, inl, inr, Bool-cases, arith,
}
use collabflow.Migrations.Catalog.{
  Table, Catalog, Op, create_type, drop_type, rename_type, add_value, create_table, drop_table,
  create_index, has_table, has_type, refers_to, holds_type, has_relation,
}

-- Two catalogs in one database: the first holds what was created last.
abbrev pub beside : Catalog → Catalog → Catalog
beside c b = record { types = c.types ++ b.types; tables = c.tables ++ b.tables }

unfoldable pub refers : Text → List Table → Bool
refers n ts = any (λ t. any (λ c. refers_to n c.references) t.columns) ts

abbrev pub spares_table : Text → Catalog → Bool
spares_table n b = not (has_table n b.tables) && not (refers n b.tables)

abbrev pub spares_type : Text → Catalog → Bool
spares_type n b = not (has_type n b.types) && not (any (holds_type n) b.tables)

-- The catalog has nothing of a name that the operation mentions.
unfoldable pub spares : Op → Catalog → Bool
spares (create_type t) b = spares_type t.name b
spares (drop_type n) b = spares_type n b
spares (rename_type old new) b = spares_type old b && spares_type new b
spares (add_value n v) b = spares_type n b
spares (create_table t) b = spares_table t.name b
spares (drop_table n) b = spares_table n b
spares (create_index n i) b = spares_table n b && not (any (has_relation i.name) b.tables)

unfoldable pub all_spare : List Op → Catalog → Bool
all_spare [] b = true
all_spare (op ∷ ops) b = spares op b && all_spare ops b

module _ {ℓ} {A : Type ℓ} where
  pub select-append :
      (p : A → Bool) (xs ys : List A) → select p (xs ++ ys) ≡ select p xs ++ select p ys
  unfolding select
  select-append p [] ys = refl
  select-append p (x ∷ xs) ys = elim (Bool-cases (p x)) [
    | inl hit ↦ rw hit (ap (λ zs. x ∷ zs) (select-append p xs ys))
    | inr miss ↦ rw miss (select-append p xs ys)
  ]

  -- A test that no element passes selects them all when it is negated.
  pub select-any : (p : A → Bool) (xs : List A) → any p xs ≡ false → select (λ x. not (p x)) xs ≡ xs
  unfolding any select
  select-any p [] h = refl
  select-any p (x ∷ xs) h = elim (Bool-cases (p x)) [
    | inl hit ↦ ground arith
    | inr miss ↦ rw miss (ap (λ zs. x ∷ zs) (select-any p xs (ground arith)))
  ]

  pub map_fixes :
      (p : A → Bool) (f : A → A) (xs : List A)
      → any p xs ≡ false
      → ((x : A) → p x ≡ false → f x ≡ x)
      → map f xs ≡ xs
  unfolding any
  map_fixes p f [] h same = refl
  map_fixes p f (x ∷ xs) h same = elim (Bool-cases (p x)) [
    | inl hit ↦ ground arith
    | inr miss ↦ cc (same x miss, map_fixes p f xs (ground arith) same)
  ]

pub map-append {ℓ} :
    {A : Type ℓ} → (f : A → A) (xs ys : List A) → map f (xs ++ ys) ≡ map f xs ++ map f ys
map-append f [] ys = refl
map-append f (x ∷ xs) ys = ap (λ zs. f x ∷ zs) (map-append f xs ys)
