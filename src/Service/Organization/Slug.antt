-- ===== src/Service/Organization/Slug.antt =====
-- The candidates of `_unique_org_slug` and the rounds that its loop takes.
use collabflow.Common.{
  ℕ, zero, suc, ◌+◌, ◌<◌, ◌≤◌, ◌≡◌, ◌≢◌, refl, Bool, true, false, none, some, Text, List, [], ◌∷◌,
  ◌++◌, arith, All, any, length, text_eq, text_eq→≡, if◌then◌else◌, Option-cases, Bool-cases, inl,
  inr,
}
use collabflow.Decimal.{decimal}
use collabflow.Decimal.Laws.{decimal-injective}
use collabflow.Models.{Organization}
use collabflow.Runtime.{Runtime}
use collabflow.Slugs.{slugify}
use collabflow.World.{World, Db, ok}
use collabflow.Crud.Organization.{slug_taken}
use collabflow.Service.Organization.{numbered, free_slug, unique_org_slug}

-- The candidates of the first rounds.
tried : ℕ → (slug candidate : Text) → (suffix : ℕ) → List Text
tried zero slug candidate suffix = []
tried (suc rounds) slug candidate suffix =
    candidate ∷ tried rounds slug (numbered slug (suffix + 1)) (suffix + 1)

free_slug-none :
    (rounds : ℕ) (db : Db) (slug candidate : Text) (suffix : ℕ)
    → free_slug rounds db slug candidate suffix ≡ none
    → All (λ c. slug_taken c db ≡ true) (tried rounds slug candidate suffix)
unfolding free_slug tried
free_slug-none zero db slug candidate suffix h = tt
free_slug-none (suc rounds) db slug candidate suffix h =
    elim (Bool-cases (slug_taken candidate db)) [
      | inl taken ↦ (
        taken,
        free_slug-none rounds db slug (numbered slug (suffix + 1)) (suffix + 1) (rw taken at h),
      )
      | inr free ↦ elim (impossible (rw free at h)) [ ]
    ]
  where
    impossible : some candidate ≡ none → ⊥
    impossible e = ground (e, arith)

pub free_slug-free :
    (rounds : ℕ) (db : Db) (slug candidate : Text) (suffix : ℕ) (found : Text)
    → free_slug rounds db slug candidate suffix ≡ some found
    → slug_taken found db ≡ false
unfolding free_slug
free_slug-free zero db slug candidate suffix found h = ground arith
free_slug-free (suc rounds) db slug candidate suffix found h =
    ground (arith, free_slug-free rounds db slug (numbered slug (suffix + 1)) (suffix + 1) found)

text_eq-append : (s a b : Text) → text_eq (s ++ a) (s ++ b) ≡ text_eq a b
unfolding text_eq
text_eq-append [] a b = refl
text_eq-append (c ∷ s) a b = ground (arith, text_eq-append s a b)

longer : (s a : Text) (c : ℕ) → text_eq s (s ++ c ∷ a) ≡ false
unfolding text_eq
longer [] a c = refl
longer (d ∷ s) a c = ground (arith, longer s a c)

numbered-differs :
    (slug : Text) (i j : ℕ) → i < j → text_eq (numbered slug i) (numbered slug j) ≡ false
unfolding numbered text_eq
numbered-differs slug i j h = ground (
  arith,
  text_eq-append slug (b'-' ∷ decimal i) (b'-' ∷ decimal j),
  text_eq→≡ (decimal i) (decimal j),
  decimal-injective i j,
)

-- A text is none of these.
abbrev DiffersFrom : Text → List Text → Type 0
DiffersFrom c cs = All (λ d. text_eq c d ≡ false) cs

abbrev IsDistinct : List Text → Type 0
IsDistinct [] = Unit
IsDistinct (c ∷ cs) = DiffersFrom c cs × IsDistinct cs

numbered-differs_all :
    (rounds : ℕ) (slug : Text) (i j : ℕ)
    → i < j
    → DiffersFrom (numbered slug i) (tried rounds slug (numbered slug j) j)
unfolding tried
numbered-differs_all zero slug i j h = tt
numbered-differs_all (suc rounds) slug i j h =
    (numbered-differs slug i j h, numbered-differs_all rounds slug i (j + 1) (omega arith))

slug-differs_all :
    (rounds : ℕ) (slug : Text) (j : ℕ) → DiffersFrom slug (tried rounds slug (numbered slug j) j)
unfolding tried numbered
slug-differs_all zero slug j = tt
slug-differs_all (suc rounds) slug j =
    (longer slug (decimal j) b'-', slug-differs_all rounds slug (j + 1))

numbered-IsDistinct :
    (rounds : ℕ) (slug : Text) (j : ℕ) → IsDistinct (tried rounds slug (numbered slug j) j)
unfolding tried
numbered-IsDistinct zero slug j = tt
numbered-IsDistinct (suc rounds) slug j = (
  numbered-differs_all rounds slug j (j + 1) (omega arith),
  numbered-IsDistinct rounds slug (j + 1),
)

tried-IsDistinct : (rounds : ℕ) (slug : Text) → IsDistinct (tried rounds slug slug 1)
unfolding tried
tried-IsDistinct zero slug = tt
tried-IsDistinct (suc rounds) slug =
    (slug-differs_all rounds slug 2, numbered-IsDistinct rounds slug 2)

length-tried :
    (rounds : ℕ) (slug candidate : Text) (suffix : ℕ)
    → length (tried rounds slug candidate suffix) ≡ rounds
unfolding tried
length-tried zero slug candidate suffix = refl
length-tried (suc rounds) slug candidate suffix =
    ground (arith, length-tried rounds slug (numbered slug (suffix + 1)) (suffix + 1))

-- Without the first organization of this slug.
without : Text → List Organization → List Organization
without c [] = []
without c (o ∷ os) = if text_eq o.slug c then os else o ∷ without c os

abbrev taken_in : List Organization → Text → Bool
taken_in os c = any (λ o. text_eq o.slug c) os

length-without :
    (c : Text) (os : List Organization)
    → taken_in os c ≡ true
    → length os ≡ suc (length (without c os))
unfolding any without
length-without c [] h = ground arith
length-without c (o ∷ os) h = ground (arith, length-without c os)

taken-without :
    (c d : Text) (os : List Organization)
    → text_eq c d ≡ false
    → taken_in os d ≡ true
    → taken_in (without c os) d ≡ true
unfolding any without
taken-without c d [] n h = h
taken-without c d (o ∷ os) n h = ground (arith, taken-without c d os n, text_eq→≡ o.slug c)

taken-All-without :
    (c : Text) (cs : List Text) (os : List Organization)
    → DiffersFrom c cs
    → All (λ d. taken_in os d ≡ true) cs
    → All (λ d. taken_in (without c os) d ≡ true) cs
taken-All-without c [] os n h = tt
taken-All-without c (d ∷ cs) os n h =
    (taken-without c d os n.0 h.0, taken-All-without c cs os n.1 h.1)

-- Distinct slugs that are all taken are no more than the organizations.
pigeonhole :
    (cs : List Text) (os : List Organization)
    → IsDistinct cs
    → All (λ c. taken_in os c ≡ true) cs
    → length cs ≤ length os
pigeonhole [] os d h = omega arith
pigeonhole (c ∷ cs) os d h = ground (
  arith,
  length-without c os h.0,
  pigeonhole cs (without c os) d.1 (taken-All-without c cs os d.0 h.1),
)

never_none :
    (db : Db) (slug : Text) → free_slug (suc (length db.organizations)) db slug slug 1 ≢ none
unfolding slug_taken
never_none db slug e = ground (
  arith,
  length-tried (suc (length db.organizations)) slug slug 1,
  pigeonhole (tried (suc (length db.organizations)) slug slug 1) db.organizations
      (tried-IsDistinct (suc (length db.organizations)) slug)
      (free_slug-none (suc (length db.organizations)) db slug slug 1 e),
)

-- As many rounds as there are organizations, and one more, are enough.
free_slug-total :
    (db : Db) (slug : Text)
    → (found : Text) × (free_slug (suc (length db.organizations)) db slug slug 1 ≡ some found)
free_slug-total db slug =
    elim (Option-cases (free_slug (suc (length db.organizations)) db slug slug 1)) [
      | inl e ↦ elim (never_none db slug e) [ ]
      | inr found ↦ found
    ]

-- `_unique_org_slug` returns for every name and database: its loop ends after at most one round more
-- than there are organizations. The slug it returns is no organization's, and it changes nothing.
pub unique_org_slug-free :
    (rt : Runtime) (base : Text) (w : World)
    → (found : Text) × (unique_org_slug rt base w ≡ (ok found, record w { drawn = suc w.drawn }))
      × (slug_taken found w.session ≡ false)
unfolding unique_org_slug
unique_org_slug-free rt base w =
    let slug : Text = slugify rt w.drawn base in
    let (found, e) = free_slug-total w.session slug in
    (
      found,
      rw e refl,
      free_slug-free (suc (length w.session.organizations)) w.session slug slug 1 found e,
    )
