-- ===== src/Realtime/Dict.antt =====
-- Python's dict and set with ids for keys, in insertion order.
use collabflow.Common.{
  ◌==◌, ==_iff, ℕ, ◌≡◌, refl, true, false, Option, none, some, List, [], ◌∷◌, ◌++◌, arith, contains,
  if◌then◌else◌,
}

abbrev pub Dict : Type 0 → Type 0
Dict V = List (ℕ × V)

module _ {V : Type 0} where
  -- d.get(k)
  unfoldable pub get : ℕ → Dict V → Option V
  get k [] = none
  get k ((j, v) ∷ d) = if j == k then some v else get k d

  -- d[k] = v
  unfoldable pub put : ℕ → V → Dict V → Dict V
  put k v [] = (k, v) ∷ []
  put k v ((j, w) ∷ d) = if j == k then (k, v) ∷ d else (j, w) ∷ put k v d

  -- del d[k]
  unfoldable pub del : ℕ → Dict V → Dict V
  del k [] = []
  del k ((j, w) ∷ d) = if j == k then del k d else (j, w) ∷ del k d

  pub get-put :
      (k j : ℕ) (v : V) (d : Dict V) → get j (put k v d) ≡ (if k == j then some v else get j d)
  unfolding get put
  get-put k j v [] = refl
  get-put k j v ((i, w) ∷ d) = ground (arith, get-put k j v d)

  pub get-del : (k j : ℕ) (d : Dict V) → get j (del k d) ≡ (if k == j then none else get j d)
  unfolding get del
  get-del k j [] = ground arith
  get-del k j ((i, w) ∷ d) = ground (arith, get-del k j d)

-- s.add(a) and s.discard(a)
unfoldable pub add : ℕ → List ℕ → List ℕ
add a s = if contains s a then s else s ++ a ∷ []

unfoldable pub discard : ℕ → List ℕ → List ℕ
discard a [] = []
discard a (b ∷ s) = if b == a then discard a s else b ∷ discard a s

contains-append :
    (a b : ℕ) (s : List ℕ) → contains (s ++ a ∷ []) b ≡ (if a == b then true else contains s b)
unfolding contains
contains-append a b [] = ground arith
contains-append a b (c ∷ s) = ground (arith, contains-append a b s)

pub contains-add :
    (a b : ℕ) (s : List ℕ) → contains (add a s) b ≡ (if a == b then true else contains s b)
unfolding add
contains-add a b s = ground (arith, contains-append a b s, ==_iff a b)

pub contains-discard :
    (a b : ℕ) (s : List ℕ) → contains (discard a s) b ≡ (if a == b then false else contains s b)
unfolding contains discard
contains-discard a b [] = ground arith
contains-discard a b (c ∷ s) = ground (arith, contains-discard a b s)
