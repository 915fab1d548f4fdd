-- ===== src/Storage/Laws.antt =====
-- What a sanitised filename may hold.
use collabflow.Common.{ℕ, ◌≡◌, refl, false, Text, [], ◌∷◌, arith, contains}
use collabflow.Storage.{slashes, after_last_slash, safe_filename}

no_backslash : (s : Text) → contains (slashes s) 92 ≡ false
unfolding slashes contains
no_backslash [] = refl
no_backslash (c ∷ s) = ground (arith, no_backslash s)

no_slash : (s : Text) → contains (after_last_slash s) 47 ≡ false
unfolding after_last_slash contains
no_slash [] = refl
no_slash (c ∷ s) = ground (arith, no_slash s)

-- The part after the last slash holds no more than the text.
contains-after_last_slash :
    (a : ℕ) (s : Text) → contains s a ≡ false → contains (after_last_slash s) a ≡ false
unfolding after_last_slash contains
contains-after_last_slash a [] h = refl
contains-after_last_slash a (c ∷ s) h = ground (arith, contains-after_last_slash a s)

slashes-same : (s : Text) → contains s 92 ≡ false → slashes s ≡ s
unfolding slashes contains
slashes-same [] h = refl
slashes-same (c ∷ s) h = ground (arith, slashes-same s)

after_last_slash-same : (s : Text) → contains s 47 ≡ false → after_last_slash s ≡ s
unfolding after_last_slash contains
after_last_slash-same [] h = refl
after_last_slash-same (c ∷ s) h = ground (arith)

-- A sanitised filename holds no slash and no backslash, whatever the client sent, and a name that
-- holds neither is kept as it is.
pub safe_filename-contains :
    (s : Text)
    → (contains (safe_filename s) 47 ≡ false)
      × (contains (safe_filename s) 92 ≡ false)
      × (contains s 47 ≡ false → contains s 92 ≡ false → safe_filename s ≡ s)
unfolding safe_filename
safe_filename-contains s = (
  no_slash (slashes s),
  contains-after_last_slash 92 (slashes s) (no_backslash s),
  λ h k. rw (slashes-same s k) (after_last_slash-same s h),
)
