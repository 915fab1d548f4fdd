-- ===== src/App/Bucket.antt =====
-- `ensure_bucket_exists` of core/storage.py.
use collabflow.Common.{
  Option-cases, inl, inr, refl, false, Bool-cases, ◌⊎◌, ◌≡◌, Bool, ◌||◌, Option, none, some, Text,
  codes, text_eq, if◌then◌else◌,
}

-- The object store, by one bucket of it: `head_bucket` gives the code of a ClientError, and a bucket
-- that was created is there.
pub record Store : Type 1 where
  pub State : Type 0
  pub head_bucket : State → Option Text
  pub create_bucket : State → State
  pub head-create : (s : State) → head_bucket (create_bucket s) ≡ none

abbrev pub is_missing : (error_code : Text) → Bool
is_missing code = text_eq code (codes "404") || text_eq code (codes "NoSuchBucket")

module _ (store : Store) where
  -- The code of the ClientError that goes on, if one does.
  abbrev pub ensure_from : Option Text → store.State → Option Text × store.State
  ensure_from none s = (none, s)
  ensure_from (some error_code) s =
      if is_missing error_code then (none, store.create_bucket s) else (some error_code, s)

  unfoldable pub ensure_bucket_exists : store.State → Option Text × store.State
  ensure_bucket_exists s = ensure_from (store.head_bucket s) s

  -- If `ensure_bucket_exists` returns, the bucket is there, and a second call finds it and changes
  -- nothing; if it raises, the error is not that of a missing bucket, and nothing was changed.
  pub ensure_bucket_exists-ok :
      (s : store.State)
      → ((store.head_bucket (ensure_bucket_exists s).1 ≡ none)
          × ((ensure_bucket_exists s).0 ≡ none)
          × (ensure_bucket_exists (ensure_bucket_exists s).1 ≡ ensure_bucket_exists s))
        ⊎ ((code : Text) × ((ensure_bucket_exists s) ≡ (some code, s)) × (is_missing code ≡ false))
  unfolding ensure_bucket_exists
  ensure_bucket_exists-ok s = elim (Option-cases (store.head_bucket s)) [
    | inl there ↦ inl (rw there (there, refl, rw there refl))
    | inr (code, e) ↦ elim (Bool-cases (is_missing code)) [
      | inl missing ↦
          inl (rw e (rw missing (store.head-create s, refl, rw (store.head-create s) refl)))
      | inr other ↦ inr (code, rw e (rw other refl), other)
    ]
  ]
