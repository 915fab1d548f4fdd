-- ===== src/Realtime/Presence/Laws.antt =====
-- Presence as a function of the open connections.
use collabflow.Common.{
  ◌==◌, ==_iff, ℕ, zero, suc, ◌≡◌, refl, Bool, true, false, ◌&&◌, Option, none, some, [], ◌∷◌,
  arith, contains, select, ltb, if◌then◌else◌,
}
use collabflow.Realtime.Presence.{
  ℤ, pos, Hashes, count_of, set_count, hdel, join, leave, online_user_ids, or_zero, increment,
  decrement,
}

abbrev pub same_key : (p u q v : ℕ) → Bool
same_key p u q v = (p == q) && (u == v)

pub count_of-set_count :
    (p u q v : ℕ) (n : ℤ) (fs : Hashes)
    → count_of q v (set_count p u n fs) ≡ (if same_key p u q v then some n else count_of q v fs)
unfolding count_of set_count
count_of-set_count p u q v n [] = refl
count_of-set_count p u q v n (f ∷ fs) = ground (arith, count_of-set_count p u q v n fs)

pub count_of-hdel :
    (p u q v : ℕ) (fs : Hashes)
    → count_of q v (hdel p u fs) ≡ (if same_key p u q v then none else count_of q v fs)
unfolding count_of hdel select
count_of-hdel p u q v [] = ground arith
count_of-hdel p u q v (f ∷ fs) = ground (arith, count_of-hdel p u q v fs)

abbrev pub is_present : Option ℤ → Bool
is_present none = false
is_present (some n) = true

-- The field for `n` open connections.
abbrev pub field_for : ℕ → Option ℤ
field_for zero = none
field_for (suc n) = some (pos (suc n))

-- The hashes hold what the numbers of open connections say.
abbrev pub Counts : Hashes → (ℕ → ℕ → ℕ) → Type 0
Counts fs open_count = (p u : ℕ) → count_of p u fs ≡ field_for (open_count p u)

abbrev pub opened : (p u : ℕ) → (ℕ → ℕ → ℕ) → ℕ → ℕ → ℕ
opened p u c q v = if same_key p u q v then suc (c q v) else c q v

abbrev pub pred_of : ℕ → ℕ
pred_of zero = zero
pred_of (suc n) = n

abbrev pub closed : (p u : ℕ) → (ℕ → ℕ → ℕ) → ℕ → ℕ → ℕ
closed p u c q v = if same_key p u q v then pred_of (c q v) else c q v

module _ (p u : ℕ) (fs : Hashes) (c : ℕ → ℕ → ℕ) (h : Counts fs c) where
  -- `join` returns the new number of connections.
  pub join-count : (join p u fs).0 ≡ pos (suc (c p u))
  unfolding join
  join-count = ground (arith, h p u)

  pub Counts-join : Counts (join p u fs).1 (opened p u c)
  unfolding join
  Counts-join q v = ground (
    arith,
    count_of-set_count p u q v (increment (or_zero (count_of p u fs))) fs,
    h p u,
    h q v,
    ==_iff p q,
    ==_iff u v,
  )

  -- `leave` returns the number of connections that stay, where one was open.
  pub leave-count : (n : ℕ) → c p u ≡ suc n → (leave p u fs).0 ≡ pos n
  unfolding leave
  leave-count n e = ground (arith, h p u)

  pub Counts-leave : (n : ℕ) → c p u ≡ suc n → Counts (leave p u fs).1 (closed p u c)
  unfolding leave
  Counts-leave n e q v = ground (
    arith,
    count_of-set_count p u q v (decrement (or_zero (count_of p u fs))) fs,
    count_of-hdel p u q v (set_count p u (decrement (or_zero (count_of p u fs))) fs),
    h p u,
    h q v,
    ==_iff p q,
    ==_iff u v,
  )

-- HKEYS lists the users that have a field.
pub contains-online :
    (p u : ℕ) (fs : Hashes) → contains (online_user_ids p fs) u ≡ is_present (count_of p u fs)
unfolding online_user_ids count_of contains select
contains-online p u [] = refl
contains-online p u (f ∷ fs) = ground (arith, contains-online p u fs)

-- A user is online in a project exactly while a connection is open.
pub online_iff_open :
    (p u : ℕ) (fs : Hashes) (c : ℕ → ℕ → ℕ)
    → Counts fs c
    → contains (online_user_ids p fs) u ≡ ltb 0 (c p u)
online_iff_open p u fs c h = ground (arith, contains-online p u fs, h p u)
