-- ===== src/Realtime/Life/Fields.antt =====
-- The presence hashes while leaves are pending.
use collabflow.Common.{==_iff, ℕ, zero, suc, ◌≡◌, Option, some, arith, if◌then◌else◌}
use collabflow.Realtime.Presence.{
  ℤ, pos, Hashes, count_of, hdel, hincrby, or_zero, increment, decrement, is_not_positive,
}
use collabflow.Realtime.Presence.Laws.{opened, closed, field_for, count_of-set_count, count_of-hdel}

-- The field of a user with so many leaves pending and so many counted sockets.
abbrev pub field_of : (pending present : ℕ) → Option ℤ
field_of zero n = field_for n
field_of (suc k) n = some (pos 0)

-- One leave more is pending if the count that HINCRBY gave is not positive.
abbrev pub pending_after : ℤ → (p u : ℕ) → (ℕ → ℕ → ℕ) → ℕ → ℕ → ℕ
pending_after n p u k q v = if is_not_positive n then opened p u k q v else k q v

module _ (p u : ℕ) (fs : Hashes) (k c : ℕ → ℕ → ℕ)
    (h : (q v : ℕ) → count_of q v fs ≡ field_of (k q v) (c q v)) where
  pub fields-join :
      k p u ≡ 0
      → (q v : ℕ) → count_of q v (hincrby increment p u fs).1 ≡ field_of (k q v) (opened p u c q v)
  unfolding hincrby
  fields-join free q v = ground (
    arith,
    count_of-set_count p u q v (increment (or_zero (count_of p u fs))) fs,
    h p u,
    h q v,
    ==_iff p q,
    ==_iff u v,
  )

  pub fields-leave :
      (n : ℕ)
      → c p u ≡ suc n
      → k p u ≡ 0
      → (q v : ℕ)
      → count_of q v (hincrby decrement p u fs).1
        ≡ field_of (pending_after (hincrby decrement p u fs).0 p u k q v) (closed p u c q v)
  unfolding hincrby
  fields-leave n e free q v = ground (
    arith,
    count_of-set_count p u q v (decrement (or_zero (count_of p u fs))) fs,
    h p u,
    h q v,
    ==_iff p q,
    ==_iff u v,
  )

  -- The count that HINCRBY gives.
  pub leave_count : (n : ℕ) → c p u ≡ suc n → k p u ≡ 0 → (hincrby decrement p u fs).0 ≡ pos n
  unfolding hincrby
  leave_count n e free = ground (arith, h p u)

  pub fields-delete :
      k p u ≡ 1
      → c p u ≡ 0
      → (q v : ℕ) → count_of q v (hdel p u fs) ≡ field_of (closed p u k q v) (c q v)
  fields-delete one none_left q v =
      ground (arith, count_of-hdel p u q v fs, h q v, ==_iff p q, ==_iff u v)
