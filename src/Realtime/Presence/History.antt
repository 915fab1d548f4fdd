-- ===== src/Realtime/Presence/History.antt =====
-- Presence after any history of joins and leaves, and what two commands of `leave` allow in between.
use collabflow.Common.{
  ==_refl, ℕ, zero, suc, ◌<◌, ◌≡◌, refl, true, false, some, List, [], ◌∷◌, arith, contains, ltb,
}
use collabflow.Realtime.Presence.{
  pos, Hashes, count_of, join, leave, leave_end, hincrby, set_count, decrement, increment,
  online_user_ids, or_zero,
}
use collabflow.Realtime.Presence.Laws.{
  Counts, opened, closed, Counts-join, Counts-leave, online_iff_open, count_of-set_count,
  count_of-hdel, contains-online,
}

pub data Move : Type 0 where
  joins leaves : (project_id user_id : ℕ) → Move

pub move : Move → Hashes → Hashes
move (joins p u) fs = (join p u fs).1
move (leaves p u) fs = (leave p u fs).1

pub moves : List Move → Hashes → Hashes
unfolding move
moves [] fs = fs
moves (m ∷ ms) fs = moves ms (move m fs)

-- The connections that a history leaves open.
abbrev pub tally : Move → (ℕ → ℕ → ℕ) → ℕ → ℕ → ℕ
tally (joins p u) c = opened p u c
tally (leaves p u) c = closed p u c

pub tallies : List Move → (ℕ → ℕ → ℕ) → ℕ → ℕ → ℕ
tallies [] c = c
tallies (m ∷ ms) c = tallies ms (tally m c)

-- A connection leaves after it has joined.
abbrev pub IsPossible : Move → (ℕ → ℕ → ℕ) → Type 0
IsPossible (joins p u) c = Unit {0}
IsPossible (leaves p u) c = 0 < c p u

abbrev pub ArePossible : List Move → (ℕ → ℕ → ℕ) → Type 0
ArePossible [] c = Unit {0}
ArePossible (m ∷ ms) c = IsPossible m c × ArePossible ms (tally m c)

pred_pos : (n : ℕ) → 0 < n → (m : ℕ) × (n ≡ suc m)
pred_pos zero h = elim h [ ]
pred_pos (suc n) h = (n, refl)

Counts-move :
    (m : Move) (fs : Hashes) (c : ℕ → ℕ → ℕ)
    → IsPossible m c
    → Counts fs c
    → Counts (move m fs) (tally m c)
unfolding move
Counts-move (joins p u) fs c o h = Counts-join p u fs c h
Counts-move (leaves p u) fs c o h = let (n, e) = pred_pos (c p u) o in Counts-leave p u fs c h n e

Counts-moves :
    (ms : List Move) (fs : Hashes) (c : ℕ → ℕ → ℕ)
    → ArePossible ms c
    → Counts fs c
    → Counts (moves ms fs) (tallies ms c)
unfolding moves tallies
Counts-moves [] fs c o h = h
Counts-moves (m ∷ ms) fs c o h =
    Counts-moves ms (move m fs) (tally m c) o.1 (Counts-move m fs c o.0 h)

-- From no connection on, whatever joins and leaves follow one another, a user is online in a project
-- exactly if a connection of theirs is still open.
pub online-moves :
    (ms : List Move) (p u : ℕ)
    → ArePossible ms (λ _ _. 0)
    → contains (online_user_ids p (moves ms [])) u ≡ ltb 0 (tallies ms (λ _ _. 0) p u)
online-moves ms p u o =
    online_iff_open p u (moves ms []) (tallies ms (λ _ _. 0))
      (Counts-moves ms [] (λ _ _. 0) o (λ q v. unfold count_of in refl))

-- `leave` is two commands. If another connection of the user joins between them, the field is
-- deleted though that connection is open.
abbrev pub leave_around_join : (p u : ℕ) → Hashes → Hashes
leave_around_join p u fs =
    let (count, fs₁) = hincrby decrement p u fs in leave_end p u count (join p u fs₁).1

-- With one connection open, a leave whose two commands enclose a join takes the user offline,
-- while the leave followed by the join leaves the user online.
pub leave_around_join_loses :
    (p u : ℕ) (fs : Hashes)
    → count_of p u fs ≡ some (pos 1)
    → (contains (online_user_ids p (leave_around_join p u fs)) u ≡ false)
      × (contains (online_user_ids p (join p u (leave p u fs).1).1) u ≡ true)
unfolding hincrby leave_end join leave
leave_around_join_loses p u fs h = (
  rw contains-online (
      ground (
        arith,
        h,
        count_of-hdel p u p u (join p u (set_count p u (pos 0) fs)).1,
        ==_refl p,
        ==_refl u,
      )),
  rw contains-online (
      ground (
        arith,
        h,
        count_of-set_count p u p u (increment (or_zero (count_of p u (leave p u fs).1)))
            (leave p u fs).1,
        ==_refl p,
        ==_refl u,
      )),
)
