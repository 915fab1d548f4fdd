-- ===== src/Realtime/Presence.antt =====
-- backend/app/ws/presence.py: for each project a Redis hash from users to open connections.
pub mod Laws
pub mod History
use collabflow.Common.{
  ◌==◌, ℕ, zero, suc, Bool, true, false, ◌&&◌, not, Option, none, some, List, [], ◌∷◌, map, select,
  if◌then◌else◌,
}

-- A count, as HINCRBY keeps it: `negsuc n` is -(n + 1).
pub data ℤ : Type 0 where
  pos : ℕ → ℤ
  negsuc : ℕ → ℤ

abbrev pub increment : ℤ → ℤ
increment (pos n) = pos (suc n)
increment (negsuc zero) = pos 0
increment (negsuc (suc n)) = negsuc n

abbrev pub decrement : ℤ → ℤ
decrement (pos zero) = negsuc 0
decrement (pos (suc n)) = pos n
decrement (negsuc n) = negsuc (suc n)

-- count <= 0
abbrev pub is_not_positive : ℤ → Bool
is_not_positive (pos zero) = true
is_not_positive (pos (suc n)) = false
is_not_positive (negsuc n) = true

-- A field of the hash `presence:{project_id}`.
pub record Field : Type 0 where
  pub project_id : ℕ
  pub user_id : ℕ
  pub count : ℤ

abbrev pub Hashes : Type 0
Hashes = List Field

abbrev pub is_field : (project_id user_id : ℕ) → Field → Bool
is_field project_id user_id f = (f.project_id == project_id) && (f.user_id == user_id)

-- HGET
unfoldable pub count_of : (project_id user_id : ℕ) → Hashes → Option ℤ
count_of project_id user_id [] = none
count_of project_id user_id (f ∷ fs) =
    if is_field project_id user_id f then some f.count else count_of project_id user_id fs

-- An absent field counts as 0.
abbrev pub or_zero : Option ℤ → ℤ
or_zero none = pos 0
or_zero (some n) = n

unfoldable pub set_count : (project_id user_id : ℕ) → ℤ → Hashes → Hashes
set_count project_id user_id n [] =
    record { project_id = project_id; user_id = user_id; count = n } ∷ []
set_count project_id user_id n (f ∷ fs) =
    if is_field project_id user_id f
    then record f { count = n } ∷ fs
    else f ∷ set_count project_id user_id n fs

-- HINCRBY by 1 and by -1, of which the step is the first argument: the new count, and the hashes.
unfoldable pub hincrby : (ℤ → ℤ) → (project_id user_id : ℕ) → Hashes → ℤ × Hashes
unfolding count_of set_count
hincrby step project_id user_id fs =
    let n = step (or_zero (count_of project_id user_id fs)) in
    (n, set_count project_id user_id n fs)

unfoldable pub hdel : (project_id user_id : ℕ) → Hashes → Hashes
hdel project_id user_id = select λ f. not (is_field project_id user_id f)

unfoldable pub join : (project_id user_id : ℕ) → Hashes → ℤ × Hashes
unfolding hincrby
join project_id user_id fs = hincrby increment project_id user_id fs

-- The second of the two commands of `leave`.
unfoldable pub leave_end : (project_id user_id : ℕ) → ℤ → Hashes → Hashes
unfolding hdel
leave_end project_id user_id count fs =
    if is_not_positive count then hdel project_id user_id fs else fs

unfoldable pub leave : (project_id user_id : ℕ) → Hashes → ℤ × Hashes
unfolding hincrby leave_end
leave project_id user_id fs =
    let (count, fs') = hincrby decrement project_id user_id fs in
    (count, leave_end project_id user_id count fs')

-- HKEYS
unfoldable pub online_user_ids : (project_id : ℕ) → Hashes → List ℕ
online_user_ids project_id fs =
    map (λ (f : Field). f.user_id) (select (λ f. f.project_id == project_id) fs)
