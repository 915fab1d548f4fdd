-- ===== src/Decimal.antt =====
-- Decimal numerals, as an f-string writes an `int`.
pub mod Laws
use collabflow.Common.{ℕ, zero, suc, ◌+◌, ◌/◌, ◌%◌, Text, [], ◌∷◌, ◌++◌, ltb, if◌then◌else◌}

-- The first number bounds the digits.
unfoldable pub decimal_fuel : ℕ → ℕ → Text
decimal_fuel zero n = []
decimal_fuel (suc fuel) n =
    let front = decimal_fuel fuel (n / 10) in
    if ltb n 10 then (48 + n) ∷ [] else front ++ (48 + n % 10) ∷ []

unfoldable pub decimal : ℕ → Text
unfolding decimal_fuel
decimal n = decimal_fuel (suc n) n
