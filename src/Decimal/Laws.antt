-- ===== src/Decimal/Laws.antt =====
-- Reading a decimal numeral back.
use collabflow.Common.{
  ℕ, zero, suc, ◌+◌, ◌-◌, ◌*◌, ◌/◌, ◌%◌, ◌<◌, ◌≡◌, refl, ap, sym, ◌∙◌, Text, [], ◌∷◌, ◌++◌, arith,
}
use collabflow.Decimal.{decimal_fuel, decimal}

-- The number that a numeral stands for, behind the digits read so far.
pub value : ℕ → Text → ℕ
value acc [] = acc
value acc (c ∷ s) = value (acc * 10 + (c - 48)) s

value-snoc : (acc c : ℕ) (s : Text) → value acc (s ++ c ∷ []) ≡ value acc s * 10 + (c - 48)
unfolding value
value-snoc acc c [] = refl
value-snoc acc c (d ∷ s) = value-snoc (acc * 10 + (d - 48)) c s

value-decimal_fuel : (fuel n : ℕ) → n < fuel → value 0 (decimal_fuel fuel n) ≡ n
unfolding decimal_fuel value
value-decimal_fuel zero n h = elim h [ ]
value-decimal_fuel (suc fuel) n h = ground (
  arith,
  value-decimal_fuel fuel (n / 10),
  value-snoc 0 (48 + n % 10) (decimal_fuel fuel (n / 10)),
)

pub value-decimal : (n : ℕ) → value 0 (decimal n) ≡ n
unfolding decimal
value-decimal n = value-decimal_fuel (suc n) n (omega arith)

-- Different numbers have different numerals.
pub decimal-injective : (m n : ℕ) → decimal m ≡ decimal n → m ≡ n
decimal-injective m n e = sym (value-decimal m) ∙ ap (value 0) e ∙ value-decimal n
