-- ===== src/Schemas/Color.antt =====
-- The colour of a label, schemas/label.py.
use collabflow.Common.{
  ◌==◌, ==_iff, ℕ, zero, suc, ◌≡◌, ◌↔◌, ◌∙◌, sym, ap, refl, Bool, true, false, ◌&&◌, ◌||◌, ◌⊎◌, inl,
  inr, Text, [], ◌∷◌, ◌++◌, arith, leb, length,
}

-- The class [0-9a-fA-F]
abbrev pub is_hex_digit : ℕ → Bool
is_hex_digit c =
    (leb b'0' c && leb c b'9') || (leb b'a' c && leb c b'f') || (leb b'A' c && leb c b'F')

-- `$` of `re` without flags: the end of the text, or a newline that ends it
abbrev pub at_end : Text → Bool
at_end [] = true
at_end (c ∷ []) = c == 10
at_end _ = false

-- [0-9a-fA-F]{n}$
unfoldable pub hex_digits_to_end : ℕ → Text → Bool
hex_digits_to_end zero text = at_end text
hex_digits_to_end (suc n) [] = false
hex_digits_to_end (suc n) (c ∷ text) = is_hex_digit c && hex_digits_to_end n text

-- `_HEX_COLOR_RE.match(value)`; false is the ValueError
unfoldable pub validate_hex_color : (value : Text) → Bool
unfolding hex_digits_to_end
validate_hex_color [] = false
validate_hex_color (c ∷ text) = (c == b'#') && hex_digits_to_end 6 text

-- Six hex digits, independently of `re`.
abbrev pub are_hex_digits : Text → Bool
are_hex_digits [] = true
are_hex_digits (c ∷ text) = is_hex_digit c && are_hex_digits text

-- `n` hex digits, with or without a newline behind them.
abbrev pub IsHex : ℕ → Text → Type 0
IsHex n text =
    (digits : Text) × (are_hex_digits digits ≡ true)
    × (length digits ≡ n)
    × ((text ≡ digits) ⊎ (text ≡ digits ++ 10 ∷ []))

at_end-IsHex : (text : Text) → at_end text ≡ true → IsHex 0 text
at_end-IsHex [] h = ([], refl, refl, inl refl)
at_end-IsHex (c ∷ []) h = ([], refl, refl, inr (ground arith))
at_end-IsHex (c ∷ d ∷ text) h = ground arith

cons_inl_inr :
    (c : ℕ) (digits text : Text)
    → ((text ≡ digits) ⊎ (text ≡ digits ++ 10 ∷ []))
    → ((c ∷ text ≡ c ∷ digits) ⊎ (c ∷ text ≡ c ∷ digits ++ 10 ∷ []))
cons_inl_inr c digits text (inl e) = inl (ap (λ t. c ∷ t) e)
cons_inl_inr c digits text (inr e) = inr (ap (λ t. c ∷ t) e)

hex_digits_to_end-IsHex : (n : ℕ) (text : Text) → hex_digits_to_end n text ≡ true → IsHex n text
unfolding hex_digits_to_end
hex_digits_to_end-IsHex zero text h = at_end-IsHex text h
hex_digits_to_end-IsHex (suc n) [] h = ground arith
hex_digits_to_end-IsHex (suc n) (c ∷ text) h =
    let (digits, hex, size, shape) = hex_digits_to_end-IsHex n text (ground arith) in
    (c ∷ digits, ground (arith, hex), ap suc size, cons_inl_inr c digits text shape)

hex_digits_to_end-digits :
    (digits rest : Text)
    → are_hex_digits digits ≡ true
    → at_end rest ≡ true
    → hex_digits_to_end (length digits) (digits ++ rest) ≡ true
unfolding hex_digits_to_end
hex_digits_to_end-digits [] rest h e = e
hex_digits_to_end-digits (c ∷ digits) rest h e =
    ground (arith, hex_digits_to_end-digits digits rest (ground arith) e)

append_nil : (s : Text) → s ++ [] ≡ s
append_nil [] = refl
append_nil (c ∷ s) = ap (λ t. c ∷ t) (append_nil s)

IsHex-hex_digits_to_end : (n : ℕ) (text : Text) → IsHex n text → hex_digits_to_end n text ≡ true
IsHex-hex_digits_to_end n text (digits, hex, size, inl e) =
    ap (λ t. hex_digits_to_end n t) (e ∙ sym (append_nil digits))
    ∙ ap (λ m. hex_digits_to_end m (digits ++ [])) (sym size)
    ∙ hex_digits_to_end-digits digits [] hex refl
IsHex-hex_digits_to_end n text (digits, hex, size, inr e) =
    ap (λ t. hex_digits_to_end n t) e
    ∙ ap (λ m. hex_digits_to_end m (digits ++ 10 ∷ [])) (sym size)
    ∙ hex_digits_to_end-digits digits (10 ∷ []) hex (ground arith)

abbrev pub IsColor : (value : Text) → Type 0
IsColor value = (text : Text) × (value ≡ b'#' ∷ text) × IsHex 6 text

-- A colour passes the validator exactly if it is a `#` and six hex digits, or these and a newline.
pub validate_hex_color_iff : (value : Text) → (validate_hex_color value ≡ true) ↔ IsColor value
unfolding validate_hex_color
validate_hex_color_iff [] = (λ h. ground (arith, h), λ (text, e, hex). ground (arith, e))
validate_hex_color_iff (c ∷ value) = (
  λ h. (
    value,
    ap (λ d. d ∷ value) (ground (arith, h, ==_iff c b'#')),
    hex_digits_to_end-IsHex 6 value (ground (arith, h)),
  ),
  λ (text, e, hex). ground (arith, e, IsHex-hex_digits_to_end 6 text hex),
)
