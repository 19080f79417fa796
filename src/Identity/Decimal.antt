-- ===== src/Identity/Decimal.antt =====
-- Python's Decimal as identity.py reads it, and `decimal_text`. A finite decimal is a sign, the
-- coefficient and the exponent, the value (-1)^sign * coefficient * 10^exponent.
pub mod Integers
use power_market_data_platfo.Base.{
  ℕ, zero, suc, ◌+◌, ◌-◌, ◌/◌, ◌%◌, Bool, true, false, [], ◌∷◌, ◌++◌, ltb, ◌==◌, if◌then◌else◌, ℤ,
  pos, negsuc, length, Text, Result, ok, err, any,
}
use power_market_data_platfo.Errors.{Error, value_error}

pub data Decimal : Type 0 where
  finite : Bool → ℕ → ℤ → Decimal
  infinite : Bool → Decimal
  nan : Decimal

abbrev pub is_finite : Decimal → Bool
is_finite (finite _ _ _) = true
is_finite _ = false

-- The coefficient with its sign.
abbrev pub signed : Bool → ℕ → ℤ
signed false c = pos c
signed true zero = pos 0
signed true (suc c) = negsuc c

-- `a < b`, of finite values.
-- The digits of a number, most significant first; the fuel bounds how many.
digits_from : ℕ → ℕ → Text → Text
digits_from zero n acc = acc
digits_from (suc fuel) n acc =
    let rest = digits_from fuel (n / 10) ((n % 10 + 48) ∷ acc) in
    if ltb n 10 then (n + 48) ∷ acc else rest

-- `str(int)`: a number has no more digits than its value and one.
unfoldable pub digits : ℕ → Text
unfolding digits_from
digits n = digits_from (suc n) n []

abbrev pub zeros : ℕ → Text
zeros zero = []
zeros (suc n) = b'0' ∷ zeros n

abbrev pub take : ℕ → Text → Text
take zero s = []
take (suc n) [] = []
take (suc n) (c ∷ s) = c ∷ take n s

abbrev drop : ℕ → Text → Text
drop zero s = s
drop (suc n) [] = []
drop (suc n) (c ∷ s) = drop n s

-- The digits of the whole part and of the fraction in `format(value, "f")`.
abbrev fixed_parts : Text → ℤ → Text × Text
fixed_parts ds (pos e) = (ds ++ zeros e, [])
fixed_parts ds (negsuc k) =
    if ltb (length ds) (k + 1)
    then (b'0' ∷ [], zeros (k + 1 - length ds) ++ ds)
    else if length ds == k + 1
    then (b'0' ∷ [], ds)
    else (take (length ds - (k + 1)) ds, drop (length ds - (k + 1)) ds)

-- `text.rstrip(c)`.
abbrev rstrip : ℕ → Text → Text
rstrip c [] = []
rstrip c (d ∷ s) = elim (rstrip c s) [ [] ↦ if d == c then [] else d ∷ [] | e ∷ r ↦ d ∷ e ∷ r ]

abbrev pub negate_text : Bool → Text → Text
negate_text neg s = if neg then b'-' ∷ s else s

format_fixed : Bool → ℕ → ℤ → Text
unfolding digits
format_fixed neg c e =
    let (whole, fraction) = fixed_parts (digits c) e in
    negate_text neg (elim fraction [ [] ↦ whole | d ∷ r ↦ whole ++ b'.' ∷ d ∷ r ])

-- `decimal_text`.
unfoldable pub decimal_text : Decimal → Result Error Text
unfolding format_fixed
decimal_text (finite neg c e) =
    if c == 0
    then ok (b'0' ∷ [])
    else (let text = format_fixed neg c e in
        ok (if any (λ d. d == b'.') text then rstrip b'.' (rstrip b'0' text) else text))
decimal_text d = err value_error
