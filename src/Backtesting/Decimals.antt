-- ===== src/Backtesting/Decimals.antt =====
-- The order of Python's decimals, and `str` of one. The order is that of finite values, by their
-- coefficients at a common exponent.
use power_market_data_platfo.Base.{
  ℕ, zero, suc, ◌-◌, ◌*◌, ◌^◌, Bool, false, ◌&&◌, ◌||◌, not, [], ◌∷◌, ◌++◌, ltb, leb, if◌then◌else◌,
  length, ℤ, pos, negsuc, pos_part, ◌-ℤ◌, ◌+ℤ◌, ltb_ℤ, Text, codes,
}
use power_market_data_platfo.Identity.Decimal.{
  Decimal, finite, infinite, nan, digits, zeros, take, negate_text, signed,
}

unfoldable pub decimal_lt : Decimal → Decimal → Bool
decimal_lt (finite n c e) (finite m d f) =
    ltb_ℤ (signed n (c * 10 ^ pos_part (e -ℤ f))) (signed m (d * 10 ^ pos_part (f -ℤ e)))
decimal_lt a b = false

abbrev drop : ℕ → Text → Text
drop zero s = s
drop (suc n) [] = []
drop (suc n) (c ∷ s) = drop n s

-- A whole part, and a fraction behind the point unless it is empty.
abbrev pointed : Text → Text → Text
pointed whole [] = whole
pointed whole (d ∷ ds) = whole ++ b'.' ∷ d ∷ ds

-- "%+d"
signed_text : ℤ → Text
unfolding digits
signed_text (pos n) = b'+' ∷ digits n
signed_text (negsuc n) = b'-' ∷ digits (suc n)

-- The digits of a value with no exponent to write, `left` of them before the point.
abbrev plain : Text → ℤ → Text
plain ds (pos left) =
    if leb (length ds) left
    then ds ++ zeros (left - length ds)
    else if ltb 0 left
    then pointed (take left ds) (drop left ds)
    else pointed (b'0' ∷ []) ds
plain ds (negsuc n) = pointed (b'0' ∷ []) (zeros (suc n) ++ ds)

-- One digit before the point, and the exponent.
abbrev scientific : Text → ℤ → Text
scientific ds left =
    pointed (take 1 ds) (drop 1 ds)
    ++ (if ltb_ℤ left (pos 1) || ltb_ℤ (pos 1) left then b'E' ∷ signed_text (left -ℤ pos 1) else [])

-- `str(value)`.
unfoldable pub decimal_str : Decimal → Text
unfolding digits signed_text
decimal_str (finite n c e) =
    let ds = digits c in
    let left = e +ℤ pos (length ds) in
    negate_text n
      (if not (ltb_ℤ (pos 0) e) && ltb_ℤ (negsuc 5) left then plain ds left else scientific ds left)
decimal_str (infinite n) = negate_text n (codes "Infinity")
decimal_str nan = codes "NaN"
