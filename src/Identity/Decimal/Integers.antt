-- ===== src/Identity/Decimal/Integers.antt =====
-- identity.py, `decimal_text`: the texts of whole numbers, read back.
use native.Mathlib.Nat.{mul_assoc, pow-succ'}
use power_market_data_platfo.Base.{
  ℕ, zero, suc, ◌+◌, ◌-◌, ◌*◌, ◌/◌, ◌%◌, ◌^◌, ◌<◌, ◌≤◌, ◌≡◌, refl, ap, subst, ◌∙◌, arith, inl, inr,
  Bool, true, false, Bool-cases, [], ◌∷◌, ◌++◌, any, All, All-append, ltb, ◌==◌, if◌then◌else◌, ℤ,
  pos, Text, ok, ok_injective,
}
use power_market_data_platfo.Identity.Decimal.{
  finite, signed, digits, digits_from, zeros, negate_text, format_fixed, decimal_text,
}

-- The number that a text of digits continues, `a` being the number so far.
abbrev pub read_on : ℕ → Text → ℕ
read_on a [] = a
read_on a (c ∷ s) = read_on (a * 10 + (c - 48)) s

-- The number of a text of digits, with a sign before it or none.
abbrev pub read_integer : Text → ℤ
read_integer [] = pos 0
read_integer (c ∷ s) = if c == b'-' then signed true (read_on 0 s) else pos (read_on 0 (c ∷ s))

IsDigits : Text → Type 0
IsDigits s = All (λ c. 48 ≤ c) s

digits_from-IsDigits : (fuel n : ℕ) (acc : Text) → IsDigits acc → IsDigits (digits_from fuel n acc)
unfolding digits_from IsDigits
digits_from-IsDigits zero n acc h = h
digits_from-IsDigits (suc fuel) n acc h = elim (Bool-cases (ltb n 10)) [
  | inl e ↦ rw e (omega arith, h)
  | inr e ↦ rw e (digits_from-IsDigits fuel (n / 10) ((n % 10 + 48) ∷ acc) (omega arith, h))
]

read_on-digits_from :
    (fuel n : ℕ) (acc : Text) → n < fuel → read_on 0 (digits_from fuel n acc) ≡ read_on n acc
unfolding digits_from
read_on-digits_from zero n acc h = absurd (omega (arith, h))
read_on-digits_from (suc fuel) n acc h = elim (Bool-cases (ltb n 10)) [
  | inl e ↦ rw e (ap (λ m. read_on m acc) (omega arith))
  | inr e ↦ rw e (
      read_on-digits_from fuel (n / 10) ((n % 10 + 48) ∷ acc) (ground (arith, e, h))
      ∙ ap (λ m. read_on m acc) (omega arith))
]

read_on-append : (a : ℕ) (s t : Text) → read_on a (s ++ t) ≡ read_on (read_on a s) t
read_on-append a [] t = refl
read_on-append a (c ∷ s) t = read_on-append (a * 10 + (c - 48)) s t

next_power : (a e : ℕ) → (a * 10 + 0) * 10 ^ e ≡ a * 10 ^ suc e
next_power a e =
    let ten : 10 ^ suc e ≡ 10 * 10 ^ e = pow-succ' 10 e in
    rw ten (ap (λ m. m * 10 ^ e) (omega arith) ∙ mul_assoc a 10 (10 ^ e))

read_on-zeros : (a e : ℕ) → read_on a (zeros e) ≡ a * 10 ^ e
read_on-zeros a zero = omega arith
read_on-zeros a (suc e) = read_on-zeros (a * 10 + 0) e ∙ next_power a e

zeros-IsDigits : (e : ℕ) → IsDigits (zeros e)
unfolding IsDigits
zeros-IsDigits zero = tt
zeros-IsDigits (suc e) = (omega arith, zeros-IsDigits e)

IsDigits-any : (s : Text) → IsDigits s → any (λ d. d == b'.') s ≡ false
unfolding IsDigits
IsDigits-any [] h = refl
IsDigits-any (c ∷ s) h = ground (arith, h.0, IsDigits-any s h.1)

read_integer-negate_text :
    (neg : Bool) (s : Text)
    → IsDigits s
    → read_integer (negate_text neg s) ≡ signed neg (read_on 0 s)
unfolding IsDigits
read_integer-negate_text true s h = refl
read_integer-negate_text false [] h = refl
read_integer-negate_text false (c ∷ s) h = ground (arith, h.0)

format_fixed-IsDigits : (c e : ℕ) → IsDigits (digits c ++ zeros e)
unfolding digits IsDigits
format_fixed-IsDigits c e =
    All-append (λ d. 48 ≤ d) (digits c) (zeros e) (digits_from-IsDigits (suc c) c [] tt)
      (zeros-IsDigits e)

read_on-digits : (c e : ℕ) → read_on 0 (digits c ++ zeros e) ≡ c * 10 ^ e
unfolding digits
read_on-digits c e =
    read_on-append 0 (digits c) (zeros e)
    ∙ ap (λ n. read_on n (zeros e)) (read_on-digits_from (suc c) c [] (omega arith))
    ∙ read_on-zeros c e

any-negate_text :
    (neg : Bool) (s : Text)
    → any (λ d. d == b'.') s ≡ false
    → any (λ d. d == b'.') (negate_text neg s) ≡ false
any-negate_text true s h = h
any-negate_text false s h = h

signed_zero : (neg : Bool) (n : ℕ) → n ≡ 0 → pos 0 ≡ signed neg n
signed_zero neg n h = ground (arith, h)

-- The text that decimal_text gives a whole number, with exponent 0 or more, reads back as this
-- number, with its sign: the coefficient times the power of ten.
pub decimal_text-integer :
    (neg : Bool) (c e : ℕ) (s : Text)
    → decimal_text (finite neg c (pos e)) ≡ ok s
    → read_integer s ≡ signed neg (c * 10 ^ e)
unfolding decimal_text format_fixed
decimal_text-integer neg c e s h = go (c == 0) refl h
  where
    whole : Text
    whole = negate_text neg (digits c ++ zeros e)

    no_point : any (λ d. d == b'.') whole ≡ false
    no_point =
        any-negate_text neg (digits c ++ zeros e)
          (IsDigits-any (digits c ++ zeros e) (format_fixed-IsDigits c e))

    go :
        (b : Bool)
        → (c == 0) ≡ b
        → decimal_text (finite neg c (pos e)) ≡ ok s
        → read_integer s ≡ signed neg (c * 10 ^ e)
    go true z k =
        let none_left : c ≡ 0 = ground (arith, z) in
        let written : b'0' ∷ [] ≡ s = ok_injective (rw z at k) in
        subst (λ (t : Text). read_integer t ≡ signed neg (c * 10 ^ e)) written
          (signed_zero neg (c * 10 ^ e) (rw none_left (omega arith)))
    go false z k =
        let written : whole ≡ s = ok_injective (rw no_point at (rw z at k)) in
        subst (λ (t : Text). read_integer t ≡ signed neg (c * 10 ^ e)) written
          (read_integer-negate_text neg (digits c ++ zeros e) (format_fixed-IsDigits c e)
            ∙ ap (signed neg) (read_on-digits c e))
