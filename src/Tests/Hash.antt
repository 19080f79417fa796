-- ===== src/Tests/Hash.antt =====
-- A function without collisions in place of SHA-256: a code point is written in base 32768, its
-- high part in unary.
use power_market_data_platfo.Base.{ℕ, zero, suc, ◌+◌, ◌/◌, ◌%◌, ◌≡◌, refl, [], ◌∷◌, arith, Text}
use power_market_data_platfo.Identity.Json.Injective.{IsBasic}
use power_market_data_platfo.Identity.Digest.{IsCollisionFree}

abbrev pub shifted : ℕ → Text → Text
shifted zero s = s
shifted (suc n) s = 0 ∷ shifted n s

abbrev pub encode : Text → Text
encode [] = []
encode (c ∷ s) = shifted (c / 32768) ((c % 32768 + 1) ∷ encode s)

shifted_injective :
    (n m a b : ℕ) (s t : Text)
    → shifted n ((a + 1) ∷ s) ≡ shifted m ((b + 1) ∷ t)
    → (n ≡ m) × (a ≡ b) × (s ≡ t)
shifted_injective zero zero a b s t e = (refl, ground (arith, e), cc e)
shifted_injective zero (suc m) a b s t e = absurd (ground (arith, e))
shifted_injective (suc n) zero a b s t e = absurd (ground (arith, e))
shifted_injective (suc n) (suc m) a b s t e =
    let (p, q, r) = shifted_injective n m a b s t (cc e) in (omega (arith, p), q, r)

encode_injective : (s t : Text) → encode s ≡ encode t → s ≡ t
encode_injective [] [] e = refl
encode_injective [] (d ∷ t) e = absurd (never (d / 32768) e)
  where
    never : (n : ℕ) → [] ≡ shifted n ((d % 32768 + 1) ∷ encode t) → ⊥
    never zero e = cc e
    never (suc n) e = cc e
encode_injective (c ∷ s) [] e = absurd (never (c / 32768) e)
  where
    never : (n : ℕ) → shifted n ((c % 32768 + 1) ∷ encode s) ≡ [] → ⊥
    never zero e = cc e
    never (suc n) e = cc e
encode_injective (c ∷ s) (d ∷ t) e =
    let (p, q, r) =
      shifted_injective (c / 32768) (d / 32768) (c % 32768) (d % 32768) (encode s) (encode t) e in
    let heads : c ≡ d = omega (arith, p, q) in
    let tails : s ≡ t = encode_injective s t r in cc (heads, tails)

shifted-IsBasic : (n : ℕ) (s : Text) → IsBasic s → IsBasic (shifted n s)
shifted-IsBasic zero s h = h
shifted-IsBasic (suc n) s h = (omega arith, shifted-IsBasic n s h)

encode-IsBasic : (s : Text) → IsBasic (encode s)
encode-IsBasic [] = tt
encode-IsBasic (c ∷ s) =
    shifted-IsBasic (c / 32768) ((c % 32768 + 1) ∷ encode s) (omega arith, encode-IsBasic s)

pub encode-IsCollisionFree : IsCollisionFree encode
encode-IsCollisionFree = record { injective = encode_injective; is_basic = encode-IsBasic }
