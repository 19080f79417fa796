-- ===== src/Base/Results.antt =====
-- Python's exceptions as values: a call returns, or raises an error of the type `E`.
use mathlib.Core.Path.{◌≡◌, refl}
use mathlib.Core.Bool.{Bool, false}
use mathlib.Core.Logic.{◌↔◌}
use native.Mathlib.Omega.{arith}
use power_market_data_platfo.Base.Tests.{if◌then◌else◌}

pub data Result (E A : Type 0) : Type 0 where
  ok : A → Result E A
  err : E → Result E A

infixl 5 ◌>>=◌ ◌>>◌
-- A call, and what uses the value that it returns.
abbrev pub ◌>>=◌ : {E A B : Type 0} → Result E A → (A → Result E B) → Result E B
err raised >>= use_of = err raised
ok value >>= use_of = use_of value

-- A check, and what follows it.
abbrev pub ◌>>◌ : {E B : Type 0} → Result E (Unit {0}) → Result E B → Result E B
check >> rest = check >>= λ _. rest

-- `if test: raise error`.
abbrev pub raise_if : {E : Type 0} → Bool → E → Result E (Unit {0})
raise_if b e = if b then err e else ok tt

pub >>=-eq-ok :
    {E A B : Type 0} (call : Result E A) (use_of : A → Result E B) {b : B}
    → (call >>= use_of) ≡ ok b
    → (a : A) × (call ≡ ok a) × (use_of a ≡ ok b)
>>=-eq-ok (ok value) use_of h = (value, refl, h)
>>=-eq-ok (err raised) use_of h = cc

-- The call returns.
abbrev pub Succeeds : {E A : Type 0} → Result E A → Type 0
Succeeds {E} {A} call = (value : A) × (call ≡ ok value)

-- A sequence returns when both of its parts do.
pub >>=-Succeeds :
    {E A B : Type 0} (call : Result E A) (use_of : A → Result E B)
    → Succeeds call
    → ((value : A) → call ≡ ok value → Succeeds (use_of value))
    → Succeeds (call >>= use_of)
>>=-Succeeds (ok value) use_of h k = k value refl
>>=-Succeeds (err raised) use_of h k = absurd (cc (h.1))

-- What follows a check runs exactly when the check passes.
pub >>-raise_if :
    {E B : Type 0} (b : Bool) (e : E) (rest : Result E B) {v : B}
    → ((raise_if b e >> rest) ≡ ok v) ↔ ((b ≡ false) × (rest ≡ ok v))
>>-raise_if b e rest = ground arith

pub raise_if_iff : {E : Type 0} (b : Bool) (e : E) → (raise_if b e ≡ ok tt) ↔ (b ≡ false)
raise_if_iff b e = ground arith

pub >>_iff :
    {E : Type 0} (check rest : Result E (Unit {0}))
    → ((check >> rest) ≡ ok tt) ↔ ((check ≡ ok tt) × (rest ≡ ok tt))
>>_iff check rest = ground arith

pub ok_injective : {E A : Type 0} {a b : A} → ◌≡◌ {A = Result E A} (ok a) (ok b) → a ≡ b
ok_injective h = cc h
