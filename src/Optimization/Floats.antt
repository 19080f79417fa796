-- ===== src/Optimization/Floats.antt =====
-- What the code does with Python's floats. Their arithmetic is not part of the repository, so the
-- type and its operations are a parameter.
use power_market_data_platfo.Base.{Bool, List, ℤ}
use power_market_data_platfo.Identity.Decimal.{Decimal}

pub record Floats (F : Type 0) : Type 0 where
  pub add : F → F → F
  pub sub : F → F → F
  pub mul : F → F → F
  pub div : F → F → F
  pub neg : F → F
  pub abs : F → F
  pub lt : F → F → Bool
  pub le : F → F → Bool
  pub eq : F → F → Bool
  pub is_finite : F → Bool
  pub fsum : List F → F
  pub of_int : ℤ → F
  pub of_decimal : Decimal → F
  pub round : F → ℤ
  -- `math.isclose` at the tolerances of the code.
  pub is_close : F → F → Bool
  -- PHYSICAL_TOLERANCE.
  pub tolerance : F
  -- `statistics.mean` and `statistics.median`.
  pub mean : List F → F
  pub median : List F → F
  -- `n / m` of two integers.
  pub ratio : ℤ → ℤ → F
