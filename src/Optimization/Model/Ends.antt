-- ===== src/Optimization/Model/Ends.antt =====
-- optimization/model.py, `validate_dispatch`: the bounds and the ends of the state of charge.
use power_market_data_platfo.Base.{
  ℕ, zero, suc, ◌≡◌, refl, subst, ◌↔◌, false, List, [], ◌∷◌, some, arith, get_elem?, length, any,
  any-eq-false, any-All, All, All-map,
}
use power_market_data_platfo.Optimization.Floats.{Floats}
use power_market_data_platfo.Optimization.Model.{
  BatteryConfig, DispatchResult, last_or, first_or, zero_float, is_outside, misses_ends,
}
use power_market_data_platfo.Optimization.Model.Steps.{IsNear, IsAtMost, IsNonnegative}

last_or-get_elem? :
    {A : Type 0} (default : A) (xs : List A) (n : ℕ)
    → length xs ≡ suc n
    → get_elem? xs n ≡ some (last_or default xs)
last_or-get_elem? default [] n h = absurd (omega (arith, h))
last_or-get_elem? default (x ∷ []) zero h = refl
last_or-get_elem? default (x ∷ []) (suc n) h = absurd (omega (arith, h))
last_or-get_elem? default (x ∷ y ∷ xs) zero h = absurd (omega (arith, h))
last_or-get_elem? default (x ∷ y ∷ xs) (suc n) h =
    last_or-get_elem? default (y ∷ xs) n (omega (arith, h))

module _ {F : Type 0} (floats : Floats F) (config : BatteryConfig F) where
  pub dispatch_bounds :
      (ss : List F)
      → (any (is_outside floats config) ss ≡ false)
        ↔ All (λ s. IsNonnegative floats s × IsAtMost floats s config.energy_capacity_mwh) ss
  dispatch_bounds ss = (
    λ h. All-map (λ s e. (ground (arith, e), ground (arith, e))) ss (any-eq-false _ ss h),
    λ h. any-All _ ss (All-map (λ s e. ground (arith, e.0, e.1)) ss h),
  )

  -- The ends of the state of charge, by index.
  abbrev pub MeetsEnds : ℕ → List F → Type 0
  MeetsEnds n ss =
      ((s : F) → get_elem? ss zero ≡ some s → IsNear floats s config.initial_soc_mwh)
      × ((s : F) → get_elem? ss n ≡ some s → IsNear floats s config.terminal_soc_mwh)

  first_or_lem :
      (n : ℕ) (ss : List F)
      → length ss ≡ suc n
      → get_elem? ss zero ≡ some (first_or (zero_float floats) ss)
  first_or_lem n [] h = absurd (omega (arith, h))
  first_or_lem n (s ∷ ss) h = refl

  pub misses_ends-MeetsEnds :
      (n : ℕ) (r : DispatchResult F)
      → length r.soc_mwh ≡ suc n
      → (misses_ends floats config r ≡ false) ↔ MeetsEnds n r.soc_mwh
  misses_ends-MeetsEnds n r size = (there, back)
    where
      first : F
      first = first_or (zero_float floats) r.soc_mwh

      last : F
      last = last_or (zero_float floats) r.soc_mwh

      there : misses_ends floats config r ≡ false → MeetsEnds n r.soc_mwh
      there h = (
        λ s e.
            let same : first ≡ s = cc (first_or_lem n r.soc_mwh size, e) in
            subst (λ x. IsNear floats x config.initial_soc_mwh) same (ground (arith, h)),
        λ s e.
            let same : last ≡ s = cc (last_or-get_elem? (zero_float floats) r.soc_mwh n size, e) in
            subst (λ x. IsNear floats x config.terminal_soc_mwh) same (ground (arith, h)),
      )

      back : MeetsEnds n r.soc_mwh → misses_ends floats config r ≡ false
      back ends = ground (
        arith,
        ends.0 first (first_or_lem n r.soc_mwh size),
        ends.1 last (last_or-get_elem? (zero_float floats) r.soc_mwh n size),
      )
