-- ===== src/Optimization/Model/Steps.antt =====
-- optimization/model.py, the loop of `validate_dispatch` over the intervals, described by the index of
-- an interval.
use power_market_data_platfo.Base.{
  ℕ, zero, suc, ◌≡◌, refl, ◌↔◌, ◌⊎◌, true, false, not, List, [], ◌∷◌, some, arith, get_elem?, ℤ,
  pos, ◌-ℤ◌, ok, >>-raise_if, raise_if_iff, >>_iff,
}
use power_market_data_platfo.Errors.{optimization}
use power_market_data_platfo.Optimization.Floats.{Floats}
use power_market_data_platfo.Optimization.Model.{
  BatteryConfig, is_binary, violates_power, check_interval, check_intervals,
}

module _ {F : Type 0} (floats : Floats F) where
  -- Equality and bounds, up to the tolerance.
  abbrev pub IsNear : F → F → Type 0
  IsNear x y = floats.lt floats.tolerance (floats.abs (floats.sub x y)) ≡ false

  abbrev pub IsAtMost : F → F → Type 0
  IsAtMost x limit = floats.lt (floats.add limit floats.tolerance) x ≡ false

  abbrev pub IsNonnegative : F → Type 0
  IsNonnegative x = floats.lt x (floats.neg floats.tolerance) ≡ false

module _ {F : Type 0} (floats : Floats F) (config : BatteryConfig F) where
  -- One interval: the mode is a bit, the power of each direction is within what the mode lets
  -- through, and the state of charge after it is the state before it, with the energy that charging
  -- stores and without the energy that discharging takes.
  pub record IsStep (c d : F) (m : ℤ) (s s' : F) : Type 0 where
    pub mode : (m ≡ pos 0) ⊎ (m ≡ pos 1)
    pub charge :
        IsNonnegative floats c
        × IsAtMost floats c (floats.mul config.max_charge_mw (floats.of_int m))
    pub discharge :
        IsNonnegative floats d
        × IsAtMost floats d (floats.mul config.max_discharge_mw (floats.of_int (pos 1 -ℤ m)))
    pub moves :
        IsNear floats
          (floats.sub
            (floats.add s
              (floats.mul (floats.mul config.charge_efficiency c) config.interval_hours))
            (floats.div (floats.mul d config.interval_hours) config.discharge_efficiency))
          s'

  -- The charge, discharge, mode, and both states of charge of interval `t`.
  abbrev pub At : List F → List F → List ℤ → List F → ℕ → F → F → ℤ → F → F → Type 0
  At cs ds ms ss t c d m s s' =
      (get_elem? cs t ≡ some c)
      × (get_elem? ds t ≡ some d)
      × (get_elem? ms t ≡ some m)
      × (get_elem? ss t ≡ some s)
      × (get_elem? ss (suc t) ≡ some s')

  abbrev pub AreSteps : List F → List F → List ℤ → List F → Type 0
  AreSteps cs ds ms ss =
      (t : ℕ) (c d : F) (m : ℤ) (s s' : F) → At cs ds ms ss t c d m s s' → IsStep c d m s s'

  binary_iff : (m : ℤ) → (is_binary floats m ≡ true) ↔ ((m ≡ pos 0) ⊎ (m ≡ pos 1))
  binary_iff m = ground arith

  check_interval-IsStep :
      (c d : F) (m : ℤ) (s s' : F)
      → check_interval floats config c d m s s' ≡ ok tt
      → IsStep c d m s s'
  check_interval-IsStep c d m s s' h =
      let (bit, h1) = (>>-raise_if (not (is_binary floats m)) optimization _).0 h in
      let (power, h2) = (>>-raise_if (violates_power floats config c d m) optimization _).0 h1 in
      record {
        mode = (binary_iff m).0 (ground (arith, bit));
        charge = (ground (arith, power), ground (arith, power));
        discharge = (ground (arith, power), ground (arith, power));
        moves = (raise_if_iff _ optimization).0 h2;
      }

  IsStep-check_interval :
      (c d : F) (m : ℤ) (s s' : F)
      → IsStep c d m s s'
      → check_interval floats config c d m s s' ≡ ok tt
  IsStep-check_interval c d m s s' step =
      let bit : is_binary floats m ≡ true = (binary_iff m).1 step.mode in
      let power : violates_power floats config c d m ≡ false =
        ground (arith, step.charge.0, step.charge.1, step.discharge.0, step.discharge.1) in
      (>>-raise_if (not (is_binary floats m)) optimization _).1 (
        ground (arith, bit),
        (>>-raise_if (violates_power floats config c d m) optimization _).1
            (power, (raise_if_iff _ optimization).1 step.moves),
      )

  pub check_intervals-AreSteps :
      (cs ds : List F) (ms : List ℤ) (ss : List F)
      → check_intervals floats config cs ds ms ss ≡ ok tt
      → AreSteps cs ds ms ss
  unfolding check_intervals
  check_intervals-AreSteps (c ∷ cs) (d ∷ ds) (m ∷ ms) (s ∷ s' ∷ ss) h zero c0 d0 m0 s0 s1 at =
      let first = check_interval-IsStep c d m s s' ((>>_iff _ _).0 h).0 in
      let e0 : c0 ≡ c = cc (at.0) in
      let e1 : d0 ≡ d = cc (at.1) in
      let e2 : m0 ≡ m = cc (at.2) in
      let e3 : s0 ≡ s = cc (at.3) in
      let e4 : s1 ≡ s' = cc (at.4) in rw e0 (rw e1 (rw e2 (rw e3 (rw e4 first))))
  check_intervals-AreSteps (c ∷ cs) (d ∷ ds) (m ∷ ms) (s ∷ s' ∷ ss) h (suc t) c0 d0 m0 s0 s1 at =
      check_intervals-AreSteps cs ds ms (s' ∷ ss) ((>>_iff _ _).0 h).1 t c0 d0 m0 s0 s1 at
  check_intervals-AreSteps [] ds ms ss h t c0 d0 m0 s0 s1 at = absurd (cc (at.0))
  check_intervals-AreSteps (c ∷ cs) [] ms ss h t c0 d0 m0 s0 s1 at = absurd (cc (at.1))
  check_intervals-AreSteps (c ∷ cs) (d ∷ ds) [] ss h t c0 d0 m0 s0 s1 at = absurd (cc (at.2))
  check_intervals-AreSteps (c ∷ cs) (d ∷ ds) (m ∷ ms) [] h t c0 d0 m0 s0 s1 at = absurd (cc (at.3))
  check_intervals-AreSteps (c ∷ cs) (d ∷ ds) (m ∷ ms) (s ∷ []) h t c0 d0 m0 s0 s1 at =
      absurd (cc (at.4))

  pub AreSteps-check_intervals :
      (cs ds : List F) (ms : List ℤ) (ss : List F)
      → AreSteps cs ds ms ss
      → check_intervals floats config cs ds ms ss ≡ ok tt
  unfolding check_intervals
  AreSteps-check_intervals (c ∷ cs) (d ∷ ds) (m ∷ ms) (s ∷ s' ∷ ss) steps = (>>_iff _ _).1 (
    IsStep-check_interval c d m s s' (steps zero c d m s s' (refl, refl, refl, refl, refl)),
    AreSteps-check_intervals cs ds ms (s' ∷ ss) (λ t. steps (suc t)),
  )
  AreSteps-check_intervals [] ds ms ss steps = refl
  AreSteps-check_intervals (c ∷ cs) [] ms ss steps = refl
  AreSteps-check_intervals (c ∷ cs) (d ∷ ds) [] ss steps = refl
  AreSteps-check_intervals (c ∷ cs) (d ∷ ds) (m ∷ ms) [] steps = refl
  AreSteps-check_intervals (c ∷ cs) (d ∷ ds) (m ∷ ms) (s ∷ []) steps = refl
