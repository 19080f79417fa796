-- ===== src/Backtesting/Engine/Hours.antt =====
-- backtesting/engine.py: the intervals that the metrics of a day count.
use power_market_data_platfo.Base.{
  ℕ, zero, suc, ◌+◌, ◌-◌, ◌≤◌, ◌≡◌, refl, sym, subst, ◌∙◌, ◌⊎◌, inl, inr, true, false, ◌&&◌, not,
  List, [], ◌∷◌, some, arith, length, length-map, get_elem?, all, all_iff, ℤ, pos, ◌-ℤ◌, -ℤ_parts,
  eq_of_parts, ok, >>-raise_if, Text,
}
use power_market_data_platfo.Errors.{validation}
use power_market_data_platfo.Optimization.Floats.{Floats}
use power_market_data_platfo.Optimization.Model.{
  BatteryConfig, exceeds, config_values, battery_config,
}
use power_market_data_platfo.Optimization.Model.Steps.{IsStep, AreSteps}
use power_market_data_platfo.Optimization.Battery.{Solver}
use power_market_data_platfo.Backtesting.Inputs.{MarketPrice}
use power_market_data_platfo.Backtesting.Engine.{
  DayMetrics, DayResult, BacktestResult, is_active, active, intervals_of, day_metrics,
  backtest_daily,
}
use power_market_data_platfo.Backtesting.Engine.Days.{backtest_daily-IsBenchmark}

module _ {F : Type 0} (floats : Floats F) (solver : Solver F) (config : BatteryConfig F) where
  -- A finite number times 0, and the tolerance.
  abbrev pub NoPower : Type 0
  NoPower =
      (x : F)
      → floats.is_finite x ≡ true
      → floats.add (floats.mul x (floats.of_int (pos 0))) floats.tolerance ≡ floats.tolerance

  battery_config-finite :
      battery_config floats config ≡ ok config
      → (floats.is_finite config.max_charge_mw ≡ true)
        × (floats.is_finite config.max_discharge_mw ≡ true)
  unfolding battery_config
  battery_config-finite h =
      let (values, _) =
        (>>-raise_if (not (all floats.is_finite (config_values floats config))) validation _).0 h in
      let each =
        (all_iff floats.is_finite (config_values floats config)).0 (ground (arith, values)) in
      (each.1.0, each.1.1.0)

  idle_flow :
      NoPower
      → (x limit : F) → floats.is_finite limit ≡ true
      → exceeds floats x (floats.mul limit (floats.of_int (pos 0))) ≡ false
      → is_active floats solver config x ≡ false
  idle_flow no_power x limit finite h =
      subst (λ (y : F). floats.lt y x ≡ false) (no_power limit finite) h

  module _ (no_power : NoPower) (valid : battery_config floats config ≡ ok config) where
    IsStep-exclusive :
        (c d : F) (m : ℤ) (s s' : F)
        → IsStep floats config c d m s s'
        → (is_active floats solver config c && is_active floats solver config d) ≡ false
    IsStep-exclusive c d m s s' step = go step.mode
      where
        go :
            (m ≡ pos 0) ⊎ (m ≡ pos 1)
            → (is_active floats solver config c && is_active floats solver config d) ≡ false
        go (inl e) = ground (
          arith,
          idle_flow no_power c config.max_charge_mw (battery_config-finite valid).0 (
              subst
                (λ (k : ℤ).
                  exceeds floats c (floats.mul config.max_charge_mw (floats.of_int k)) ≡ false)
                e step.charge.1),
        )
        go (inr e) =
            let none_left : pos 1 -ℤ m ≡ pos 0 =
              grind (arith, e, -ℤ_parts (pos 1) m, eq_of_parts (pos 1 -ℤ m) (pos 0)) in
            ground (
              arith,
              idle_flow no_power d config.max_discharge_mw (battery_config-finite valid).1 (
                  subst
                    (λ (k : ℤ).
                      exceeds floats d (floats.mul config.max_discharge_mw (floats.of_int k))
                      ≡ false)
                    none_left step.discharge.1),
            )

    active_bound :
        (n : ℕ) (cs ds : List F) (ms : List ℤ) (ss : List F)
        → length cs ≡ n
        → length ds ≡ n
        → length ms ≡ n
        → length ss ≡ suc n
        → AreSteps floats config cs ds ms ss
        → active floats solver config cs + active floats solver config ds ≤ n
    active_bound zero [] [] ms ss hc hd hm hs steps = omega arith
    active_bound (suc n) (c ∷ cs) (d ∷ ds) (m ∷ ms) (s ∷ s' ∷ ss) hc hd hm hs steps =
        let rest =
          active_bound n cs ds ms (s' ∷ ss) (omega (arith, hc)) (omega (arith, hd))
            (omega (arith, hm)) (omega (arith, hs)) (λ t. steps (suc t)) in
        let one =
          IsStep-exclusive c d m s s' (steps zero c d m s s' (refl, refl, refl, refl, refl)) in
        ground (arith, one, rest)
    active_bound _ _ _ _ _ hc hd hm hs steps = absurd (omega (arith, hc, hd, hm, hs))

  -- The three counts of a day are counts, and add up to its hours.
  abbrev pub Partitions : DayResult F → Type 0
  Partitions d =
      (idle : ℕ) × (d.metrics.idle_intervals ≡ pos idle)
      × (d.metrics.charging_intervals + d.metrics.discharging_intervals + idle ≡ d.interval_count)

  idle_count :
      (n c d : ℕ)
      → c + d ≤ n
      → (idle : ℕ) × (pos n -ℤ pos c -ℤ pos d ≡ pos idle) × (c + d + idle ≡ n)
  idle_count n c d h = (
    n - c - d,
    grind (
      arith,
      h,
      -ℤ_parts (pos n) (pos c),
      -ℤ_parts (pos n -ℤ pos c) (pos d),
      eq_of_parts (pos n -ℤ pos c -ℤ pos d) (pos (n - c - d)),
    ),
    omega (arith, h),
  )

  -- With a validated battery, and floats where a finite number times 0 plus the tolerance is the
  -- tolerance, the charging, the discharging and the idle intervals of each day of a returned
  -- benchmark are counts that add up to the interval count of the day: the subtraction for the idle
  -- ones is never negative.
  pub backtest_daily-Partitions :
      (today start end : ℕ) (midnight : ℕ → ℕ) (inputs : List MarketPrice) (location : Text)
      (b : BacktestResult F)
      → NoPower
      → battery_config floats config ≡ ok config
      → backtest_daily floats solver config today midnight inputs start end location ≡ ok b
      → (i : ℕ) (d : DayResult F) → get_elem? b.days i ≡ some d
      → Partitions d
  unfolding day_metrics
  backtest_daily-Partitions today start end midnight inputs location b no_power valid h i d e =
      let day =
        (backtest_daily-IsBenchmark floats solver config midnight inputs location today start end b
            h).each
          i d e in
      let f = day.accepted.feasible in
      let n = length (intervals_of d.inputs) in
      let (idle, counted, whole) =
        idle_count (length d.inputs) (active floats solver config d.dispatch.charge_mw)
          (active floats solver config d.dispatch.discharge_mw)
          (subst
            (λ (m : ℕ).
              active floats solver config d.dispatch.charge_mw
                + active floats solver config d.dispatch.discharge_mw
              ≤ m)
            (length-map (λ r. r.interval) d.inputs)
            (active_bound no_power valid n d.dispatch.charge_mw d.dispatch.discharge_mw
              d.dispatch.charging_mode d.dispatch.soc_mwh f.charges f.discharges f.modes f.states
              f.steps)) in
      subst
        (λ (m : DayMetrics F).
          (k : ℕ) × (m.idle_intervals ≡ pos k)
          × (m.charging_intervals + m.discharging_intervals + k ≡ d.interval_count))
        (sym day.measured) (idle, counted, whole ∙ sym day.counts)
