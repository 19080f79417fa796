-- ===== src/Optimization/Model/Feasible.antt =====
-- optimization/model.py, `validate_dispatch`: the dispatches that it accepts.
use power_market_data_platfo.Base.{
  zero, suc, ◌≡◌, sym, subst, ◌↔◌, true, not, List, ◌++◌, some, arith, get_elem?, length, all,
  all_iff, any, All, ok, ◌>>◌, raise_if, >>-raise_if, raise_if_iff, >>_iff,
}
use power_market_data_platfo.Errors.{optimization}
use power_market_data_platfo.Optimization.Floats.{Floats}
use power_market_data_platfo.Optimization.Model.{
  BatteryConfig, PriceInterval, DispatchResult, check_intervals, has_lengths, is_outside,
  misses_ends, gross_value, throughput_cost, cash_terms, price_floats, dispatch_values,
  validate_dispatch,
}
use power_market_data_platfo.Optimization.Model.Steps.{
  IsNear, IsAtMost, IsNonnegative, AreSteps, check_intervals-AreSteps, AreSteps-check_intervals,
}
use power_market_data_platfo.Optimization.Model.Ends.{dispatch_bounds, misses_ends-MeetsEnds}
use power_market_data_platfo.Optimization.Model.Amounts.{
  IsFiniteResult, dispatch_values-IsFiniteResult, AreCashFlows, cash_terms-AreCashFlows,
  AreCashFlows-cash_terms,
}

module _ {F : Type 0} (floats : Floats F) (config : BatteryConfig F) where
  -- The cost of all energy through the battery, in either direction.
  abbrev pub cost_of : DispatchResult F → F
  cost_of r =
      floats.mul (floats.mul (floats.fsum (r.charge_mw ++ r.discharge_mw)) config.interval_hours)
        config.throughput_cost_usd_per_mwh

  pub record IsFeasible (prices : List PriceInterval) (r : DispatchResult F) : Type 0 where
    pub charges : length r.charge_mw ≡ length prices
    pub discharges : length r.discharge_mw ≡ length prices
    pub states : length r.soc_mwh ≡ suc (length prices)
    pub modes : length r.charging_mode ≡ length prices
    pub finite_values : IsFiniteResult floats config r
    pub within :
        All (λ s. IsNonnegative floats s × IsAtMost floats s config.energy_capacity_mwh) r.soc_mwh
    pub starts :
        (s : F) → get_elem? r.soc_mwh zero ≡ some s → IsNear floats s config.initial_soc_mwh
    pub finishes :
        (s : F)
        → get_elem? r.soc_mwh (length prices) ≡ some s
        → IsNear floats s config.terminal_soc_mwh
    pub steps : AreSteps floats config r.charge_mw r.discharge_mw r.charging_mode r.soc_mwh
    pub terms : List F
    pub flows : AreCashFlows floats config prices r.charge_mw r.discharge_mw terms
    pub gross : floats.is_close r.gross_arbitrage_value_usd (floats.fsum terms) ≡ true
    pub cost : floats.is_close r.throughput_cost_usd (cost_of r) ≡ true
    pub objective :
        floats.is_close r.objective_usd (floats.sub (floats.fsum terms) (cost_of r)) ≡ true

  -- validate_dispatch accepts a result exactly when it is a feasible dispatch of the prices: the
  -- vectors have the lengths of the horizon, all values are finite, the state of charge stays
  -- within the energy bounds and has the configured ends, at every index the mode is 0 or 1, the
  -- power of each direction is within what the mode lets through and the state of charge after the
  -- interval is the one before it plus charge efficiency times charge times hours minus discharge
  -- times hours over discharge efficiency; the gross value is the sum of price times net discharge
  -- times hours over the indices, the cost is the sum of all charge and discharge times hours times
  -- the rate, and the objective is their difference; bounds and equations are up to the tolerances.
  pub validate_dispatch-IsFeasible :
      (prices : List PriceInterval) (r : DispatchResult F)
      → (validate_dispatch floats config prices r ≡ ok tt) ↔ IsFeasible prices r
  unfolding validate_dispatch
  validate_dispatch-IsFeasible prices r = (there, back)
    where
      terms_of : List F
      terms_of =
          cash_terms floats config (price_floats floats config prices) r.charge_mw r.discharge_mw

      gross_of : F
      gross_of =
          gross_value floats config (price_floats floats config prices) r.charge_mw r.discharge_mw

      spent : F
      spent = throughput_cost floats config r.charge_mw r.discharge_mw

      there : validate_dispatch floats config prices r ≡ ok tt → IsFeasible prices r
      there h =
          let (sizes, h1) =
            (>>-raise_if (not (has_lengths floats config prices r)) optimization _).0 h in
          let (values, h2) =
            (>>-raise_if (not (all floats.is_finite (dispatch_values floats config r))) optimization
                _).0
              h1 in
          let (bounds, h3) =
            (>>-raise_if (any (is_outside floats config) r.soc_mwh) optimization _).0 h2 in
          let (ends, h4) = (>>-raise_if (misses_ends floats config r) optimization _).0 h3 in
          let (steps, h5) =
            (>>_iff
                (check_intervals floats config r.charge_mw r.discharge_mw r.charging_mode r.soc_mwh)
                _).0
              h4 in
          let (gross, h6) =
            (>>-raise_if (not (floats.is_close r.gross_arbitrage_value_usd gross_of)) optimization
                _).0
              h5 in
          let (cost, h7) =
            (>>-raise_if (not (floats.is_close r.throughput_cost_usd spent)) optimization _).0 h6 in
          let charges : length r.charge_mw ≡ length prices = ground (arith, sizes) in
          let discharges : length r.discharge_mw ≡ length prices = ground (arith, sizes) in
          let states : length r.soc_mwh ≡ suc (length prices) = ground (arith, sizes) in
          let met = (misses_ends-MeetsEnds floats config (length prices) r states).0 ends in
          record {
            charges = charges;
            discharges = discharges;
            states = states;
            modes = ground (arith, sizes);
            finite_values = (dispatch_values-IsFiniteResult floats config r).0 (
                (all_iff floats.is_finite (dispatch_values floats config r)).0
                  (ground (arith, values)));
            within = (dispatch_bounds floats config r.soc_mwh).0 bounds;
            starts = met.0;
            finishes = met.1;
            steps =
                check_intervals-AreSteps floats config r.charge_mw r.discharge_mw r.charging_mode
                  r.soc_mwh steps;
            terms = terms_of;
            flows =
                cash_terms-AreCashFlows floats config prices r.charge_mw r.discharge_mw charges
                  discharges;
            gross = ground (arith, gross);
            cost = ground (arith, cost);
            objective = ground (
              arith,
              (raise_if_iff (not (floats.is_close r.objective_usd (floats.sub gross_of spent)))
                    optimization).0
                  h7,
            );
          }

      amounts :
          floats.is_close r.gross_arbitrage_value_usd gross_of ≡ true
          → floats.is_close r.throughput_cost_usd spent ≡ true
          → floats.is_close r.objective_usd (floats.sub gross_of spent) ≡ true
          → (raise_if (not (floats.is_close r.gross_arbitrage_value_usd gross_of)) optimization
              >> (raise_if (not (floats.is_close r.throughput_cost_usd spent)) optimization
                  >> raise_if
                      (not (floats.is_close r.objective_usd (floats.sub gross_of spent)))
                      optimization))
            ≡ ok tt
      amounts gross cost objective = ground (arith, gross, cost, objective)

      back : IsFeasible prices r → validate_dispatch floats config prices r ≡ ok tt
      back f =
          let same : terms_of ≡ f.terms =
            AreCashFlows-cash_terms floats config prices r.charge_mw r.discharge_mw f.terms
              f.charges f.discharges f.flows in
          let gross : floats.is_close r.gross_arbitrage_value_usd gross_of ≡ true =
            subst (λ xs. floats.is_close r.gross_arbitrage_value_usd (floats.fsum xs) ≡ true)
              (sym same) f.gross in
          let objective : floats.is_close r.objective_usd (floats.sub gross_of spent) ≡ true =
            subst (λ xs. floats.is_close r.objective_usd (floats.sub (floats.fsum xs) spent) ≡ true)
              (sym same) f.objective in
          let values =
            (all_iff floats.is_finite (dispatch_values floats config r)).1
              ((dispatch_values-IsFiniteResult floats config r).1 f.finite_values) in
          let ends =
            (misses_ends-MeetsEnds floats config (length prices) r f.states).1
              (f.starts, f.finishes) in
          let steps =
            AreSteps-check_intervals floats config r.charge_mw r.discharge_mw r.charging_mode
              r.soc_mwh f.steps in
          (>>-raise_if (not (has_lengths floats config prices r)) optimization _).1 (
            ground (arith, f.charges, f.discharges, f.states, f.modes),
            (>>-raise_if (not (all floats.is_finite (dispatch_values floats config r))) optimization
                  _).1
                (
                  ground (arith, values),
                  (>>-raise_if (any (is_outside floats config) r.soc_mwh) optimization _).1 (
                    (dispatch_bounds floats config r.soc_mwh).1 f.within,
                    (>>-raise_if (misses_ends floats config r) optimization _).1 (
                      ends,
                      (>>_iff
                            (check_intervals floats config r.charge_mw r.discharge_mw
                              r.charging_mode r.soc_mwh)
                            _).1
                          (steps, amounts gross f.cost objective),
                    ),
                  ),
                ),
          )
