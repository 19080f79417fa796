-- ===== src/Optimization/Battery.antt =====
-- optimization/battery.py: the dispatch of one horizon. CVXPY and HiGHS are the parameter `solver`,
-- which gets the prices, the battery and the time limit.
pub mod Checked
use power_market_data_platfo.Base.{
  ℕ, Bool, true, false, ◌&&◌, ◌||◌, not, List, [], ◌∷◌, Option, none, some, ◌==◌, ltb,
  if◌then◌else◌, length, any, map, ℤ, pos, Text, codes, text_eq, is_some, Result, ok, err, ◌>>=◌,
  ◌>>◌, raise_if,
}
use power_market_data_platfo.Errors.{Error, validation, optimization, value_error}
use power_market_data_platfo.Optimization.Floats.{Floats}
use power_market_data_platfo.Optimization.Model.{
  BatteryConfig, PriceInterval, DispatchResult, finite, zero_float, apart, gross_value,
  throughput_cost, price_floats, validate_dispatch,
}

-- What the code reads of a solved `cp.Problem` and of its variables.
pub record Solution (F : Type 0) : Type 0 where
  pub status : Text
  pub value : F
  pub charge : Option (List F)
  pub discharge : Option (List F)
  pub soc : Option (List F)
  pub mode : Option (List F)
  pub solve_time : Option F
  pub gap : Option F
  pub nodes : Option ℤ

pub data Solved (F : Type 0) : Type 0 where
  no_cvxpy : Solved F
  no_highs : Solved F
  solver_error : Solved F
  solved : Solution F → Solved F

abbrev pub Solver : Type 0 → Type 0
Solver F = List PriceInterval → BatteryConfig F → F → Solved F

-- Some interval does not start where the one before it ends.
abbrev pub has_gap : List PriceInterval → Bool
has_gap [] = false
has_gap (p ∷ []) = false
has_gap (p ∷ q ∷ ps) = not (p.end_utc == q.start_utc) || has_gap (q ∷ ps)

-- The solution of a solver that ran.
abbrev pub solution_of : {F : Type 0} → Solved F → Result Error (Solution F)
solution_of (solved s) = ok s
solution_of _ = err optimization

-- A variable's value.
abbrev pub vector : {F : Type 0} → Option (List F) → Result Error (List F)
vector none = err optimization
vector (some xs) = ok xs

module _ {F : Type 0} (floats : Floats F) (solver : Solver F) where
  abbrev pub is_nonintegral : F → Bool
  is_nonintegral v = not (floats.is_finite v) || apart floats v (floats.of_int (floats.round v))

  -- The result that the code builds of a solution's four vectors.
  abbrev pub result_of :
      List PriceInterval
      → BatteryConfig F
      → Solution F
      → List F
      → List F
      → List F
      → List F
      → DispatchResult F
  result_of intervals config s charge discharge soc mode = record {
    solver = codes "HIGHS";
    status = s.status;
    objective_usd = s.value;
    gross_arbitrage_value_usd =
        gross_value floats config (price_floats floats config intervals) charge discharge;
    throughput_cost_usd = throughput_cost floats config charge discharge;
    solve_seconds = s.solve_time;
    mip_gap = s.gap;
    mip_node_count = s.nodes;
    charge_mw = charge;
    discharge_mw = discharge;
    soc_mwh = soc;
    charging_mode = map floats.round mode;
  }

  -- The checks before the solver is called.
  abbrev pub check_horizon : List PriceInterval → F → Result Error (Unit {0})
  check_horizon intervals limit = do
    raise_if (ltb (length intervals) 1 || ltb 25 (length intervals)) validation
    raise_if (has_gap intervals) validation
    checked ← finite floats limit
    raise_if (not (floats.lt (zero_float floats) limit && floats.le limit (floats.of_int (pos 60))))
        validation

  -- What is done with a solution. The strict `zip` refuses vectors of another length.
  abbrev pub accept_solution :
      List PriceInterval → BatteryConfig F → Solution F → Result Error (DispatchResult F)
  accept_solution intervals config s = do
    raise_if (not (text_eq s.status (codes "optimal"))) optimization
    charge ← vector s.charge
    discharge ← vector s.discharge
    soc ← vector s.soc
    mode ← vector s.mode
    raise_if (any is_nonintegral mode) optimization
    raise_if (not ((length charge == length intervals) && (length discharge == length intervals)))
        value_error
    let result = result_of intervals config s charge discharge soc mode
    validate_dispatch floats config intervals result
    ok result

  unfoldable pub solve_battery_dispatch :
      List PriceInterval → BatteryConfig F → F → Result Error (DispatchResult F)
  solve_battery_dispatch intervals config limit = do
    check_horizon intervals limit
    s ← solution_of (solver intervals config limit)
    accept_solution intervals config s
