-- ===== src/Tests/Batteries.antt =====
-- A battery over days of two hours, with whole numbers in the place of floats.
use power_market_data_platfo.Base.{
  ℕ, ◌+◌, ◌*◌, ◌/◌, Dict, ◌≡◌, ◌↔◌, refl, arith, true, false, List, [], ◌∷◌, Option, some, none, ℤ,
  pos, negsuc, pos_part, neg_part, ◌+ℤ◌, ◌-ℤ◌, ◌*ℤ◌, eq_ℤ, ltb_ℤ, not, sort_by, get_elem?, Text,
  codes, Result, ok, err,
}
use power_market_data_platfo.Errors.{Error}
use power_market_data_platfo.Time.{Datetime, Zone}
use power_market_data_platfo.Identity.Decimal.{Decimal, finite, digits, signed}
use power_market_data_platfo.Warehouse.Request.{request, key_schema, content_schema}
use power_market_data_platfo.Optimization.Floats.{Floats}
use power_market_data_platfo.Optimization.Model.{
  price_interval, BatteryConfig, PriceInterval, DispatchResult, battery_config, validate_dispatch,
}
use power_market_data_platfo.Optimization.Model.Feasible.{IsFeasible, validate_dispatch-IsFeasible}
use power_market_data_platfo.Optimization.Battery.{Solution, Solver, solved, solve_battery_dispatch}
use power_market_data_platfo.Optimization.Battery.Checked.{
  IsAccepted, solve_battery_dispatch-IsAccepted,
}
use power_market_data_platfo.Backtesting.Inputs.{
  Cell, Readers, MarketPrice, market_price, from_row, requests,
}
use power_market_data_platfo.Backtesting.Inputs.Rows.{IsRead, from_row-IsRead}
use power_market_data_platfo.Backtesting.Decimals.{decimal_lt, decimal_str}
use power_market_data_platfo.Backtesting.Engine.{
  Aggregate, DayResult, BacktestResult, day_metrics, day_result, aggregate_of, backtest_daily,
}
use power_market_data_platfo.Backtesting.Engine.Days.{IsBenchmark, backtest_daily-IsBenchmark}
use power_market_data_platfo.Backtesting.Engine.Hours.{
  NoPower, Partitions, backtest_daily-Partitions,
}

abbrev sum : List ℤ → ℤ
sum [] = pos 0
sum (n ∷ ns) = n +ℤ sum ns

abbrev coefficient : Decimal → ℤ
coefficient (finite n c e) = signed n c
coefficient d = pos 0

abbrev numbers : Floats ℤ
numbers = record {
  add = ◌+ℤ◌;
  sub = ◌-ℤ◌;
  mul = ◌*ℤ◌;
  div = λ a b. a;
  neg = λ a. pos 0 -ℤ a;
  abs = λ a. pos (pos_part a + neg_part a);
  lt = ltb_ℤ;
  le = λ a b. not (ltb_ℤ b a);
  eq = eq_ℤ;
  is_finite = λ a. true;
  fsum = sum;
  of_int = λ n. n;
  of_decimal = coefficient;
  round = λ a. a;
  is_close = eq_ℤ;
  tolerance = pos 0;
  mean = sum;
  median = sum;
  ratio = λ a b. a;
}

abbrev battery : BatteryConfig ℤ
battery = record {
  energy_capacity_mwh = pos 2;
  max_charge_mw = pos 1;
  max_discharge_mw = pos 1;
  charge_efficiency = pos 1;
  discharge_efficiency = pos 1;
  initial_soc_mwh = pos 0;
  terminal_soc_mwh = pos 0;
  throughput_cost_usd_per_mwh = pos 0;
  interval_hours = pos 1;
}

valid : battery_config numbers battery ≡ ok battery
unfolding battery_config ◌+ℤ◌ ◌-ℤ◌ ◌*ℤ◌
valid = refl

-- Charge in the first hour, discharge in the second.
abbrev solution : Solution ℤ
solution = record {
  status = codes "optimal";
  value = pos 10;
  charge = some (pos 1 ∷ pos 0 ∷ []);
  discharge = some (pos 0 ∷ pos 1 ∷ []);
  soc = some (pos 0 ∷ pos 1 ∷ pos 0 ∷ []);
  mode = some (pos 1 ∷ pos 0 ∷ []);
  solve_time = none;
  gap = none;
  nodes = none;
}

abbrev solver : Solver ℤ
solver prices config limit = solved solution

abbrev price : ℕ → ℕ → PriceInterval
price hour usd = record {
  start_utc = hour * 3600000000;
  end_utc = (hour + 1) * 3600000000;
  price_usd_per_mwh = finite false usd (pos 0);
}

abbrev two_hours : List PriceInterval
two_hours = price 2 10 ∷ price 3 20 ∷ []

abbrev dispatch : DispatchResult ℤ
dispatch = record {
  solver = codes "HIGHS";
  status = codes "optimal";
  objective_usd = pos 10;
  gross_arbitrage_value_usd = pos 10;
  throughput_cost_usd = pos 0;
  solve_seconds = none;
  mip_gap = none;
  mip_node_count = none;
  charge_mw = pos 1 ∷ pos 0 ∷ [];
  discharge_mw = pos 0 ∷ pos 1 ∷ [];
  soc_mwh = pos 0 ∷ pos 1 ∷ pos 0 ∷ [];
  charging_mode = pos 1 ∷ pos 0 ∷ [];
}

validated : validate_dispatch numbers battery two_hours dispatch ≡ ok tt
unfolding validate_dispatch ◌+ℤ◌ ◌-ℤ◌ ◌*ℤ◌
validated = refl

validate_dispatch-IsFeasible_example :
    (validate_dispatch numbers battery two_hours dispatch ≡ ok tt)
    ↔ IsFeasible numbers battery two_hours dispatch
validate_dispatch-IsFeasible_example =
    validate_dispatch-IsFeasible numbers battery two_hours dispatch

solution_accepted : solve_battery_dispatch numbers solver two_hours battery (pos 30) ≡ ok dispatch
unfolding solve_battery_dispatch validate_dispatch ◌+ℤ◌ ◌-ℤ◌ ◌*ℤ◌
solution_accepted = refl

solve_battery_dispatch-IsAccepted_example : IsAccepted numbers solver battery two_hours dispatch
solve_battery_dispatch-IsAccepted_example =
    solve_battery_dispatch-IsAccepted numbers solver two_hours battery (pos 30) dispatch
      solution_accepted

abbrev midnight : ℕ → ℕ
midnight d = d * 7200000000

abbrev hub : Text
hub = codes "TH_NP15_GEN-APND"

abbrev seen_at : Datetime
seen_at = record { wall = 7; fold = false; tzinfo = some Zone.utc }

abbrev market : ℕ → ℕ → ℕ → Text → MarketPrice
market day hour usd key = record {
  interval = price hour usd;
  market_date = day;
  location = hub;
  logical_key = key;
  content_id = codes "content";
  content_hash = codes "hash";
  transition_id = codes "transition";
  state_run_id = codes "run";
  state_ordinal = pos 1;
  commit_sequence = pos 1;
  first_seen_at = seen_at;
  state_known_at = seen_at;
}

-- The texts of 1.50, 1E+3 and 1.2E-7.
decimals_written :
    (decimal_str (finite false 150 (negsuc 1)) ≡ codes "1.50")
    × (decimal_str (finite false 1 (pos 3)) ≡ codes "1E+3")
    × (decimal_str (finite true 12 (negsuc 7)) ≡ codes "-1.2E-7")
unfolding decimal_str digits ◌+ℤ◌ ◌-ℤ◌
decimals_written = (refl, refl, refl)

-- Two days, not in order.
abbrev inputs : List MarketPrice
inputs =
    market 2 5 20 (codes "d")
    ∷ market 1 3 20 (codes "b")
    ∷ market 1 2 10 (codes "a")
    ∷ market 2 4 10 (codes "c")
    ∷ []

abbrev no_aggregate : Aggregate ℤ
no_aggregate = record {
  total_gross_arbitrage_value_usd = pos 0;
  average_daily_gross_value_usd = pos 0;
  median_daily_gross_value_usd = pos 0;
  best_day = 0;
  worst_day = 0;
  total_objective_usd = pos 0;
  total_throughput_cost_usd = pos 0;
  grid_throughput_mwh = pos 0;
  cell_throughput_mwh = pos 0;
  equivalent_full_cycles = pos 0;
  charging_percent = pos 0;
  discharging_percent = pos 0;
  idle_percent = pos 0;
}

abbrev result_or : Result Error (BacktestResult ℤ) → BacktestResult ℤ
result_or (ok r) = r
result_or (err e) = record { config = battery; days = []; aggregate = no_aggregate }

abbrev benchmark : BacktestResult ℤ
benchmark = result_or (backtest_daily numbers solver battery 5 midnight inputs 1 2 hub)

benchmarked : backtest_daily numbers solver battery 5 midnight inputs 1 2 hub ≡ ok benchmark
unfolding backtest_daily requests request sort_by solve_battery_dispatch validate_dispatch
    aggregate_of day_result day_metrics ◌+ℤ◌ ◌-ℤ◌ ◌*ℤ◌ decimal_lt decimal_str digits
benchmarked = refl

backtest_daily-IsBenchmark_example :
    IsBenchmark numbers solver battery midnight inputs hub 1 2 benchmark
backtest_daily-IsBenchmark_example =
    backtest_daily-IsBenchmark numbers solver battery midnight inputs hub 5 1 2 benchmark
      benchmarked

abbrev day_or : Option (DayResult ℤ) → DayResult ℤ
day_or (some d) = d
day_or none = day_result numbers solver battery hub [] dispatch

abbrev second_day : DayResult ℤ
second_day = day_or (get_elem? benchmark.days 1)

second_found : get_elem? benchmark.days 1 ≡ some second_day
unfolding backtest_daily requests request sort_by solve_battery_dispatch validate_dispatch
    aggregate_of day_result day_metrics ◌+ℤ◌ ◌-ℤ◌ ◌*ℤ◌ decimal_lt decimal_str digits
second_found = refl

no_power : NoPower numbers solver battery
unfolding ◌+ℤ◌ ◌*ℤ◌
no_power x h = ground arith

backtest_daily-Partitions_example : Partitions numbers solver battery second_day
backtest_daily-Partitions_example =
    backtest_daily-Partitions numbers solver battery 5 1 2 midnight inputs hub benchmark no_power
      valid benchmarked 1 second_day second_found

-- The row of the first hour.
abbrev row : Dict Cell
row =
    (codes "source", Cell.text (codes "CAISO"))
    ∷ (codes "market", Cell.text (codes "DAY_AHEAD_HOURLY"))
    ∷ (codes "unit", Cell.text (codes "USD/MWh"))
    ∷ (codes "market_date", Cell.calendar 1)
    ∷ (codes "location", Cell.text hub)
    ∷ (
      codes "interval_start_utc",
      Cell.moment (record { wall = 7200000000; fold = false; tzinfo = some Zone.utc }),
    )
    ∷ (
      codes "interval_end_utc",
      Cell.moment (record { wall = 10800000000; fold = false; tzinfo = some Zone.utc }),
    )
    ∷ (codes "lmp", Cell.decimal (finite false 10 (pos 0)))
    ∷ (codes "logical_key", Cell.text (codes "a"))
    ∷ (codes "content_id", Cell.text (codes "content"))
    ∷ (codes "content_hash", Cell.text (codes "hash"))
    ∷ (codes "logical_key_schema", Cell.text key_schema)
    ∷ (codes "content_hash_schema", Cell.text content_schema)
    ∷ (codes "transition_id", Cell.text (codes "transition"))
    ∷ (codes "state_run_id", Cell.text (codes "run"))
    ∷ (codes "state_ordinal", Cell.integer (pos 1))
    ∷ (codes "commit_sequence", Cell.integer (pos 1))
    ∷ (codes "first_seen_at", Cell.moment seen_at)
    ∷ (codes "state_known_at", Cell.moment seen_at)
    ∷ []

abbrev no_readers : Readers
no_readers = record { datetime_of = λ s. none; date_of = λ s. none; decimal_of = λ s. none }

abbrev date_at : ℕ → ℕ
date_at t = t / 7200000000

row_read : from_row numbers no_readers date_at row ≡ ok (market 1 2 10 (codes "a"))
unfolding from_row market_price price_interval
row_read = refl

from_row-IsRead_example : IsRead numbers no_readers date_at row (market 1 2 10 (codes "a"))
from_row-IsRead_example =
    from_row-IsRead numbers no_readers date_at row (market 1 2 10 (codes "a")) row_read
