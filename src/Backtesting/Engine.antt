-- ===== src/Backtesting/Engine.antt =====
-- backtesting/engine.py: one horizon for each day, and what is computed of the dispatches.
pub mod Days
pub mod Hours
use power_market_data_platfo.Base.{
  ℕ, zero, suc, ◌+◌, ◌-◌, ◌*◌, ◌/◌, Bool, true, false, ◌&&◌, ◌||◌, not, List, [], ◌∷◌, map, ltb,
  leb, ◌==◌, if◌then◌else◌, length, any, filter, sort_by, has_repeats, ℤ, pos, ◌+ℤ◌, ◌-ℤ◌, ◌*ℤ◌,
  Text, codes, text_eq, Result, ok, err, ◌>>=◌, ◌>>◌, raise_if,
}
use power_market_data_platfo.Errors.{Error, validation, value_error}
use power_market_data_platfo.Identity.Decimal.{Decimal, nan}
use power_market_data_platfo.Warehouse.Request.{Request, bounds}
use power_market_data_platfo.Optimization.Floats.{Floats}
use power_market_data_platfo.Optimization.Model.{
  BatteryConfig, PriceInterval, DispatchResult, first_or, last_or, zero_float,
}
use power_market_data_platfo.Optimization.Battery.{Solver, solve_battery_dispatch}
use power_market_data_platfo.Backtesting.Inputs.{MarketPrice, requests}
use power_market_data_platfo.Backtesting.Decimals.{decimal_lt, decimal_str}

pub record DayMetrics (F : Type 0) : Type 0 where
  pub charged_mwh : F
  pub discharged_mwh : F
  pub grid_throughput_mwh : F
  pub cell_throughput_mwh : F
  pub equivalent_full_cycles : F
  pub initial_soc_mwh : F
  pub terminal_soc_mwh : F
  pub minimum_soc_mwh : F
  pub maximum_soc_mwh : F
  pub charging_intervals : ℕ
  pub discharging_intervals : ℕ
  pub idle_intervals : ℤ

pub record DayResult (F : Type 0) : Type 0 where
  pub market_date : ℕ
  pub location : Text
  pub interval_count : ℕ
  pub minimum_price_usd_per_mwh : Text
  pub maximum_price_usd_per_mwh : Text
  pub inputs : List MarketPrice
  pub dispatch : DispatchResult F
  pub metrics : DayMetrics F

pub record Aggregate (F : Type 0) : Type 0 where
  pub total_gross_arbitrage_value_usd : F
  pub average_daily_gross_value_usd : F
  pub median_daily_gross_value_usd : F
  pub best_day : ℕ
  pub worst_day : ℕ
  pub total_objective_usd : F
  pub total_throughput_cost_usd : F
  pub grid_throughput_mwh : F
  pub cell_throughput_mwh : F
  pub equivalent_full_cycles : F
  pub charging_percent : F
  pub discharging_percent : F
  pub idle_percent : F

-- The fields that hold constant texts are left out.
pub record BacktestResult (F : Type 0) : Type 0 where
  pub config : BatteryConfig F
  pub days : List (DayResult F)
  pub aggregate : Aggregate F

-- Python's `min` and `max`: of equal items, the first.
abbrev pub least : {A : Type 0} → (A → A → Bool) → A → List A → A
least lt x [] = x
least lt x (y ∷ ys) = if lt y x then least lt y ys else least lt x ys

abbrev pub greatest : {A : Type 0} → (A → A → Bool) → A → List A → A
greatest lt x [] = x
greatest lt x (y ∷ ys) = if lt x y then greatest lt y ys else greatest lt x ys

abbrev pub rest_of : {A : Type 0} → List A → List A
rest_of [] = []
rest_of (x ∷ xs) = xs

-- The rows are in the order of their start.
abbrev pub start_le : MarketPrice → MarketPrice → Bool
start_le r q = leb r.interval.start_utc q.interval.start_utc

-- The rows of a day, sorted.
abbrev pub day_rows : List MarketPrice → ℕ → List MarketPrice
day_rows inputs day = sort_by start_le (filter (λ r. r.market_date == day) inputs)

-- Some row is not the hour at its place, of hours from `start`.
abbrev pub off_hour : ℕ → List MarketPrice → Bool
off_hour start [] = false
off_hour start (r ∷ rs) =
    not (r.interval.start_utc == start)
    || not (r.interval.end_utc == start + 3600000000)
    || off_hour (start + 3600000000) rs

-- How many whole hours the request spans; a date ends after it starts.
abbrev pub hours_of : ℕ × ℕ → ℕ
hours_of b = (b.1 - b.0) / 3600000000

abbrev pub is_short_or_off : (ℕ → ℕ) → Request → List MarketPrice → Bool
is_short_or_off midnight q rows =
    not (length rows == hours_of (bounds midnight q)) || off_hour (bounds midnight q).0 rows

-- The loop over the requests that comes before any solve.
abbrev pub groups_of :
    (ℕ → ℕ) → List MarketPrice → List Request → Result Error (List (List MarketPrice))
groups_of midnight inputs [] = ok []
groups_of midnight inputs (q ∷ qs) = do
  raise_if (is_short_or_off midnight q (day_rows inputs q.day)) validation
  rest ← groups_of midnight inputs qs
  ok (day_rows inputs q.day ∷ rest)

-- The row is of another hub or day.
abbrev pub is_foreign : Text → ℕ → ℕ → MarketPrice → Bool
is_foreign location start end r =
    not (text_eq r.location location) || not (leb start r.market_date && leb r.market_date end)

-- The date of the first row; a day with no rows has not been solved.
abbrev pub first_date : List MarketPrice → ℕ
first_date [] = 0
first_date (r ∷ rs) = r.market_date

abbrev pub intervals_of : List MarketPrice → List PriceInterval
intervals_of rows = map (λ r. r.interval) rows

abbrev pub prices_of : List MarketPrice → List Decimal
prices_of rows = map (λ r. r.interval.price_usd_per_mwh) rows

module _ {F : Type 0} (floats : Floats F) (solver : Solver F) (config : BatteryConfig F) where
  -- The default of `time_limit_seconds`.
  abbrev pub default_limit : F
  default_limit = floats.of_int (pos 30)

  abbrev pub is_active : F → Bool
  is_active x = floats.lt floats.tolerance x

  -- How many intervals of a flow are active.
  abbrev pub active : List F → ℕ
  active xs = length (filter is_active xs)

  abbrev pub charged : DispatchResult F → F
  charged r = floats.mul (floats.fsum r.charge_mw) config.interval_hours

  abbrev pub discharged : DispatchResult F → F
  discharged r = floats.mul (floats.fsum r.discharge_mw) config.interval_hours

  abbrev pub cell_throughput : DispatchResult F → F
  cell_throughput r =
      floats.add (floats.mul (charged r) config.charge_efficiency)
        (floats.div (discharged r) config.discharge_efficiency)

  unfoldable pub day_metrics : List MarketPrice → DispatchResult F → DayMetrics F
  day_metrics rows r = record {
    charged_mwh = charged r;
    discharged_mwh = discharged r;
    grid_throughput_mwh = floats.add (charged r) (discharged r);
    cell_throughput_mwh = cell_throughput r;
    equivalent_full_cycles =
        floats.div (cell_throughput r)
          (floats.mul (floats.of_int (pos 2)) config.energy_capacity_mwh);
    initial_soc_mwh = first_or (zero_float floats) r.soc_mwh;
    terminal_soc_mwh = last_or (zero_float floats) r.soc_mwh;
    minimum_soc_mwh = least floats.lt (first_or (zero_float floats) r.soc_mwh) (rest_of r.soc_mwh);
    maximum_soc_mwh =
        greatest floats.lt (first_or (zero_float floats) r.soc_mwh) (rest_of r.soc_mwh);
    charging_intervals = active r.charge_mw;
    discharging_intervals = active r.discharge_mw;
    idle_intervals = pos (length rows) -ℤ pos (active r.charge_mw) -ℤ pos (active r.discharge_mw);
  }

  -- The result of a day, of its rows and its dispatch.
  unfoldable pub day_result : Text → List MarketPrice → DispatchResult F → DayResult F
  unfolding day_metrics
  day_result location rows r = record {
    market_date = first_date rows;
    location = location;
    interval_count = length rows;
    minimum_price_usd_per_mwh =
        decimal_str (least decimal_lt (first_or nan (prices_of rows)) (rest_of (prices_of rows)));
    maximum_price_usd_per_mwh =
        decimal_str
          (greatest decimal_lt (first_or nan (prices_of rows)) (rest_of (prices_of rows)));
    inputs = rows;
    dispatch = r;
    metrics = day_metrics rows r;
  }

  -- The loop that solves each day.
  abbrev pub solve_days : Text → List (List MarketPrice) → Result Error (List (DayResult F))
  solve_days location [] = ok []
  solve_days location (rows ∷ groups) = do
    r ← solve_battery_dispatch floats solver (intervals_of rows) config default_limit
    rest ← solve_days location groups
    ok (day_result location rows r ∷ rest)

  -- A sum of the library's integers.
  abbrev pub sum_ℤ : List ℤ → ℤ
  sum_ℤ [] = pos 0
  sum_ℤ (n ∷ ns) = n +ℤ sum_ℤ ns

  abbrev pub gross_of : DayResult F → F
  gross_of d = d.dispatch.gross_arbitrage_value_usd

  abbrev pub gross_lt : DayResult F → DayResult F → Bool
  gross_lt d e = floats.lt (gross_of d) (gross_of e)

  -- `100 * sum(...) / count`.
  abbrev pub percent : List (DayResult F) → (DayResult F → ℤ) → F
  percent days count_of =
      floats.ratio (pos 100 *ℤ sum_ℤ (map count_of days))
        (sum_ℤ (map (λ d. pos d.interval_count) days))

  abbrev pub sum_of : List (DayResult F) → (DayResult F → F) → F
  sum_of days value_of = floats.fsum (map value_of days)

  -- The aggregate of the days; `statistics.mean` refuses an empty list.
  unfoldable pub aggregate_of : List (DayResult F) → Result Error (Aggregate F)
  aggregate_of [] = err value_error
  aggregate_of (d ∷ ds) =
      let days = d ∷ ds in
      ok (record {
        total_gross_arbitrage_value_usd = sum_of days gross_of;
        average_daily_gross_value_usd = floats.mean (map gross_of days);
        median_daily_gross_value_usd = floats.median (map gross_of days);
        best_day = (greatest gross_lt d ds).market_date;
        worst_day = (least gross_lt d ds).market_date;
        total_objective_usd = sum_of days (λ e. e.dispatch.objective_usd);
        total_throughput_cost_usd = sum_of days (λ e. e.dispatch.throughput_cost_usd);
        grid_throughput_mwh = sum_of days (λ e. e.metrics.grid_throughput_mwh);
        cell_throughput_mwh = sum_of days (λ e. e.metrics.cell_throughput_mwh);
        equivalent_full_cycles = sum_of days (λ e. e.metrics.equivalent_full_cycles);
        charging_percent = percent days (λ e. pos e.metrics.charging_intervals);
        discharging_percent = percent days (λ e. pos e.metrics.discharging_intervals);
        idle_percent = percent days (λ e. e.metrics.idle_intervals);
      })

  unfoldable pub backtest_daily :
      ℕ → (ℕ → ℕ) → List MarketPrice → ℕ → ℕ → Text → Result Error (BacktestResult F)
  unfolding day_result aggregate_of
  backtest_daily today midnight inputs start end location = do
    plan ← requests today start end location
    raise_if (not (floats.eq config.initial_soc_mwh config.terminal_soc_mwh)) validation
    raise_if (any (is_foreign location start end) inputs) validation
    raise_if (has_repeats (map (λ r. r.logical_key) inputs)) validation
    groups ← groups_of midnight inputs plan
    days ← solve_days location groups
    aggregate ← aggregate_of days
    ok (record { config = config; days = days; aggregate = aggregate })
