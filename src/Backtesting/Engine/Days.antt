-- ===== src/Backtesting/Engine/Days.antt =====
-- backtesting/engine.py: what the days of a returned benchmark are.
pub mod Groups
use power_market_data_platfo.Base.{
  ℕ, zero, suc, ◌+◌, ◌-◌, ◌*◌, ◌/◌, ◌≤◌, ◌≡◌, refl, sym, ap, subst, ◌∙◌, Bool, true, false, ◌&&◌,
  ◌||◌, not, List, [], ◌∷◌, map, Option, none, some, arith, ltb, leb, ◌==◌, length, length-map,
  get_elem?, any, any-eq-false, filter, filter-passing, sort_by, All, All-map, has_repeats, Text,
  codes, text_eq, Result, ok, err, ok_injective, ◌>>=◌, ◌>>◌, raise_if, >>=-eq-ok, >>-raise_if,
}
use power_market_data_platfo.Errors.{Error, validation}
use power_market_data_platfo.Warehouse.Request.{Request, bounds}
use power_market_data_platfo.Optimization.Floats.{Floats}
use power_market_data_platfo.Optimization.Model.{BatteryConfig, PriceInterval, DispatchResult}
use power_market_data_platfo.Optimization.Battery.{Solver, solve_battery_dispatch}
use power_market_data_platfo.Optimization.Battery.Checked.{
  IsAccepted, solve_battery_dispatch-IsAccepted,
}
use power_market_data_platfo.Backtesting.Inputs.{MarketPrice, requests}
use power_market_data_platfo.Backtesting.Inputs.Planned.{requests-AreDaily}
use power_market_data_platfo.Backtesting.Engine.{
  DayResult, BacktestResult, start_le, day_rows, off_hour, hours_of, is_short_or_off, groups_of,
  is_foreign, first_date, intervals_of, default_limit, day_metrics, day_result, solve_days,
  aggregate_of, backtest_daily,
}
use Groups.{IsGroup, AreGroups, groups_of-AreGroups, sum, is_within, AreGroups-sum}

module _ {F : Type 0} (floats : Floats F) (solver : Solver F) (config : BatteryConfig F)
    (midnight : ℕ → ℕ) (inputs : List MarketPrice) (location : Text) where
  -- The result of one day: of the day's inputs, all of them, in the hours of the day, and of a
  -- dispatch that has been validated against exactly these hours.
  pub record IsDay (day : ℕ) (d : DayResult F) : Type 0 where
    pub date : d.market_date ≡ day
    pub hub : d.location ≡ location
    pub counts : d.interval_count ≡ length d.inputs
    pub measured : d.metrics ≡ day_metrics floats solver config d.inputs d.dispatch
    pub group : IsGroup midnight inputs day d.inputs
    pub accepted : IsAccepted floats solver config (intervals_of d.inputs) d.dispatch

  AreDays : ℕ → List (DayResult F) → Type 0
  AreDays day [] = Unit
  AreDays day (d ∷ ds) = IsDay day d × AreDays (day + 1) ds

  first_date_lem :
      (day : ℕ) (rows : List MarketPrice)
      → All (λ r. r.market_date ≡ day) rows
      → 1 ≤ length (intervals_of rows)
      → first_date rows ≡ day
  first_date_lem day [] h few = absurd (omega (arith, few))
  first_date_lem day (r ∷ rs) h few = h.0

  solve_days-AreDays :
      (day : ℕ) (groups : List (List MarketPrice)) (ds : List (DayResult F))
      → AreGroups midnight inputs day groups
      → solve_days floats solver config location groups ≡ ok ds
      → AreDays day ds
        × (length ds ≡ length groups)
        × (map (λ d. d.interval_count) ds ≡ map length groups)
  unfolding AreDays day_result
  solve_days-AreDays day [] ds h e =
      subst
        (λ (xs : List (DayResult F)).
          AreDays day xs × (length xs ≡ 0) × (map (λ d. d.interval_count) xs ≡ []))
        (ok_injective e) (tt, refl, refl)
  solve_days-AreDays day (rows ∷ groups) ds h e =
      let (r, solved, e1) =
        >>=-eq-ok
          (solve_battery_dispatch floats solver (intervals_of rows) config
            (default_limit floats solver config))
          _ e in
      let (rest, later, e2) = >>=-eq-ok (solve_days floats solver config location groups) _ e1 in
      let (days, sized, counts) = solve_days-AreDays (day + 1) groups rest h.1 later in
      let accepted =
        solve_battery_dispatch-IsAccepted floats solver (intervals_of rows) config
          (default_limit floats solver config) r solved in
      let here : IsDay day (day_result floats solver config location rows r) = record {
        date = first_date_lem day rows h.0.dated accepted.some_hours;
        hub = refl;
        counts = refl;
        measured = refl;
        group = h.0;
        accepted = accepted;
      } in
      subst
        (λ (xs : List (DayResult F)).
          AreDays day xs
          × (length xs ≡ suc (length groups))
          × (map (λ d. d.interval_count) xs ≡ length rows ∷ map length groups))
        (ok_injective e2)
        ((here, days), ap suc sized, ap (λ (ns : List ℕ). length rows ∷ ns) counts)

  AreDays-get_elem? :
      (day : ℕ) (ds : List (DayResult F))
      → AreDays day ds
      → (i : ℕ) (d : DayResult F) → get_elem? ds i ≡ some d
      → IsDay (day + i) d
  unfolding AreDays
  AreDays-get_elem? day [] h i d e = absurd (cc e)
  AreDays-get_elem? day (x ∷ ds) h zero d e =
      let same : x ≡ d = cc e in
      let now : day ≡ day + 0 = omega arith in
      subst (λ (n : ℕ). IsDay n d) now (subst (IsDay day) same h.0)
  AreDays-get_elem? day (x ∷ ds) h (suc i) d e =
      let later : day + 1 + i ≡ day + suc i = omega arith in
      subst (λ (n : ℕ). IsDay n d) later (AreDays-get_elem? (day + 1) ds h.1 i d e)

  pub record IsBenchmark (start end : ℕ) (b : BacktestResult F) : Type 0 where
    pub some_days : 1 ≤ length b.days
    pub few_days : length b.days ≤ 7
    pub all_days : start + length b.days ≡ end + 1
    pub each : (i : ℕ) (d : DayResult F) → get_elem? b.days i ≡ some d → IsDay (start + i) d
    pub all_inputs : sum (map (λ d. d.interval_count) b.days) ≡ length inputs

  foreign-within :
      (start end n : ℕ) (r : MarketPrice)
      → n + start ≡ end + 1
      → is_foreign location start end r ≡ false
      → is_within start n r ≡ true
  foreign-within start end n r h e = ground (arith, e)

  -- A benchmark that backtest_daily returns has one result for each of the 1 to 7 dates from the
  -- first through the last, in order; the rows of a result are the inputs of its date, one for each
  -- hour between the midnights of the date, its dispatch is an accepted one of the intervals of
  -- these rows, and the counts of rows add up to the number of inputs.
  pub backtest_daily-IsBenchmark :
      (today start end : ℕ) (b : BacktestResult F)
      → backtest_daily floats solver config today midnight inputs start end location ≡ ok b
      → IsBenchmark start end b
  unfolding backtest_daily
  backtest_daily-IsBenchmark today start end b h =
      let (plan, planned, h1) = >>=-eq-ok (requests today start end location) _ h in
      let (_, h2) =
        (>>-raise_if (not (floats.eq config.initial_soc_mwh config.terminal_soc_mwh)) validation
            _).0
          h1 in
      let (own, h3) =
        (>>-raise_if (any (is_foreign location start end) inputs) validation _).0 h2 in
      let (_, h4) =
        (>>-raise_if (has_repeats (map (λ r. r.logical_key) inputs)) validation _).0 h3 in
      let (groups, grouped, h5) = >>=-eq-ok (groups_of midnight inputs plan) _ h4 in
      let (days, solved, h6) = >>=-eq-ok (solve_days floats solver config location groups) _ h5 in
      let (aggregate, _, h7) = >>=-eq-ok (aggregate_of floats solver config days) _ h6 in
      let (daily, spans, one, seven) = requests-AreDaily today start end location plan planned in
      let (are_groups, as_many) =
        groups_of-AreGroups midnight inputs start plan groups daily grouped in
      let (are_days, sized, counts) = solve_days-AreDays start groups days are_groups solved in
      let spanned : length groups + start ≡ end + 1 = omega (arith, spans, as_many) in
      let all_within : filter (is_within start (length groups)) inputs ≡ inputs =
        filter-passing (is_within start (length groups)) inputs (
          All-map (λ r e. foreign-within start end (length groups) r spanned e) inputs
            (any-eq-false _ inputs own)) in
      subst (IsBenchmark start end) (ok_injective h7) (record {
        some_days = omega (arith, one, as_many, sized);
        few_days = omega (arith, seven, as_many, sized);
        all_days = omega (arith, spans, as_many, sized);
        each = AreDays-get_elem? start days are_days;
        all_inputs =
            ap sum counts
            ∙ AreGroups-sum midnight inputs start groups are_groups
            ∙ ap length all_within;
      })
