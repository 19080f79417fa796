-- ===== src/Optimization/Model.antt =====
-- optimization/model.py: the battery, the hourly prices, and the validation of a dispatch.
pub mod Steps
pub mod Ends
pub mod Amounts
pub mod Feasible
use power_market_data_platfo.Base.{
  ℕ, ◌+◌, ◌%◌, Bool, true, false, ◌&&◌, ◌||◌, not, List, [], ◌∷◌, ◌++◌, map, Option, none, some,
  ◌==◌, if◌then◌else◌, length, all, any, ℤ, pos, ◌-ℤ◌, eq_ℤ, Text, Result, ok, err, ◌>>=◌, ◌>>◌,
  raise_if,
}
use power_market_data_platfo.Errors.{Error, validation, optimization}
use power_market_data_platfo.Time.{Datetime, Zone, zone_rules}
use power_market_data_platfo.Identity.Decimal.{Decimal}
use power_market_data_platfo.Optimization.Floats.{Floats}

pub record BatteryConfig (F : Type 0) : Type 0 where
  pub energy_capacity_mwh : F
  pub max_charge_mw : F
  pub max_discharge_mw : F
  pub charge_efficiency : F
  pub discharge_efficiency : F
  pub initial_soc_mwh : F
  pub terminal_soc_mwh : F
  pub throughput_cost_usd_per_mwh : F
  pub interval_hours : F

-- A validated interval; both ends are instants.
pub record PriceInterval : Type 0 where
  pub start_utc : ℕ
  pub end_utc : ℕ
  pub price_usd_per_mwh : Decimal

pub record DispatchResult (F : Type 0) : Type 0 where
  pub solver : Text
  pub status : Text
  pub objective_usd : F
  pub gross_arbitrage_value_usd : F
  pub throughput_cost_usd : F
  pub solve_seconds : Option F
  pub mip_gap : Option F
  pub mip_node_count : Option ℤ
  pub charge_mw : List F
  pub discharge_mw : List F
  pub soc_mwh : List F
  pub charging_mode : List ℤ

-- The timestamp is aware, of offset 0 and on the hour.
abbrev pub is_utc_hour : Datetime → Bool
is_utc_hour d = elim d.tzinfo [
  | none ↦ false
  | some z ↦ elim ((zone_rules z).utcoffset d.wall d.fold) [
    | none ↦ false
    | some o ↦ eq_ℤ o (pos 0) && (d.wall % 3600000000 == 0)
  ]
]

-- The last item, or `default` of an empty list.
abbrev pub last_or : {A : Type 0} → A → List A → A
last_or default [] = default
last_or default (x ∷ []) = x
last_or default (x ∷ y ∷ xs) = last_or default (y ∷ xs)

abbrev pub first_or : {A : Type 0} → A → List A → A
first_or default [] = default
first_or default (x ∷ xs) = x

module _ {F : Type 0} (floats : Floats F) where
  -- `finite`, of a value that is a float by then.
  abbrev pub finite : F → Result Error F
  finite x = do raise_if (not (floats.is_finite x)) validation; ok x

  abbrev pub zero_float : F
  zero_float = floats.of_int (pos 0)

  abbrev pub one_float : F
  one_float = floats.of_int (pos 1)

  abbrev pub config_values : BatteryConfig F → List F
  config_values c =
      c.energy_capacity_mwh ∷ c.max_charge_mw ∷ c.max_discharge_mw ∷ c.charge_efficiency
      ∷ c.discharge_efficiency ∷ c.initial_soc_mwh ∷ c.terminal_soc_mwh
      ∷ c.throughput_cost_usd_per_mwh ∷ c.interval_hours ∷ []

  -- Python's `min` of two.
  abbrev min_float : F → F → F
  min_float a b = if floats.lt b a then b else a

  abbrev pub is_efficiency : F → Bool
  is_efficiency x = floats.lt zero_float x && floats.le x one_float

  abbrev pub is_charge : BatteryConfig F → F → Bool
  is_charge c x = floats.le zero_float x && floats.le x c.energy_capacity_mwh

  -- `BatteryConfig.__post_init__`.
  unfoldable pub battery_config : BatteryConfig F → Result Error (BatteryConfig F)
  battery_config c = do
    raise_if (not (all floats.is_finite (config_values c))) validation
    raise_if (floats.le c.energy_capacity_mwh zero_float) validation
    raise_if (floats.lt (min_float c.max_charge_mw c.max_discharge_mw) zero_float) validation
    raise_if (not (is_efficiency c.charge_efficiency && is_efficiency c.discharge_efficiency))
        validation
    raise_if (not (is_charge c c.initial_soc_mwh && is_charge c c.terminal_soc_mwh)) validation
    raise_if (floats.lt c.throughput_cost_usd_per_mwh zero_float) validation
    raise_if (not (floats.eq c.interval_hours one_float)) validation
    ok c

  -- `PriceInterval.__post_init__`.
  unfoldable pub price_interval : Datetime → Datetime → Decimal → Result Error PriceInterval
  price_interval start end price = do
    raise_if (not (is_utc_hour start)) validation
    raise_if (not (is_utc_hour end)) validation
    raise_if (not (end.wall == start.wall + 3600000000)) validation
    checked ← finite (floats.of_decimal price)
    ok (record { start_utc = start.wall; end_utc = end.wall; price_usd_per_mwh = price })

  -- `abs(a - b) > tol`.
  abbrev pub apart : F → F → Bool
  apart a b = floats.lt floats.tolerance (floats.abs (floats.sub a b))

  -- `value < -tol`.
  abbrev pub negative : F → Bool
  negative x = floats.lt x (floats.neg floats.tolerance)

  -- `value > limit + tol`.
  abbrev pub exceeds : F → F → Bool
  exceeds x limit = floats.lt (floats.add limit floats.tolerance) x

  abbrev pub is_binary : ℤ → Bool
  is_binary m = eq_ℤ m (pos 0) || eq_ℤ m (pos 1)

  module _ (config : BatteryConfig F) where
    abbrev pub violates_power : F → F → ℤ → Bool
    violates_power c d m =
        negative c
        || negative d
        || exceeds c (floats.mul config.max_charge_mw (floats.of_int m))
        || exceeds d (floats.mul config.max_discharge_mw (floats.of_int (pos 1 -ℤ m)))

    -- The state of charge after an interval.
    abbrev pub expected_soc : F → F → F → F
    expected_soc s c d =
        floats.sub
          (floats.add s (floats.mul (floats.mul config.charge_efficiency c) config.interval_hours))
          (floats.div (floats.mul d config.interval_hours) config.discharge_efficiency)

    -- One round of the loop over the intervals.
    abbrev pub check_interval : F → F → ℤ → F → F → Result Error (Unit {0})
    check_interval c d m s s' = do
      raise_if (not (is_binary m)) optimization
      raise_if (violates_power c d m) optimization
      raise_if (apart (expected_soc s c d) s') optimization

    pub check_intervals : List F → List F → List ℤ → List F → Result Error (Unit {0})
    check_intervals (c ∷ cs) (d ∷ ds) (m ∷ ms) (s ∷ s' ∷ ss) = do
      check_interval c d m s s'
      check_intervals cs ds ms (s' ∷ ss)
    check_intervals _ _ _ _ = ok tt

    -- The terms of the cash flow, of prices as floats.
    abbrev pub cash_terms : List F → List F → List F → List F
    cash_terms (p ∷ ps) (c ∷ cs) (d ∷ ds) =
        floats.mul (floats.mul p (floats.sub d c)) config.interval_hours ∷ cash_terms ps cs ds
    cash_terms _ _ _ = []

    abbrev pub gross_value : List F → List F → List F → F
    gross_value ps cs ds = floats.fsum (cash_terms ps cs ds)

    abbrev pub throughput_cost : List F → List F → F
    throughput_cost cs ds =
        floats.mul (floats.mul (floats.fsum (cs ++ ds)) config.interval_hours)
          config.throughput_cost_usd_per_mwh

    abbrev pub price_floats : List PriceInterval → List F
    price_floats ps = map (λ p. floats.of_decimal p.price_usd_per_mwh) ps

    abbrev pub dispatch_values : DispatchResult F → List F
    dispatch_values r =
        r.charge_mw
        ++ (r.discharge_mw
            ++ (r.soc_mwh
                ++ (r.objective_usd ∷ r.gross_arbitrage_value_usd ∷ r.throughput_cost_usd ∷ [])))

    abbrev pub has_lengths : List PriceInterval → DispatchResult F → Bool
    has_lengths prices r =
        (length r.charge_mw == length prices)
        && (length r.discharge_mw == length prices)
        && (length r.soc_mwh == length prices + 1)
        && (length r.charging_mode == length prices)

    abbrev pub is_outside : F → Bool
    is_outside s = negative s || exceeds s config.energy_capacity_mwh

    abbrev pub misses_ends : DispatchResult F → Bool
    misses_ends r =
        apart (first_or zero_float r.soc_mwh) config.initial_soc_mwh
        || apart (last_or zero_float r.soc_mwh) config.terminal_soc_mwh

    unfoldable pub validate_dispatch :
        List PriceInterval → DispatchResult F → Result Error (Unit {0})
    unfolding check_intervals
    validate_dispatch prices r = do
      raise_if (not (has_lengths prices r)) optimization
      raise_if (not (all floats.is_finite (dispatch_values r))) optimization
      raise_if (any is_outside r.soc_mwh) optimization
      raise_if (misses_ends r) optimization
      check_intervals r.charge_mw r.discharge_mw r.charging_mode r.soc_mwh
      let gross = gross_value (price_floats prices) r.charge_mw r.discharge_mw
      let cost = throughput_cost r.charge_mw r.discharge_mw
      raise_if (not (floats.is_close r.gross_arbitrage_value_usd gross)) optimization
      raise_if (not (floats.is_close r.throughput_cost_usd cost)) optimization
      raise_if (not (floats.is_close r.objective_usd (floats.sub gross cost))) optimization
