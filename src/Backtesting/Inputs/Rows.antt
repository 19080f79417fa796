-- ===== src/Backtesting/Inputs/Rows.antt =====
-- backtesting/inputs.py, `from_row`: the rows that it accepts, and what it makes of them.
use power_market_data_platfo.Base.{
  ℕ, ◌+◌, ◌%◌, ◌≡◌, refl, sym, ap, subst, arith, true, false, ◌&&◌, not, [], ◌∷◌, any, ◌==◌, ℤ,
  Text, codes, text_eq_iff, contains, Dict, ok, ok_injective, >>=-eq-ok, >>-raise_if,
}
use power_market_data_platfo.Errors.{validation}
use power_market_data_platfo.Time.{Datetime}
use power_market_data_platfo.Identity.Decimal.{Decimal}
use power_market_data_platfo.Domain.{trading_hubs}
use power_market_data_platfo.Optimization.Floats.{Floats}
use power_market_data_platfo.Optimization.Model.{PriceInterval, price_interval, is_utc_hour, finite}
use power_market_data_platfo.Backtesting.Inputs.{
  Cell, text, integer, MarketPrice, Readers, input_columns, cell, is_missing, is_blank, is_positive,
  is_utc_clock, equals_text, check_constants, text_cell, integer_cell, timestamp_cell, date_cell,
  price_cell, is_price, market_price, price_of_row, from_row,
}

module _ {F : Type 0} (floats : Floats F) (readers : Readers) (pacific_date : ℕ → ℕ) where
  -- The interval is one whole hour of UTC, with a price that is a finite float.
  pub record IsHour (i : PriceInterval) : Type 0 where
    pub lasting : i.end_utc ≡ i.start_utc + 3600000000
    pub aligned : i.start_utc % 3600000000 ≡ 0
    pub finite_price : floats.is_finite (floats.of_decimal i.price_usd_per_mwh) ≡ true

  pub record IsRead (row : Dict Cell) (r : MarketPrice) : Type 0 where
    pub source : cell row (codes "source") ≡ text (codes "CAISO")
    pub market : cell row (codes "market") ≡ text (codes "DAY_AHEAD_HOURLY")
    pub unit : cell row (codes "unit") ≡ text (codes "USD/MWh")
    pub hour : IsHour r.interval
    pub hub : contains r.location trading_hubs ≡ true
    pub dated : pacific_date r.interval.start_utc ≡ r.market_date
    pub location : cell row (codes "location") ≡ text r.location
    pub logical_key : cell row (codes "logical_key") ≡ text r.logical_key
    pub ordinal : cell row (codes "state_ordinal") ≡ integer r.state_ordinal
    pub ordered : is_positive r.state_ordinal && is_positive r.commit_sequence ≡ true

  price_interval-IsHour :
      (start end : Datetime) (price : Decimal) (i : PriceInterval)
      → price_interval floats start end price ≡ ok i
      → IsHour i
  unfolding price_interval
  price_interval-IsHour start end price i h =
      let (at_start, h1) = (>>-raise_if (not (is_utc_hour start)) validation _).0 h in
      let (at_end, h2) = (>>-raise_if (not (is_utc_hour end)) validation _).0 h1 in
      let (lasting, h3) =
        (>>-raise_if (not (end.wall == start.wall + 3600000000)) validation _).0 h2 in
      let (_, checked, h4) = >>=-eq-ok (finite floats (floats.of_decimal price)) _ h3 in
      let (whole, _) =
        (>>-raise_if (not (floats.is_finite (floats.of_decimal price))) validation _).0 checked in
      subst IsHour (ok_injective h4) (record {
        lasting = ground (arith, lasting);
        aligned = is_utc_hour-aligned start (ground (arith, at_start));
        finite_price = ground (arith, whole);
      })
    where
      is_utc_hour-aligned : (d : Datetime) → is_utc_hour d ≡ true → d.wall % 3600000000 ≡ 0
      is_utc_hour-aligned d e = ground (arith, e)

  equals_text-eq : (s : Text) (c : Cell) → not (equals_text s c) ≡ false → c ≡ text s
  equals_text-eq s (text t) h = ap text ((text_eq_iff t s).0 (ground (arith, h)))
  equals_text-eq s c h = cc h

  text_cell-eq : (c : Cell) (s : Text) → text_cell c ≡ ok s → c ≡ text s
  text_cell-eq (text t) s h = ap text (ok_injective h)
  text_cell-eq c s h = cc h

  integer_cell-eq : (c : Cell) (n : ℤ) → integer_cell c ≡ ok n → c ≡ integer n
  integer_cell-eq (integer m) n h = ap integer (ok_injective h)
  integer_cell-eq c n h = cc h

  market_price_lem :
      (r q : MarketPrice)
      → market_price floats readers pacific_date r ≡ ok q
      → (r ≡ q)
        × (contains r.location trading_hubs ≡ true)
        × (pacific_date r.interval.start_utc ≡ r.market_date)
        × (is_positive r.state_ordinal && is_positive r.commit_sequence ≡ true)
  unfolding market_price
  market_price_lem r q h =
      let (hub, h1) = (>>-raise_if (not (contains r.location trading_hubs)) validation _).0 h in
      let (dated, h2) =
        (>>-raise_if (not (pacific_date r.interval.start_utc == r.market_date)) validation _).0
          h1 in
      let (_, h3) =
        (>>-raise_if
            (any is_blank (
              r.logical_key ∷ r.content_id ∷ r.content_hash ∷ r.transition_id ∷ r.state_run_id
              ∷ []))
            validation _).0
          h2 in
      let (ordered, h4) =
        (>>-raise_if (not (is_positive r.state_ordinal && is_positive r.commit_sequence)) validation
            _).0
          h3 in
      let (_, h5) =
        (>>-raise_if (not (is_utc_clock r.first_seen_at && is_utc_clock r.state_known_at))
            validation _).0
          h4 in
      (ok_injective h5, ground (arith, hub), ground (arith, dated), ground (arith, ordered))

  -- The fields that are read after the interval.
  record IsPlaced (row : Dict Cell) (day : ℕ) (hour : PriceInterval) (r : MarketPrice)
      : Type 0 where
    of_hour : r.interval ≡ hour
    hub : contains r.location trading_hubs ≡ true
    dated : pacific_date r.interval.start_utc ≡ r.market_date
    location : cell row (codes "location") ≡ text r.location
    logical_key : cell row (codes "logical_key") ≡ text r.logical_key
    ordinal : cell row (codes "state_ordinal") ≡ integer r.state_ordinal
    ordered : is_positive r.state_ordinal && is_positive r.commit_sequence ≡ true

  price_of_row-IsPlaced :
      (row : Dict Cell) (day : ℕ) (hour : PriceInterval) (q : MarketPrice)
      → price_of_row floats readers pacific_date row day hour ≡ ok q
      → IsPlaced row day hour q
  unfolding price_of_row
  price_of_row-IsPlaced row day hour q h7 =
      let (location, at_hub, h8) = >>=-eq-ok (text_cell (cell row (codes "location"))) _ h7 in
      let (key, keyed, h9) = >>=-eq-ok (text_cell (cell row (codes "logical_key"))) _ h8 in
      let (content, _, h10) = >>=-eq-ok (text_cell (cell row (codes "content_id"))) _ h9 in
      let (hash, _, h11) = >>=-eq-ok (text_cell (cell row (codes "content_hash"))) _ h10 in
      let (transition, _, h12) = >>=-eq-ok (text_cell (cell row (codes "transition_id"))) _ h11 in
      let (run, _, h13) = >>=-eq-ok (text_cell (cell row (codes "state_run_id"))) _ h12 in
      let (ordinal, placed, h14) =
        >>=-eq-ok (integer_cell (cell row (codes "state_ordinal"))) _ h13 in
      let (sequence, _, h15) =
        >>=-eq-ok (integer_cell (cell row (codes "commit_sequence"))) _ h14 in
      let (seen, _, h16) =
        >>=-eq-ok (timestamp_cell floats readers pacific_date (cell row (codes "first_seen_at"))) _
          h15 in
      let (known, _, h17) =
        >>=-eq-ok (timestamp_cell floats readers pacific_date (cell row (codes "state_known_at"))) _
          h16 in
      let made : MarketPrice = record {
        interval = hour;
        market_date = day;
        location = location;
        logical_key = key;
        content_id = content;
        content_hash = hash;
        transition_id = transition;
        state_run_id = run;
        state_ordinal = ordinal;
        commit_sequence = sequence;
        first_seen_at = seen;
        state_known_at = known;
      } in
      let (same, hub, dated, ordered) = market_price_lem made q h17 in
      subst (IsPlaced row day hour) same (record {
        of_hour = refl;
        hub = hub;
        dated = dated;
        location = text_cell-eq (cell row (codes "location")) location at_hub;
        logical_key = text_cell-eq (cell row (codes "logical_key")) key keyed;
        ordinal = integer_cell-eq (cell row (codes "state_ordinal")) ordinal placed;
        ordered = ordered;
      })

  -- A row of the input mart that from_row accepts is of source CAISO, of the market
  -- DAY_AHEAD_HOURLY and in USD/MWh; its price has the hub, the logical key and the state ordinal
  -- of the row, is of a trading hub and of the Pacific date on which its interval starts, covers
  -- one whole hour of UTC with a price that is a finite float, and has positive ordinals.
  pub from_row-IsRead :
      (row : Dict Cell) (q : MarketPrice)
      → from_row floats readers pacific_date row ≡ ok q
      → IsRead row q
  unfolding from_row
  from_row-IsRead row q h =
      let (_, h0) = (>>-raise_if (any (is_missing row) input_columns) validation _).0 h in
      let (_, constants, h1) = >>=-eq-ok (check_constants row) _ h0 in
      let (source, c1) =
        (>>-raise_if (not (equals_text (codes "CAISO") (cell row (codes "source")))) validation _).0
          constants in
      let (market, c2) =
        (>>-raise_if (not (equals_text (codes "DAY_AHEAD_HOURLY") (cell row (codes "market"))))
            validation _).0
          c1 in
      let (unit, c3) =
        (>>-raise_if (not (equals_text (codes "USD/MWh") (cell row (codes "unit")))) validation _).0
          c2 in
      let (day, _, h2) =
        >>=-eq-ok (date_cell floats readers pacific_date (cell row (codes "market_date"))) _ h1 in
      let (_, h3) =
        (>>-raise_if (not (is_price floats readers pacific_date (cell row (codes "lmp"))))
            validation _).0
          h2 in
      let (start, _, h4) =
        >>=-eq-ok
          (timestamp_cell floats readers pacific_date (cell row (codes "interval_start_utc"))) _
          h3 in
      let (end, _, h5) =
        >>=-eq-ok (timestamp_cell floats readers pacific_date (cell row (codes "interval_end_utc")))
          _ h4 in
      let (price, _, h6) =
        >>=-eq-ok (price_cell floats readers pacific_date (cell row (codes "lmp"))) _ h5 in
      let (hour, timed, h7) = >>=-eq-ok (price_interval floats start end price) _ h6 in
      let placed = price_of_row-IsPlaced row day hour q h7 in
      record {
        source = equals_text-eq (codes "CAISO") (cell row (codes "source")) source;
        market = equals_text-eq (codes "DAY_AHEAD_HOURLY") (cell row (codes "market")) market;
        unit = equals_text-eq (codes "USD/MWh") (cell row (codes "unit")) unit;
        hour = subst IsHour (sym placed.of_hour) (price_interval-IsHour start end price hour timed);
        hub = placed.hub;
        dated = placed.dated;
        location = placed.location;
        logical_key = placed.logical_key;
        ordinal = placed.ordinal;
        ordered = placed.ordered;
      }
