-- ===== src/Sources/Caiso/Stored.antt =====
-- A fetched day as a batch of the warehouse.
use power_market_data_platfo.Base.{
  ℕ, ◌+◌, ◌%◌, ◌≤◌, ◌≡◌, refl, false, Option, Result, List, map, some, none, arith, length,
  length-map, All, All-map2, All-map_items, Pairwise-map, Text, text_eq, text_eq_iff, ok, Succeeds,
}
use power_market_data_platfo.Domain.{Observation, LmpObservation, LoadObservation, logical_key}
use power_market_data_platfo.Domain.Intervals.{IsHourly, IsFiveMinute}
use power_market_data_platfo.Domain.Hashes.{hourly-hash, five_minute-hash}
use power_market_data_platfo.Warehouse.Request.{Product}
use power_market_data_platfo.Warehouse.Batch.{batch_rows, values_of, other_hub}
use power_market_data_platfo.Warehouse.Batch.Accepted.{IsOf, batch_rows-Succeeds}
use power_market_data_platfo.Sources.Caiso.{Call, fetch_lmp, fetch_load}
use power_market_data_platfo.Sources.Caiso.Day.{
  Within, fetch_lmp-AreHourly, fetch_load-AreFiveMinute,
}

module _ (sha256 : Text → Text) (midnight : ℕ → ℕ) (pacific_date : ℕ → Option ℕ) (today now : ℕ)
    (library_version : Text) where
  same_hub :
      (r : LmpObservation) (h : Text)
      → r.location ≡ h
      → other_hub (Observation.lmp r) (some h) ≡ false
  same_hub r h e = ground (arith, e, text_eq_iff r.location h)

  hourly-IsOf :
      (day : ℕ) (location : Text) (r : LmpObservation)
      → midnight (day + 1) % 3600000000 ≡ 0
      → IsHourly r
      → (r.location ≡ location) × Within midnight day r.interval_start_utc
      → Succeeds (values_of (Observation.lmp r))
      → IsOf sha256 midnight
          (record { product = Product.lmp; day = day; location = some location })
          (Observation.lmp r)
  hourly-IsOf day location r whole hour (hub, (from_start, before_end)) stored = record {
    product = refl;
    hub = same_hub r location hub;
    from_start = from_start;
    before_end = omega arith;
    ends = omega (arith, hour.aligned, hour.lasting);
    storable = stored;
    hashed = hourly-hash sha256 r hour;
  }

  five_minute-IsOf :
      (day : ℕ) (r : LoadObservation)
      → midnight (day + 1) % 300000000 ≡ 0
      → IsFiveMinute r
      → Within midnight day r.interval_start_utc
      → Succeeds (values_of (Observation.load r))
      → IsOf sha256 midnight
          (record { product = Product.load; day = day; location = none })
          (Observation.load r)
  five_minute-IsOf day r whole five (from_start, before_end) stored = record {
    product = refl;
    hub = refl;
    from_start = from_start;
    before_end = omega arith;
    ends = omega (arith, five.aligned, five.lasting);
    storable = stored;
    hashed = five_minute-hash sha256 r five;
  }

  -- Prices that fetch_lmp returns, at most 300 and each with numbers that the NUMERIC columns hold,
  -- make a batch of the request of their date and hub, if the date ends on a whole hour of UTC:
  -- batch_rows raises nothing.
  pub fetch_lmp-batch_rows :
      (client : Result Text (Text → Text → Text → Call)) (day : ℕ) (location : Text)
      (rs : List LmpObservation)
      → fetch_lmp sha256 midnight pacific_date today now library_version client day location ≡ ok rs
      → midnight (day + 1) % 3600000000 ≡ 0
      → All (λ r. Succeeds (values_of (Observation.lmp r))) rs
      → length rs ≤ 300
      → Succeeds (
          batch_rows sha256 midnight
            (record { product = Product.lmp; day = day; location = some location })
            (map Observation.lmp rs))
  fetch_lmp-batch_rows client day location rs h whole stored few =
      let (_, hourly, on_day) =
        fetch_lmp-AreHourly sha256 midnight pacific_date today now library_version client day
          location rs h in
      batch_rows-Succeeds sha256 midnight
        (record { product = Product.lmp; day = day; location = some location })
        (map Observation.lmp rs)
        (All-map_items Observation.lmp
          (IsOf sha256 midnight
            (record { product = Product.lmp; day = day; location = some location }))
          rs
          (All-map2 (λ r a b. a b) rs
            (All-map2 (λ r hour w. hourly-IsOf day location r whole hour w) rs hourly.each on_day)
            stored))
        (Pairwise-map Observation.lmp
          (λ r q. text_eq (logical_key sha256 r) (logical_key sha256 q) ≡ false) rs hourly.distinct)
        (omega (arith, length-map Observation.lmp rs))

  -- Loads that fetch_load returns, at most 300 and each with a number that the NUMERIC column
  -- holds, make a batch of the request of their date, if the date ends on a multiple of five
  -- minutes of UTC: batch_rows raises nothing.
  pub fetch_load-batch_rows :
      (client : Result Text (Text → Call)) (day : ℕ) (rs : List LoadObservation)
      → fetch_load sha256 midnight pacific_date today now library_version client day ≡ ok rs
      → midnight (day + 1) % 300000000 ≡ 0
      → All (λ r. Succeeds (values_of (Observation.load r))) rs
      → length rs ≤ 300
      → Succeeds (
          batch_rows sha256 midnight
            (record { product = Product.load; day = day; location = none })
            (map Observation.load rs))
  fetch_load-batch_rows client day rs h whole stored few =
      let (_, five, on_day) =
        fetch_load-AreFiveMinute sha256 midnight pacific_date today now library_version client day
          rs h in
      batch_rows-Succeeds sha256 midnight
        (record { product = Product.load; day = day; location = none }) (map Observation.load rs)
        (All-map_items Observation.load
          (IsOf sha256 midnight (record { product = Product.load; day = day; location = none })) rs
          (All-map2 (λ r a b. a b) rs
            (All-map2 (λ r f w. five_minute-IsOf day r whole f w) rs five.each on_day) stored))
        (Pairwise-map Observation.load
          (λ r q. text_eq (logical_key sha256 r) (logical_key sha256 q) ≡ false) rs five.distinct)
        (omega (arith, length-map Observation.load rs))
