-- ===== src/Tests/Sources.antt =====
-- Two days as gridstatus returns them: two hours of prices and two intervals of load, not in order.
use power_market_data_platfo.Base.{
  ℕ, ◌+◌, ◌*◌, ◌/◌, ◌<◌, ◌≤◌, ◌≡◌, refl, arith, sort_by, ◌-ℤ◌, true, false, Bool, length, List, [],
  ◌∷◌, map, some, none, Option, Text, codes, All, Dict, Result, ok, err, Succeeds, pos,
}
use power_market_data_platfo.Errors.{Error}
use power_market_data_platfo.Time.{Zone, as_utc, utc_text}
use power_market_data_platfo.Time.Calendar.{date_text}
use power_market_data_platfo.Identity.{digest}
use power_market_data_platfo.Identity.Decimal.{finite, decimal_text}
use power_market_data_platfo.Identity.Json.{dumps}
use power_market_data_platfo.Domain.{
  Observation, LmpObservation, LoadObservation, lmp_observation, load_observation, logical_key,
  identity_fields, provenance, Provenance,
}
use power_market_data_platfo.Warehouse.Request.{Product}
use power_market_data_platfo.Warehouse.Batch.{batch_rows, values_of, numeric}
use power_market_data_platfo.Sources.Frame.{
  Value, Frame, number, text, moment, Key, name, RowObject, Records, frame, named, source_rows,
}
use power_market_data_platfo.Sources.Caiso.{
  lmp_columns, load_columns, Call, answered, fetch_lmp, fetch_load, normalize_lmp, normalize_load,
}
use power_market_data_platfo.Sources.Caiso.Day.{
  AreHourly, AreFiveMinute, Within, fetch_lmp-AreHourly, fetch_load-AreFiveMinute,
}
use power_market_data_platfo.Sources.Caiso.Rows.{IsKept, normalize_lmp-AreKept}
use power_market_data_platfo.Sources.Caiso.Stored.{fetch_lmp-batch_rows, fetch_load-batch_rows}
use power_market_data_platfo.Tests.Hash.{encode}

abbrev midnight : ℕ → ℕ
midnight d = d * 86400000000

abbrev pacific_date : ℕ → Option ℕ
pacific_date t = some (t / 86400000000)

abbrev at_hour : ℕ → Value
at_hour h =
    moment (record { wall = 86400000000 + h * 3600000000; fold = false; tzinfo = some Zone.utc }) 0

abbrev at_minute : ℕ → Value
at_minute m =
    moment (record { wall = 86400000000 + m * 60000000; fold = false; tzinfo = some Zone.utc }) 0

abbrev mw : ℕ → Value
mw n = number (finite false n (pos 0))

abbrev price_row : ℕ → RowObject
price_row h = RowObject.fields (
    (name (codes "Time"), at_hour h)
    ∷ (name (codes "Interval Start"), at_hour h)
    ∷ (name (codes "Interval End"), at_hour (h + 1))
    ∷ (name (codes "Market"), text (codes "DAY_AHEAD_HOURLY"))
    ∷ (name (codes "Location"), text (codes "TH_NP15_GEN-APND"))
    ∷ (name (codes "Location Type"), text (codes "Trading Hub"))
    ∷ (name (codes "LMP"), mw 30)
    ∷ (name (codes "Energy"), mw 28)
    ∷ (name (codes "Congestion"), mw 1)
    ∷ (name (codes "Loss"), mw 1)
    ∷ [])

abbrev load_row : ℕ → RowObject
load_row m = RowObject.fields (
    (name (codes "Time"), at_minute m)
    ∷ (name (codes "Interval Start"), at_minute m)
    ∷ (name (codes "Interval End"), at_minute (m + 5))
    ∷ (name (codes "Load"), mw 20000)
    ∷ [])

abbrev names : List Text → List Key
names cs = map name cs

abbrev prices : Result Text (Text → Text → Text → Call)
prices = ok λ start end hub.
    answered (frame (named (names lmp_columns)) (Records.listed (price_row 1 ∷ price_row 0 ∷ [])))

abbrev loads : Result Text (Text → Call)
loads = ok λ date.
    answered (frame (named (names load_columns)) (Records.listed (load_row 5 ∷ load_row 0 ∷ [])))

abbrev items_or : {A : Type 0} → Result Error (List A) → List A
items_or (ok xs) = xs
items_or (err e) = []

abbrev hub : Text
hub = codes "TH_NP15_GEN-APND"

abbrev price_list : List LmpObservation
price_list =
    items_or (fetch_lmp encode midnight pacific_date 5 86400000000 (codes "1") prices 1 hub)

abbrev load_list : List LoadObservation
load_list = items_or (fetch_load encode midnight pacific_date 5 86400000000 (codes "1") loads 1)

prices_fetched :
    fetch_lmp encode midnight pacific_date 5 86400000000 (codes "1") prices 1 hub ≡ ok price_list
unfolding fetch_lmp normalize_lmp source_rows lmp_observation provenance as_utc ◌-ℤ◌ logical_key
    identity_fields utc_text date_text digest dumps sort_by
prices_fetched = refl

loads_fetched :
    fetch_load encode midnight pacific_date 5 86400000000 (codes "1") loads 1 ≡ ok load_list
unfolding fetch_load normalize_load source_rows load_observation provenance as_utc ◌-ℤ◌ logical_key
    identity_fields utc_text date_text digest dumps sort_by
loads_fetched = refl

fetch_lmp-AreHourly_example :
    (1 < 5)
    × AreHourly encode price_list
    × All (λ r. (r.location ≡ hub) × Within midnight 1 r.interval_start_utc) price_list
fetch_lmp-AreHourly_example =
    fetch_lmp-AreHourly encode midnight pacific_date 5 86400000000 (codes "1") prices 1 hub
      price_list prices_fetched

fetch_load-AreFiveMinute_example :
    (1 < 5)
    × AreFiveMinute encode load_list
    × All (λ r. Within midnight 1 r.interval_start_utc) load_list
fetch_load-AreFiveMinute_example =
    fetch_load-AreFiveMinute encode midnight pacific_date 5 86400000000 (codes "1") loads 1
      load_list loads_fetched

abbrev is_ok : {A : Type 0} → Result Error A → Bool
is_ok (ok a) = true
is_ok (err e) = false

is_ok-Succeeds : {A : Type 0} (r : Result Error A) → is_ok r ≡ true → Succeeds r
is_ok-Succeeds (ok a) h = (a, refl)
is_ok-Succeeds (err e) h = cc h

stored_prices : All (λ r. Succeeds (values_of (Observation.lmp r))) price_list
unfolding fetch_lmp normalize_lmp source_rows lmp_observation provenance as_utc ◌-ℤ◌ logical_key
    identity_fields utc_text date_text digest dumps sort_by numeric decimal_text
stored_prices = (is_ok-Succeeds _ refl, (is_ok-Succeeds _ refl, tt))

stored_loads : All (λ r. Succeeds (values_of (Observation.load r))) load_list
unfolding fetch_load normalize_load source_rows load_observation provenance as_utc ◌-ℤ◌ logical_key
    identity_fields utc_text date_text digest dumps sort_by numeric decimal_text
stored_loads = (is_ok-Succeeds _ refl, (is_ok-Succeeds _ refl, tt))

few_prices : length price_list ≤ 300
unfolding fetch_lmp normalize_lmp source_rows lmp_observation provenance as_utc ◌-ℤ◌ logical_key
    identity_fields utc_text date_text digest dumps sort_by
few_prices = omega arith

few_loads : length load_list ≤ 300
unfolding fetch_load normalize_load source_rows load_observation provenance as_utc ◌-ℤ◌ logical_key
    identity_fields utc_text date_text digest dumps sort_by
few_loads = omega arith

fetch_lmp-batch_rows_example : Succeeds (
    batch_rows encode midnight
      (record { product = Product.lmp; day = 1; location = some hub })
      (map Observation.lmp price_list))
fetch_lmp-batch_rows_example =
    fetch_lmp-batch_rows encode midnight pacific_date 5 86400000000 (codes "1") prices 1 hub
      price_list prices_fetched refl stored_prices few_prices

fetch_load-batch_rows_example : Succeeds (
    batch_rows encode midnight
      (record { product = Product.load; day = 1; location = none })
      (map Observation.load load_list))
fetch_load-batch_rows_example =
    fetch_load-batch_rows encode midnight pacific_date 5 86400000000 (codes "1") loads 1 load_list
      loads_fetched refl stored_loads few_loads

abbrev price_frame : Frame
price_frame = frame (named (names lmp_columns)) (Records.listed (price_row 1 ∷ price_row 0 ∷ []))

abbrev price_source : Provenance
price_source = record {
  retrieved_at_utc = 86400000000;
  source_url = codes "url";
  source_method = codes "CAISO.get_lmp";
  library_version = codes "1";
}

abbrev normalized : List LmpObservation
normalized = items_or (normalize_lmp encode price_frame price_source)

price_frame-normalized : normalize_lmp encode price_frame price_source ≡ ok normalized
unfolding normalize_lmp source_rows lmp_observation as_utc ◌-ℤ◌ logical_key identity_fields utc_text
    date_text digest dumps sort_by
price_frame-normalized = refl

normalize_lmp-AreKept_example :
    (rows : List (Dict Value)) × (source_rows lmp_columns price_frame ≡ ok rows)
    × (length normalized ≡ length rows)
    × All (IsKept normalized) rows
normalize_lmp-AreKept_example =
    normalize_lmp-AreKept encode price_frame price_source normalized price_frame-normalized
