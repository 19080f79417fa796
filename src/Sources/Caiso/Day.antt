-- ===== src/Sources/Caiso/Day.antt =====
-- What a fetch of one day returns.
use power_market_data_platfo.Base.{
  ℕ, leb, sym, ◌+◌, ◌≤◌, ◌<◌, ◌≡◌, ◌⊎◌, Option, Result, subst, Bool, true, false, not, ◌||◌, List,
  [], arith, any, All, All-map, any-eq-false, sort_by, Text, codes, text_eq, text_eq_iff, contains,
  Dict, ok, raise_if, >>=-eq-ok,
}
use power_market_data_platfo.Errors.{validation, unsupported_request, unhandled}
use power_market_data_platfo.Time.Calendar.{date_text}
use power_market_data_platfo.Identity.Json.Order.{text_leb_total}
use power_market_data_platfo.Identity.Json.{text_leb}
use power_market_data_platfo.Domain.{trading_hubs, Provenance, LmpObservation, LoadObservation}
use power_market_data_platfo.Domain.Intervals.{
  IsHourly, IsFiveMinute, lmp_observation-IsHourly, load_observation-IsFiveMinute,
}
use power_market_data_platfo.Sources.Frame.{Value, Frame, source_rows, field}
use power_market_data_platfo.Sources.Caiso.{
  keyed_records, times, number_of, hub_of, is_text, utc_datetime, lmp_record, load_record,
  check_load_day, check_day, client_of, lmp_call, or_overflow, day_bounds, normalize_lmp,
  normalize_load, lmp_columns, load_columns, lmp_le, load_le, lmp_key, load_key, Call, requested,
  outside, fetch_lmp, fetch_load, provenance_now, load_url,
}
use power_market_data_platfo.Sources.Caiso.Records.{AreSorted, sort_by-AreSorted}

pub lmp_record-IsHourly :
    (p : Provenance) (row : Dict Value) (r : LmpObservation) → lmp_record p row ≡ ok r → IsHourly r
unfolding lmp_record
lmp_record-IsHourly p row r h =
    let (se, _, h1) = >>=-eq-ok (times row) _ h in
    let (location, _, h2) = >>=-eq-ok (hub_of (field row (codes "Location"))) _ h1 in
    let (_, _, h3) =
      >>=-eq-ok
        (raise_if
          (not (is_text (field row (codes "Market")) (codes "DAY_AHEAD_HOURLY"))
            || not (is_text (field row (codes "Location Type")) (codes "Trading Hub")))
          validation)
        _ h2 in
    let (lmp, _, h4) = >>=-eq-ok (number_of (field row (codes "LMP"))) _ h3 in
    let (energy, _, h5) = >>=-eq-ok (number_of (field row (codes "Energy"))) _ h4 in
    let (congestion, _, h6) = >>=-eq-ok (number_of (field row (codes "Congestion"))) _ h5 in
    let (loss, _, h7) = >>=-eq-ok (number_of (field row (codes "Loss"))) _ h6 in
    lmp_observation-IsHourly location (utc_datetime se.0) (utc_datetime se.1) lmp energy congestion
      loss p r h7

pub lmp_le_total : (r q : LmpObservation) → lmp_le r q ≡ false → lmp_le q r ≡ true
lmp_le_total r q h = ground (arith, h, text_leb_total r.location q.location)

load_le_total : (r q : LoadObservation) → load_le r q ≡ false → load_le q r ≡ true
load_le_total r q h = ground (arith, h)

-- By the start, and at one start by the hub.
abbrev pub IsPriceBefore : LmpObservation → LmpObservation → Type 0
IsPriceBefore r q =
    (r.interval_start_utc < q.interval_start_utc)
    ⊎ ((r.interval_start_utc ≡ q.interval_start_utc) × (text_leb r.location q.location ≡ true))

abbrev pub IsLoadBefore : LoadObservation → LoadObservation → Type 0
IsLoadBefore r q = r.interval_start_utc ≤ q.interval_start_utc

pub lmp_le-IsPriceBefore : (r q : LmpObservation) → lmp_le r q ≡ true → IsPriceBefore r q
lmp_le-IsPriceBefore r q h = ground (arith, h)

load_le-IsLoadBefore : (r q : LoadObservation) → load_le r q ≡ true → IsLoadBefore r q
load_le-IsLoadBefore r q h = ground (arith, h)

-- Hourly prices with distinct keys, ordered by their start and hub.
abbrev pub AreHourly : (Text → Text) → List LmpObservation → Type 0
AreHourly sha256 = AreSorted (lmp_key sha256) IsHourly IsPriceBefore

-- Five-minute loads with distinct keys, ordered by their start.
abbrev pub AreFiveMinute : (Text → Text) → List LoadObservation → Type 0
AreFiveMinute sha256 = AreSorted (load_key sha256) IsFiveMinute IsLoadBefore

-- The instant lies on the Pacific date.
abbrev pub Within : (ℕ → ℕ) → ℕ → ℕ → Type 0
Within midnight day t = (midnight day ≤ t) × (t < midnight (day + 1))

module _ (sha256 : Text → Text) where
  normalize_lmp-AreHourly :
      (f : Frame) (p : Provenance) (rs : List LmpObservation)
      → normalize_lmp sha256 f p ≡ ok rs
      → AreHourly sha256 rs
  unfolding normalize_lmp
  normalize_lmp-AreHourly f p rs h =
      let (rows, _, h1) = >>=-eq-ok (source_rows lmp_columns f) _ h in
      let (records, made, same) =
        >>=-eq-ok (keyed_records (lmp_record p) (lmp_key sha256) [] rows) _ h1 in
      let sorted : sort_by lmp_le records ≡ rs = cc same in
      subst (AreHourly sha256) sorted
        (sort_by-AreSorted (lmp_record p) (lmp_key sha256) IsHourly (lmp_record-IsHourly p) lmp_le
          IsPriceBefore lmp_le_total lmp_le-IsPriceBefore rows records made).0

  module _ (midnight : ℕ → ℕ) (pacific_date : ℕ → Option ℕ) where
    load_record-IsFiveMinute :
        (p : Provenance) (row : Dict Value) (r : LoadObservation)
        → load_record sha256 midnight pacific_date p row ≡ ok r
        → IsFiveMinute r
    unfolding load_record
    load_record-IsFiveMinute p row r h =
        let (se, _, h1) = >>=-eq-ok (times row) _ h in
        let (day, _, h1') = >>=-eq-ok (or_overflow (pacific_date se.0)) _ h1 in
        let (_, _, h2) = >>=-eq-ok (check_load_day sha256 midnight day) _ h1' in
        let (demand, _, h3) = >>=-eq-ok (number_of (field row (codes "Load"))) _ h2 in
        load_observation-IsFiveMinute (utc_datetime se.0) (utc_datetime se.1) demand p r h3

    normalize_load-AreFiveMinute :
        (f : Frame) (p : Provenance) (rs : List LoadObservation)
        → normalize_load sha256 midnight pacific_date f p ≡ ok rs
        → AreFiveMinute sha256 rs
    unfolding normalize_load
    normalize_load-AreFiveMinute f p rs h =
        let (rows, _, h1) = >>=-eq-ok (source_rows load_columns f) _ h in
        let (records, made, same) =
          >>=-eq-ok
            (keyed_records (load_record sha256 midnight pacific_date p) (load_key sha256) [] rows) _
            h1 in
        let sorted : sort_by load_le records ≡ rs = cc same in
        subst (AreFiveMinute sha256) sorted
          (sort_by-AreSorted (load_record sha256 midnight pacific_date p) (load_key sha256)
            IsFiveMinute (load_record-IsFiveMinute p) load_le IsLoadBefore load_le_total
            load_le-IsLoadBefore rows records made).0

    -- The instant lies between the bounds.
    abbrev Inside : ℕ × ℕ → ℕ → Type 0
    Inside bounds t = (bounds.0 ≤ t) × (t < bounds.1)

    outside-Inside :
        (bounds : ℕ × ℕ) (t : ℕ)
        → outside sha256 midnight bounds.0 bounds.1 t ≡ false
        → Inside bounds t
    outside-Inside bounds t h = ground (arith, h)

    day_bounds_lem :
        (day : ℕ) (bounds : ℕ × ℕ)
        → day_bounds sha256 midnight day ≡ ok bounds
        → (midnight day, midnight (day + 1)) ≡ bounds
    day_bounds_lem day bounds h =
        let (_, _, same) =
          >>=-eq-ok (raise_if (leb 3652058 day) (unhandled (codes "OverflowError"))) _ h in
        cc same

    Inside-Within :
        (day : ℕ) (bounds : ℕ × ℕ) (t : ℕ)
        → day_bounds sha256 midnight day ≡ ok bounds
        → Inside bounds t
        → Within midnight day t
    Inside-Within day bounds t h inside =
        subst (λ b. Inside b t) (sym (day_bounds_lem day bounds h)) inside

    module _ (today now : ℕ) (library_version : Text) where
      -- Whatever gridstatus answers, prices that fetch_lmp returns are of a date before today and
      -- of the requested hub; each starts between the midnights of the date and covers one whole
      -- hour of UTC with finite numbers, they have distinct keys, and they are sorted by start and
      -- hub.
      pub fetch_lmp-AreHourly :
          (client : Result Text (Text → Text → Text → Call)) (day : ℕ) (location : Text)
          (rs : List LmpObservation)
          → fetch_lmp sha256 midnight pacific_date today now library_version client day location
            ≡ ok rs
          → (day < today)
            × AreHourly sha256 rs
            × All (λ r. (r.location ≡ location) × Within midnight day r.interval_start_utc) rs
      unfolding fetch_lmp
      fetch_lmp-AreHourly client day location rs h =
          let (_, past, h1) = >>=-eq-ok (check_day today day) _ h in
          let (_, hub, h2) =
            >>=-eq-ok (raise_if (not (contains location trading_hubs)) unsupported_request) _ h1 in
          let (get_lmp, _, h2') = >>=-eq-ok (client_of client) _ h2 in
          let (f, _, h3) =
            >>=-eq-ok
              (requested (
                lmp_call sha256 midnight pacific_date today now library_version get_lmp day
                  location))
              _ h2' in
          let (p, _, h4) =
            >>=-eq-ok
              (provenance_now sha256 midnight pacific_date today now library_version
                (codes "CAISO.get_lmp") (codes "http://oasis.caiso.com/oasisapi/SingleZip"))
              _ h3 in
          let (records, made, h5) = >>=-eq-ok (normalize_lmp sha256 f p) _ h4 in
          let (bounds, on_day, h6) = >>=-eq-ok (day_bounds sha256 midnight day) _ h5 in
          let (_, within, same) =
            >>=-eq-ok
              (raise_if
                (any
                  (λ r.
                    not (text_eq r.location location)
                    || outside sha256 midnight bounds.0 bounds.1 r.interval_start_utc)
                  records)
                validation)
              _ h6 in
          let all_of : records ≡ rs = cc same in
          (
            ground (arith, past),
            subst (AreHourly sha256) all_of (normalize_lmp-AreHourly f p records made),
            subst (All (λ r. (r.location ≡ location) × Within midnight day r.interval_start_utc))
                all_of
                (All-map (of_day bounds on_day) records
                  (any-eq-false _ records (accepted _ within))),
          )
        where
          accepted : (b : Bool) → raise_if b validation ≡ ok tt → b ≡ false
          accepted b e = ground (arith, e)

          of_day :
              (bounds : ℕ × ℕ)
              → day_bounds sha256 midnight day ≡ ok bounds
              → (r : LmpObservation)
              → (not (text_eq r.location location)
                  || outside sha256 midnight bounds.0 bounds.1 r.interval_start_utc)
                ≡ false
              → (r.location ≡ location) × Within midnight day r.interval_start_utc
          of_day bounds on_day r e =
              let inside : Inside bounds r.interval_start_utc =
                outside-Inside bounds r.interval_start_utc (ground (arith, e)) in
              (
                ground (arith, e, text_eq_iff r.location location),
                Inside-Within day bounds r.interval_start_utc on_day inside,
              )

      -- Whatever gridstatus answers, loads that fetch_load returns are of a date before today; each
      -- starts between the midnights of the date and covers five whole minutes with a finite
      -- number, they have distinct keys, and they are sorted by start.
      pub fetch_load-AreFiveMinute :
          (client : Result Text (Text → Call)) (day : ℕ) (rs : List LoadObservation)
          → fetch_load sha256 midnight pacific_date today now library_version client day ≡ ok rs
          → (day < today)
            × AreFiveMinute sha256 rs
            × All (λ r. Within midnight day r.interval_start_utc) rs
      unfolding fetch_load
      fetch_load-AreFiveMinute client day rs h =
          let (_, past, h1) = >>=-eq-ok (check_day today day) _ h in
          let (_, _, h2) = >>=-eq-ok (check_load_day sha256 midnight day) _ h1 in
          let (get_load, _, h2') = >>=-eq-ok (client_of client) _ h2 in
          let (f, _, h3) = >>=-eq-ok (requested (get_load (date_text day))) _ h2' in
          let (p, _, h4) =
            >>=-eq-ok
              (provenance_now sha256 midnight pacific_date today now library_version
                (codes "CAISO.get_load")
                (load_url sha256 midnight pacific_date today now library_version day))
              _ h3 in
          let (records, made, h5) =
            >>=-eq-ok (normalize_load sha256 midnight pacific_date f p) _ h4 in
          let (bounds, on_day, h6) = >>=-eq-ok (day_bounds sha256 midnight day) _ h5 in
          let (_, within, same) =
            >>=-eq-ok
              (raise_if
                (any (λ r. outside sha256 midnight bounds.0 bounds.1 r.interval_start_utc) records)
                validation)
              _ h6 in
          let all_of : records ≡ rs = cc same in
          (
            ground (arith, past),
            subst (AreFiveMinute sha256) all_of (normalize_load-AreFiveMinute f p records made),
            subst (All (λ r. Within midnight day r.interval_start_utc)) all_of (
                All-map
                  (λ r e.
                    Inside-Within day bounds r.interval_start_utc on_day
                      (outside-Inside bounds r.interval_start_utc e))
                  records (any-eq-false _ records (accepted _ within))),
          )
        where
          accepted : (b : Bool) → raise_if b validation ≡ ok tt → b ≡ false
          accepted b e = ground (arith, e)
