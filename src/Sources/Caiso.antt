-- ===== src/Sources/Caiso.antt =====
-- sources/caiso.py: normalization of CAISO's answers, and the fetch of one day. gridstatus, the
-- clock and the zone data are arguments.
pub mod Records
pub mod Day
pub mod Stored
pub mod Instants
pub mod Rows
use power_market_data_platfo.Base.{
  ℕ, ◌+◌, ◌-◌, Bool, true, false, ◌&&◌, ◌||◌, not, List, [], ◌∷◌, ◌++◌, Option, some, none, ltb,
  leb, ◌==◌, if◌then◌else◌, any, filter, sort_by, Text, codes, text_eq, contains, Dict, Result, ok,
  err, ◌>>=◌, ◌>>◌, raise_if,
}
use power_market_data_platfo.Errors.{
  Error, schema, validation, upstream_request, unsupported_request, value_error, unhandled,
}
use power_market_data_platfo.Time.{Datetime, Zone, as_utc}
use power_market_data_platfo.Time.Calendar.{date_text, microseconds_per_day}
use power_market_data_platfo.Identity.Decimal.{Decimal, is_finite}
use power_market_data_platfo.Identity.Json.{text_leb}
use power_market_data_platfo.Domain.{
  trading_hubs, Provenance, provenance, LmpObservation, LoadObservation, Observation,
  lmp_observation, load_observation, logical_key,
}
use power_market_data_platfo.Sources.Frame.{
  Value, null, other, huge, flag, number, text, moment, Frame, source_rows, field,
}

abbrev pub lmp_columns : List Text
lmp_columns =
    codes "Time"
    ∷ codes "Interval Start"
    ∷ codes "Interval End"
    ∷ codes "Market"
    ∷ codes "Location"
    ∷ codes "Location Type"
    ∷ codes "LMP"
    ∷ codes "Energy"
    ∷ codes "Congestion"
    ∷ codes "Loss"
    ∷ []

abbrev pub load_columns : List Text
load_columns = codes "Time" ∷ codes "Interval Start" ∷ codes "Interval End" ∷ codes "Load" ∷ []

-- `_number`.
unfoldable pub number_of : Value → Result Error Decimal
number_of (number d) = do raise_if (not (is_finite d)) validation; ok d
number_of huge = err value_error
number_of _ = err validation

-- `_timestamp`, as an instant.
unfoldable pub timestamp_of : Value → Result Error ℕ
timestamp_of (moment d nanosecond) = do raise_if (not (nanosecond == 0)) validation; as_utc d
timestamp_of _ = err validation

-- `_times`.
unfoldable pub times : Dict Value → Result Error (ℕ × ℕ)
unfolding timestamp_of
times row = do
  start ← timestamp_of (field row (codes "Interval Start"))
  end ← timestamp_of (field row (codes "Interval End"))
  label ← timestamp_of (field row (codes "Time"))
  raise_if (not (label == start)) validation
  ok (start, end)

-- An instant as a datetime in UTC.
abbrev pub utc_datetime : ℕ → Datetime
utc_datetime t = record { wall = t; fold = false; tzinfo = some Zone.utc }

abbrev hub_of : Value → Result Error Text
hub_of (text s) = if contains s trading_hubs then ok s else err validation
hub_of _ = err validation

abbrev is_text : Value → Text → Bool
is_text (text s) t = text_eq s t
is_text _ t = false

-- One row of prices.
pub lmp_record : Provenance → Dict Value → Result Error LmpObservation
unfolding times number_of
lmp_record p row = do
  (start, end) ← times row
  location ← hub_of (field row (codes "Location"))
  raise_if
      (not (is_text (field row (codes "Market")) (codes "DAY_AHEAD_HOURLY"))
        || not (is_text (field row (codes "Location Type")) (codes "Trading Hub")))
      validation
  lmp ← number_of (field row (codes "LMP"))
  energy ← number_of (field row (codes "Energy"))
  congestion ← number_of (field row (codes "Congestion"))
  loss ← number_of (field row (codes "Loss"))
  lmp_observation location (utc_datetime start) (utc_datetime end) lmp energy congestion loss p

-- `key=lambda record: (record.interval_start_utc, record.location)`.
abbrev pub lmp_le : LmpObservation → LmpObservation → Bool
lmp_le r q =
    ltb r.interval_start_utc q.interval_start_utc
    || ((r.interval_start_utc == q.interval_start_utc) && text_leb r.location q.location)

abbrev pub load_le : LoadObservation → LoadObservation → Bool
load_le r q = leb r.interval_start_utc q.interval_start_utc

-- `_request`: the answer of a call of gridstatus, or the kind of its exception.
pub data Call : Type 0 where
  answered : Frame → Call
  key_error type_error raised : Call

abbrev pub requested : Call → Result Error Frame
requested (answered f) = ok f
requested key_error = err schema
requested type_error = err schema
requested raised = err upstream_request

-- `gridstatus.CAISO()`, outside `_request`: the client, or the class of its exception.
abbrev pub client_of : {C : Type 0} → Result Text C → Result Error C
client_of (ok client) = ok client
client_of (err class) = err (unhandled class)

abbrev overflow : Error
overflow = unhandled (codes "OverflowError")

-- `date.max`; `day + timedelta(days=1)` raises OverflowError on it.
abbrev last_date : ℕ
last_date = 3652058

-- The Pacific date of an instant, which `astimezone` may not be able to represent.
abbrev pub or_overflow : Option ℕ → Result Error ℕ
or_overflow none = err overflow
or_overflow (some day) = ok day

-- `_check_day`. That the day is a calendar date is its type.
abbrev pub check_day : ℕ → ℕ → Result Error (Unit {0})
check_day today day = raise_if (leb today day) unsupported_request

-- The loop of both normalizations: a record of each row, whose key none before it has; `seen` holds
-- the keys so far.
module _ {R : Type 0} (make : Dict Value → Result Error R) (key : R → Text) where
  pub keyed_records : List Text → List (Dict Value) → Result Error (List R)
  keyed_records seen [] = ok []
  keyed_records seen (row ∷ rows) = do
    r ← make row
    raise_if (contains (key r) seen) validation
    rest ← keyed_records (key r ∷ seen) rows
    ok (r ∷ rest)

module _ (sha256 : Text → Text) where
  abbrev pub lmp_key : LmpObservation → Text
  lmp_key r = logical_key sha256 (Observation.lmp r)

  abbrev pub load_key : LoadObservation → Text
  load_key r = logical_key sha256 (Observation.load r)

  unfoldable pub normalize_lmp : Frame → Provenance → Result Error (List LmpObservation)
  unfolding lmp_record keyed_records sort_by
  normalize_lmp f p = do
    rows ← source_rows lmp_columns f
    records ← keyed_records (lmp_record p) lmp_key [] rows
    ok (sort_by lmp_le records)

  module _ (midnight : ℕ → ℕ) where
    -- `_day_bounds`, of a Pacific date.
    abbrev pub day_bounds : ℕ → Result Error (ℕ × ℕ)
    day_bounds day = do raise_if (leb last_date day) overflow; ok (midnight day, midnight (day + 1))

    -- `_check_load_day`.
    abbrev pub check_load_day : ℕ → Result Error (Unit {0})
    check_load_day day = do
      (start, end) ← day_bounds day
      raise_if (ltb microseconds_per_day (end - start)) validation

    -- `not start <= value < end`.
    abbrev pub outside : ℕ → ℕ → ℕ → Bool
    outside start end value = not (leb start value && ltb value end)

    module _ (pacific_date : ℕ → Option ℕ) where
      -- One row of loads.
      pub load_record : Provenance → Dict Value → Result Error LoadObservation
      unfolding times number_of
      load_record p row = do
        (start, end) ← times row
        day ← or_overflow (pacific_date start)
        check_load_day day
        demand ← number_of (field row (codes "Load"))
        load_observation (utc_datetime start) (utc_datetime end) demand p

      unfoldable pub normalize_load : Frame → Provenance → Result Error (List LoadObservation)
      unfolding load_record keyed_records sort_by
      normalize_load f p = do
        rows ← source_rows load_columns f
        records ← keyed_records (load_record p) load_key [] rows
        ok (sort_by load_le records)

      module _ (today now : ℕ) (library_version : Text) where
        -- `_provenance`, at the instant `now`.
        abbrev pub provenance_now : Text → Text → Result Error Provenance
        provenance_now method url = provenance (utc_datetime now) url method library_version

        -- The call inside `_request`, where the date after the last raises OverflowError.
        abbrev pub lmp_call : (Text → Text → Text → Call) → ℕ → Text → Call
        lmp_call get_lmp day location =
            if leb last_date day
            then raised
            else get_lmp (date_text day) (date_text (day + 1)) location

        -- `fetch_lmp`. The client is `CAISO().get_lmp` on the texts of its dates and the hub.
        unfoldable pub fetch_lmp :
            Result Text (Text → Text → Text → Call) → ℕ → Text → Result Error (List LmpObservation)
        fetch_lmp client day location = do
          check_day today day
          raise_if (not (contains location trading_hubs)) unsupported_request
          get_lmp ← client_of client
          f ← requested (lmp_call get_lmp day location)
          p ←
              provenance_now (codes "CAISO.get_lmp")
                (codes "http://oasis.caiso.com/oasisapi/SingleZip")
          records ← normalize_lmp f p
          (start, end) ← day_bounds day
          raise_if
              (any
                (λ r. not (text_eq r.location location) || outside start end r.interval_start_utc)
                records)
              validation
          ok records

        -- The page of a day; `{day:%Y%m%d}` is the ISO date without its dashes.
        abbrev pub load_url : ℕ → Text
        load_url day =
            codes "https://www.caiso.com/outlook/history/"
            ++ (filter (λ c. not (c == b'-')) (date_text day) ++ codes "/demand.csv")

        -- `fetch_load`. The client is `CAISO().get_load` on the text of its date.
        unfoldable pub fetch_load :
            Result Text (Text → Call) → ℕ → Result Error (List LoadObservation)
        fetch_load client day = do
          check_day today day
          check_load_day day
          get_load ← client_of client
          f ← requested (get_load (date_text day))
          p ← provenance_now (codes "CAISO.get_load") (load_url day)
          records ← normalize_load f p
          (start, end) ← day_bounds day
          raise_if (any (λ r. outside start end r.interval_start_utc) records) validation
          ok records
