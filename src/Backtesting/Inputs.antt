-- ===== src/Backtesting/Inputs.antt =====
-- backtesting/inputs.py: the rows of the input mart. The readers of Python's library, the clock and
-- the zone data are arguments.
pub mod Planned
pub mod Rows
use power_market_data_platfo.Base.{
  ℕ, zero, suc, ◌+◌, ◌-◌, Bool, true, false, ◌&&◌, ◌||◌, not, List, [], ◌∷◌, Option, none, some,
  ltb, leb, ◌==◌, if◌then◌else◌, any, all, ℤ, pos, eq_ℤ, ltb_ℤ, Text, codes, text_eq, contains,
  Dict, lookup, Result, ok, err, ◌>>=◌, ◌>>◌, raise_if,
}
use power_market_data_platfo.Errors.{Error, validation}
use power_market_data_platfo.Time.{Datetime, Zone, zone_rules}
use power_market_data_platfo.Identity.Decimal.{Decimal}
use power_market_data_platfo.Domain.{trading_hubs}
use power_market_data_platfo.Warehouse.Request.{Request, request, key_schema, content_schema}
use power_market_data_platfo.Optimization.Floats.{Floats}
use power_market_data_platfo.Optimization.Model.{PriceInterval, price_interval}

abbrev pub input_columns : List Text
input_columns =
    codes "source"
    ∷ codes "market"
    ∷ codes "unit"
    ∷ codes "market_date"
    ∷ codes "location"
    ∷ codes "interval_start_utc"
    ∷ codes "interval_end_utc"
    ∷ codes "lmp"
    ∷ codes "logical_key"
    ∷ codes "content_id"
    ∷ codes "content_hash"
    ∷ codes "logical_key_schema"
    ∷ codes "content_hash_schema"
    ∷ codes "transition_id"
    ∷ codes "state_run_id"
    ∷ codes "state_ordinal"
    ∷ codes "commit_sequence"
    ∷ codes "first_seen_at"
    ∷ codes "state_known_at"
    ∷ []

-- A field of a row, with the types that the code tells apart.
pub data Cell : Type 0 where
  null other : Cell
  text : Text → Cell
  integer : ℤ → Cell
  decimal : Decimal → Cell
  moment : Datetime → Cell
  calendar : ℕ → Cell

pub record MarketPrice : Type 0 where
  pub interval : PriceInterval
  pub market_date : ℕ
  pub location : Text
  pub logical_key : Text
  pub content_id : Text
  pub content_hash : Text
  pub transition_id : Text
  pub state_run_id : Text
  pub state_ordinal : ℤ
  pub commit_sequence : ℤ
  pub first_seen_at : Datetime
  pub state_known_at : Datetime

-- The whitespace that `str.strip` takes away.
abbrev pub is_space : ℕ → Bool
is_space c =
    (leb 9 c && leb c 13)
    || (leb 28 c && leb c 32)
    || (c == 133)
    || (c == 160)
    || (c == 5760)
    || (leb 8192 c && leb c 8202)
    || (c == 8232)
    || (c == 8233)
    || (c == 8239)
    || (c == 8287)
    || (c == 12288)

-- `not value.strip()`.
abbrev pub is_blank : Text → Bool
is_blank s = all is_space s

abbrev pub is_positive : ℤ → Bool
is_positive n = ltb_ℤ (pos 0) n

-- An aware timestamp of offset 0.
abbrev pub is_utc_clock : Datetime → Bool
is_utc_clock d = elim d.tzinfo [
  | none ↦ false
  | some z ↦ elim ((zone_rules z).utcoffset d.wall d.fold) [
    | none ↦ false
    | some o ↦ eq_ℤ o (pos 0)
  ]
]

abbrev pub is_missing : Dict Cell → Text → Bool
is_missing row c = elim (lookup c row) [ none ↦ true | some v ↦ elim v [ null ↦ true | _ ↦ false ] ]

-- `row[field]`, of a row that has all columns.
abbrev pub cell : Dict Cell → Text → Cell
cell row c = elim (lookup c row) [ none ↦ null | some v ↦ v ]

abbrev pub equals_text : Text → Cell → Bool
equals_text expected (text s) = text_eq s expected
equals_text expected _ = false

-- The fields that must hold one value.
abbrev pub check_constants : Dict Cell → Result Error (Unit {0})
check_constants row = do
  raise_if (not (equals_text (codes "CAISO") (cell row (codes "source")))) validation
  raise_if (not (equals_text (codes "DAY_AHEAD_HOURLY") (cell row (codes "market")))) validation
  raise_if (not (equals_text (codes "USD/MWh") (cell row (codes "unit")))) validation
  raise_if (not (equals_text key_schema (cell row (codes "logical_key_schema")))) validation
  raise_if (not (equals_text content_schema (cell row (codes "content_hash_schema")))) validation

abbrev pub text_cell : Cell → Result Error Text
text_cell (text s) = ok s
text_cell _ = err validation

abbrev pub integer_cell : Cell → Result Error ℤ
integer_cell (integer n) = ok n
integer_cell _ = err validation

-- What a reader of texts returns; its ValueError or InvalidOperation becomes ValidationError.
abbrev pub read_or_invalid : {A : Type 0} → Option A → Result Error A
read_or_invalid none = err validation
read_or_invalid (some a) = ok a

-- `datetime.fromisoformat`, `date.fromisoformat` and `Decimal` of a text.
pub record Readers : Type 0 where
  pub datetime_of : Text → Option Datetime
  pub date_of : Text → Option ℕ
  pub decimal_of : Text → Option Decimal

module _ {F : Type 0} (floats : Floats F) (readers : Readers) (pacific_date : ℕ → ℕ) where
  -- `MarketPrice.__post_init__`.
  unfoldable pub market_price : MarketPrice → Result Error MarketPrice
  market_price r = do
    raise_if (not (contains r.location trading_hubs)) validation
    raise_if (not (pacific_date r.interval.start_utc == r.market_date)) validation
    raise_if
        (any is_blank
          (r.logical_key ∷ r.content_id ∷ r.content_hash ∷ r.transition_id ∷ r.state_run_id ∷ []))
        validation
    raise_if (not (is_positive r.state_ordinal && is_positive r.commit_sequence)) validation
    raise_if (not (is_utc_clock r.first_seen_at && is_utc_clock r.state_known_at)) validation
    ok r

  abbrev pub timestamp_cell : Cell → Result Error Datetime
  timestamp_cell (moment d) = ok d
  timestamp_cell (text s) = read_or_invalid (readers.datetime_of s)
  timestamp_cell _ = err validation

  abbrev pub date_cell : Cell → Result Error ℕ
  date_cell (calendar d) = ok d
  date_cell (text s) = read_or_invalid (readers.date_of s)
  date_cell _ = err validation

  abbrev pub price_cell : Cell → Result Error Decimal
  price_cell (decimal d) = ok d
  price_cell (text s) = read_or_invalid (readers.decimal_of s)
  price_cell _ = err validation

  -- `isinstance(raw_price, (str, Decimal))`.
  abbrev pub is_price : Cell → Bool
  is_price (decimal d) = true
  is_price (text s) = true
  is_price _ = false

  -- The price that `from_row` makes of a row, once its day and its interval are read.
  pub price_of_row : Dict Cell → ℕ → PriceInterval → Result Error MarketPrice
  unfolding market_price
  price_of_row row day hour = do
    location ← text_cell (cell row (codes "location"))
    logical_key ← text_cell (cell row (codes "logical_key"))
    content_id ← text_cell (cell row (codes "content_id"))
    content_hash ← text_cell (cell row (codes "content_hash"))
    transition_id ← text_cell (cell row (codes "transition_id"))
    state_run_id ← text_cell (cell row (codes "state_run_id"))
    state_ordinal ← integer_cell (cell row (codes "state_ordinal"))
    commit_sequence ← integer_cell (cell row (codes "commit_sequence"))
    first_seen_at ← timestamp_cell (cell row (codes "first_seen_at"))
    state_known_at ← timestamp_cell (cell row (codes "state_known_at"))
    market_price (record {
      interval = hour;
      market_date = day;
      location = location;
      logical_key = logical_key;
      content_id = content_id;
      content_hash = content_hash;
      transition_id = transition_id;
      state_run_id = state_run_id;
      state_ordinal = state_ordinal;
      commit_sequence = commit_sequence;
      first_seen_at = first_seen_at;
      state_known_at = state_known_at;
    })

  unfoldable pub from_row : Dict Cell → Result Error MarketPrice
  unfolding price_of_row price_interval
  from_row row = do
    raise_if (any (is_missing row) input_columns) validation
    check_constants row
    day ← date_cell (cell row (codes "market_date"))
    raise_if (not (is_price (cell row (codes "lmp")))) validation
    start ← timestamp_cell (cell row (codes "interval_start_utc"))
    end ← timestamp_cell (cell row (codes "interval_end_utc"))
    price ← price_cell (cell row (codes "lmp"))
    hour ← price_interval floats start end price
    price_of_row row day hour

-- The requests of `n` days from `start`.
requests_from : ℕ → ℕ → Text → ℕ → Result Error (List Request)
requests_from today start location zero = ok []
requests_from today start location (suc n) = do
  r ← request today (codes "lmp") start (some location)
  rest ← requests_from today (start + 1) location n
  ok (r ∷ rest)

-- `requests`. An end before the start leaves no days.
unfoldable pub requests : ℕ → ℕ → ℕ → Text → Result Error (List Request)
unfolding requests_from
requests today start end location = do
  raise_if (ltb (end + 1 - start) 1 || ltb 7 (end + 1 - start)) validation
  requests_from today start location (end + 1 - start)
