-- ===== src/Sources/Frame.antt =====
-- `_rows` of sources/caiso.py: what gridstatus returns, and its rows as dictionaries. The objects
-- of pandas are a data type of the values that the adapter tells apart.
use power_market_data_platfo.Base.{
  ℕ, Bool, not, List, [], ◌∷◌, none, some, all, is_some, Text, contains, has_repeats, Dict, lookup,
  Result, ok, err, ◌>>=◌, ◌>>◌, raise_if,
}
use power_market_data_platfo.Errors.{Error, schema, upstream_request, unhandled}
use power_market_data_platfo.Time.{Datetime}
use power_market_data_platfo.Identity.Decimal.{Decimal}

-- A cell. A number is the decimal that `Decimal(str(value))` reads of it; `huge` is an integer with
-- more digits than `str` writes, which raises ValueError; a moment has the nanoseconds that a pandas
-- timestamp keeps beside the datetime.
pub data Value : Type 0 where
  null other huge : Value
  flag : Bool → Value
  number : Decimal → Value
  text : Text → Value
  moment : Datetime → ℕ → Value

-- A column's name, or a key of a row.
pub data Key : Type 0 where
  name : Text → Key
  unnamed : Key

pub data RowObject : Type 0 where
  fields : List (Key × Value) → RowObject
  not_dict : RowObject

-- `list(frame.columns)`: the names, a TypeError, or an exception of another class.
pub data Columns : Type 0 where
  named : List Key → Columns
  not_iterable : Columns
  interrupted : Text → Columns

-- `to_dict("records")`: a list, something else, a TypeError or ValueError, or an exception of another
-- class.
pub data Records : Type 0 where
  listed : List RowObject → Records
  not_list not_converted : Records
  failed : Text → Records

pub data Frame : Type 0 where
  frame : Columns → Records → Frame
  not_frame : Frame

abbrev pub names_of : List Key → Result Error (List Text)
names_of [] = ok []
names_of (unnamed ∷ ks) = err schema
names_of (name s ∷ ks) = do rest ← names_of ks; ok (s ∷ rest)

abbrev pub columns_of : Columns → Result Error (List Text)
columns_of (named ks) = names_of ks
columns_of not_iterable = err schema
columns_of (interrupted class) = err (unhandled class)

abbrev pub dict_of : List (Key × Value) → Result Error (Dict Value)
dict_of [] = ok []
dict_of ((unnamed, v) ∷ fs) = err schema
dict_of ((name s, v) ∷ fs) = do rest ← dict_of fs; ok ((s, v) ∷ rest)

abbrev pub row_object : List Text → RowObject → Result Error (Dict Value)
row_object required not_dict = err schema
row_object required (fields fs) = do
  row ← dict_of fs
  raise_if (not (all (λ c. is_some (lookup c row)) required)) schema
  ok row

abbrev pub listed_rows : List Text → List RowObject → Result Error (List (Dict Value))
listed_rows required [] = ok []
listed_rows required (r ∷ rs) = do
  row ← row_object required r
  rest ← listed_rows required rs
  ok (row ∷ rest)

abbrev pub records_of : List Text → Records → Result Error (List (Dict Value))
records_of required (listed rs) = listed_rows required rs
records_of required not_list = err schema
records_of required not_converted = err schema
records_of required (failed class) = err (unhandled class)

abbrev pub refuse_empty : List (Dict Value) → Result Error (List (Dict Value))
refuse_empty [] = err upstream_request
refuse_empty (r ∷ rs) = ok (r ∷ rs)

-- `_rows`.
unfoldable pub source_rows : List Text → Frame → Result Error (List (Dict Value))
source_rows required not_frame = err schema
source_rows required (frame columns records) = do
  names ← columns_of columns
  raise_if (has_repeats names) schema
  raise_if (not (all (λ c. contains c names) required)) schema
  rows ← records_of required records
  refuse_empty rows

-- `row[name]`, of a row that `source_rows` has found complete.
abbrev pub field : Dict Value → Text → Value
field row c = elim (lookup c row) [ none ↦ null | some v ↦ v ]
