-- ===== src/Warehouse/Batch.antt =====
-- model.py: a batch of observations as rows. `batch_rows` validates every record against the
-- request, refuses a repeated logical key, and sorts the rows by key.
pub mod Rows
pub mod Accepted
use power_market_data_platfo.Base.{
  sort_by, ℕ, ◌+◌, Bool, true, false, ◌&&◌, ◌||◌, not, List, [], ◌∷◌, Option, none, some, ltb, leb,
  ◌==◌, if◌then◌else◌, length, Text, codes, text_eq, contains, Result, ok, err, ◌>>=◌, ◌>>◌,
  raise_if,
}
use power_market_data_platfo.Errors.{Error, warehouse}
use power_market_data_platfo.Identity.{digest}
use power_market_data_platfo.Identity.Decimal.{Decimal, decimal_text}
use power_market_data_platfo.Identity.Json.{text_leb}
use power_market_data_platfo.Domain.{
  Observation, interval_start, interval_end, provenance_of, logical_key, content_hash,
}
use power_market_data_platfo.Warehouse.Request.{
  Product, Request, bounds, key_schema, content_schema, max_batch_rows,
}
use power_market_data_platfo.Warehouse.Tables.{Row, Values}

-- `content_id`, of the key and the hash of a record.
module _ (sha256 : Text → Text) where
  unfoldable pub content_id : Text → Text → Text
  content_id key hash = digest sha256 (codes "warehouse-content/v1") (
      (codes "logical_key", key)
      ∷ (codes "content_hash", hash)
      ∷ (codes "logical_key_schema", key_schema)
      ∷ (codes "content_hash_schema", content_schema)
      ∷ [])

abbrev lstrip : ℕ → Text → Text
lstrip c [] = []
lstrip c (d ∷ s) = if d == c then lstrip c s else d ∷ s

-- `text.partition(".")` without the separator.
abbrev partition_dot : Text → Text × Text
partition_dot [] = ([], [])
partition_dot (c ∷ s) =
    if c == b'.' then ([], s) else (c ∷ (partition_dot s).0, (partition_dot s).1)

-- `numeric`: BigQuery's NUMERIC(38, 9) has 29 digits before the point and 9 behind it.
unfoldable pub numeric : Decimal → Result Error Decimal
numeric value = do
  text ← decimal_text value
  let parts = partition_dot (lstrip b'-' text)
  raise_if (ltb 29 (length (lstrip b'0' parts.0)) || ltb 9 (length parts.1)) warehouse
  ok value

-- `isinstance(record, LmpObservation) != (request.product == "lmp")`.
abbrev pub other_product : Observation → Product → Bool
other_product (Observation.lmp _) Product.lmp = false
other_product (Observation.load _) Product.load = false
other_product _ _ = true

abbrev pub other_hub : Observation → Option Text → Bool
other_hub (Observation.lmp r) (some h) = not (text_eq r.location h)
other_hub (Observation.lmp r) none = true
other_hub (Observation.load r) location = false

-- The columns that depend on the product, with every decimal checked by `numeric`.
abbrev pub values_of : Observation → Result Error Values
values_of (Observation.lmp r) = do
  price ← numeric r.lmp
  energy ← numeric r.energy
  congestion ← numeric r.congestion
  loss ← numeric r.loss
  ok (Values.lmp (codes "DAY_AHEAD_HOURLY") r.location price energy congestion loss)
values_of (Observation.load r) = do demand ← numeric r.load; ok (Values.load (codes "CAISO") demand)

abbrev product_column : Observation → Text
product_column (Observation.lmp _) = codes "day_ahead_hourly_lmp"
product_column (Observation.load _) = codes "system_load_5min"

abbrev unit_column : Observation → Text
unit_column (Observation.lmp _) = codes "USD/MWh"
unit_column (Observation.load _) = codes "MW"

abbrev dataset_column : Observation → Text
dataset_column (Observation.lmp _) = codes "PRC_LMP"
dataset_column (Observation.load _) = codes "todays_outlook_demand"

abbrev pub row_le : Row → Row → Bool
row_le r q = text_leb r.logical_key q.logical_key

-- `sorted(rows, key=logical_key)`.
abbrev pub sort_rows : List Row → List Row
sort_rows = sort_by row_le

module _ (sha256 : Text → Text) (midnight : ℕ → ℕ) where
  -- The row of one record, once the checks have passed.
  pub row_of : Request → Observation → Result Error Row
  row_of request record_ = do
    hash ← content_hash sha256 record_
    values ← values_of record_
    let key = logical_key sha256 record_
    ok (record {
      content_id = content_id sha256 key hash;
      logical_key = key;
      content_hash = hash;
      logical_key_schema = key_schema;
      content_hash_schema = content_schema;
      source = codes "CAISO";
      product = product_column record_;
      source_dataset = dataset_column record_;
      market_date = request.day;
      interval_start_utc = interval_start record_;
      interval_end_utc = interval_end record_;
      unit = unit_column record_;
      retrieved_at_utc = (provenance_of record_).retrieved_at_utc;
      source_url = (provenance_of record_).source_url;
      source_method = (provenance_of record_).source_method;
      library_version = (provenance_of record_).library_version;
      values = values;
    })

  -- The checks of one iteration.
  pub check_record : Request → List Text → Observation → Result Error (Unit {0})
  check_record request seen record_ = do
    raise_if (other_product record_ request.product) warehouse
    raise_if
        (not (
            leb (bounds midnight request).0 (interval_start record_)
            && ltb (interval_start record_) (bounds midnight request).1)
          || ltb (bounds midnight request).1 (interval_end record_))
        warehouse
    raise_if (other_hub record_ request.location) warehouse
    raise_if (contains (logical_key sha256 record_) seen) warehouse

  -- The loop over the records; `seen` holds the keys so far.
  pub rows_from : Request → List Text → List Observation → Result Error (List Row)
  unfolding row_of check_record
  rows_from request seen [] = ok []
  rows_from request seen (r ∷ rs) = do
    check_record request seen r
    row ← row_of request r
    rest ← rows_from request (logical_key sha256 r ∷ seen) rs
    ok (row ∷ rest)

  unfoldable pub batch_rows : Request → List Observation → Result Error (List Row)
  unfolding rows_from sort_by
  batch_rows request records = do
    raise_if (ltb max_batch_rows (length records)) warehouse
    rows ← rows_from request [] records
    ok (sort_rows rows)
