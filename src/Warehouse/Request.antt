-- ===== src/Warehouse/Request.antt =====
-- model.py: requests, run identifiers and the limits of a batch. Today's Pacific date and the
-- instants at which Pacific days begin come from the clock and the zone data, and are arguments.
use power_market_data_platfo.Base.{
  ℕ, ◌+◌, Bool, false, ◌&&◌, ◌||◌, not, [], ◌∷◌, Option, none, some, leb, ◌==◌, if◌then◌else◌,
  length, all, Text, codes, text_eq, contains, Result, ok, err, ◌>>◌, raise_if, is_some,
}
use power_market_data_platfo.Errors.{Error, warehouse}
use power_market_data_platfo.Time.Calendar.{date_text}
use power_market_data_platfo.Domain.{trading_hubs}
use power_market_data_platfo.Identity.{digest}

abbrev pub key_schema : Text
key_schema = codes "observation-key/v1"

abbrev pub content_schema : Text
content_schema = codes "observation-content/v1"

abbrev pub warehouse_schema : Text
warehouse_schema = codes "warehouse/v1"

abbrev pub max_batch_rows : ℕ
max_batch_rows = 300

pub data Product : Type 0 where
  lmp load : Product

abbrev pub product_text : Product → Text
product_text lmp = codes "lmp"
product_text load = codes "load"

pub record Request : Type 0 where
  pub product : Product
  pub day : ℕ
  pub location : Option Text

abbrev pub product_of : Text → Option Product
product_of s =
    if text_eq s (codes "lmp")
    then some lmp
    else if text_eq s (codes "load")
    then some load
    else none

abbrev pub is_hub : Option Text → Bool
is_hub none = false
is_hub (some h) = contains h trading_hubs

-- The checks on the location, by product.
abbrev pub check_location : Product → Option Text → Result Error (Unit {0})
check_location lmp location = raise_if (not (is_hub location)) warehouse
check_location load location = raise_if (is_some location) warehouse

-- `Request.__post_init__`. That the day is a calendar date is its type.
unfoldable pub request : ℕ → Text → ℕ → Option Text → Result Error Request
request today product day location = elim (product_of product) [
  | none ↦ err warehouse
  | some p ↦ (do
    raise_if (leb today day) warehouse
    check_location p location
    ok (record { product = p; day = day; location = location }))
]

-- `Request.bounds`, from the instant at which each Pacific date begins.
abbrev pub bounds : (ℕ → ℕ) → Request → ℕ × ℕ
bounds midnight r = (midnight r.day, midnight (r.day + 1))

abbrev pub or_empty : Option Text → Text
or_empty none = []
or_empty (some s) = s

-- `Request.request_id`.
unfoldable pub request_id : (Text → Text) → Request → Text
request_id sha256 r = digest sha256 (codes "bounded-request/v1") (
    (codes "source", codes "CAISO")
    ∷ (codes "product", product_text r.product)
    ∷ (codes "date", date_text r.day)
    ∷ (codes "location", or_empty r.location)
    ∷ [])

abbrev pub is_lower_hex : ℕ → Bool
is_lower_hex c = (leb b'0' c && leb c b'9') || (leb b'a' c && leb c b'f')

-- `UUID(run_id).hex == run_id` holds of exactly the texts of 32 lowercase hexadecimal digits.
abbrev pub is_run_id : Text → Bool
is_run_id s = (length s == 32) && all is_lower_hex s

-- `validate_run_id`.
unfoldable pub validate_run_id : Text → Result Error Text
validate_run_id s = if is_run_id s then ok s else err warehouse
