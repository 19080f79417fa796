-- ===== src/Warehouse/Config.antt =====
-- `WarehouseConfig` of model.py. Each regular expression is a test on the characters of a text.
pub mod Names
use power_market_data_platfo.Base.{
  ℕ, Bool, true, false, ◌&&◌, ◌||◌, not, [], ◌∷◌, ◌++◌, leb, ◌==◌, if◌then◌else◌, length, all, ℤ,
  pos, negsuc, Option, none, some, Text, codes, Result, ok, err, ◌>>=◌, ◌>>◌, raise_if,
}
use power_market_data_platfo.Errors.{Error, warehouse}

abbrev pub max_bytes_billed : ℕ
max_bytes_billed = 104857600

abbrev pub is_lower : ℕ → Bool
is_lower c = leb b'a' c && leb c b'z'

abbrev pub is_upper : ℕ → Bool
is_upper c = leb b'A' c && leb c b'Z'

abbrev pub is_digit : ℕ → Bool
is_digit c = leb b'0' c && leb c b'9'

abbrev pub is_project_char : ℕ → Bool
is_project_char c = is_lower c || is_digit c || (c == b'-')

abbrev pub is_word : ℕ → Bool
is_word c = is_lower c || is_upper c || is_digit c || (c == b'_')

abbrev ends_well : Text → Bool
ends_well [] = false
ends_well (c ∷ []) = is_lower c || is_digit c
ends_well (c ∷ d ∷ s) = ends_well (d ∷ s)

-- `[a-z][a-z0-9-]{4,28}[a-z0-9]`.
abbrev pub is_project : Text → Bool
is_project [] = false
is_project (c ∷ s) =
    is_lower c && all is_project_char s && ends_well s && leb 5 (length s) && leb (length s) 29

-- `[A-Za-z_][A-Za-z0-9_]{0,127}`.
abbrev pub is_dataset : Text → Bool
is_dataset [] = false
is_dataset (c ∷ s) = not (is_digit c) && is_word c && all is_word s && leb (length s) 127

-- `[A-Za-z0-9-]+`.
abbrev pub is_location : Text → Bool
is_location [] = false
is_location (c ∷ s) = all (λ d. is_lower d || is_upper d || is_digit d || (d == b'-')) (c ∷ s)

-- `[a-z_]+`.
abbrev pub is_table_name : Text → Bool
is_table_name [] = false
is_table_name (c ∷ s) = all (λ d. is_lower d || (d == b'_')) (c ∷ s)

abbrev pub is_allowance : ℤ → Bool
is_allowance (pos n) = leb 1 n && leb n max_bytes_billed
is_allowance (negsuc n) = false

pub record WarehouseConfig : Type 0 where
  pub project : Text
  pub dataset : Text
  pub location : Text
  pub maximum_bytes_billed : ℤ

-- `WarehouseConfig.__post_init__`.
unfoldable pub warehouse_config : Text → Text → Text → ℤ → Result Error WarehouseConfig
warehouse_config project dataset location maximum = do
  raise_if (not (is_project project)) warehouse
  raise_if (not (is_dataset dataset)) warehouse
  raise_if (not (is_location location)) warehouse
  raise_if (not (is_allowance maximum)) warehouse
  ok (record {
    project = project;
    dataset = dataset;
    location = location;
    maximum_bytes_billed = maximum;
  })

-- `WarehouseConfig.table`.
unfoldable pub table : WarehouseConfig → Text → Result Error Text
table config name = do
  raise_if (not (is_table_name name)) warehouse
  ok (config.project ++ (b'.' ∷ config.dataset) ++ (b'.' ∷ name))

-- `os.environ.get`.
abbrev pub Environment : Type 0
Environment = Text → Option Text

abbrev pub variable : Environment → Text → Text → Text
variable environ name default = elim (environ name) [ none ↦ default | some s ↦ s ]

-- The cap from the environment; `read_int` is `int` of a text.
abbrev pub maximum_of : (Text → Option ℤ) → Environment → Result Error ℤ
maximum_of read_int environ = elim (environ (codes "BQ_MAXIMUM_BYTES_BILLED")) [
  | none ↦ ok (pos max_bytes_billed)
  | some s ↦ elim (read_int s) [ none ↦ err warehouse | some n ↦ ok n ]
]

-- `WarehouseConfig.from_environment`.
unfoldable pub from_environment : (Text → Option ℤ) → Environment → Result Error WarehouseConfig
from_environment read_int environ = do
  maximum ← maximum_of read_int environ
  warehouse_config (variable environ (codes "GCP_PROJECT_ID") [])
      (variable environ (codes "BQ_RAW_DATASET") (codes "power_market_raw"))
      (variable environ (codes "BQ_LOCATION") (codes "US")) maximum
