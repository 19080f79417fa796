-- ===== src/Orchestration/Operations.antt =====
-- orchestration/operations.py: the configuration, the run of dbt, and the check of the facts behind
-- a backfill. BigQuery, the processes and the file system are parameters.
pub mod Verified
use power_market_data_platfo.Base.{
  ℕ, ◌+◌, Bool, true, false, ◌&&◌, ◌||◌, not, List, [], ◌∷◌, ◌++◌, map, Option, none, some, is_some,
  any, ltb, ◌==◌, if◌then◌else◌, length, filter, ℤ, pos, eq_ℤ, Text, codes, text_eq, contains, Dict,
  lookup, insert,
}
use power_market_data_platfo.Base
use power_market_data_platfo.Errors.{Error, warehouse}
use power_market_data_platfo.Time.Calendar.{date_text}
use power_market_data_platfo.Warehouse.Config.{WarehouseConfig, Environment}
use power_market_data_platfo.Warehouse.Request.{Request, Product, product_text, validate_run_id}
use power_market_data_platfo.Warehouse.Client.{Raised, Remote, give, throw, lift, platform, ◌>>=◌}
use power_market_data_platfo.Orchestration.Configuration.{configuration}
use power_market_data_platfo.Orchestration.Plan.{PlanUnit, unit_request, sort_texts}
use power_market_data_platfo.Orchestration.Execution.{IngestionResult}

pub record DbtResult : Type 0 where
  pub status : Text
  pub exit_code : ℤ
  pub result_count : ℕ
  pub log_path : Text

pub record VerificationResult : Type 0 where
  pub status : Text
  pub request_counts : Dict ℕ
  pub bytes_processed : ℕ
  pub bytes_billed : ℕ

-- A row of the query on a fact table.
pub record FactRow : Type 0 where
  pub market_date : ℕ
  pub hub : Text
  pub n : ℕ
  pub keys : ℕ
  pub ineligible : ℕ

-- What the operations call: the table's metadata, the query of a relation between two dates for some
-- hubs, the bytes of all jobs, and the subprocesses and files of the run of dbt. `dbt_build` gives no
-- exit code after a timeout.
pub record Runtime (S : Type 0) : Type 0 where
  pub get_table : Text → Remote S (Unit {0})
  pub query_facts : WarehouseConfig → Text → ℕ → ℕ → List Text → Remote S (List FactRow)
  pub job_bytes : Remote S (ℕ × ℕ)
  pub has_dbt : Remote S Bool
  pub destination : Text → Remote S Text
  pub check_cost_cap : Text → Remote S ℤ
  pub dbt_build : Text → Remote S (Option ℤ)
  pub run_results : Text → Remote S (List Text)

-- `text or "CAISO"`.
abbrev pub or_caiso : Text → Text
or_caiso [] = codes "CAISO"
or_caiso (c ∷ s) = c ∷ s

-- `Unit.label`, of a day, a product and a hub.
abbrev pub label_of : Text → Text → Text → Text
label_of day product hub = day ++ (b'/' ∷ product ++ (b'/' ∷ or_caiso hub))

abbrev pub label : PlanUnit → Text
label u = label_of u.day u.product u.location

-- The table of facts of a product.
abbrev pub fact_table : Product → Text
fact_table Product.lmp = codes "fct_hourly_lmp"
fact_table Product.load = codes "fct_system_load_5min"

-- The items of a set.
abbrev pub distinct : List Text → List Text
distinct [] = []
distinct (t ∷ ts) = let rest = distinct ts in if contains t rest then rest else t ∷ rest

abbrev pub hubs_of : Product → List PlanUnit → List Text
hubs_of Product.lmp units = sort_texts (distinct (map (λ u. u.location) units))
hubs_of Product.load units = []

abbrev pub last_unit : PlanUnit → List PlanUnit → PlanUnit
last_unit u [] = u
last_unit u (v ∷ us) = last_unit v us

abbrev pub is_unsound : FactRow → Bool
is_unsound row = not (row.n == row.keys) || not (row.ineligible == 0)

-- The loop over the rows of a product.
abbrev pub count_rows : Product → List FactRow → Dict ℕ → Base.Result Error (Dict ℕ)
count_rows product [] counts = Base.ok counts
count_rows product (row ∷ rows) counts =
    if is_unsound row
    then Base.err warehouse
    else count_rows product rows
        (insert (label_of (date_text row.market_date) (product_text product) row.hub) row.n counts)

-- `counts.get(key, 0)`.
abbrev pub get_or_zero : Text → Dict ℕ → ℕ
get_or_zero key counts = elim (lookup key counts) [ none ↦ 0 | some n ↦ n ]

-- `counts.setdefault(key, 0)`.
abbrev pub set_default : Text → Dict ℕ → Dict ℕ
set_default key counts = if is_some (lookup key counts) then counts else insert key 0 counts

-- The loop over the results.
abbrev pub check_results : List IngestionResult → Dict ℕ → Base.Result Error (Dict ℕ)
check_results [] counts = Base.ok counts
check_results (r ∷ rs) counts =
    if ltb (get_or_zero (label r.unit) counts) r.accepted_rows
    then Base.err warehouse
    else check_results rs (set_default (label r.unit) counts)

module _ (sha256 : Text → Text) (fromisoformat : Text → Option ℕ) (uuid5 : Text → Text → Text)
    (today : ℕ) (midnight : ℕ → ℕ) (read_int : Text → Option ℤ) (environ : Environment) {S : Type 0}
    (runtime : Runtime S) where
  -- `validate_runtime`.
  unfoldable pub validate_runtime : Bool → Remote S (Unit {0})
  validate_runtime run_dbt = do
    settings ← lift (configuration read_int environ)
    installed ← (if run_dbt then runtime.has_dbt else give true)
    lift (Base.raise_if (not installed) warehouse)

  abbrev pub is_success : Text → Bool
  is_success status = text_eq status (codes "success") || text_eq status (codes "pass")

  abbrev pub exit_code_of : Option ℤ → Remote S ℤ
  exit_code_of none = throw (platform warehouse)
  exit_code_of (some code) = give code

  abbrev is_empty : List Text → Bool
  is_empty [] = true
  is_empty _ = false

  -- `build_dbt`, whose folder is `destination`.
  unfoldable pub build_dbt : Text → Remote S DbtResult
  build_dbt backfill_id = do
    valid ← lift (validate_run_id backfill_id)
    settings ← lift (configuration read_int environ)
    destination ← runtime.destination backfill_id
    cap ← runtime.check_cost_cap destination
    capped ← lift (Base.raise_if (not (eq_ℤ cap (pos 0))) warehouse)
    answer ← runtime.dbt_build destination
    code ← exit_code_of answer
    built ← lift (Base.raise_if (not (eq_ℤ code (pos 0))) warehouse)
    statuses ← runtime.run_results destination
    passed ← lift (
        Base.raise_if (is_empty statuses || any (λ status. not (is_success status)) statuses)
          warehouse)
    give (record {
      status = codes "passed";
      exit_code = code;
      result_count = length statuses;
      log_path = destination ++ codes "/dbt.log";
    })

  -- The counts of one product, of its units.
  abbrev pub count_units :
      WarehouseConfig → Text → Product → List PlanUnit → Dict ℕ → Remote S (Dict ℕ)
  count_units raw analytics product [] counts = give counts
  count_units raw analytics product (u ∷ us) counts = do
    let relation = raw.project ++ (b'.' ∷ analytics ++ (b'.' ∷ fact_table product))
    found ← runtime.get_table relation
    first ← lift (unit_request sha256 fromisoformat uuid5 today midnight u)
    last ← lift (unit_request sha256 fromisoformat uuid5 today midnight (last_unit u us))
    rows ← runtime.query_facts raw relation first.day last.day (hubs_of product (u ∷ us))
    lift (count_rows product rows counts)

  abbrev pub units_of : Product → List PlanUnit → List PlanUnit
  units_of product units = filter (λ u. text_eq u.product (product_text product)) units

  unfoldable pub verify : List PlanUnit → List IngestionResult → Remote S VerificationResult
  verify units results = do
    (raw, analytics) ← lift (configuration read_int environ)
    prices ← count_units raw analytics Product.lmp (units_of Product.lmp units) []
    both ← count_units raw analytics Product.load (units_of Product.load units) prices
    counts ← lift (check_results results both)
    (processed, billed) ← runtime.job_bytes
    give (record {
      status = codes "passed";
      request_counts = counts;
      bytes_processed = processed;
      bytes_billed = billed;
    })
