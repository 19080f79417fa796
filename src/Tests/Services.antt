-- ===== src/Tests/Services.antt =====
-- The client against a service that commits and finalizes one run, and a plan of two days.
use power_market_data_platfo.Base.{
  ℕ, ◌+◌, ◌*◌, ◌≤◌, ◌<◌, ◌≡◌, refl, sym, subst, ◌⊎◌, inl, inr, true, false, List, [], ◌∷◌, ◌++◌,
  Option, none, some, Text, codes, text_eq, All, Result, ok, err, pos, arith, if◌then◌else◌,
}
use power_market_data_platfo.Errors.{Error}
use power_market_data_platfo.Identity.{digest}
use power_market_data_platfo.Identity.Json.{dumps}
use power_market_data_platfo.Time.Calendar.{date_text}
use power_market_data_platfo.Warehouse.Request.{
  Request, Product, request, request_id, validate_run_id,
}
use power_market_data_platfo.Warehouse.Tables.{Run, Status, started, committed, succeeded}
use power_market_data_platfo.Identity.Json.Injective.{basic}
use power_market_data_platfo.Warehouse.Requests.{request_id_injective}
use power_market_data_platfo.Warehouse.Batch.{batch_rows}
use power_market_data_platfo.Warehouse.Plan.{plan_write}
use power_market_data_platfo.Warehouse.Snapshot.{snapshot}
use power_market_data_platfo.Warehouse.Config.{WarehouseConfig, warehouse_config, table}
use power_market_data_platfo.Warehouse.Config.Names.{IsQuotable, table-IsQuotable}
use power_market_data_platfo.Warehouse.Writers.{bootstrapped}
use power_market_data_platfo.Warehouse.Client.{
  returned, give, Job, Service, Settings, get_run, begin,
}
use power_market_data_platfo.Warehouse.Client.Reconcile.{reconcile, persist, ingest}
use power_market_data_platfo.Warehouse.Client.Returns.{reconcile-succeeded, ingest-succeeded}
use power_market_data_platfo.Warehouse.Client.Pending.{IsPending, reconcile-IsPending}
use power_market_data_platfo.Orchestration.Plan.{Backfill, PlanUnit, expand, unit_request}
use power_market_data_platfo.Orchestration.Plan.Rebuilt.{ReadsDates, IsRebuilt, expand-IsRebuilt}
use power_market_data_platfo.Orchestration.Execution.{IngestionResult, execute_unit}
use power_market_data_platfo.Orchestration.Execution.Reported.{IsReported, execute_unit-IsReported}
use power_market_data_platfo.Tests.Hash.{encode, encode-IsCollisionFree}
use power_market_data_platfo.Tests.Worlds.{day, run, run_id_a}

abbrev pub one_request : Request
one_request = record { product = Product.load; day = day; location = none }

abbrev pub midnight : ℕ → ℕ
midnight d = d * 86400000000

-- The manifest of the run, in the state of the service.
abbrev pub manifest : Status → Run
manifest status = record (run run_id_a) {
  status = status;
  request_id = request_id encode one_request;
  rows_accepted = some 0;
  new_contents = some 0;
  new_transitions = some 0;
}

abbrev pub job : Job
job = record {
  job_id = codes "job";
  done = true;
  error_result = false;
  ended = some 7;
  total_bytes_processed = some 1;
  total_bytes_billed = none;
}

abbrev pub commit_job : Status → Option Job
commit_job started = none
commit_job s = some job

abbrev pub one_run : Service Status
one_run = record {
  begin_run = λ row s. (returned tt, s);
  runs = λ id s. (returned (manifest s ∷ []), s);
  read_tables = give bootstrapped;
  get_commit_job = λ id s. (returned (commit_job s), s);
  wait = give;
  reload = give;
  submit_commit = λ p q s. (returned tt, committed);
  finalize = λ p q s. (returned tt, succeeded);
  record_failure = λ p s. (returned tt, Status.failed);
}

abbrev pub settings : Settings
settings = record {
  project = codes "project";
  dataset = codes "raw";
  location = codes "US";
  package_version = codes "1";
  library_version = codes "1";
  code_revision = none;
}

reconciled :
    reconcile encode midnight one_run settings run_id_a committed
    ≡ (returned (some (manifest succeeded)), succeeded)
unfolding reconcile get_run validate_run_id
reconciled = refl

reconcile-succeeded_example : succeeded ≡ succeeded
reconcile-succeeded_example =
    reconcile-succeeded encode midnight one_run settings run_id_a committed succeeded
      (manifest succeeded) reconciled

unsettled : reconcile encode midnight one_run settings run_id_a started ≡ (returned none, started)
unfolding reconcile get_run validate_run_id
unsettled = refl

reconcile-IsPending_example : IsPending encode midnight one_run settings run_id_a started
reconcile-IsPending_example =
    reconcile-IsPending encode midnight one_run settings run_id_a started started unsettled

ingested :
    ingest encode midnight one_run settings one_request run_id_a (give []) started
    ≡ (returned (manifest succeeded), succeeded)
unfolding ingest begin get_run persist reconcile validate_run_id batch_rows snapshot plan_write
    request_id digest dumps date_text
ingested = refl

ingest-succeeded_example : succeeded ≡ succeeded
ingest-succeeded_example =
    ingest-succeeded encode midnight one_run settings one_request run_id_a (give []) started
      succeeded (manifest succeeded) ingested

-- Two dates, as texts.
abbrev pub two_dates : Text → Option ℕ
two_dates s =
    if text_eq s (date_text 739000)
    then some 739000
    else if text_eq s (date_text 739001)
    then some 739001
    else none

first_read : two_dates (date_text 739000) ≡ some 739000
unfolding date_text
first_read = refl

second_read : two_dates (date_text 739001) ≡ some 739001
unfolding date_text
second_read = refl

reads_two : (d : ℕ) → 739000 ≤ d → d < 739002 → two_dates (date_text d) ≡ some d
reads_two d low high = elim (two d low high) [
  | inl e ↦ subst (λ n. two_dates (date_text n) ≡ some n) (sym e) first_read
  | inr e ↦ subst (λ n. two_dates (date_text n) ≡ some n) (sym e) second_read
]
  where
    two : (d : ℕ) → 739000 ≤ d → d < 739002 → (d ≡ 739000) ⊎ (d ≡ 739001)
    two d low high = ground arith

two_dates-ReadsDates : ReadsDates 739000 739002 two_dates
two_dates-ReadsDates = record { reads = reads_two; in_range = λ s d h. ground (arith, h) }

abbrev two_days : Backfill
two_days = record {
  backfill_id = run_id_a;
  start_date = codes "2024-04-25";
  end_date = codes "2024-04-26";
  ingest_lmp = true;
  ingest_load = true;
  locations = codes "TH_SP15_GEN-APND" ∷ codes "TH_NP15_GEN-APND" ∷ [];
  run_dbt = false;
  concurrency = pos 1;
}

abbrev units_or : Result Error (List PlanUnit) → List PlanUnit
units_or (ok us) = us
units_or (err e) = []

abbrev six_units : List PlanUnit
six_units = units_or (expand encode two_dates (λ n s. n ++ s) 739100 midnight two_days)

expanded : expand encode two_dates (λ n s. n ++ s) 739100 midnight two_days ≡ ok six_units
unfolding expand validate_run_id date_text request
expanded = refl

expand-IsRebuilt_example :
    (start : ℕ) × (end : ℕ) × (two_dates (codes "2024-04-25") ≡ some start)
    × (two_dates (codes "2024-04-26") ≡ some end)
    × (start ≤ end)
    × (end < start + 7)
    × All
        (IsRebuilt encode two_dates 739000 739002 two_dates-ReadsDates
          (λ n s. n ++ s)
          739100
          midnight
          two_days
          start
          end)
        six_units
expand-IsRebuilt_example =
    expand-IsRebuilt encode two_dates 739000 739002 two_dates-ReadsDates (λ n s. n ++ s) 739100
      midnight two_days six_units expanded

abbrev hub_request : Request
hub_request = record {
  product = Product.lmp;
  day = day;
  location = some (codes "TH_NP15_GEN-APND");
}

request_id_injective_example :
    (Product.lmp ≡ Product.lmp)
    × (date_text day ≡ date_text day)
    × (codes "TH_NP15_GEN-APND" ≡ codes "TH_NP15_GEN-APND")
request_id_injective_example =
    request_id_injective encode encode-IsCollisionFree hub_request hub_request
      (basic (codes "TH_NP15_GEN-APND") refl) (basic (codes "TH_NP15_GEN-APND") refl) refl

abbrev pub one_unit : PlanUnit
one_unit = record {
  day = codes "2024-04-25";
  product = codes "load";
  location = [];
  run_id = run_id_a;
}

abbrev pub reported : IngestionResult
reported = record {
  unit = one_unit;
  status = succeeded;
  accepted_rows = 0;
  new_contents = 0;
  new_transitions = 0;
  reused_success = false;
}

executed :
    execute_unit encode two_dates
      (λ n s. n ++ s)
      739100
      midnight
      one_run
      settings
      (λ e. [])
      (λ q. give [])
      one_unit
      started
    ≡ (returned reported, succeeded)
unfolding execute_unit unit_request request ingest begin get_run persist reconcile validate_run_id
    batch_rows snapshot plan_write request_id digest dumps date_text
executed = refl

execute_unit-IsReported_example :
    IsReported encode two_dates
      (λ n s. n ++ s)
      739100
      midnight
      one_run
      settings
      (λ e. [])
      (λ q. give [])
      one_unit
      started
      succeeded
      reported
execute_unit-IsReported_example =
    execute_unit-IsReported encode two_dates (λ n s. n ++ s) 739100 midnight one_run settings
      (λ e. []) (λ q. give []) one_unit started succeeded reported executed

abbrev config : WarehouseConfig
config = record {
  project = codes "market-1";
  dataset = codes "raw";
  location = codes "US";
  maximum_bytes_billed = pos 1000;
}

configured : warehouse_config (codes "market-1") (codes "raw") (codes "US") (pos 1000) ≡ ok config
unfolding warehouse_config
configured = refl

qualified : table config (codes "load_contents") ≡ ok (codes "market-1.raw.load_contents")
unfolding table
qualified = refl

table-IsQuotable_example : IsQuotable (codes "market-1.raw.load_contents")
table-IsQuotable_example =
    table-IsQuotable (codes "market-1") (codes "raw") (codes "US") (pos 1000) config
      (codes "load_contents") (codes "market-1.raw.load_contents") configured qualified
