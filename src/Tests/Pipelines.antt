-- ===== src/Tests/Pipelines.antt =====
-- A backfill of one day of loads, with dbt and its verification.
use power_market_data_platfo.Base.{
  ◌≡◌, refl, true, false, List, [], ◌∷◌, Option, none, some, All, if◌then◌else◌, ℤ, pos, Text,
  codes, text_eq, ok,
}
use power_market_data_platfo.Identity.{digest}
use power_market_data_platfo.Identity.Json.{dumps}
use power_market_data_platfo.Time.Calendar.{date_text}
use power_market_data_platfo.Domain.{Observation}
use power_market_data_platfo.Warehouse.Request.{Request, request, request_id, validate_run_id}
use power_market_data_platfo.Warehouse.Tables.{Status, started, succeeded}
use power_market_data_platfo.Warehouse.Batch.{batch_rows}
use power_market_data_platfo.Warehouse.Plan.{plan_write}
use power_market_data_platfo.Warehouse.Snapshot.{snapshot}
use power_market_data_platfo.Warehouse.Config.{
  WarehouseConfig, warehouse_config, Environment, from_environment,
}
use power_market_data_platfo.Warehouse.Client.{
  Raised, returned, Remote, Settings, give, get_run, begin,
}
use power_market_data_platfo.Warehouse.Client.Reconcile.{reconcile, persist, ingest}
use power_market_data_platfo.Orchestration.Configuration.{
  configuration, IsSeparate, configuration-IsSeparate,
}
use power_market_data_platfo.Orchestration.Plan.{Backfill, expand, unit_request, unit_of}
use power_market_data_platfo.Orchestration.Execution.{ErrorClass, IngestionResult, execute_unit}
use power_market_data_platfo.Orchestration.Operations.{
  FactRow, Runtime, VerificationResult, validate_runtime, build_dbt, verify,
}
use power_market_data_platfo.Orchestration.Operations.Verified.{IsCovered, verify-IsCovered}
use power_market_data_platfo.Orchestration.Pipeline.{
  BackfillReport, ingest_day, ingest_units, backfill,
}
use power_market_data_platfo.Orchestration.Pipeline.Complete.{
  RunsTasks, IsComplete, backfill-IsComplete,
}
use power_market_data_platfo.Tests.Hash.{encode}
use power_market_data_platfo.Tests.Worlds.{run_id_a}
use power_market_data_platfo.Tests.Services.{
  one_run, settings, midnight, two_dates, one_unit, reported,
}

abbrev environ : Environment
environ name = if text_eq name (codes "GCP_PROJECT_ID") then some (codes "market-1") else none

abbrev read_int : Text → Option ℤ
read_int s = none

abbrev raw : WarehouseConfig
raw = record {
  project = codes "market-1";
  dataset = codes "power_market_raw";
  location = codes "US";
  maximum_bytes_billed = pos 104857600;
}

configured : configuration read_int environ ≡ ok (raw, codes "power_market_analytics")
unfolding configuration from_environment warehouse_config
configured = refl

configuration-IsSeparate_example : IsSeparate raw (codes "power_market_analytics")
configuration-IsSeparate_example =
    configuration-IsSeparate read_int environ raw (codes "power_market_analytics") configured

abbrev fact : FactRow
fact = record { market_date = 739000; hub = []; n = 3; keys = 3; ineligible = 0 }

abbrev runtime : Runtime Status
runtime = record {
  get_table = λ name. give tt;
  query_facts = λ c relation first last hubs. give (fact ∷ []);
  job_bytes = give (1, 2);
  has_dbt = give true;
  destination = λ id. give (codes "artifacts");
  check_cost_cap = λ d. give (pos 0);
  dbt_build = λ d. give (some (pos 0));
  run_results = λ d. give (codes "success" ∷ codes "pass" ∷ []);
}

abbrev fixed_id : Text → Text → Text
fixed_id n s = run_id_a

abbrev two_rows : IngestionResult
two_rows = record reported { accepted_rows = 2 }

abbrev verification : VerificationResult
verification = record {
  status = codes "passed";
  request_counts = (codes "2024-04-25/load/CAISO", 3) ∷ [];
  bytes_processed = 1;
  bytes_billed = 2;
}

verified :
    verify encode two_dates fixed_id 739100 midnight read_int environ runtime
      (one_unit ∷ [])
      (two_rows ∷ [])
      started
    ≡ (returned verification, started)
unfolding verify configuration from_environment warehouse_config unit_request request date_text
verified = refl

verify-IsCovered_example : All (IsCovered verification.request_counts) (two_rows ∷ [])
verify-IsCovered_example =
    verify-IsCovered encode two_dates fixed_id 739100 midnight read_int environ runtime
      (one_unit ∷ []) (two_rows ∷ []) started started verification verified

abbrev one_day : Backfill
one_day = record {
  backfill_id = run_id_a;
  start_date = codes "2024-04-25";
  end_date = codes "2024-04-25";
  ingest_lmp = false;
  ingest_load = true;
  locations = [];
  run_dbt = true;
  concurrency = pos 1;
}

abbrev settings_of : WarehouseConfig → Settings
settings_of config = record settings {
  project = config.project;
  dataset = config.dataset;
  location = config.location;
}

abbrev no_chain : Raised → List ErrorClass
no_chain e = []

abbrev no_rows : Request → Remote Status (List Observation)
no_rows q = give []

abbrev run_once : Remote Status IngestionResult → Remote Status IngestionResult
run_once task = task

run_once-RunsTasks : RunsTasks run_once
run_once-RunsTasks task s t r h = (s, t, h)

abbrev complete : BackfillReport
complete = record {
  backfill_id = run_id_a;
  start_date = codes "2024-04-25";
  end_date = codes "2024-04-25";
  ingestions = reported ∷ [];
  dbt = record {
    status = codes "passed";
    exit_code = pos 0;
    result_count = 2;
    log_path = codes "artifacts/dbt.log";
  };
  verification = verification;
}

completed :
    backfill encode two_dates fixed_id 739100 midnight one_run settings_of no_chain no_rows read_int
      environ runtime run_once one_day started
    ≡ (returned complete, succeeded)
unfolding backfill expand validate_run_id date_text request validate_runtime configuration
    from_environment warehouse_config ingest_units ingest_day execute_unit unit_request ingest begin
    get_run persist reconcile batch_rows snapshot plan_write request_id digest dumps build_dbt
    verify unit_of
completed = refl

backfill-IsComplete_example :
    IsComplete encode two_dates fixed_id 739100 midnight one_run settings_of no_chain no_rows
      read_int environ runtime run_once one_day complete
backfill-IsComplete_example =
    backfill-IsComplete encode two_dates fixed_id 739100 midnight one_run settings_of no_chain
      no_rows read_int environ runtime run_once one_day started succeeded complete
      run_once-RunsTasks completed
