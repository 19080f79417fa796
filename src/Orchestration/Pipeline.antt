-- ===== src/Orchestration/Pipeline.antt =====
-- orchestration/flyte_pipeline.py: the tasks and the graph of a backfill. Flyte, which runs the tasks
-- and repeats the ones that may be retried, is the parameter `run_task`; what is printed is left out.
pub mod Complete
use power_market_data_platfo.Base.{
  ℕ, Bool, true, false, not, List, [], ◌∷◌, Option, Text, codes, ℤ, pos, if◌then◌else◌,
}
use power_market_data_platfo.Base
use power_market_data_platfo.Errors.{Error, retryable_ingestion, warehouse}
use power_market_data_platfo.Domain.{Observation}
use power_market_data_platfo.Warehouse.Config.{WarehouseConfig, Environment, from_environment}
use power_market_data_platfo.Warehouse.Request.{Request}
use power_market_data_platfo.Warehouse.Scripts.{is_succeeded}
use power_market_data_platfo.Warehouse.Client.{
  Raised, platform, google, other, Answer, returned, raised, Remote, give, throw, lift, attempt,
  ◌>>=◌, Service, Settings,
}
use power_market_data_platfo.Orchestration.Plan.{PlanUnit, Backfill, expand}
use power_market_data_platfo.Orchestration.Execution.{ErrorClass, IngestionResult, execute_unit}
use power_market_data_platfo.Orchestration.Operations.{
  DbtResult, VerificationResult, Runtime, validate_runtime, build_dbt, verify,
}

pub record BackfillReport : Type 0 where
  pub backfill_id : Text
  pub start_date : Text
  pub end_date : Text
  pub ingestions : List IngestionResult
  pub dbt : DbtResult
  pub verification : VerificationResult

-- `raise NonRecoverableError(...)`.
abbrev pub non_recoverable : {S A : Type 0} → Remote S A
non_recoverable = throw (other (codes "NonRecoverableError"))

-- What a failed ingestion raises: only RetryableIngestionError stays as it is.
abbrev pub reraised : {S : Type 0} → Answer IngestionResult → Remote S IngestionResult
reraised (returned r) = give r
reraised (raised (platform retryable_ingestion)) = throw (platform retryable_ingestion)
reraised (raised e) = non_recoverable

abbrev pub skipped_dbt : DbtResult
skipped_dbt = record {
  status = codes "skipped";
  exit_code = pos 0;
  result_count = 0;
  log_path = [];
}

abbrev pub skipped_verification : VerificationResult
skipped_verification = record {
  status = codes "skipped";
  request_counts = [];
  bytes_processed = 0;
  bytes_billed = 0;
}

module _ (sha256 : Text → Text) (fromisoformat : Text → Option ℕ) (uuid5 : Text → Text → Text)
    (today : ℕ) (midnight : ℕ → ℕ) {S : Type 0} (service : Service S)
    (settings_of : WarehouseConfig → Settings) (chain : Raised → List ErrorClass)
    (fetch : Request → Remote S (List Observation)) (read_int : Text → Option ℤ)
    (environ : Environment) (runtime : Runtime S)
    (run_task : Remote S IngestionResult → Remote S IngestionResult) where
  -- A unit, under the configuration from the environment.
  abbrev pub configured_unit : PlanUnit → Remote S IngestionResult
  configured_unit u = do
    config ← lift (from_environment read_int environ)
    execute_unit sha256 fromisoformat uuid5 today midnight service (settings_of config) chain fetch
        u

  -- `ingest_day`.
  unfoldable pub ingest_day : PlanUnit → Remote S IngestionResult
  ingest_day u = do outcome ← attempt (configured_unit u); reraised outcome

  abbrev pub require_success : IngestionResult → Remote S IngestionResult
  require_success r = if is_succeeded r.status then give r else non_recoverable

  -- The loop over the units.
  unfoldable pub ingest_units : List PlanUnit → Remote S (List IngestionResult)
  ingest_units [] = give []
  ingest_units (u ∷ us) = do
    result ← run_task (ingest_day u)
    kept ← require_success result
    rest ← ingest_units us
    give (kept ∷ rest)

  abbrev pub analyse :
      Backfill → List PlanUnit → List IngestionResult → Remote S (DbtResult × VerificationResult)
  analyse spec units results = do
    dbt ←
        build_dbt sha256 fromisoformat uuid5 today midnight read_int environ runtime
          spec.backfill_id
    verified ←
        verify sha256 fromisoformat uuid5 today midnight read_int environ runtime units results
    give (dbt, verified)

  unfoldable pub backfill : Backfill → Remote S BackfillReport
  backfill spec = do
    units ← lift (expand sha256 fromisoformat uuid5 today midnight spec)
    valid ←
        validate_runtime sha256 fromisoformat uuid5 today midnight read_int environ runtime
          spec.run_dbt
    results ← ingest_units units
    (dbt, verified) ←
        (if spec.run_dbt
          then analyse spec units results
          else give (skipped_dbt, skipped_verification))
    give (record {
      backfill_id = spec.backfill_id;
      start_date = spec.start_date;
      end_date = spec.end_date;
      ingestions = results;
      dbt = dbt;
      verification = verified;
    })
