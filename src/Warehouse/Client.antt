-- ===== src/Warehouse/Client.antt =====
-- bigquery.py and ingestion.py: the client of the warehouse. BigQuery is a parameter: its state and
-- the calls on it, each of which may raise an exception and may change the state even so.
pub mod Reconcile
pub mod Returns
pub mod Pending
use power_market_data_platfo.Base.{
  ℕ, ◌++◌, Bool, true, false, ◌&&◌, ◌||◌, not, List, [], ◌∷◌, Option, none, some, Text, text_eq,
  if◌then◌else◌,
}
use power_market_data_platfo.Base
use power_market_data_platfo.Errors.{
  Error, unsupported_request, upstream_request, schema, validation, warehouse, commit_unconfirmed,
  unhandled, optimization, retryable_ingestion, value_error,
}
use power_market_data_platfo.Identity.{digest}
use power_market_data_platfo.Identity.Decimal.{take}
use power_market_data_platfo.Domain.{Observation}
use power_market_data_platfo.Warehouse.Request.{
  Product, Request, request_id, validate_run_id, key_schema, content_schema, warehouse_schema,
}
use power_market_data_platfo.Warehouse.Tables.{
  Run, Status, Database, started, committed, succeeded, failed,
}
use power_market_data_platfo.Warehouse.Batch.{batch_rows}
use power_market_data_platfo.Warehouse.Plan.{WritePlan, plan_write}
use power_market_data_platfo.Warehouse.Snapshot.{snapshot}
use power_market_data_platfo.Warehouse.Scripts.{
  CommitParameters, FinalizeParameters, FailureParameters,
}
use power_market_data_platfo.Warehouse.Writers.{commit_parameters}

-- An exception: of this package, a GoogleAPICallError, or another one, with its class name.
pub data Raised : Type 0 where
  platform : Error → Raised
  google other : Text → Raised

pub data Answer (A : Type 0) : Type 0 where
  returned : A → Answer A
  raised : Raised → Answer A

-- A computation on the remote state.
abbrev pub Remote : Type 0 → Type 0 → Type 0
Remote S A = S → Answer A × S

module _ {S A : Type 0} where
  abbrev pub give : A → Remote S A
  give a s = (returned a, s)

  abbrev pub throw : Raised → Remote S A
  throw e s = (raised e, s)

  abbrev pub lift : Base.Result Error A → Remote S A
  lift (Base.ok a) s = (returned a, s)
  lift (Base.err e) s = (raised (platform e), s)

  -- `try`: the outcome of a computation as a value.
  abbrev pub attempt : Remote S A → Remote S (Answer A)
  attempt m s = (returned (m s).0, (m s).1)

  abbrev pub continue_with : {B : Type 0} → (A → Remote S B) → Answer A × S → Answer B × S
  continue_with f (returned a, s) = f a s
  continue_with f (raised e, s) = (raised e, s)

infixl 5 ◌>>=◌
abbrev pub ◌>>=◌ : {S A B : Type 0} → Remote S A → (A → Remote S B) → Remote S B
(m >>= f) s = continue_with f (m s)

-- What the code reads of a query job.
pub record Job : Type 0 where
  pub job_id : Text
  pub done : Bool
  pub error_result : Bool
  pub ended : Option ℕ
  pub total_bytes_processed : Option ℕ
  pub total_bytes_billed : Option ℕ

-- BigQuery, as far as the client calls it.
pub record Service (S : Type 0) : Type 0 where
  pub begin_run : Run → Remote S (Unit {0})
  pub runs : Text → Remote S (List Run)
  pub read_tables : Remote S Database
  pub get_commit_job : Text → Remote S (Option Job)
  pub wait : Job → Remote S Job
  pub reload : Job → Remote S Job
  pub submit_commit : Product → CommitParameters → Remote S (Unit {0})
  pub finalize : Product → FinalizeParameters → Remote S (Unit {0})
  pub record_failure : FailureParameters → Remote S (Unit {0})

-- The settings that the client reads: WarehouseConfig, the versions of the packages, and
-- the revision from the environment.
pub record Settings : Type 0 where
  pub project : Text
  pub dataset : Text
  pub location : Text
  pub package_version : Text
  pub library_version : Text
  pub code_revision : Option Text

-- `type(error).__name__`.
abbrev class_name : Error → Text
class_name unsupported_request = Base.codes "UnsupportedRequestError"
class_name upstream_request = Base.codes "UpstreamRequestError"
class_name schema = Base.codes "SchemaError"
class_name validation = Base.codes "ValidationError"
class_name warehouse = Base.codes "WarehouseError"
class_name commit_unconfirmed = Base.codes "CommitUnconfirmed"
class_name optimization = Base.codes "OptimizationError"
class_name retryable_ingestion = Base.codes "RetryableIngestionError"
class_name value_error = Base.codes "ValueError"
class_name (unhandled name) = name

abbrev error_name : Raised → Text
error_name (platform e) = class_name e
error_name (google name) = name
error_name (other name) = name

abbrev source_message : Text
source_message =
    Base.codes "Source/normalization/warehouse validation failed; inspect the invoking CLI error."

abbrev query_message : Text
query_message =
    Base.codes "BigQuery job failed; inspect its job ID and authenticated job diagnostics."

abbrev error_message : Raised → Text
error_message (google name) = query_message
error_message e = source_message

abbrev pub is_terminal_failure : Job → Bool
is_terminal_failure job = job.done && job.error_result

module _ (sha256 : Text → Text) (midnight : ℕ → ℕ) {S : Type 0} (service : Service S)
    (settings : Settings) where
  -- `job_id`.
  abbrev pub job_id : Text → Text → Text
  job_id run_id operation =
      Base.codes "pmd_"
      ++ take 16 (
          digest sha256 (Base.codes "warehouse-job/v1") (
            (Base.codes "project", settings.project)
            ∷ (Base.codes "dataset", settings.dataset)
            ∷ (Base.codes "location", settings.location)
            ∷ []))
      ++ (b'_' ∷ run_id)
      ++ (b'_' ∷ operation)

  abbrev the_manifest : List Run → Remote S (Option Run)
  the_manifest [] = give none
  the_manifest (r ∷ []) = give (some r)
  the_manifest (r ∷ q ∷ rs) = throw (platform warehouse)

  unfoldable pub get_run : Text → Remote S (Option Run)
  get_run run_id = do
    valid ← lift (validate_run_id run_id)
    rows ← service.runs run_id
    the_manifest rows

  -- The manifest row of `begin`; the script sets the instant of its start.
  abbrev pub manifest_row : Request → Text → Run
  manifest_row request run_id = record {
    run_id = run_id;
    request_id = request_id sha256 request;
    source = Base.codes "CAISO";
    product = request.product;
    requested_date = request.day;
    started_at = 0;
    status = started;
    commit_completed = false;
    package_version = settings.package_version;
    library_version = settings.library_version;
    warehouse_schema = warehouse_schema;
    logical_key_schema = key_schema;
    content_hash_schema = content_schema;
    requested_location = request.location;
    completed_at = none;
    knowledge_at = none;
    rows_fetched = none;
    rows_normalized = none;
    rows_accepted = none;
    rows_rejected = none;
    new_contents = none;
    new_transitions = none;
    batch_hash = none;
    error_class = none;
    error_message = none;
    commit_job_id = none;
    commit_sequence = none;
    query_bytes_processed = none;
    query_bytes_billed = none;
    code_revision = settings.code_revision;
  }

  -- The manifest, if it is there and is of the request.
  abbrev pub bound_to : Request → Option Run → Remote S Run
  bound_to request none = throw (platform warehouse)
  bound_to request (some r) =
      if text_eq r.request_id (request_id sha256 request)
      then give r
      else throw (platform warehouse)

  unfoldable pub begin : Request → Text → Remote S Run
  unfolding get_run
  begin request run_id = do
    valid ← lift (validate_run_id run_id)
    done ← service.begin_run (manifest_row request run_id)
    found ← get_run run_id
    bound_to request found

  unfoldable pub fail : Text → Raised → Option Text → Remote S (Unit {0})
  fail run_id error commit_job_id = service.record_failure (record {
    run_id = run_id;
    error_class = error_name error;
    error_message = error_message error;
    commit_job_id = commit_job_id;
  })
