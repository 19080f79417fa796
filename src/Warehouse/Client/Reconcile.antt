-- ===== src/Warehouse/Client/Reconcile.antt =====
-- `reconcile` and `persist` of bigquery.py, and `ingest` of ingestion.py.
use power_market_data_platfo.Base.{ℕ, List, Option, none, some, Text, codes, if◌then◌else◌}
use power_market_data_platfo.Errors.{warehouse, commit_unconfirmed}
use power_market_data_platfo.Domain.{Observation}
use power_market_data_platfo.Warehouse.Request.{Request}
use power_market_data_platfo.Warehouse.Tables.{Run, Status, succeeded, failed}
use power_market_data_platfo.Warehouse.Batch.{batch_rows}
use power_market_data_platfo.Warehouse.Plan.{WritePlan, plan_write}
use power_market_data_platfo.Warehouse.Snapshot.{snapshot}
use power_market_data_platfo.Warehouse.Scripts.{is_succeeded, is_committed}
use power_market_data_platfo.Warehouse.Writers.{commit_parameters}
use power_market_data_platfo.Warehouse.Client.{
  Raised, platform, Answer, returned, raised, Remote, give, throw, lift, attempt, ◌>>=◌, Job,
  Service, Settings, is_terminal_failure, job_id, get_run, begin, fail, bound_to,
}

module _ (sha256 : Text → Text) (midnight : ℕ → ℕ) {S : Type 0} (service : Service S)
    (settings : Settings) where
  -- The manifest after a finalization.
  abbrev pub confirmed : Option Run → Remote S (Option Run)
  confirmed none = throw (platform commit_unconfirmed)
  confirmed (some r) =
      if is_succeeded r.status then give (some r) else throw (platform commit_unconfirmed)

  -- After `wait` has raised: only a terminal failure of the job is recorded.
  abbrev pub reloaded_job : Text → Raised → Answer Job → Remote S (Option Run)
  reloaded_job run_id e (raised f) = throw (platform commit_unconfirmed)
  reloaded_job run_id e (returned job) =
      if is_terminal_failure job
      then (do
        recorded ← attempt (fail sha256 midnight service settings run_id e (some job.job_id))
        throw (platform warehouse))
      else throw (platform commit_unconfirmed)

  abbrev pub finalized_run : Text → Answer (Unit {0}) → Remote S (Option Run)
  finalized_run run_id (raised e) = throw (platform commit_unconfirmed)
  finalized_run run_id (returned _) = do
    result ← get_run sha256 midnight service settings run_id
    confirmed result

  abbrev pub finish_job : Text → Run → Job → Option ℕ → Remote S (Option Run)
  finish_job run_id manifest job none = throw (platform commit_unconfirmed)
  finish_job run_id manifest job (some ended) = do
    outcome ← attempt (
        service.finalize manifest.product (record {
          run_id = run_id;
          knowledge_at = ended;
          processed = job.total_bytes_processed;
          billed = job.total_bytes_billed;
        }))
    finalized_run run_id outcome

  abbrev pub waited_job : Text → Run → Job → Answer Job → Remote S (Option Run)
  waited_job run_id manifest job (returned waited) = finish_job run_id manifest waited waited.ended
  waited_job run_id manifest job (raised e) = do
    reloaded ← attempt (service.reload job)
    reloaded_job run_id e reloaded

  abbrev pub settle : Text → Run → Option Job → Remote S (Option Run)
  settle run_id manifest none =
      if is_committed manifest.status then throw (platform commit_unconfirmed) else give none
  settle run_id manifest (some job) = do
    outcome ← attempt (service.wait job)
    waited_job run_id manifest job outcome

  abbrev pub by_status : Text → Run → Status → Remote S (Option Run)
  by_status run_id manifest succeeded = give (some manifest)
  by_status run_id manifest failed = throw (platform warehouse)
  by_status run_id manifest _ = do
    job ← service.get_commit_job (job_id sha256 midnight service settings run_id (codes "commit"))
    settle run_id manifest job

  abbrev pub reconcile_run : Text → Option Run → Remote S (Option Run)
  reconcile_run run_id none = throw (platform warehouse)
  reconcile_run run_id (some manifest) = by_status run_id manifest manifest.status

  unfoldable pub reconcile : Text → Remote S (Option Run)
  reconcile run_id = do
    manifest ← get_run sha256 midnight service settings run_id
    reconcile_run run_id manifest

  abbrev pub reconciled_again : Option Run → Remote S Run
  reconciled_again none = throw (platform commit_unconfirmed)
  reconciled_again (some r) = give r

  -- The plan of a batch on a snapshot of the warehouse.
  abbrev pub plan_batch : Request → List Observation → Text → Remote S WritePlan
  plan_batch request records run_id = do
    rows ← lift (batch_rows sha256 midnight request records)
    tables ← service.read_tables
    taken ← lift (snapshot request.product request.day tables)
    lift (plan_write sha256 run_id rows taken)

  abbrev pub submitted : Text → Answer (Unit {0}) → Remote S Run
  submitted run_id (raised e) = throw (platform commit_unconfirmed)
  submitted run_id (returned _) = do result ← reconcile run_id; reconciled_again result

  abbrev pub submit : Request → Text → Answer WritePlan → Remote S Run
  submit request run_id (raised e) = do
    recorded ← fail sha256 midnight service settings run_id e none
    throw e
  submit request run_id (returned plan) = do
    outcome ← attempt (
        service.submit_commit request.product (
          commit_parameters run_id (job_id sha256 midnight service settings run_id (codes "commit"))
            plan))
    submitted run_id outcome

  abbrev pub persist_prior : Request → List Observation → Text → Option Run → Remote S Run
  persist_prior request records run_id (some prior) = give prior
  persist_prior request records run_id none = do
    plan ← attempt (plan_batch request records run_id)
    submit request run_id plan

  unfoldable pub persist : Request → List Observation → Text → Remote S Run
  persist request records run_id = do
    found ← get_run sha256 midnight service settings run_id
    manifest ← bound_to sha256 midnight service settings request found
    prior ← reconcile run_id
    persist_prior request records run_id prior

  -- `fetch`, as the caller passes it or by the product, is an argument.
  abbrev pub fetched : Request → Text → Answer (List Observation) → Remote S Run
  fetched request run_id (returned records) = persist request records run_id
  fetched request run_id (raised e) = do
    recorded ← attempt (fail sha256 midnight service settings run_id e none)
    throw (platform warehouse)

  abbrev pub ingest_prior : Request → Text → Remote S (List Observation) → Option Run → Remote S Run
  ingest_prior request run_id fetch (some prior) = give prior
  ingest_prior request run_id fetch none = do
    records ← attempt fetch
    fetched request run_id records

  unfoldable pub ingest : Request → Text → Remote S (List Observation) → Remote S Run
  ingest request run_id fetch = do
    manifest ← begin sha256 midnight service settings request run_id
    prior ← reconcile run_id
    ingest_prior request run_id fetch prior
