-- ===== src/Orchestration/Execution.antt =====
-- orchestration/ingestion.py: the execution of one unit, and which failures a task may retry. The
-- `__cause__` chain that Python keeps with an exception is an argument, as the classes on it.
pub mod Reported
use power_market_data_platfo.Base.{
  ℕ, Bool, true, false, ◌&&◌, ◌||◌, not, List, [], ◌∷◌, Option, none, some, any, if◌then◌else◌,
  Text, codes,
}
use power_market_data_platfo.Errors.{
  Error, unsupported_request, schema, validation, warehouse, commit_unconfirmed,
  retryable_ingestion,
}
use power_market_data_platfo.Domain.{Observation}
use power_market_data_platfo.Warehouse.Request.{Request, validate_run_id}
use power_market_data_platfo.Warehouse.Tables.{Run, Status, started, succeeded}
use power_market_data_platfo.Warehouse.Scripts.{is_started, is_succeeded}
use power_market_data_platfo.Warehouse.Client.{
  Raised, platform, google, other, Answer, returned, raised, Remote, give, throw, lift, attempt,
  ◌>>=◌, Service, Settings, get_run,
}
use power_market_data_platfo.Warehouse.Client.Reconcile.{ingest}
use power_market_data_platfo.Orchestration.Plan.{PlanUnit, unit_request}

-- The exception classes that `transient` tells apart.
pub data ErrorClass : Type 0 where
  own : Error → ErrorClass
  bad_request forbidden too_many_requests unauthorized google_auth : ErrorClass
  service_unavailable internal_server_error bad_gateway gateway_timeout : ErrorClass
  request_connection request_timeout unrelated : ErrorClass

abbrev is_permanent : ErrorClass → Bool
is_permanent (own schema) = true
is_permanent (own validation) = true
is_permanent (own unsupported_request) = true
is_permanent (own commit_unconfirmed) = true
is_permanent bad_request = true
is_permanent forbidden = true
is_permanent too_many_requests = true
is_permanent unauthorized = true
is_permanent google_auth = true
is_permanent _ = false

abbrev is_temporary : ErrorClass → Bool
is_temporary service_unavailable = true
is_temporary internal_server_error = true
is_temporary bad_gateway = true
is_temporary gateway_timeout = true
is_temporary request_connection = true
is_temporary request_timeout = true
is_temporary _ = false

-- `transient`, of the classes on the chain.
abbrev pub transient : List ErrorClass → Bool
transient causes = if any is_permanent causes then false else any is_temporary causes

-- What `execute_unit` knows of the manifest after a failure.
pub data Seen : Type 0 where
  absent unknown : Seen
  found : Status → Seen

abbrev pub may_restart : Seen → Bool
may_restart absent = true
may_restart unknown = false
may_restart (found s) = is_started s

abbrev is_unconfirmed : Raised → Bool
is_unconfirmed (platform commit_unconfirmed) = true
is_unconfirmed _ = false

abbrev seen_of : Answer (Option Run) → Seen
seen_of (raised e) = unknown
seen_of (returned none) = absent
seen_of (returned (some r)) = found r.status

abbrev pub has_succeeded : Option Run → Bool
has_succeeded none = false
has_succeeded (some r) = is_succeeded r.status

pub record IngestionResult : Type 0 where
  pub unit : PlanUnit
  pub status : Status
  pub accepted_rows : ℕ
  pub new_contents : ℕ
  pub new_transitions : ℕ
  pub reused_success : Bool

-- `int(str(value))`, which raises ValueError on None.
abbrev pub int_of : {S : Type 0} → Option ℕ → Remote S ℕ
int_of none = throw (other (codes "ValueError"))
int_of (some n) = give n

abbrev pub count_unless : {S : Type 0} → Bool → Option ℕ → Remote S ℕ
count_unless true count = give 0
count_unless false count = int_of count

module _ (sha256 : Text → Text) (fromisoformat : Text → Option ℕ) (uuid5 : Text → Text → Text)
    (today : ℕ) (midnight : ℕ → ℕ) {S : Type 0} (service : Service S) (settings : Settings)
    (chain : Raised → List ErrorClass) (fetch : Request → Remote S (List Observation)) where
  -- `retryable`.
  abbrev pub retryable : Raised → Seen → Bool
  retryable e seen = not (is_unconfirmed e) && may_restart seen && transient (chain e)

  abbrev pub stopped : Raised → Answer (Option Run) → Remote S IngestionResult
  stopped e state =
      if retryable e (seen_of state)
      then throw (platform retryable_ingestion)
      else throw (platform warehouse)

  abbrev pub report : PlanUnit → Option Run → Run → Remote S IngestionResult
  report u prior manifest = do
    accepted ← int_of manifest.rows_accepted
    contents ← count_unless (has_succeeded prior) manifest.new_contents
    transitions ← count_unless (has_succeeded prior) manifest.new_transitions
    give (record {
      unit = u;
      status = succeeded;
      accepted_rows = accepted;
      new_contents = contents;
      new_transitions = transitions;
      reused_success = has_succeeded prior;
    })

  abbrev pub ingested : PlanUnit → Option Run → Answer Run → Remote S IngestionResult
  ingested u prior (raised e) = do
    state ← attempt (get_run sha256 midnight service settings u.run_id)
    stopped e state
  ingested u prior (returned manifest) =
      if is_succeeded manifest.status then report u prior manifest else throw (platform warehouse)

  abbrev pub after_prior : PlanUnit → Request → Answer (Option Run) → Remote S IngestionResult
  after_prior u request (raised e) =
      if transient (chain e)
      then throw (platform retryable_ingestion)
      else throw (platform warehouse)
  after_prior u request (returned prior) = do
    outcome ← attempt (ingest sha256 midnight service settings request u.run_id (fetch request))
    ingested u prior outcome

  unfoldable pub execute_unit : PlanUnit → Remote S IngestionResult
  execute_unit u = do
    request ← lift (unit_request sha256 fromisoformat uuid5 today midnight u)
    valid ← lift (validate_run_id u.run_id)
    prior ← attempt (get_run sha256 midnight service settings u.run_id)
    after_prior u request prior
