-- ===== src/Warehouse/Writers.antt =====
-- Any number of writers over one warehouse, in any interleaving. Each step is a snapshot that a
-- writer reads and keeps, or one transaction of sql.py, executed or rolled back. A writer commits
-- what `plan_write` plans on some snapshot that was read before, however old.
pub mod Plans
pub mod Invariant
pub mod Reachable
pub mod Refinement
pub mod Lifecycle
pub mod Progress
use power_market_data_platfo.Base.{ℕ, ◌≡◌, List, [], ◌∷◌, some, none, Text, Result, ok}
use mathlib.Core.List.{Memᴰ}
use power_market_data_platfo.Errors.{Error}
use power_market_data_platfo.Warehouse.Request.{Product, warehouse_schema}
use power_market_data_platfo.Warehouse.Tables.{Row, Run, Control, Facts, Database}
use power_market_data_platfo.Warehouse.Plan.{Snapshot, WritePlan, plan_write}
use power_market_data_platfo.Warehouse.Snapshot.{snapshot}
use power_market_data_platfo.Warehouse.Scripts.{
  execute, begin_run, CommitParameters, commit_query, FinalizeParameters, finalize_query,
  FailureParameters, failure_query,
}
use power_market_data_platfo.Warehouse.Scripts.Gate.Begin.{IsNew}
use power_market_data_platfo.Warehouse.Records.{IsBatch}

-- The query parameters that `persist` builds from a plan.
abbrev pub commit_parameters : Text → Text → WritePlan → CommitParameters
commit_parameters run_id job_id plan = record {
  run_id = run_id;
  expected_sequence = plan.expected_sequence;
  batch_hash = plan.batch_hash;
  accepted = plan.accepted;
  commit_job_id = job_id;
  contents = plan.contents;
  transitions = plan.transitions;
}

-- The tables after `bootstrap`.
abbrev pub empty_facts : Facts
empty_facts = record { contents = []; transitions = [] }

abbrev pub first_control : Control
first_control = record {
  singleton = 1;
  sequence = 0;
  warehouse_schema = warehouse_schema;
  active_run_id = none;
}

abbrev pub bootstrapped : Database
bootstrapped = record {
  warehouse_control = first_control ∷ [];
  ingestion_runs = [];
  lmp = empty_facts;
  load = empty_facts;
}

pub record Reading : Type 0 where
  pub product : Product
  pub day : ℕ
  pub taken : Snapshot

pub record World : Type 0 where
  pub tables : Database
  pub readings : List Reading

-- An empty warehouse, of which nothing has been read.
abbrev pub initial : World
initial = record { tables = bootstrapped; readings = [] }

module _ (sha256 : Text → Text) (market_day : Text → ℕ) where
  pub data Step (w : World) : World → Type 0 where
    read :
        (r : Reading)
        → snapshot r.product r.day w.tables ≡ ok r.taken
        → Step w (record w { readings = r ∷ w.readings })
    begin :
        (run : Run) (now : ℕ)
        → IsNew run
        → Step w (record w { tables = execute (begin_run run now) w.tables })
    commit :
        (r : Reading) (run_id job_id : Text) (rows : List Row) (plan : WritePlan)
        → Memᴰ r w.readings
        → IsBatch sha256 market_day r.day rows
        → plan_write sha256 run_id rows r.taken ≡ ok plan
        → Step w (record w {
          tables = execute (commit_query r.product (commit_parameters run_id job_id plan)) w.tables;
        })
    finalize :
        (product : Product) (p : FinalizeParameters) (now : ℕ)
        → Step w (record w { tables = execute (finalize_query product p now) w.tables })
    fail :
        (p : FailureParameters) (now : ℕ)
        → Step w (record w { tables = execute (failure_query p now) w.tables })

  -- The worlds that the steps lead to.
  pub data Reach (start : World) : World → Type 0 where
    here : Reach start start
    next : {w v : World} → Reach start w → Step w v → Reach start v
