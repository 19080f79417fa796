-- ===== src/Tests/Writing.antt =====
-- The theorems on writers at two runs that read the empty warehouse.
use power_market_data_platfo.Base.{◌≡◌, refl, some, codes, ok, [], ◌∷◌}
use power_market_data_platfo.Warehouse.Request.{Product, validate_run_id, warehouse_schema}
use power_market_data_platfo.Warehouse.Tables.{Control, Database}
use power_market_data_platfo.Warehouse.Scripts.{
  execute, commit_query, finalize_query, facts, begin_run, commit_effect,
}
use power_market_data_platfo.Warehouse.Scripts.Runs.{find_run}
use power_market_data_platfo.Warehouse.Scripts.Gate.{IsGated}
use power_market_data_platfo.Warehouse.History.{history, observe_row, value_of}
use power_market_data_platfo.Warehouse.Records.{IsRecorded}
use power_market_data_platfo.Warehouse.Writers.{Step, commit_parameters}
use power_market_data_platfo.Warehouse.Writers.Refinement.{
  commit-observe, reachable-IsRecorded, reachable-IsGated, stale_commit,
}
use power_market_data_platfo.Warehouse.Plan.{plan_write}
use power_market_data_platfo.Warehouse.Writers.Progress.{IsReleased, reachable-IsReleased}
use power_market_data_platfo.Warehouse.Writers.Lifecycle.{Moved, step-Moves, finalize_twice}
use power_market_data_platfo.Tests.Hash.{encode, encode-IsCollisionFree}
use power_market_data_platfo.Tests.Worlds.{
  market_day, run_id_a, run_id_b, run, rows, rows-IsBatch, reading, plan, planned_a, planned_b,
  read, read_reached, in_readings, committed_a, committed_ok, committed, committed_reached, known,
  finalized, finalized_later, finalized_ok,
}

commit-observe_example :
    history (codes "k") (facts Product.load committed_a).transitions
    ≡ observe_row
        (history (codes "k") (facts Product.load read.tables).transitions)
        (value_of (codes "k") rows)
commit-observe_example =
    commit-observe encode encode-IsCollisionFree market_day read reading run_id_a (codes "job") rows
      (plan run_id_a) committed_a (codes "k") read_reached in_readings rows-IsBatch planned_a
      committed_ok

reachable-IsRecorded_example :
    IsRecorded encode market_day committed.tables.ingestion_runs committed.tables.lmp
    × IsRecorded encode market_day committed.tables.ingestion_runs committed.tables.load
reachable-IsRecorded_example =
    reachable-IsRecorded encode encode-IsCollisionFree market_day committed committed_reached

reachable-IsGated_example : (c : Control) × IsGated c committed.tables
reachable-IsGated_example =
    reachable-IsGated encode encode-IsCollisionFree market_day committed committed_reached

-- The second run, whose reading is as old as the first one's, commits nothing after it.
stale_commit_example :
    execute
      (commit_query Product.load (commit_parameters run_id_b (codes "other") (plan run_id_b)))
      finalized.tables
    ≡ finalized.tables
stale_commit_example =
    stale_commit encode encode-IsCollisionFree market_day read finalized reading reading run_id_a
      (codes "job") run_id_b (codes "other") rows rows (plan run_id_a) (plan run_id_b) committed_a
      read_reached in_readings rows-IsBatch planned_a committed_ok finalized_later refl planned_b

read_gate : (c : Control) × IsGated c read.tables
read_gate = reachable-IsGated encode encode-IsCollisionFree market_day read read_reached

begun :
    find_run run_id_a read.tables.ingestion_runs ≡ some (record (run run_id_a) { started_at = 1 })
unfolding execute begin_run
begun = refl

step-Moves_example : Moved run_id_a (record (run run_id_a) { started_at = 1 }) committed_a
step-Moves_example =
    step-Moves encode market_day read_gate.0 read committed run_id_a
      (record (run run_id_a) { started_at = 1 }) read_gate.1 begun
      (Step.commit reading run_id_a (codes "job") rows (plan run_id_a) in_readings rows-IsBatch
        planned_a)

finalize_twice_example : finalize_query Product.load known 9 finalized.tables ≡ ok finalized.tables
finalize_twice_example =
    finalize_twice Product.load known known 8 9 reachable-IsGated_example.0 committed.tables
      finalized.tables reachable-IsGated_example.1 finalized_ok refl

-- The control row of the world in which the first run has committed.
abbrev closed_gate : Control
closed_gate = record {
  singleton = 1;
  warehouse_schema = warehouse_schema;
  sequence = 1;
  active_run_id = some run_id_a;
}

gate_closed : committed.tables.warehouse_control ≡ closed_gate ∷ []
unfolding execute begin_run commit_query plan_write validate_run_id commit_effect
gate_closed = refl

reachable-IsReleased_example :
    (db' : Database) × (finalize_query Product.load known 8 committed.tables ≡ ok db')
    × IsReleased closed_gate run_id_a db'
reachable-IsReleased_example =
    reachable-IsReleased encode encode-IsCollisionFree market_day committed closed_gate Product.load
      known 8 committed_reached gate_closed refl
