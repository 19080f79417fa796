-- ===== src/Tests/Worlds.antt =====
-- Two runs, two readings of one snapshot, and the worlds that they make.
use mathlib.Core.List.{Memᴰ}
use power_market_data_platfo.Base.{
  ℕ, ◌≡◌, refl, List, [], ◌∷◌, none, some, false, Text, codes, Result, ok, err,
}
use power_market_data_platfo.Errors.{Error}
use power_market_data_platfo.Identity.Decimal.{finite}
use power_market_data_platfo.Identity.Json.Injective.{basic}
use power_market_data_platfo.Base.{pos}
use power_market_data_platfo.Warehouse.Request.{
  validate_run_id, Product, key_schema, content_schema, warehouse_schema,
}
use power_market_data_platfo.Warehouse.Tables.{Row, Values, Run, Database, started}
use power_market_data_platfo.Warehouse.Batch.{content_id}
use power_market_data_platfo.Warehouse.Plan.{Snapshot, WritePlan, plan_write}
use power_market_data_platfo.Warehouse.Snapshot.{snapshot}
use power_market_data_platfo.Warehouse.Scripts.{
  execute, begin_run, commit_query, finalize_query, FinalizeParameters, commit_effect,
  mark_committed,
}
use power_market_data_platfo.Warehouse.Records.{IsBatch}
use power_market_data_platfo.Warehouse.Writers.{
  World, Reading, initial, Step, Reach, commit_parameters,
}
use power_market_data_platfo.Tests.Hash.{encode}

abbrev pub day : ℕ
day = 739000

abbrev pub market_day : Text → ℕ
market_day key = day

abbrev pub run_id_a : Text
run_id_a = codes "0123456789abcdef0123456789abcdef"

abbrev pub run_id_b : Text
run_id_b = codes "fedcba9876543210fedcba9876543210"

abbrev pub run : Text → Run
run id = record {
  run_id = id;
  request_id = codes "request";
  source = codes "CAISO";
  product = Product.load;
  requested_date = day;
  started_at = 0;
  status = started;
  commit_completed = false;
  package_version = codes "1";
  library_version = codes "1";
  warehouse_schema = warehouse_schema;
  logical_key_schema = key_schema;
  content_hash_schema = content_schema;
  requested_location = none;
  completed_at = none;
  knowledge_at = none;
  rows_fetched = none;
  rows_normalized = none;
  rows_accepted = none;
  rows_rejected = none;
  new_contents = none;
  new_transitions = none;
  batch_hash = none;
  error_class = none;
  error_message = none;
  commit_job_id = none;
  commit_sequence = none;
  query_bytes_processed = none;
  query_bytes_billed = none;
  code_revision = none;
}

abbrev pub row : Text → Text → Row
row key hash = record {
  content_id = content_id encode key hash;
  logical_key = key;
  content_hash = hash;
  logical_key_schema = key_schema;
  content_hash_schema = content_schema;
  source = codes "CAISO";
  product = codes "system_load_5min";
  source_dataset = codes "todays_outlook_demand";
  market_date = day;
  interval_start_utc = 0;
  interval_end_utc = 300000000;
  unit = codes "MW";
  retrieved_at_utc = 1;
  source_url = codes "url";
  source_method = codes "method";
  library_version = codes "1";
  values = Values.load (codes "CAISO") (finite false 5 (pos 0));
}

abbrev pub rows : List Row
rows = row (codes "k") (codes "h") ∷ row (codes "l") (codes "h") ∷ []

abbrev pub rows-IsBatch : IsBatch encode market_day day rows
rows-IsBatch = record {
  distinct = (refl, (refl, tt));
  sound = (
    record {
      named = refl;
      key_basic = basic (codes "k") refl;
      hash_basic = basic (codes "h") refl;
      dated = refl;
    },
    (
      record {
        named = refl;
        key_basic = basic (codes "l") refl;
        hash_basic = basic (codes "h") refl;
        dated = refl;
      },
      tt,
    ),
  );
  on_day = (refl, (refl, tt));
}

abbrev pub taken : Snapshot
taken = record { sequence = 0; contents = []; latest = λ key. none }

abbrev pub reading : Reading
reading = record { product = Product.load; day = day; taken = taken }

abbrev plan_or : WritePlan → Result Error WritePlan → WritePlan
plan_or default (ok p) = p
plan_or default (err e) = default

abbrev pub plan : Text → WritePlan
plan id =
    plan_or
      (record {
        contents = [];
        transitions = [];
        batch_hash = [];
        accepted = 0;
        expected_sequence = 0;
      })
      (plan_write encode id rows taken)

pub planned_a : plan_write encode run_id_a rows taken ≡ ok (plan run_id_a)
unfolding plan_write validate_run_id
planned_a = refl

pub planned_b : plan_write encode run_id_b rows taken ≡ ok (plan run_id_b)
unfolding plan_write validate_run_id
planned_b = refl

abbrev pub begun_a : World
begun_a = record initial { tables = execute (begin_run (run run_id_a) 1) initial.tables }

abbrev pub begun_b : World
begun_b = record begun_a { tables = execute (begin_run (run run_id_b) 2) begun_a.tables }

-- Both runs have begun, and the warehouse has been read.
abbrev pub read : World
read = record begun_b { readings = reading ∷ begun_b.readings }

seen : snapshot Product.load day begun_b.tables ≡ ok taken
unfolding snapshot execute begin_run
seen = refl

pub read_reached : Reach encode market_day initial read
read_reached =
    Reach.next
      (Reach.next (Reach.next Reach.here (Step.begin (run run_id_a) 1 (refl, refl)))
        (Step.begin (run run_id_b) 2 (refl, refl)))
      (Step.read reading seen)

pub in_readings : Memᴰ reading (read.readings)
in_readings = Memᴰ.head refl

abbrev pub committed_a : Database
committed_a =
    execute (commit_query Product.load (commit_parameters run_id_a (codes "job") (plan run_id_a)))
      read.tables

pub committed_ok :
    commit_query Product.load (commit_parameters run_id_a (codes "job") (plan run_id_a)) read.tables
    ≡ ok committed_a
unfolding execute begin_run commit_query plan_write validate_run_id
committed_ok = refl

-- The first run has committed, and been finalized.
abbrev pub committed : World
committed = record read { tables = committed_a }

pub committed_reached : Reach encode market_day initial committed
committed_reached = Reach.next read_reached (
    Step.commit reading run_id_a (codes "job") rows (plan run_id_a) in_readings rows-IsBatch
      planned_a)

abbrev pub known : FinalizeParameters
known = record { run_id = run_id_a; knowledge_at = 7; processed = none; billed = some 1 }

abbrev pub finalized : World
finalized = record committed {
  tables = execute (finalize_query Product.load known 8) committed.tables;
}

pub finalized_later : Reach encode market_day committed finalized
finalized_later = Reach.next Reach.here (Step.finalize Product.load known 8)

pub finalized_ok : finalize_query Product.load known 8 committed.tables ≡ ok finalized.tables
unfolding execute begin_run commit_query finalize_query plan_write validate_run_id commit_effect
    mark_committed
finalized_ok = refl
