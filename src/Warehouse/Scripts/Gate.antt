-- ===== src/Warehouse/Scripts/Gate.antt =====
-- The invariant of the control row and the manifests: run IDs are distinct, the gate is held by the
-- one run that is committed and not yet finalized, and the sequence counts the committed batches.
-- Every script keeps it, whatever its parameters.
pub mod Commit
pub mod Finalize
pub mod Fail
pub mod Begin
use power_market_data_platfo.Base.{
  ℕ, suc, ◌+◌, ◌≡◌, refl, sym, ◌∙◌, ap, subst, ◌≢◌, ◌⊎◌, inl, inr, Bool, true, false, ◌&&◌, not,
  List, [], ◌∷◌, ◌++◌, Option, none, some, arith, ◌==◌, if◌then◌else◌, Text, text_eq, text_eq_iff,
  Bool-cases, Option-cases, Result, ok, err, ◌>>=◌, ==_iff, any, is_some,
}
use power_market_data_platfo.Warehouse.Request.{Product, warehouse_schema}
use power_market_data_platfo.Warehouse.Tables.{
  Run, Status, Control, Database, started, committed, succeeded, failed,
}
use power_market_data_platfo.Warehouse.Scripts.{
  Script, ScriptError, execute, guard, begin_run, CommitParameters, commit_query, commit_effect,
  FinalizeParameters, finalize_query, finalize_effect, FailureParameters, failure_query,
  mark_committed, mark_succeeded, mark_failed, update_runs, update_control, is_started,
  is_committed, is_succeeded, owned_by,
}
use power_market_data_platfo.Warehouse.Scripts.Runs.{
  find_run, DistinctRuns, KeepsId, count_runs, find_run-update_runs, find_run-append, any-find_run,
  update_runs-DistinctRuns, append-DistinctRuns, filter-find_run, count_runs-update_runs,
  count_runs-append, counted_once, find_run-update_cases, find_run-update_runs_self, to_list,
  map_run, weigh,
}

abbrev pub is_completed : Status → Bool
is_completed committed = true
is_completed succeeded = true
is_completed _ = false

abbrev pub has_completed : Run → Bool
has_completed r = is_completed r.status

pub record IsGated (c : Control) (db : Database) : Type 0 where
  pub control : db.warehouse_control ≡ c ∷ []
  pub singleton : c.singleton ≡ 1
  pub schema : text_eq c.warehouse_schema warehouse_schema ≡ true
  pub distinct : DistinctRuns db.ingestion_runs
  pub flags :
      (id : Text) (r : Run)
      → find_run id db.ingestion_runs ≡ some r
      → r.commit_completed ≡ is_completed r.status
  pub gate :
      (id : Text) (r : Run)
      → find_run id db.ingestion_runs ≡ some r
      → r.status ≡ committed
      → c.active_run_id ≡ some id
  pub owner :
      (id : Text)
      → c.active_run_id ≡ some id
      → (r : Run) × (find_run id db.ingestion_runs ≡ some r) × (r.status ≡ committed)
  pub counted : c.sequence ≡ count_runs has_completed db.ingestion_runs

pub guard-ok : (c : Control) (db : Database) → IsGated c db → guard db ≡ ok c
unfolding guard
guard-ok c db g = rw g.control (ground (arith, g.singleton, g.schema))

-- The control row after a commit of run `id`, and after a finalization.
abbrev pub closed_gate : Text → Control → Control
closed_gate id c = record c { sequence = c.sequence + 1; active_run_id = some id }

abbrev pub open_gate : Control → Control
open_gate c = record c { active_run_id = none }
