-- ===== src/Warehouse/Scripts/Gate/Fail.antt =====
-- `failure_query` of sql.py keeps the gate's invariant.
use power_market_data_platfo.Base.{
  ℕ, ◌≡◌, refl, ◌∙◌, ap, subst, inl, inr, List, some, arith, Text, ok,
}
use power_market_data_platfo.Warehouse.Tables.{Run, Control, Database, committed}
use power_market_data_platfo.Warehouse.Scripts.{
  FailureParameters, failure_query, mark_failed, update_runs,
}
use power_market_data_platfo.Warehouse.Scripts.Runs.{
  find_run, KeepsId, find_run-update_runs, update_runs-none, any-find_run, update_runs-DistinctRuns,
  count_runs-update_runs, find_run-update_cases, weigh,
}
use power_market_data_platfo.Warehouse.Scripts.Gate.{IsGated, is_completed, has_completed, guard-ok}

module _ (p : FailureParameters) (now : ℕ) (c : Control) (db : Database) (g : IsGated c db) where
  pub mark_failed-KeepsId : KeepsId (mark_failed p now)
  unfolding mark_failed
  mark_failed-KeepsId r = ground arith

  flags_failed :
      (r : Run)
      → r.commit_completed ≡ is_completed r.status
      → (mark_failed p now r).commit_completed ≡ is_completed (mark_failed p now r).status
  unfolding mark_failed
  flags_failed r h = ground arith

  committed_failed : (r : Run) → (mark_failed p now r).status ≡ committed → r.status ≡ committed
  unfolding mark_failed
  committed_failed r h = ground arith

  weigh_failed : (r : Run) → weigh has_completed (mark_failed p now r) ≡ weigh has_completed r
  unfolding mark_failed
  weigh_failed r = ground arith

  owner_failed : (r : Run) → r.status ≡ committed → mark_failed p now r ≡ r
  unfolding mark_failed
  owner_failed r s = ground arith

  owner_after :
      (id : Text)
      → c.active_run_id ≡ some id
      → (r : Run) × (find_run id db.ingestion_runs ≡ some r) × (r.status ≡ committed)
      → (r : Run) × (find_run id (update_runs p.run_id (mark_failed p now) db.ingestion_runs)
          ≡ some r)
        × (r.status ≡ committed)
  owner_after id a (r, found, s) = (
    r,
    ground (
      arith,
      found,
      find_run-update_runs p.run_id id (mark_failed p now) db.ingestion_runs mark_failed-KeepsId,
      owner_failed r s,
    ),
    s,
  )

  pub failure_query-ok :
      failure_query p now db
      ≡ ok (record db {
        ingestion_runs = update_runs p.run_id (mark_failed p now) db.ingestion_runs;
      })
  unfolding failure_query
  failure_query-ok = rw (guard-ok c db g) refl

  failed-IsGated :
      (r : Run)
      → find_run p.run_id db.ingestion_runs ≡ some r
      → IsGated c (record db {
        ingestion_runs = update_runs p.run_id (mark_failed p now) db.ingestion_runs;
      })
  failed-IsGated r found = record {
    control = g.control;
    singleton = g.singleton;
    schema = g.schema;
    distinct =
        update_runs-DistinctRuns p.run_id (mark_failed p now) db.ingestion_runs mark_failed-KeepsId
          g.distinct;
    flags = λ id q e.
        elim (find_run-update_cases p.run_id (mark_failed p now) db.ingestion_runs
          mark_failed-KeepsId r found id q e) [
            | inl same ↦ rw same.1 (flags_failed r (g.flags p.run_id r found))
            | inr other ↦ g.flags id q other.1
          ];
    gate = λ id q e h.
        elim (find_run-update_cases p.run_id (mark_failed p now) db.ingestion_runs
          mark_failed-KeepsId r found id q e) [
            | inl same ↦
                g.gate p.run_id r found (committed_failed r (rw same.1 at h)) ∙ ap some same.0
            | inr other ↦ g.gate id q other.1 h
          ];
    owner = λ id e. owner_after id e (g.owner id e);
    counted = omega (
      arith,
      g.counted,
      count_runs-update_runs has_completed p.run_id (mark_failed p now) db.ingestion_runs r
          g.distinct found,
      weigh_failed r,
    );
  }

  -- Recording a failure keeps the gate: only a STARTED run can fail.
  pub failure_query-IsGated : (db' : Database) → failure_query p now db ≡ ok db' → IsGated c db'
  failure_query-IsGated db' h = elim (any-find_run p.run_id db.ingestion_runs) [
    | inl missing ↦
        let unchanged : record db {
          ingestion_runs = update_runs p.run_id (mark_failed p now) db.ingestion_runs;
        }
            ≡ db =
          ap (λ (rs : List Run). record db { ingestion_runs = rs })
            (update_runs-none p.run_id (mark_failed p now) db.ingestion_runs missing.0) in
        subst (λ d. IsGated c d) (cc (h, failure_query-ok, unchanged)) g
    | inr (r, there, found, named) ↦
        subst (λ d. IsGated c d) (cc (h, failure_query-ok)) (failed-IsGated r found)
  ]
