-- ===== src/Warehouse/Scripts/Gate/Commit.antt =====
-- `commit_query` of sql.py keeps the gate's invariant.
use power_market_data_platfo.Base.{
  ◌≡◌, refl, ap, subst, ◌≢◌, ◌⊎◌, inl, inr, true, List, Option, none, some, arith, Text, ok, any,
}
use power_market_data_platfo.Warehouse.Request.{Product}
use power_market_data_platfo.Warehouse.Tables.{Run, Control, Database, started}
use power_market_data_platfo.Warehouse.Scripts.{
  CommitParameters, commit_query, commit_effect, mark_committed, update_runs, is_started,
}
use power_market_data_platfo.Warehouse.Scripts.Runs.{
  find_run, KeepsId, update_runs-DistinctRuns, count_runs-update_runs, counted_once,
  find_run-update_cases, find_run-update_runs_self, to_list, weigh,
}
use power_market_data_platfo.Warehouse.Scripts.Gate.{IsGated, has_completed, closed_gate}

module _ (product : Product) (p : CommitParameters) (c : Control) (db : Database)
    (g : IsGated c db) where
  pub commit_checks :
      (db' : Database)
      → commit_query product p db ≡ ok db'
      → (any (λ r. is_started r.status) (to_list (find_run p.run_id db.ingestion_runs)) ≡ true)
        × (c.sequence ≡ p.expected_sequence)
        × (c.active_run_id ≡ none)
        × (db' ≡ commit_effect product p db)
  unfolding commit_query
  commit_checks db' h = ground (
    arith,
    h,
    g.control,
    g.singleton,
    g.schema,
    counted_once (λ r. is_started r.status) p.run_id db.ingestion_runs g.distinct,
  )

pub found_started :
    (o : Option Run)
    → any (λ r. is_started r.status) (to_list o) ≡ true
    → (r : Run) × (o ≡ some r) × (r.status ≡ started)
found_started none h = cc h
found_started (some r) h = (r, refl, ground arith)

module _ (product : Product) (p : CommitParameters) (c : Control) (db : Database)
    (g : IsGated c db) where
  runs_after : List Run
  runs_after = update_runs p.run_id (mark_committed p) db.ingestion_runs

  mark_committed-KeepsId : KeepsId (mark_committed p)
  unfolding mark_committed
  mark_committed-KeepsId r = refl

  cases :
      (r : Run)
      → find_run p.run_id db.ingestion_runs ≡ some r
      → (id : Text) (q : Run) → find_run id runs_after ≡ some q
      → ((p.run_id ≡ id) × (q ≡ mark_committed p r))
        ⊎ ((p.run_id ≢ id) × (find_run id db.ingestion_runs ≡ some q))
  unfolding runs_after
  cases r found =
      find_run-update_cases p.run_id (mark_committed p) db.ingestion_runs mark_committed-KeepsId r
        found

  weigh_started : (r : Run) → r.status ≡ started → weigh has_completed r ≡ 0
  weigh_started r s = ground arith

  weigh-mark_committed : (r : Run) → weigh has_completed (mark_committed p r) ≡ 1
  unfolding mark_committed
  weigh-mark_committed r = refl

  -- The effect of a commit of a STARTED run through the open gate.
  commit_effect-IsGated :
      (r : Run)
      → find_run p.run_id db.ingestion_runs ≡ some r
      → r.status ≡ started
      → c.active_run_id ≡ none
      → IsGated (closed_gate p.run_id c) (commit_effect product p db)
  unfolding commit_effect runs_after
  commit_effect-IsGated r found s a = record {
    control = rw g.control (ground (arith, g.singleton));
    singleton = g.singleton;
    schema = g.schema;
    distinct =
        update_runs-DistinctRuns p.run_id (mark_committed p) db.ingestion_runs
          mark_committed-KeepsId g.distinct;
    flags = λ id q e. elim (cases r found id q e) [
      | inl same ↦ unfold mark_committed in cc same.1
      | inr other ↦ g.flags id q other.1
    ];
    gate = λ id q e h. elim (cases r found id q e) [
      | inl same ↦ ap some same.0
      | inr other ↦ cc (a, g.gate id q other.1 h)
    ];
    owner = λ id e. (
      mark_committed p r,
      subst (λ k. find_run k runs_after ≡ some (mark_committed p r)) (cc e)
          (find_run-update_runs_self p.run_id (mark_committed p) db.ingestion_runs
            mark_committed-KeepsId r found),
      unfold mark_committed in refl,
    );
    counted = omega (
      arith,
      g.counted,
      count_runs-update_runs has_completed p.run_id (mark_committed p) db.ingestion_runs r
          g.distinct found,
      weigh_started r s,
      weigh-mark_committed r,
    );
  }

  -- A commit that goes through closes the gate behind its run.
  pub commit_query-IsGated :
      (db' : Database) → commit_query product p db ≡ ok db' → IsGated (closed_gate p.run_id c) db'
  commit_query-IsGated db' h =
      let (begun, sequence, gate, effect) = commit_checks product p c db g db' h in
      let (r, found, status) = found_started (find_run p.run_id db.ingestion_runs) begun in
      rw effect (commit_effect-IsGated r found status gate)
