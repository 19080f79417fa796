-- ===== src/Warehouse/Scripts/Gate/Begin.antt =====
-- `begin_run` of sql.py keeps the gate's invariant.
use power_market_data_platfo.Base.{
  ℕ, ◌≡◌, ◌⊎◌, inl, inr, false, [], ◌∷◌, ◌++◌, some, arith, Text, ok, any,
}
use power_market_data_platfo.Warehouse.Tables.{Run, Control, Database, started, committed}
use power_market_data_platfo.Warehouse.Scripts.{begin_run, has_run_id}
use power_market_data_platfo.Warehouse.Scripts.Runs.{
  find_run, find_run-append, any-find_run, append-DistinctRuns, count_runs-append, weigh,
}
use power_market_data_platfo.Warehouse.Scripts.Gate.{IsGated, has_completed, guard-ok}

-- The manifest that `begin` submits is STARTED, and nothing of it is committed.
abbrev pub IsNew : Run → Type 0
IsNew run = (run.status ≡ started) × (run.commit_completed ≡ false)

module _ (run : Run) (now : ℕ) (c : Control) (db : Database) (g : IsGated c db)
    (new : IsNew run) where
  abbrev pub started_run : Run
  started_run = record run { started_at = now }

  find_begun :
      (id : Text) (q : Run)
      → any (has_run_id run.run_id) db.ingestion_runs ≡ false
      → find_run id (db.ingestion_runs ++ started_run ∷ []) ≡ some q
      → (find_run id db.ingestion_runs ≡ some q) ⊎ (q ≡ started_run)
  find_begun id q fresh e =
      ground (arith, e, find_run-append id db.ingestion_runs (record run { started_at = now }))

  owner_begun :
      (id : Text)
      → (r : Run) × (find_run id db.ingestion_runs ≡ some r) × (r.status ≡ committed)
      → (r : Run) × (find_run id (db.ingestion_runs ++ started_run ∷ []) ≡ some r)
        × (r.status ≡ committed)
  owner_begun id (r, found, s) = (
    r,
    ground (
      arith,
      find_run-append id db.ingestion_runs started_run,
      any-find_run id db.ingestion_runs,
    ),
    s,
  )

  weigh_begun : weigh has_completed started_run ≡ 0
  weigh_begun = ground (arith, new.0)

  begun-IsGated :
      any (has_run_id run.run_id) db.ingestion_runs ≡ false
      → IsGated c (record db { ingestion_runs = db.ingestion_runs ++ started_run ∷ [] })
  begun-IsGated fresh = record {
    control = g.control;
    singleton = g.singleton;
    schema = g.schema;
    distinct = append-DistinctRuns db.ingestion_runs started_run (fresh) g.distinct;
    flags = λ id q e. elim (find_begun id q fresh e) [
      | inl old ↦ g.flags id q old
      | inr same ↦ cc (same, new.0, new.1)
    ];
    gate = λ id q e h. elim (find_begun id q fresh e) [
      | inl old ↦ g.gate id q old h
      | inr same ↦ cc (same, new.0, h)
    ];
    owner = λ id e. owner_begun id (g.owner id e);
    counted = omega (
      arith,
      g.counted,
      count_runs-append has_completed db.ingestion_runs started_run,
      weigh_begun,
    );
  }

  pub begin_run-ok :
      (db' : Database)
      → begin_run run now db ≡ ok db'
      → (db' ≡ db)
        ⊎ ((any (has_run_id run.run_id) db.ingestion_runs ≡ false)
            × (db' ≡ record db { ingestion_runs = db.ingestion_runs ++ started_run ∷ [] }))
  unfolding begin_run
  begin_run-ok db' h = ground (arith, h, guard-ok c db g)

  -- Beginning a run keeps the gate, whether the run is new or its manifest is there already.
  pub begin_run-IsGated : (db' : Database) → begin_run run now db ≡ ok db' → IsGated c db'
  begin_run-IsGated db' h = elim (begin_run-ok db' h) [
    | inl same ↦ rw same g
    | inr (fresh, effect) ↦ rw effect (begun-IsGated fresh)
  ]
