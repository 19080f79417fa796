-- ===== src/Warehouse/Writers/Refinement.antt =====
-- What writers that follow `plan_write` and the scripts of sql.py promise, from an empty warehouse
-- on and in any interleaving: revision histories are exact, and no update is lost.
use mathlib.Core.List.{Memᴰ}
use power_market_data_platfo.Base.{
  ℕ, ◌+◌, ◌≤◌, ◌≡◌, refl, ap, subst, inl, inr, List, arith, Text, ok,
}
use power_market_data_platfo.Identity.Digest.{IsCollisionFree}
use power_market_data_platfo.Warehouse.Tables.{Row, Control, Database}
use power_market_data_platfo.Warehouse.Plan.{WritePlan, plan_write}
use power_market_data_platfo.Warehouse.Scripts.{
  Script, execute, facts, CommitParameters, commit_query,
}
use power_market_data_platfo.Warehouse.Scripts.Gate.{IsGated, closed_gate}
use power_market_data_platfo.Warehouse.Scripts.Gate.Commit.{commit_checks, commit_query-IsGated}
use power_market_data_platfo.Warehouse.History.{history, observe_row, value_of}
use power_market_data_platfo.Warehouse.Records.{IsRecorded, IsBatch}
use power_market_data_platfo.Warehouse.Writers.{
  Reading, World, initial, commit_parameters, Step, Reach,
}
use power_market_data_platfo.Warehouse.Writers.Plans.{plan_fields}
use power_market_data_platfo.Warehouse.Writers.Invariant.Commits.{commit_keeps}
use power_market_data_platfo.Warehouse.Writers.Reachable.{
  reachable-Sound, reach-Sound, step-Sound, IsHonest-at, execute-cases, Sound,
}

-- A script that goes through is executed.
execute-ok : (s : Script) (db db' : Database) → s db ≡ ok db' → execute s db ≡ db'
unfolding execute
execute-ok s db db' e = rw (e, execute) refl

module _ (sha256 : Text → Text) (free : IsCollisionFree sha256) (market_day : Text → ℕ) where
  -- Under a hash without collisions, in every world that writers reach from an empty warehouse, a
  -- commit of a plan of a batch (rows of one date, with distinct keys and sound identifiers) on any
  -- snapshot read before, if its script goes through, observes the batch in the revision history of
  -- every key: a value is appended exactly when it differs from the last one.
  pub commit-observe :
      (w : World) (r : Reading) (run_id job_id : Text) (rows : List Row) (plan : WritePlan)
      (db' : Database) (key : Text)
      → Reach sha256 market_day initial w
      → Memᴰ r w.readings
      → IsBatch sha256 market_day r.day rows
      → plan_write sha256 run_id rows r.taken ≡ ok plan
      → commit_query r.product (commit_parameters run_id job_id plan) w.tables ≡ ok db'
      → history key (facts r.product db').transitions
        ≡ observe_row (history key (facts r.product w.tables).transitions) (value_of key rows)
  commit-observe w r run_id job_id rows plan db' key reached m batch planned e =
      let (c, h, _) = reachable-Sound sha256 free market_day reached in
      (commit_keeps sha256 free market_day c w.tables h.gated (h.lmp, h.load) r
          (IsHonest-at sha256 free market_day c w.tables r w.readings m h.honest) run_id job_id rows
          plan batch planned db' e).1
        key

  -- Under a hash without collisions, in every world that writers reach from an empty warehouse the
  -- transitions of each key have the ordinals 1, 2, 3, ..., each another hash than the one before,
  -- each names a stored content and a committed run, and content IDs are unique.
  pub reachable-IsRecorded :
      (w : World)
      → Reach sha256 market_day initial w
      → IsRecorded sha256 market_day w.tables.ingestion_runs w.tables.lmp
        × IsRecorded sha256 market_day w.tables.ingestion_runs w.tables.load
  reachable-IsRecorded w reached =
      let (c, h, _) = reachable-Sound sha256 free market_day reached in (h.lmp, h.load)

  -- Under a hash without collisions, in every world that writers reach from an empty warehouse
  -- there is one control row, the gate is held by a run exactly when that run is committed and not
  -- finalized, and the sequence counts the runs that have committed.
  pub reachable-IsGated :
      (w : World) → Reach sha256 market_day initial w → (c : Control) × IsGated c w.tables
  reachable-IsGated w reached =
      let (c, h, _) = reachable-Sound sha256 free market_day reached in (c, h.gated)

  later_sequence :
      (w : World) (r : Reading) (run_id job_id : Text) (rows : List Row) (plan : WritePlan)
      (db' : Database)
      → Reach sha256 market_day initial w
      → plan_write sha256 run_id rows r.taken ≡ ok plan
      → commit_query r.product (commit_parameters run_id job_id plan) w.tables ≡ ok db'
      → (d : Control) → IsGated d db'
      → r.taken.sequence + 1 ≤ d.sequence
  later_sequence w r run_id job_id rows plan db' reached planned e d g =
      let (c, h, _) = reachable-Sound sha256 free market_day reached in
      let (_, sequence, _, _) =
        commit_checks r.product (commit_parameters run_id job_id plan) c w.tables h.gated db' e in
      let (_, _, expected) = plan_fields sha256 run_id rows r.taken plan planned in
      let closed =
        commit_query-IsGated r.product (commit_parameters run_id job_id plan) c w.tables h.gated db'
          e in
      let same : d ≡ closed_gate run_id c = cc (g.control, closed.control) in
      omega (arith, sequence, expected, ap (λ (k : Control). k.sequence) same)

  -- Under a hash without collisions, two writers that start from an empty warehouse have planned on
  -- snapshots of one sequence, the first a batch of rows of one date with distinct keys and sound
  -- identifiers: once the first has committed, the commit of the second leaves the tables as they
  -- are, whatever steps of any writers lie between.
  pub stale_commit :
      (w v : World) (r q : Reading) (run_id job_id other_id other_job : Text)
      (rows others : List Row) (plan other : WritePlan) (db' : Database)
      → Reach sha256 market_day initial w
      → Memᴰ r w.readings
      → IsBatch sha256 market_day r.day rows
      → plan_write sha256 run_id rows r.taken ≡ ok plan
      → commit_query r.product (commit_parameters run_id job_id plan) w.tables ≡ ok db'
      → Reach sha256 market_day (record w { tables = db' }) v
      → q.taken.sequence ≡ r.taken.sequence
      → plan_write sha256 other_id others q.taken ≡ ok other
      → execute (commit_query q.product (commit_parameters other_id other_job other)) v.tables
        ≡ v.tables
  stale_commit w v r q run_id job_id other_id other_job rows others plan other db' reached m batch
        planned e later same other_planned =
      let (c, h, le) = reach-Sound sha256 free market_day later (r.taken.sequence + 1) after in
      elim (execute-cases (commit_query q.product p) v.tables) [
        | inl (db, ok_, _) ↦
            let (_, sequence, _, _) = commit_checks q.product p c v.tables h.gated db ok_ in
            let (_, _, expected) = plan_fields sha256 other_id others q.taken other other_planned in
            absurd (omega (arith, sequence, expected, same, le))
        | inr unchanged ↦ unchanged
      ]
    where
      p : CommitParameters
      p = commit_parameters other_id other_job other

      after : Sound sha256 free market_day (r.taken.sequence + 1) (record w { tables = db' })
      after =
          let step : Step sha256 market_day w (record w {
            tables =
                execute (commit_query r.product (commit_parameters run_id job_id plan)) w.tables;
          }) =
            Step.commit r run_id job_id rows plan m batch planned in
          let sound =
            step-Sound sha256 free market_day step 0
              (reachable-Sound sha256 free market_day reached) in
          let (d, k, _) =
            subst (λ db. Sound sha256 free market_day 0 (record w { tables = db }))
              (execute-ok (commit_query r.product (commit_parameters run_id job_id plan)) w.tables
                db' e)
              sound in
          (d, k, later_sequence w r run_id job_id rows plan db' reached planned e d k.gated)
