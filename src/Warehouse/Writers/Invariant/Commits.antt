-- ===== src/Warehouse/Writers/Invariant/Commits.antt =====
-- A commit that goes through keeps the invariant, and every key's history observes the batch.
use power_market_data_platfo.Base.{ℕ, ◌≡◌, refl, sym, ◌∙◌, subst, true, List, some, arith, Text, ok}
use power_market_data_platfo.Identity.Digest.{IsCollisionFree}
use power_market_data_platfo.Identity.Json.Injective.{IsBasic}
use power_market_data_platfo.Warehouse.Request.{Product}
use power_market_data_platfo.Warehouse.Tables.{Row, Run, Control, Facts, Database, started}
use power_market_data_platfo.Warehouse.Plan.{
  Snapshot, WritePlan, plan_write, plan_contents, plan_transitions,
}
use power_market_data_platfo.Warehouse.Scripts.{
  facts, commit_query, commit_effect, CommitParameters, mark_committed, merge_contents,
  merge_transitions, update_runs,
}
use power_market_data_platfo.Warehouse.Scripts.Runs.{find_run, find_run-update_runs_self, KeepsId}
use power_market_data_platfo.Warehouse.Scripts.Gate.{IsGated, has_completed}
use power_market_data_platfo.Warehouse.Scripts.Gate.Commit.{commit_checks, found_started}
use power_market_data_platfo.Warehouse.History.{history, observe_row, value_of}
use power_market_data_platfo.Warehouse.Records.{
  Completed, IsRecorded, IsBatch, IsFresh, runs-IsRecorded,
}
use power_market_data_platfo.Warehouse.Records.Commit.{merge-IsRecorded, history-merge}
use power_market_data_platfo.Warehouse.Writers.{Reading, commit_parameters}
use power_market_data_platfo.Warehouse.Writers.Plans.{run_id-IsBasic, plan_fields}
use power_market_data_platfo.Warehouse.Writers.Invariant.{IsHonest, update-Completed}

mark_committed-KeepsId : (p : CommitParameters) → KeepsId (mark_committed p)
unfolding mark_committed
mark_committed-KeepsId p r = refl

mark_committed-done :
    (p : CommitParameters) (r : Run)
    → has_completed r ≡ true
    → has_completed (mark_committed p r) ≡ true
unfolding mark_committed
mark_committed-done p r h = refl

-- A STARTED run has committed nothing.
not-Completed_of_started :
    (runs : List Run) (id : Text) (r : Run)
    → find_run id runs ≡ some r
    → r.status ≡ started
    → ¬ (Completed runs id)
not-Completed_of_started runs id r found s (q, found', done) =
    ground (arith, found, found', s, done)

module _ (sha256 : Text → Text) (free : IsCollisionFree sha256) (market_day : Text → ℕ) where
  -- Both products are recorded under the manifests.
  abbrev pub AreRecorded : Database → Type 0
  AreRecorded db =
      IsRecorded sha256 market_day db.ingestion_runs db.lmp
      × IsRecorded sha256 market_day db.ingestion_runs db.load

  module _ (p : CommitParameters) (db : Database) (h : AreRecorded db)
      (pending : ¬ (Completed db.ingestion_runs p.run_id))
      (done : Completed (update_runs p.run_id (mark_committed p) db.ingestion_runs) p.run_id)
      (basic : IsBasic p.run_id) (day : ℕ) (s : Snapshot) (rows : List Row)
      (batch : IsBatch sha256 market_day day rows)
      (contents : p.contents ≡ plan_contents p.run_id s rows)
      (transitions : p.transitions ≡ plan_transitions sha256 p.run_id s rows) where
    keeps :
        (id : Text)
        → Completed db.ingestion_runs id
        → Completed (update_runs p.run_id (mark_committed p) db.ingestion_runs) id
    keeps =
        update-Completed p.run_id (mark_committed p) db.ingestion_runs (mark_committed-KeepsId p)
          (mark_committed-done p)

    merged :
        (f : Facts)
        → IsRecorded sha256 market_day db.ingestion_runs f
        → IsFresh day s f
        → IsRecorded sha256 market_day
            (update_runs p.run_id (mark_committed p) db.ingestion_runs)
            (record {
              contents = merge_contents f.contents p.contents;
              transitions = merge_transitions f.transitions p.transitions;
            })
    merged f k fresh =
        let recorded =
          merge-IsRecorded sha256 free market_day db.ingestion_runs f k day s fresh rows batch
            p.run_id basic pending (update_runs p.run_id (mark_committed p) db.ingestion_runs) keeps
            done in
        let with_contents =
          subst
            (λ cs.
              IsRecorded sha256 market_day
                (update_runs p.run_id (mark_committed p) db.ingestion_runs)
                (record {
                  contents = merge_contents f.contents cs;
                  transitions =
                      merge_transitions f.transitions (plan_transitions sha256 p.run_id s rows);
                }))
            (sym contents) recorded in
        subst
          (λ ts.
            IsRecorded sha256 market_day (update_runs p.run_id (mark_committed p) db.ingestion_runs)
              (record {
                contents = merge_contents f.contents p.contents;
                transitions = merge_transitions f.transitions ts;
              }))
          (sym transitions) with_contents

    kept :
        (f : Facts)
        → IsRecorded sha256 market_day db.ingestion_runs f
        → IsRecorded sha256 market_day (update_runs p.run_id (mark_committed p) db.ingestion_runs) f
    kept =
        runs-IsRecorded sha256 market_day db.ingestion_runs
          (update_runs p.run_id (mark_committed p) db.ingestion_runs) keeps

    effect-AreRecorded :
        (product : Product)
        → IsFresh day s (facts product db)
        → AreRecorded (commit_effect product p db)
    unfolding commit_effect
    effect-AreRecorded Product.lmp fresh = (merged db.lmp h.0 fresh, kept db.load h.1)
    effect-AreRecorded Product.load fresh = (kept db.lmp h.0, merged db.load h.1 fresh)

    effect-history :
        (product : Product)
        → IsFresh day s (facts product db)
        → (key : Text)
        → history key (facts product (commit_effect product p db)).transitions
          ≡ observe_row (history key (facts product db).transitions) (value_of key rows)
    unfolding commit_effect
    effect-history Product.lmp fresh key = rw transitions (
        history-merge sha256 free market_day db.ingestion_runs db.lmp h.0 day s fresh rows batch
          p.run_id basic pending key)
    effect-history Product.load fresh key = rw transitions (
        history-merge sha256 free market_day db.ingestion_runs db.load h.1 day s fresh rows batch
          p.run_id basic pending key)

  -- What a commit that goes through does, from any snapshot that was read before it.
  module _ (c : Control) (db : Database) (g : IsGated c db) (h : AreRecorded db) (r : Reading)
      (honest : IsHonest c db r) (run_id job_id : Text) (rows : List Row) (plan : WritePlan)
      (batch : IsBatch sha256 market_day r.day rows)
      (planned : plan_write sha256 run_id rows r.taken ≡ ok plan) (db' : Database)
      (e : commit_query r.product (commit_parameters run_id job_id plan) db ≡ ok db') where
    abbrev p : CommitParameters
    p = commit_parameters run_id job_id plan

    pub commit_keeps :
        AreRecorded db'
        × ((key : Text)
            → history key (facts r.product db').transitions
              ≡ observe_row (history key (facts r.product db).transitions) (value_of key rows))
    commit_keeps =
        let (begun, sequence, gate, effect) = commit_checks r.product p c db g db' e in
        let (run, found, status) = found_started (find_run run_id db.ingestion_runs) begun in
        let (contents, transitions, expected) =
          plan_fields sha256 run_id rows r.taken plan planned in
        let pending = not-Completed_of_started db.ingestion_runs run_id run found status in
        let done : Completed (update_runs run_id (mark_committed p) db.ingestion_runs) run_id = (
          mark_committed p run,
          find_run-update_runs_self run_id (mark_committed p) db.ingestion_runs
              (mark_committed-KeepsId p) run found,
          mark_committed-now run,
        ) in
        let basic = run_id-IsBasic sha256 run_id rows r.taken plan planned in
        let fresh = honest.fresh (sym (sequence ∙ expected)) in
        (
          rw effect (
              effect-AreRecorded p db h pending done basic r.day r.taken rows batch contents
                transitions r.product fresh),
          (λ key. rw effect (
              effect-history p db h pending done basic r.day r.taken rows batch contents transitions
                r.product fresh key)),
        )
      where
        mark_committed-now : (q : Run) → has_completed (mark_committed p q) ≡ true
        mark_committed-now q = unfold mark_committed in refl
