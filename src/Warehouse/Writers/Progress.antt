-- ===== src/Warehouse/Writers/Progress.antt =====
-- Writers are never stuck behind the gate.
use power_market_data_platfo.Base.{ℕ, ◌≡◌, refl, subst, some, [], ◌∷◌, Text, ok}
use power_market_data_platfo.Identity.Digest.{IsCollisionFree}
use power_market_data_platfo.Warehouse.Request.{Product}
use power_market_data_platfo.Warehouse.Tables.{Run, Control, Database, succeeded}
use power_market_data_platfo.Warehouse.Scripts.{
  FinalizeParameters, finalize_query, finalize_effect, mark_succeeded,
}
use power_market_data_platfo.Warehouse.Scripts.Runs.{find_run, find_run-update_runs_self}
use power_market_data_platfo.Warehouse.Scripts.Gate.{IsGated, open_gate}
use power_market_data_platfo.Warehouse.Scripts.Gate.Finalize.{finalize_query-owner}
use power_market_data_platfo.Warehouse.Writers.{World, initial, Reach}
use power_market_data_platfo.Warehouse.Writers.Refinement.{reachable-IsGated}

-- The tables after the run has been finalized: it has succeeded, and the gate is open.
pub record IsReleased (c : Control) (id : Text) (db : Database) : Type 0 where
  pub run : Run
  pub found : find_run id db.ingestion_runs ≡ some run
  pub done : run.status ≡ succeeded
  pub control : db.warehouse_control ≡ open_gate c ∷ []

pub only_control : (c d : Control) → c ∷ [] ≡ d ∷ [] → c ≡ d
only_control c d e = cc e

module _ (product : Product) (p : FinalizeParameters) (now : ℕ) (c : Control) (db : Database)
    (g : IsGated c db) where
  finalize-IsReleased :
      c.active_run_id ≡ some p.run_id → IsReleased c p.run_id (finalize_effect product p now db)
  unfolding finalize_effect mark_succeeded
  finalize-IsReleased a =
      let (r, found, s) = g.owner p.run_id a in
      record {
        run = mark_succeeded p now r;
        found =
            find_run-update_runs_self p.run_id (mark_succeeded p now) db.ingestion_runs (λ k. refl)
              r found;
        done = refl;
        control = (finalize_query-owner product p now c db g a).1.control;
      }

module _ (sha256 : Text → Text) (free : IsCollisionFree sha256) (market_day : Text → ℕ) where
  -- Under a hash without collisions, in every world that writers reach from an empty warehouse, the
  -- run that holds the gate can be finalized, for any product and at any instant: the script goes
  -- through, the run has then succeeded, and the gate is open.
  pub reachable-IsReleased :
      (w : World) (c : Control) (product : Product) (p : FinalizeParameters) (now : ℕ)
      → Reach sha256 market_day initial w
      → w.tables.warehouse_control ≡ c ∷ []
      → c.active_run_id ≡ some p.run_id
      → (db' : Database) × (finalize_query product p now w.tables ≡ ok db')
        × IsReleased c p.run_id db'
  reachable-IsReleased w c product p now reached e a =
      let (d, gated) = reachable-IsGated sha256 free market_day w reached in
      let same : d ≡ c = only_control d c (cc (e, gated.control)) in
      let g : IsGated c w.tables = subst (λ k. IsGated k w.tables) same gated in
      (
        finalize_effect product p now w.tables,
        (finalize_query-owner product p now c w.tables g a).0,
        finalize-IsReleased product p now c w.tables g a,
      )
