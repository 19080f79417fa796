-- ===== src/Warehouse/Writers/Lifecycle.antt =====
-- The life of a manifest under the scripts of sql.py: STARTED, then COMMITTED and SUCCEEDED, or
-- FAILED without a commit.
use power_market_data_platfo.Base.{
  ℕ, ◌≡◌, refl, ◌∙◌, ◌⊎◌, inl, inr, true, List, some, arith, subst, Text, text_eq, text_eq_iff,
  Bool-cases, ok, Option-cases,
}
use power_market_data_platfo.Warehouse.Tables.{
  Run, Control, Database, started, committed, succeeded, failed,
}
use power_market_data_platfo.Warehouse.Request.{Product}
use power_market_data_platfo.Warehouse.Scripts.{
  Script, execute, begin_run, commit_query, commit_effect, finalize_query, finalize_effect,
  FinalizeParameters, failure_query, mark_committed, mark_succeeded, mark_failed, update_runs,
  CommitParameters, FailureParameters,
}
use power_market_data_platfo.Warehouse.Scripts.Runs.{
  find_run, KeepsId, find_run-update_runs, find_run-update_runs_self, find_run-append, any-find_run,
}
use power_market_data_platfo.Warehouse.Scripts.Gate.{IsGated}
use power_market_data_platfo.Warehouse.Scripts.Gate.Commit.{commit_checks, found_started}
use power_market_data_platfo.Warehouse.Scripts.Gate.Finalize.{
  finalize_checks, finalize_query-none, finalize_query-eq, finalize_query-IsGated,
}
use power_market_data_platfo.Warehouse.Scripts.Gate.Fail.{failure_query-ok, mark_failed-KeepsId}
use power_market_data_platfo.Warehouse.Scripts.Gate.Begin.{begin_run-ok, IsNew}
use power_market_data_platfo.Warehouse.Writers.{World, Step, commit_parameters}
use power_market_data_platfo.Warehouse.Writers.Reachable.{execute-cases}

-- What may become of a manifest in one step: nothing, or a move with the columns of that move.
pub data Moves (r : Run) : Run → Type 0 where
  stay : Moves r r
  commit :
      (p : CommitParameters)
      → r.status ≡ started
      → (mark_committed p r).status ≡ committed
      → Moves r (mark_committed p r)
  succeed :
      (p : FinalizeParameters) (now : ℕ)
      → r.status ≡ committed
      → (mark_succeeded p now r).status ≡ succeeded
      → Moves r (mark_succeeded p now r)
  fail : (q : Run) → r.status ≡ started → q.status ≡ failed → q.rows_accepted ≡ some 0 → Moves r q

-- The manifest that is found later is a move away.
abbrev pub Moved : Text → Run → Database → Type 0
Moved id r db = (q : Run) × (find_run id db.ingestion_runs ≡ some q) × Moves r q

updated :
    (j : Text) (f : Run → Run) (rs : List Run) (id : Text) (r : Run)
    → KeepsId f
    → find_run id rs ≡ some r
    → (text_eq j id ≡ true → Moves r (f r))
    → (q : Run) × (find_run id (update_runs j f rs) ≡ some q) × Moves r q
updated j f rs id r keeps found move = elim (Bool-cases (text_eq j id)) [
  | inl same ↦ (f r, find_run-update_runs j id f rs keeps ∙ rw same (rw found refl), move same)
  | inr other ↦ (r, find_run-update_runs j id f rs keeps ∙ rw other found, Moves.stay)
]

module _ (c : Control) (db : Database) (g : IsGated c db) (id : Text) (r : Run)
    (found : find_run id db.ingestion_runs ≡ some r) where
  unmoved : (db' : Database) → db' ≡ db → Moved id r db'
  unmoved db' same = rw same (r, found, Moves.stay)

  found_at :
      (j : Text) (q : Run) → find_run j db.ingestion_runs ≡ some q → text_eq j id ≡ true → q ≡ r
  found_at j q other same = ground (arith, found, other, text_eq_iff j id, same)

  begin-Moved :
      (run : Run) (now : ℕ) (db' : Database)
      → IsNew run
      → begin_run run now db ≡ ok db'
      → Moved id r db'
  begin-Moved run now db' new e = elim (begin_run-ok run now c db g new db' e) [
    | inl same ↦ unmoved db' same
    | inr (fresh, effect) ↦ rw effect (
      r,
      ground (
        arith,
        found,
        find_run-append id db.ingestion_runs (record run { started_at = now }),
        any-find_run id db.ingestion_runs,
      ),
      Moves.stay,
    )
  ]

  commit-Moved :
      (product : Product) (p : CommitParameters) (db' : Database)
      → commit_query product p db ≡ ok db'
      → Moved id r db'
  unfolding commit_effect
  commit-Moved product p db' e =
      let (begun, sequence, gate, effect) = commit_checks product p c db g db' e in
      let (q, other, status) = found_started (find_run p.run_id db.ingestion_runs) begun in
      rw effect (
        updated p.run_id (mark_committed p) db.ingestion_runs id r
          (λ k. unfold mark_committed in refl) found
          (λ same.
            Moves.commit p (cc (status, found_at p.run_id q other same))
              (unfold mark_committed in refl)))

  finalize-Moved :
      (product : Product) (p : FinalizeParameters) (now : ℕ) (db' : Database)
      → finalize_query product p now db ≡ ok db'
      → Moved id r db'
  unfolding finalize_effect
  finalize-Moved product p now db' e = elim (Option-cases (find_run p.run_id db.ingestion_runs)) [
    | inl missing ↦ unmoved db' (cc (e, finalize_query-none product p now c db g missing))
    | inr (q, other) ↦ elim (finalize_checks product p now c db g q db' other e) [
      | inl (s, same) ↦ unmoved db' same
      | inr (s, a, effect) ↦ rw effect (
          updated p.run_id (mark_succeeded p now) db.ingestion_runs id r
            (λ k. unfold mark_succeeded in refl) found
            (λ same.
              Moves.succeed p now (cc (s, found_at p.run_id q other same))
                (unfold mark_succeeded in refl)))
    ]
  ]

  fail_cases :
      (p : FailureParameters) (now : ℕ)
      → (mark_failed p now r ≡ r)
        ⊎ ((r.status ≡ started)
            × ((mark_failed p now r).status ≡ failed)
            × ((mark_failed p now r).rows_accepted ≡ some 0))
  unfolding mark_failed
  fail_cases p now = ground arith

  fail_move : (p : FailureParameters) (now : ℕ) → Moves r (mark_failed p now r)
  fail_move p now = elim (fail_cases p now) [
    | inl same ↦ rw same Moves.stay
    | inr (s, f, a) ↦ Moves.fail (mark_failed p now r) s f a
  ]

  fail-Moved :
      (p : FailureParameters) (now : ℕ) (db' : Database)
      → failure_query p now db ≡ ok db'
      → Moved id r db'
  fail-Moved p now db' e =
      let effect : db' ≡ record db {
        ingestion_runs = update_runs p.run_id (mark_failed p now) db.ingestion_runs;
      } =
        cc (e, failure_query-ok p now c db g) in
      rw effect (
        updated p.run_id (mark_failed p now) db.ingestion_runs id r
          (mark_failed-KeepsId p now c db g) found (λ same. fail_move p now))

  executed-Moved :
      (s : Script) → ((db' : Database) → s db ≡ ok db' → Moved id r db') → Moved id r (execute s db)
  executed-Moved s moves = elim (execute-cases s db) [
    | inl (db', e, same) ↦ rw same (moves db' e)
    | inr same ↦ unmoved (execute s db) same
  ]

module _ (sha256 : Text → Text) (market_day : Text → ℕ) where
  -- Under one step of any writer from tables with a consistent gate, a manifest stays and is
  -- unchanged or moves from STARTED to COMMITTED, from COMMITTED to SUCCEEDED, or from STARTED to
  -- FAILED with no row accepted.
  pub step-Moves :
      (c : Control) (w v : World) (id : Text) (r : Run)
      → IsGated c w.tables
      → find_run id w.tables.ingestion_runs ≡ some r
      → Step sha256 market_day w v
      → Moved id r v.tables
  step-Moves c w v id r g found (Step.read q e) = (r, found, Moves.stay)
  step-Moves c w v id r g found (Step.begin run now new) =
      executed-Moved c w.tables g id r found (begin_run run now)
        (λ db' e. begin-Moved c w.tables g id r found run now db' new e)
  step-Moves c w v id r g found (Step.commit q run_id job_id rows plan m batch planned) =
      executed-Moved c w.tables g id r found
        (commit_query q.product (commit_parameters run_id job_id plan))
        (commit-Moved c w.tables g id r found q.product (commit_parameters run_id job_id plan))
  step-Moves c w v id r g found (Step.finalize product p now) =
      executed-Moved c w.tables g id r found (finalize_query product p now)
        (finalize-Moved c w.tables g id r found product p now)
  step-Moves c w v id r g found (Step.fail p now) =
      executed-Moved c w.tables g id r found (failure_query p now)
        (fail-Moved c w.tables g id r found p now)

-- From tables with a consistent gate, a finalization that has gone through can be repeated with any
-- knowledge time and at any later instant: it goes through and changes nothing.
pub finalize_twice :
    (product : Product) (p q : FinalizeParameters) (now later : ℕ) (c : Control) (db db' : Database)
    → IsGated c db
    → finalize_query product p now db ≡ ok db'
    → q.run_id ≡ p.run_id
    → finalize_query product q later db' ≡ ok db'
unfolding finalize_effect mark_succeeded
finalize_twice product p q now later c db db' g e same =
    let (c', g') = finalize_query-IsGated product p now c db g db' e in
    elim (Option-cases (find_run p.run_id db.ingestion_runs)) [
      | inl missing ↦
          let unchanged : db ≡ db' = cc (e, finalize_query-none product p now c db g missing) in
          subst (λ d. finalize_query product q later d ≡ ok d) unchanged
            (finalize_query-none product q later c db g (rw same missing))
      | inr (r, found) ↦ elim (finalize_checks product p now c db g r db' found e) [
        | inl (s, unchanged) ↦
            finalize_query-eq product q later c' db' g' r (rw same (rw unchanged found)) ∙ rw s refl
        | inr (s, a, effect) ↦
            finalize_query-eq product q later c' db' g' (mark_succeeded p now r) (
              rw same (
                rw effect (
                  find_run-update_runs_self p.run_id (mark_succeeded p now) db.ingestion_runs
                    (λ k. refl) r found)))
      ]
    ]
