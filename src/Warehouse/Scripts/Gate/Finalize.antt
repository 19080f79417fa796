-- ===== src/Warehouse/Scripts/Gate/Finalize.antt =====
-- `finalize_query` of sql.py keeps the gate's invariant, and a second finalization changes nothing.
use power_market_data_platfo.Base.{
  ℕ, ◌≡◌, refl, sym, ◌∙◌, ap, subst, ◌⊎◌, inl, inr, true, List, Option, none, some, arith,
  if◌then◌else◌, Text, text_eq_iff, Option-cases, ok,
}
use power_market_data_platfo.Warehouse.Request.{Product}
use power_market_data_platfo.Warehouse.Tables.{Run, Control, Database, committed, succeeded}
use power_market_data_platfo.Warehouse.Scripts.{
  FinalizeParameters, finalize_query, finalize_effect, finalize_committed, mark_succeeded,
  update_runs, is_succeeded, owned_by,
}
use power_market_data_platfo.Warehouse.Scripts.Runs.{
  find_run, KeepsId, update_runs-DistinctRuns, filter-find_run, count_runs-update_runs,
  find_run-update_cases, weigh,
}
use power_market_data_platfo.Warehouse.Scripts.Gate.{IsGated, has_completed, guard-ok, open_gate}

module _ (product : Product) (p : FinalizeParameters) (now : ℕ) (c : Control) (db : Database)
    (g : IsGated c db) where
  runs_after : List Run
  runs_after = update_runs p.run_id (mark_succeeded p now) db.ingestion_runs

  mark_succeeded-KeepsId : KeepsId (mark_succeeded p now)
  unfolding mark_succeeded
  mark_succeeded-KeepsId r = refl

  -- A finalization of a run that is there: its effect, if the run is COMMITTED and holds the gate.
  pub finalize_query-eq :
      (r : Run)
      → find_run p.run_id db.ingestion_runs ≡ some r
      → finalize_query product p now db
        ≡ (if is_succeeded r.status then ok db else finalize_committed product p now c r.status db)
  unfolding finalize_query
  finalize_query-eq r found =
      rw (guard-ok c db g)
        (rw (filter-find_run p.run_id db.ingestion_runs g.distinct) (rw found refl))

  owned : (o : Option Text) → owned_by p.run_id o ≡ true → o ≡ some p.run_id
  owned none h = cc h
  owned (some a) h = ap some ((text_eq_iff a p.run_id).0 h)

  finalize_committed_checks :
      (r : Run) (db' : Database)
      → (if is_succeeded r.status then ok db else finalize_committed product p now c r.status db)
        ≡ ok db'
      → ((r.status ≡ succeeded) × (db' ≡ db))
        ⊎ ((r.status ≡ committed)
            × (c.active_run_id ≡ some p.run_id)
            × (db' ≡ finalize_effect product p now db))
  unfolding finalize_committed
  finalize_committed_checks r db' h = ground (arith, h, owned c.active_run_id)

  weigh_succeeded :
      (r : Run)
      → r.status ≡ committed
      → weigh has_completed r ≡ weigh has_completed (mark_succeeded p now r)
  unfolding mark_succeeded
  weigh_succeeded r s = ground arith

  pub finalize_effect-IsGated :
      (r : Run)
      → find_run p.run_id db.ingestion_runs ≡ some r
      → r.status ≡ committed
      → c.active_run_id ≡ some p.run_id
      → IsGated (open_gate c) (finalize_effect product p now db)
  unfolding finalize_effect runs_after
  finalize_effect-IsGated r found s a = record {
    control = rw g.control (ground (arith, g.singleton));
    singleton = g.singleton;
    schema = g.schema;
    distinct =
        update_runs-DistinctRuns p.run_id (mark_succeeded p now) db.ingestion_runs
          mark_succeeded-KeepsId g.distinct;
    flags = λ id q e.
        elim (find_run-update_cases p.run_id (mark_succeeded p now) db.ingestion_runs
          mark_succeeded-KeepsId r found id q e) [
            | inl same ↦ unfold mark_succeeded in cc (same.1, s, g.flags p.run_id r found)
            | inr other ↦ g.flags id q other.1
          ];
    gate = λ id q e h.
        elim (find_run-update_cases p.run_id (mark_succeeded p now) db.ingestion_runs
          mark_succeeded-KeepsId r found id q e) [
            | inl same ↦ unfold mark_succeeded in cc (same.1, h)
            | inr other ↦ absurd (other.0 (cc (a, g.gate id q other.1 h)))
          ];
    owner = λ id e. cc e;
    counted = omega (
      arith,
      g.counted,
      count_runs-update_runs has_completed p.run_id (mark_succeeded p now) db.ingestion_runs r
          g.distinct found,
      weigh_succeeded r s,
    );
  }

  pub finalize_checks :
      (r : Run) (db' : Database)
      → find_run p.run_id db.ingestion_runs ≡ some r
      → finalize_query product p now db ≡ ok db'
      → ((r.status ≡ succeeded) × (db' ≡ db))
        ⊎ ((r.status ≡ committed)
            × (c.active_run_id ≡ some p.run_id)
            × (db' ≡ finalize_effect product p now db))
  finalize_checks r db' found h =
      finalize_committed_checks r db' (sym (finalize_query-eq r found) ∙ h)

  pub finalize_query-none :
      find_run p.run_id db.ingestion_runs ≡ none → finalize_query product p now db ≡ ok db
  unfolding finalize_query
  finalize_query-none missing =
      rw (guard-ok c db g)
        (rw (filter-find_run p.run_id db.ingestion_runs g.distinct) (rw missing refl))

  -- A finalization that goes through leaves a consistent gate: open, or as it was.
  pub finalize_query-IsGated :
      (db' : Database) → finalize_query product p now db ≡ ok db' → (c' : Control) × IsGated c' db'
  finalize_query-IsGated db' h = elim (Option-cases (find_run p.run_id db.ingestion_runs)) [
    | inl missing ↦
        let same : db ≡ db' = cc (finalize_query-none missing, h) in
        (c, subst (λ d. IsGated c d) same g)
    | inr (r, found) ↦ elim (finalize_checks r db' found h) [
      | inl (s, same) ↦ (c, rw same g)
      | inr (s, a, effect) ↦ (open_gate c, rw effect (finalize_effect-IsGated r found s a))
    ]
  ]

  -- The run that holds the gate can be finalized, and its finalization opens the gate.
  pub finalize_query-owner :
      c.active_run_id ≡ some p.run_id
      → (finalize_query product p now db ≡ ok (finalize_effect product p now db))
        × IsGated (open_gate c) (finalize_effect product p now db)
  unfolding finalize_committed
  finalize_query-owner a =
      let (r, found, s) = g.owner p.run_id a in
      (
        finalize_query-eq r found ∙ ground (arith, s, a, text_eq_iff p.run_id p.run_id),
        finalize_effect-IsGated r found s a,
      )
