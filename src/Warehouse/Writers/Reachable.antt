-- ===== src/Warehouse/Writers/Reachable.antt =====
-- Every world that writers can reach from an empty warehouse satisfies the invariant.
use mathlib.Core.List.{Memᴰ}
use power_market_data_platfo.Base.{
  ℕ, ◌≤◌, ◌≡◌, refl, sym, ap, subst, ◌⊎◌, inl, inr, true, List, [], ◌∷◌, ◌++◌, none, arith, All,
  All-map, Text, contains, Result, ok, err, Option-cases,
}
use power_market_data_platfo.Identity.Digest.{IsCollisionFree}
use power_market_data_platfo.Warehouse.Request.{Product}
use power_market_data_platfo.Warehouse.Tables.{Run, Control, Database}
use power_market_data_platfo.Warehouse.Plan.{Snapshot}
use power_market_data_platfo.Warehouse.Snapshot.{snapshot, ids_on, latest_from}
use power_market_data_platfo.Warehouse.Scripts.{
  Script, execute, facts, begin_run, commit_query, FinalizeParameters, finalize_query,
  finalize_effect, FailureParameters, failure_query, mark_succeeded, mark_failed, update_runs,
  ScriptError,
}
use power_market_data_platfo.Warehouse.Scripts.Runs.{find_run}
use power_market_data_platfo.Warehouse.Scripts.Gate.{IsGated, has_completed, closed_gate, open_gate}
use power_market_data_platfo.Warehouse.Scripts.Gate.Commit.{commit_query-IsGated}
use power_market_data_platfo.Warehouse.Scripts.Gate.Finalize.{
  finalize_checks, finalize_query-none, finalize_effect-IsGated,
}
use power_market_data_platfo.Warehouse.Scripts.Gate.Fail.{
  failure_query-IsGated, failure_query-ok, mark_failed-KeepsId,
}
use power_market_data_platfo.Warehouse.Scripts.Gate.Begin.{IsNew, begin_run-ok, begin_run-IsGated}
use power_market_data_platfo.Warehouse.Records.{Completed, IsRecorded, runs-IsRecorded}
use power_market_data_platfo.Warehouse.Records.Finalize.{
  finalize-IsRecorded, ids_on-seen, latest_from-known,
}
use power_market_data_platfo.Warehouse.Writers.{
  Reading, World, commit_parameters, Step, Reach, initial, first_control, empty_facts,
}
use power_market_data_platfo.Warehouse.Writers.Invariant.{
  IsHonest, IsSoundWorld, SameView, SameView-refl, SameViews, IsHonest-kept, IsHonest-older,
  update-Completed, append-Completed,
}
use power_market_data_platfo.Warehouse.Writers.Invariant.Commits.{AreRecorded, commit_keeps}

-- A transaction has its script's effect, or none.
pub execute-cases :
    (s : Script) (db : Database)
    → ((db' : Database) × (s db ≡ ok db') × (execute s db ≡ db')) ⊎ (execute s db ≡ db)
unfolding execute
execute-cases s db = go (s db) refl
  where
    go :
        (r : Result ScriptError Database)
        → s db ≡ r
        → ((db' : Database) × (s db ≡ ok db') × (execute s db ≡ db')) ⊎ (execute s db ≡ db)
    go (ok db') e = inl (db', e, rw (e, execute) refl)
    go (err x) e = inr (rw (e, execute) refl)

-- What a snapshot holds; it is refused while the gate is closed.
pub snapshot_fields :
    (c : Control) (db : Database) (product : Product) (day : ℕ) (s : Snapshot)
    → IsGated c db
    → snapshot product day db ≡ ok s
    → (s ≡ record {
      sequence = c.sequence;
      contents = ids_on day (facts product db).contents;
      latest = λ key. latest_from day key none (facts product db).transitions;
    })
      × (c.active_run_id ≡ none)
unfolding snapshot
snapshot_fields c db product day s g e = ground (arith, e, g.control, g.singleton, g.schema)

module _ (sha256 : Text → Text) (free : IsCollisionFree sha256) (market_day : Text → ℕ) where
  -- The invariant, at a sequence of at least `n`.
  abbrev pub Sound : ℕ → World → Type 0
  Sound n w = (c : Control) × IsSoundWorld sha256 market_day c w × (n ≤ c.sequence)

  later : (n m : ℕ) (w : World) → n ≤ m → Sound m w → Sound n w
  later n m w le (c, h, k) = (c, h, omega arith)

  -- New tables, under a control row, with the snapshots still honest.
  sound_with :
      (c c' : Control) (w : World) (db' : Database)
      → IsSoundWorld sha256 market_day c w
      → IsGated c' db'
      → AreRecorded sha256 free market_day db'
      → ((r : Reading) → IsHonest c w.tables r → IsHonest c' db' r)
      → c.sequence ≤ c'.sequence
      → Sound c.sequence (record w { tables = db' })
  sound_with c c' w db' h g recorded honest le = (
    c',
    record {
      gated = g;
      lmp = recorded.0;
      load = recorded.1;
      honest = All-map honest w.readings h.honest;
    },
    le,
  )

  -- Manifests that change without undoing a commit, and nothing else.
  manifests :
      (c : Control) (w : World) (runs' : List Run)
      → IsSoundWorld sha256 market_day c w
      → IsGated c (record w.tables { ingestion_runs = runs' })
      → ((id : Text) → Completed w.tables.ingestion_runs id → Completed runs' id)
      → Sound c.sequence (record w { tables = record w.tables { ingestion_runs = runs' } })
  manifests c w runs' h g keeps =
      sound_with c c w (record w.tables { ingestion_runs = runs' }) h g
        (
          runs-IsRecorded sha256 market_day w.tables.ingestion_runs runs' keeps w.tables.lmp h.lmp,
          runs-IsRecorded sha256 market_day w.tables.ingestion_runs runs' keeps w.tables.load
              h.load,
        )
        (IsHonest-kept c c w.tables (record w.tables { ingestion_runs = runs' }) refl
          (λ p. same_facts p))
        (omega arith)
    where
      same_facts :
          (p : Product)
          → SameView (facts p w.tables) (facts p (record w.tables { ingestion_runs = runs' }))
      same_facts Product.lmp = SameView-refl w.tables.lmp
      same_facts Product.load = SameView-refl w.tables.load

  begin-Sound :
      (run : Run) (now : ℕ) (c : Control) (w : World) (db' : Database)
      → IsNew run
      → IsSoundWorld sha256 market_day c w
      → begin_run run now w.tables ≡ ok db'
      → Sound c.sequence (record w { tables = db' })
  begin-Sound run now c w db' new h e = elim (begin_run-ok run now c w.tables h.gated new db' e) [
    | inl same ↦ (c, rw same h, omega arith)
    | inr (fresh, effect) ↦ rw effect (
        manifests c w (w.tables.ingestion_runs ++ record run { started_at = now } ∷ []) h
          (rw effect at (begin_run-IsGated run now c w.tables h.gated new db' e))
          (append-Completed w.tables.ingestion_runs (record run { started_at = now })))
  ]

  fail-Sound :
      (p : FailureParameters) (now : ℕ) (c : Control) (w : World) (db' : Database)
      → IsSoundWorld sha256 market_day c w
      → failure_query p now w.tables ≡ ok db'
      → Sound c.sequence (record w { tables = db' })
  fail-Sound p now c w db' h e =
      let effect : db' ≡ record w.tables {
        ingestion_runs = update_runs p.run_id (mark_failed p now) w.tables.ingestion_runs;
      } =
        cc (e, failure_query-ok p now c w.tables h.gated) in
      rw effect (
        manifests c w (update_runs p.run_id (mark_failed p now) w.tables.ingestion_runs) h
          (failure_query-IsGated p now c w.tables h.gated _
            (failure_query-ok p now c w.tables h.gated))
          (update-Completed p.run_id (mark_failed p now) w.tables.ingestion_runs
            (mark_failed-KeepsId p now c w.tables h.gated) failed-done))
    where
      failed-done : (r : Run) → has_completed r ≡ true → has_completed (mark_failed p now r) ≡ true
      failed-done r k = unfold mark_failed in ground (arith, k)

  finalized-AreRecorded :
      (product : Product) (p : FinalizeParameters) (now : ℕ) (c : Control) (w : World)
      → IsSoundWorld sha256 market_day c w
      → AreRecorded sha256 free market_day (finalize_effect product p now w.tables)
  unfolding finalize_effect
  finalized-AreRecorded product p now c w h = go product
    where
      runs : List Run
      runs = update_runs p.run_id (mark_succeeded p now) w.tables.ingestion_runs

      keeps : (id : Text) → Completed w.tables.ingestion_runs id → Completed runs id
      keeps =
          update-Completed p.run_id (mark_succeeded p now) w.tables.ingestion_runs
            (λ r. unfold mark_succeeded in refl) (λ r k. unfold mark_succeeded in refl)

      go : (q : Product) → AreRecorded sha256 free market_day (finalize_effect q p now w.tables)
      go Product.lmp = (
        finalize-IsRecorded p sha256 market_day w.tables.ingestion_runs runs keeps w.tables.lmp
            h.lmp,
        runs-IsRecorded sha256 market_day w.tables.ingestion_runs runs keeps w.tables.load h.load,
      )
      go Product.load = (
        runs-IsRecorded sha256 market_day w.tables.ingestion_runs runs keeps w.tables.lmp h.lmp,
        finalize-IsRecorded p sha256 market_day w.tables.ingestion_runs runs keeps w.tables.load
            h.load,
      )

  finalized-SameViews :
      (product : Product) (p : FinalizeParameters) (now : ℕ) (db : Database)
      → SameViews db (finalize_effect product p now db)
  unfolding finalize_effect
  finalized-SameViews Product.lmp p now db Product.lmp = record {
    contents = λ day. ids_on-seen p day db.lmp.contents;
    latest = λ day key. latest_from-known p day key none db.lmp.transitions;
  }
  finalized-SameViews Product.lmp p now db Product.load = SameView-refl db.load
  finalized-SameViews Product.load p now db Product.lmp = SameView-refl db.lmp
  finalized-SameViews Product.load p now db Product.load = record {
    contents = λ day. ids_on-seen p day db.load.contents;
    latest = λ day key. latest_from-known p day key none db.load.transitions;
  }

  finalize-Sound :
      (product : Product) (p : FinalizeParameters) (now : ℕ) (c : Control) (w : World)
      (db' : Database)
      → IsSoundWorld sha256 market_day c w
      → finalize_query product p now w.tables ≡ ok db'
      → Sound c.sequence (record w { tables = db' })
  finalize-Sound product p now c w db' h e =
      elim (Option-cases (find_run p.run_id w.tables.ingestion_runs)) [
        | inl missing ↦
            let same : db' ≡ w.tables =
              cc (e, finalize_query-none product p now c w.tables h.gated missing) in
            (c, rw same h, omega arith)
        | inr (r, found) ↦ elim (finalize_checks product p now c w.tables h.gated r db' found e) [
          | inl (s, same) ↦ (c, rw same h, omega arith)
          | inr (s, a, effect) ↦ rw effect (
              sound_with c (open_gate c) w (finalize_effect product p now w.tables) h
                (finalize_effect-IsGated product p now c w.tables h.gated r found s a)
                (finalized-AreRecorded product p now c w h)
                (IsHonest-kept c (open_gate c) w.tables (finalize_effect product p now w.tables)
                  refl (finalized-SameViews product p now w.tables))
                (omega arith))
        ]
      ]

  pub IsHonest-at :
      (c : Control) (db : Database) (r : Reading) (rs : List Reading)
      → Memᴰ r rs
      → All (IsHonest c db) rs
      → IsHonest c db r
  IsHonest-at c db r [] m h = elim m [ ]
  IsHonest-at c db r (q ∷ rs) (Memᴰ.head e) h = subst (IsHonest c db) (sym e) h.0
  IsHonest-at c db r (q ∷ rs) (Memᴰ.tail m) h = IsHonest-at c db r rs m h.1

  -- A snapshot that is read is of the current sequence and shows the tables.
  read-IsHonest :
      (c : Control) (db : Database) (r : Reading)
      → IsGated c db
      → snapshot r.product r.day db ≡ ok r.taken
      → IsHonest c db r
  read-IsHonest c db r g e =
      let (seen, open_) = snapshot_fields c db r.product r.day r.taken g e in
      record {
        older = omega (arith, ap (λ (s : Snapshot). s.sequence) seen);
        fresh = λ _. record {
          contents = λ id. ap (λ (s : Snapshot). contains id s.contents) seen;
          latest = λ key. ap (λ (s : Snapshot). s.latest key) seen;
        };
      }

  -- Every step keeps the invariant.
  pub step-Sound : {w v : World} → Step sha256 market_day w v → (n : ℕ) → Sound n w → Sound n v
  step-Sound {w} (Step.read r e) n (c, h, le) = (
    c,
    record {
      gated = h.gated;
      lmp = h.lmp;
      load = h.load;
      honest = (read-IsHonest c w.tables r h.gated e, h.honest);
    },
    le,
  )
  step-Sound {w} (Step.begin run now new) n (c, h, le) =
      elim (execute-cases (begin_run run now) w.tables) [
        | inl (db', e, same) ↦
            rw same (later n c.sequence _ le (begin-Sound run now c w db' new h e))
        | inr same ↦ rw same (c, h, le)
      ]
  step-Sound {w} (Step.commit r run_id job_id rows plan m batch planned) n (c, h, le) =
      elim (execute-cases (commit_query r.product (commit_parameters run_id job_id plan))
        w.tables) [
          | inl (db', e, same) ↦
              let honest = IsHonest-at c w.tables r w.readings m h.honest in
              let g' =
                commit_query-IsGated r.product (commit_parameters run_id job_id plan) c w.tables
                  h.gated db' e in
              rw same (
                later n c.sequence _ le (
                  sound_with c (closed_gate run_id c) w db' h g'
                    (commit_keeps sha256 free market_day c w.tables h.gated (h.lmp, h.load) r honest
                      run_id job_id rows plan batch planned db' e).0
                    (IsHonest-older c (closed_gate run_id c) w.tables db' refl) (omega arith)))
          | inr same ↦ rw same (c, h, le)
        ]
  step-Sound {w} (Step.finalize product p now) n (c, h, le) =
      elim (execute-cases (finalize_query product p now) w.tables) [
        | inl (db', e, same) ↦
            rw same (later n c.sequence _ le (finalize-Sound product p now c w db' h e))
        | inr same ↦ rw same (c, h, le)
      ]
  step-Sound {w} (Step.fail p now) n (c, h, le) =
      elim (execute-cases (failure_query p now) w.tables) [
        | inl (db', e, same) ↦ rw same (later n c.sequence _ le (fail-Sound p now c w db' h e))
        | inr same ↦ rw same (c, h, le)
      ]

  empty-IsRecorded : (runs : List Run) → IsRecorded sha256 market_day runs empty_facts
  empty-IsRecorded runs = record {
    chain = λ key. tt;
    tracked = tt;
    stored = tt;
    distinct = tt;
    sound = tt;
  }

  initial-Sound : Sound 0 initial
  initial-Sound = (
    first_control,
    record {
      gated = record {
        control = refl;
        singleton = refl;
        schema = refl;
        distinct = tt;
        flags = λ id r e. cc e;
        gate = λ id r e s. cc e;
        owner = λ id e. cc e;
        counted = refl;
      };
      lmp = empty-IsRecorded [];
      load = empty-IsRecorded [];
      honest = tt;
    },
    omega arith,
  )

  pub reach-Sound : {w v : World} → Reach sha256 market_day w v → (n : ℕ) → Sound n w → Sound n v
  reach-Sound Reach.here n h = h
  reach-Sound (Reach.next r s) n h = step-Sound s n (reach-Sound r n h)

  pub reachable-Sound : {w : World} → Reach sha256 market_day initial w → Sound 0 w
  reachable-Sound r = reach-Sound r 0 initial-Sound
