-- ===== src/Orchestration/Pipeline/Complete.antt =====
-- orchestration/flyte_pipeline.py: what the report of a backfill that returns says.
use power_market_data_platfo.Base.{
  ℕ, ◌≡◌, ◌≤◌, refl, sym, ap, subst, ◌∙◌, arith, Bool, true, false, Bool-cases, inl, inr, not, List,
  [], ◌∷◌, Option, All, Text, codes, ℤ, pos, if◌then◌else◌,
}
use power_market_data_platfo.Base
use power_market_data_platfo.Errors.{retryable_ingestion}
use power_market_data_platfo.Domain.{Observation}
use power_market_data_platfo.Warehouse.Config.{WarehouseConfig, Environment, from_environment}
use power_market_data_platfo.Warehouse.Request.{Request}
use power_market_data_platfo.Warehouse.Scripts.{is_succeeded}
use power_market_data_platfo.Warehouse.Client.{
  Raised, platform, Answer, returned, raised, Remote, give, lift, attempt, Service, Settings,
}
use power_market_data_platfo.Warehouse.Client.Returns.{
  bind-returned, lift-returned, returned_injective,
}
use power_market_data_platfo.Orchestration.Plan.{PlanUnit, Backfill, expand}
use power_market_data_platfo.Orchestration.Execution.{ErrorClass, IngestionResult}
use power_market_data_platfo.Orchestration.Execution.Reported.{IsReported, execute_unit-IsReported}
use power_market_data_platfo.Orchestration.Operations.{
  DbtResult, VerificationResult, Runtime, validate_runtime, build_dbt, verify,
}
use power_market_data_platfo.Orchestration.Operations.Verified.{IsCovered, verify-IsCovered}
use power_market_data_platfo.Orchestration.Pipeline.{
  BackfillReport, reraised, configured_unit, require_success, ingest_day, ingest_units, analyse,
  backfill, skipped_dbt, skipped_verification,
}

-- A runner of tasks returns what a run of the task has returned.
abbrev pub RunsTasks : {S : Type 0} → (Remote S IngestionResult → Remote S IngestionResult) → Type 0
RunsTasks {S} run_task =
    (task : Remote S IngestionResult) (s t : S) (r : IngestionResult)
    → run_task task s ≡ (returned r, t)
    → (s' : S) × (t' : S) × (task s' ≡ (returned r, t'))

first_branch :
    {S A : Type 0} (b : Bool) (x y : Remote S A) (s : S) → b ≡ true → (if b then x else y) s ≡ x s
first_branch true x y s e = refl
first_branch false x y s e = cc e

module _ (sha256 : Text → Text) (fromisoformat : Text → Option ℕ) (uuid5 : Text → Text → Text)
    (today : ℕ) (midnight : ℕ → ℕ) {S : Type 0} (service : Service S)
    (settings_of : WarehouseConfig → Settings) (chain : Raised → List ErrorClass)
    (fetch : Request → Remote S (List Observation)) (read_int : Text → Option ℤ)
    (environ : Environment) (runtime : Runtime S)
    (run_task : Remote S IngestionResult → Remote S IngestionResult) where
  -- The result reports what ingesting the unit has returned, with a configuration that the
  -- environment gives.
  pub record IsIngested (u : PlanUnit) (r : IngestionResult) : Type 0 where
    pub config : WarehouseConfig
    pub configured : from_environment read_int environ ≡ Base.ok config
    pub before : S
    pub after : S
    pub result :
        IsReported sha256 fromisoformat uuid5 today midnight service
          (settings_of config)
          chain
          fetch
          u
          before
          after
          r

  -- One such result for each unit, in order.
  abbrev pub AreIngested : List PlanUnit → List IngestionResult → Type 0
  AreIngested [] [] = Unit
  AreIngested (u ∷ us) (r ∷ rs) = IsIngested u r × AreIngested us rs
  AreIngested _ _ = ⊥

  reraised-returned :
      (a : Answer IngestionResult) (r : IngestionResult) (s t : S)
      → reraised a s ≡ (returned r, t)
      → a ≡ returned r
  reraised-returned (returned q) r s t h = ap returned (returned_injective h)
  reraised-returned (raised (platform retryable_ingestion)) r s t h = cc h
  reraised-returned (raised e) r s t h = cc h

  ingest_day-IsIngested :
      (u : PlanUnit) (s t : S) (r : IngestionResult)
      → ingest_day sha256 fromisoformat uuid5 today midnight service settings_of chain fetch
          read_int environ runtime run_task u s
        ≡ (returned r, t)
      → IsIngested u r
  unfolding ingest_day
  ingest_day-IsIngested u s t r h =
      let (outcome, s1, ran, h1) =
        bind-returned
          (attempt (
            configured_unit sha256 fromisoformat uuid5 today midnight service settings_of chain
              fetch read_int environ runtime run_task u))
          reraised s t r h in
      let answered : (configured_unit sha256 fromisoformat uuid5 today midnight service settings_of
            chain fetch read_int environ runtime run_task u s).0
          ≡ returned r =
        returned_injective ran ∙ reraised-returned outcome r s1 t h1 in
      let (config, s2, read, executed) =
        bind-returned (lift (from_environment read_int environ)) _ s
          (configured_unit sha256 fromisoformat uuid5 today midnight service settings_of chain fetch
            read_int environ runtime run_task u s).1
          r
          (ap
            (λ (a : Answer IngestionResult). (
              a,
              (configured_unit sha256 fromisoformat uuid5 today midnight service settings_of chain
                  fetch read_int environ runtime run_task u s).1,
            ))
            answered) in
      record {
        config = config;
        configured = lift-returned (from_environment read_int environ) config s s2 read;
        before = s2;
        after =
            (configured_unit sha256 fromisoformat uuid5 today midnight service settings_of chain
              fetch read_int environ runtime run_task u s).1;
        result =
            execute_unit-IsReported sha256 fromisoformat uuid5 today midnight service
              (settings_of config) chain fetch u s2
              (configured_unit sha256 fromisoformat uuid5 today midnight service settings_of chain
                fetch read_int environ runtime run_task u s).1
              r executed;
      }

  ingest_units-AreIngested :
      RunsTasks run_task
      → (us : List PlanUnit) (s t : S) (rs : List IngestionResult)
      → ingest_units sha256 fromisoformat uuid5 today midnight service settings_of chain fetch
          read_int environ runtime run_task us s
        ≡ (returned rs, t)
      → AreIngested us rs
  unfolding ingest_units
  ingest_units-AreIngested runs [] s t rs h = subst (AreIngested []) (returned_injective h) tt
  ingest_units-AreIngested runs (u ∷ us) s t rs h =
      let (r, s1, ran, h1) =
        bind-returned
          (run_task (
            ingest_day sha256 fromisoformat uuid5 today midnight service settings_of chain fetch
              read_int environ runtime run_task u))
          _ s t rs h in
      let (kept, s2, succeeds, h2) =
        bind-returned
          (require_success sha256 fromisoformat uuid5 today midnight service settings_of chain fetch
            read_int environ runtime run_task r)
          _ s1 t rs h1 in
      let (rest, s3, later, h3) =
        bind-returned
          (ingest_units sha256 fromisoformat uuid5 today midnight service settings_of chain fetch
            read_int environ runtime run_task us)
          _ s2 t rs h2 in
      let (s', t', once) =
        runs
          (ingest_day sha256 fromisoformat uuid5 today midnight service settings_of chain fetch
            read_int environ runtime run_task u)
          s s1 r ran in
      subst (AreIngested (u ∷ us)) (returned_injective h3) (
        subst (IsIngested u) (same r kept s1 s2 succeeds) (ingest_day-IsIngested u s' t' r once),
        ingest_units-AreIngested runs us s2 s3 rest later,
      )
    where
      same :
          (r kept : IngestionResult) (s t : S)
          → require_success sha256 fromisoformat uuid5 today midnight service settings_of chain
              fetch read_int environ runtime run_task r s
            ≡ (returned kept, t)
          → r ≡ kept
      same r kept s t h = elim (Bool-cases (is_succeeded r.status)) [
        | inl e ↦ returned_injective (rw e at h)
        | inr e ↦ cc (rw e at h)
      ]

  -- A report that is complete: one result for each unit of the plan, in order, each reporting
  -- the run that its ingestion has returned, and, when dbt has run, counts of the facts that cover the accepted rows.
  pub record IsComplete (spec : Backfill) (report : BackfillReport) : Type 0 where
    pub units : List PlanUnit
    pub planned : expand sha256 fromisoformat uuid5 today midnight spec ≡ Base.ok units
    pub reported : AreIngested units report.ingestions
    pub covered :
        spec.run_dbt ≡ true → All (IsCovered report.verification.request_counts) report.ingestions

  -- If the runner of tasks returns only what a run of the task has returned, then a report that
  -- backfill returns has one result for each unit that expand plans, in order, each reporting the
  -- succeeded run that ingest returned for the request of the unit, in some state of BigQuery and
  -- with the configuration of the environment, and, if dbt was to run, the verified counts of the
  -- facts cover the accepted rows of every result.
  pub backfill-IsComplete :
      (spec : Backfill) (s t : S) (report : BackfillReport)
      → RunsTasks run_task
      → backfill sha256 fromisoformat uuid5 today midnight service settings_of chain fetch read_int
          environ runtime run_task spec s
        ≡ (returned report, t)
      → IsComplete spec report
  unfolding backfill
  backfill-IsComplete spec s t report runs h =
      let (us, s1, planned, h1) =
        bind-returned (lift (expand sha256 fromisoformat uuid5 today midnight spec)) _ s t report
          h in
      let (_, s2, _, h2) =
        bind-returned
          (validate_runtime sha256 fromisoformat uuid5 today midnight read_int environ runtime
            spec.run_dbt)
          _ s1 t report h1 in
      let (rs, s3, ingested, h3) =
        bind-returned
          (ingest_units sha256 fromisoformat uuid5 today midnight service settings_of chain fetch
            read_int environ runtime run_task us)
          _ s2 t report h2 in
      let (analysed, s4, checked, h4) =
        bind-returned
          (if spec.run_dbt
            then analyse sha256 fromisoformat uuid5 today midnight service settings_of chain fetch
                read_int environ runtime run_task spec us rs
            else give (skipped_dbt, skipped_verification))
          _ s3 t report h3 in
      subst (IsComplete spec) (returned_injective h4) (record {
        units = us;
        planned =
            lift-returned (expand sha256 fromisoformat uuid5 today midnight spec) us s s1 planned;
        reported = ingest_units-AreIngested runs us s2 s3 rs ingested;
        covered = λ on.
            analyse-IsCovered us rs analysed s3 s4
              (sym (first_branch spec.run_dbt _ _ s3 on) ∙ checked);
      })
    where
      analyse-IsCovered :
          (us : List PlanUnit) (rs : List IngestionResult) (a : DbtResult × VerificationResult)
          (s t : S)
          → analyse sha256 fromisoformat uuid5 today midnight service settings_of chain fetch
              read_int environ runtime run_task spec us rs s
            ≡ (returned a, t)
          → All (IsCovered a.1.request_counts) rs
      analyse-IsCovered us rs a s t h =
          let (dbt, s1, _, h1) =
            bind-returned
              (build_dbt sha256 fromisoformat uuid5 today midnight read_int environ runtime
                spec.backfill_id)
              _ s t a h in
          let (v, s2, verified, h2) =
            bind-returned
              (verify sha256 fromisoformat uuid5 today midnight read_int environ runtime us rs) _ s1
              t a h1 in
          subst (λ (b : DbtResult × VerificationResult). All (IsCovered b.1.request_counts) rs)
            (returned_injective h2)
            (verify-IsCovered sha256 fromisoformat uuid5 today midnight read_int environ runtime us
              rs s1 s2 v verified)
