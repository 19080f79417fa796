-- ===== src/Warehouse/Client/Pending.antt =====
-- When `reconcile` lets a batch be submitted.
use power_market_data_platfo.Base.{
  ℕ, ◌≡◌, refl, ◌∙◌, ap, arith, inl, inr, false, Bool-cases, Option, none, some, Text, codes,
}
use power_market_data_platfo.Warehouse.Tables.{Run, Status, started, committed, succeeded, failed}
use power_market_data_platfo.Warehouse.Scripts.{is_committed}
use power_market_data_platfo.Warehouse.Client.{
  Answer, returned, raised, attempt, Job, Service, Settings, is_terminal_failure, job_id, get_run,
}
use power_market_data_platfo.Warehouse.Client.Reconcile.{
  confirmed, reloaded_job, finalized_run, finish_job, waited_job, settle, by_status, reconcile_run,
  reconcile,
}
use power_market_data_platfo.Warehouse.Client.Returns.{bind-returned}

module _ (sha256 : Text → Text) (midnight : ℕ → ℕ) {S : Type 0} (service : Service S)
    (settings : Settings) where
  confirmed-some :
      (o : Option Run) (t s' : S)
      → ¬ (confirmed sha256 midnight service settings o t ≡ (returned none, s'))
  confirmed-some none t s' h = cc h
  confirmed-some (some q) t s' h = ground (arith, h)

  waited_job-some :
      (id : Text) (m : Run) (job : Job) (o : Answer Job) (t s' : S)
      → ¬ (waited_job sha256 midnight service settings id m job o t ≡ (returned none, s'))
  waited_job-some id m job (returned waited) t s' h = finished waited.ended h
    where
      outcome :
          (o : Answer (Unit {0})) (u : S)
          → ¬ (finalized_run sha256 midnight service settings id o u ≡ (returned none, s'))
      outcome (raised e) u k = cc k
      outcome (returned _) u k =
          let (o, v, _, k') =
            bind-returned (get_run sha256 midnight service settings id)
              (confirmed sha256 midnight service settings) u s' none k in
          confirmed-some o v s' k'

      finished :
          (ended : Option ℕ)
          → ¬ (
              finish_job sha256 midnight service settings id m waited ended t ≡ (returned none, s'))
      finished none k = cc k
      finished (some ended) k =
          let (o, v, _, k') =
            bind-returned
              (attempt (
                service.finalize m.product (record {
                  run_id = id;
                  knowledge_at = ended;
                  processed = waited.total_bytes_processed;
                  billed = waited.total_bytes_billed;
                })))
              (finalized_run sha256 midnight service settings id) t s' none k in
          outcome o v k'
  waited_job-some id m job (raised e) t s' h =
      let (o, u, _, k) =
        bind-returned (attempt (service.reload job))
          (reloaded_job sha256 midnight service settings id e) t s' none h in
      reloaded o u k
    where
      reloaded :
          (o : Answer Job) (u : S)
          → ¬ (reloaded_job sha256 midnight service settings id e o u ≡ (returned none, s'))
      reloaded (raised f) u k = cc k
      reloaded (returned j) u k = elim (Bool-cases (is_terminal_failure j)) [
        | inl x ↦ cc (rw x at k)
        | inr x ↦ cc (rw x at k)
      ]

  -- What a reconciliation without a result has seen: a STARTED manifest and no commit job.
  pub record IsPending (id : Text) (s : S) : Type 0 where
    pub manifest : Run
    pub after_read : S
    pub after_job : S
    pub read :
        get_run sha256 midnight service settings id s ≡ (returned (some manifest), after_read)
    pub begun : manifest.status ≡ started
    pub no_job :
        service.get_commit_job
          (job_id sha256 midnight service settings id (codes "commit"))
          after_read
        ≡ (returned none, after_job)

  -- reconcile lets a batch be submitted, by returning no run, only when it has read a STARTED
  -- manifest and BigQuery has answered that the commit job of the run does not exist.
  pub reconcile-IsPending :
      (id : Text) (s s' : S)
      → reconcile sha256 midnight service settings id s ≡ (returned none, s')
      → IsPending id s
  unfolding reconcile
  reconcile-IsPending id s s' h =
      let (o, t, seen, k) =
        bind-returned (get_run sha256 midnight service settings id)
          (reconcile_run sha256 midnight service settings id) s s' none h in
      found o t seen k
    where
      settled :
          (m : Run) (o : Option Job) (u : S)
          → settle sha256 midnight service settings id m o u ≡ (returned none, s')
          → (o ≡ none) × (is_committed m.status ≡ false)
      settled m none u k = elim (Bool-cases (is_committed m.status)) [
        | inl x ↦ cc (rw x at k)
        | inr x ↦ (refl, x)
      ]
      settled m (some job) u k =
          let (o, v, _, k') =
            bind-returned (attempt (service.wait job))
              (waited_job sha256 midnight service settings id m job) u s' none k in
          absurd (waited_job-some id m job o v s' k')

      pending :
          (m : Run) (t : S)
          → get_run sha256 midnight service settings id s ≡ (returned (some m), t)
          → (status : Status) → m.status ≡ status
          → by_status sha256 midnight service settings id m status t ≡ (returned none, s')
          → IsPending id s
      pending m t seen succeeded e k = cc k
      pending m t seen failed e k = cc k
      pending m t seen committed e k =
          let (o, u, _, k') =
            bind-returned
              (service.get_commit_job (job_id sha256 midnight service settings id (codes "commit")))
              (settle sha256 midnight service settings id m) t s' none k in
          let (_, not_committed) = settled m o u k' in absurd (ground (arith, not_committed, e))
      pending m t seen started e k =
          let (o, u, asked, k') =
            bind-returned
              (service.get_commit_job (job_id sha256 midnight service settings id (codes "commit")))
              (settle sha256 midnight service settings id m) t s' none k in
          let (missing, _) = settled m o u k' in
          record {
            manifest = m;
            after_read = t;
            after_job = u;
            read = seen;
            begun = e;
            no_job = asked ∙ ap (λ (x : Option Job). (returned x, u)) missing;
          }

      found :
          (o : Option Run) (t : S)
          → get_run sha256 midnight service settings id s ≡ (returned o, t)
          → reconcile_run sha256 midnight service settings id o t ≡ (returned none, s')
          → IsPending id s
      found none t seen k = cc k
      found (some m) t seen k = pending m t seen m.status refl k
