-- ===== src/Warehouse/Client/Returns.antt =====
-- What the client returns: manifests of runs that have succeeded, whatever BigQuery does.
use power_market_data_platfo.Base.{
  ℕ, ◌≡◌, refl, sym, ◌∙◌, ap, arith, inl, inr, true, Bool-cases, List, Option, none, some, Text,
  codes,
}
use power_market_data_platfo.Base
use power_market_data_platfo.Errors.{Error, warehouse}
use power_market_data_platfo.Domain.{Observation}
use power_market_data_platfo.Warehouse.Request.{Request}
use power_market_data_platfo.Warehouse.Tables.{Run, Status, started, committed, succeeded, failed}
use power_market_data_platfo.Warehouse.Plan.{WritePlan}
use power_market_data_platfo.Warehouse.Scripts.{is_succeeded, is_committed}
use power_market_data_platfo.Warehouse.Writers.{commit_parameters}
use power_market_data_platfo.Warehouse.Client.{
  Raised, platform, Answer, returned, raised, Remote, throw, lift, attempt, continue_with, ◌>>=◌,
  Job, Service, Settings, is_terminal_failure, job_id, get_run, begin, fail, bound_to,
}
use power_market_data_platfo.Warehouse.Client.Reconcile.{
  confirmed, reloaded_job, finalized_run, finish_job, waited_job, settle, by_status, reconcile_run,
  reconcile, reconciled_again, plan_batch, submitted, submit, persist_prior, persist, fetched,
  ingest_prior, ingest,
}

-- A sequence that returns has returned from its first part.
pub returned_injective :
    {S A : Type 0} {a b : A} {s t : S}
    → ◌≡◌ {A = Answer A × S} (returned a, s) (returned b, t)
    → a ≡ b
returned_injective h = cc h

pub lift-returned :
    {S A : Type 0} (call : Base.Result Error A) (a : A) (s t : S)
    → lift call s ≡ (returned a, t)
    → call ≡ Base.ok a
lift-returned (Base.ok b) a s t h = cc h
lift-returned (Base.err b) a s t h = cc h

pub bind-returned :
    {S A B : Type 0} (m : Remote S A) (f : A → Remote S B) (s s' : S) (b : B)
    → (m >>= f) s ≡ (returned b, s')
    → (a : A) × (t : S) × (m s ≡ (returned a, t)) × (f a t ≡ (returned b, s'))
bind-returned {S} {A} {B} m f s s' b h = go (m s) refl h
  where
    go :
        (o : Answer A × S)
        → m s ≡ o
        → continue_with f o ≡ (returned b, s')
        → (a : A) × (t : S) × (m s ≡ (returned a, t)) × (f a t ≡ (returned b, s'))
    go (returned a, t) e k = (a, t, e, k)
    go (raised x, t) e k = cc k

succeeded_of : (r : Run) → is_succeeded r.status ≡ true → r.status ≡ succeeded
succeeded_of r h = ground (arith, h)

module _ (sha256 : Text → Text) (midnight : ℕ → ℕ) {S : Type 0} (service : Service S)
    (settings : Settings) where
  -- The outcome of a reconciliation: a run that has succeeded, if it is one.
  abbrev Succeeds : Remote S (Option Run) → Type 0
  Succeeds m = (s s' : S) (r : Run) → m s ≡ (returned (some r), s') → r.status ≡ succeeded

  confirmed-Succeeds : (o : Option Run) → Succeeds (confirmed sha256 midnight service settings o)
  confirmed-Succeeds none s s' r h = cc h
  confirmed-Succeeds (some q) s s' r h = ground (arith, h)

  reloaded_job-Succeeds :
      (id : Text) (e : Raised) (o : Answer Job)
      → Succeeds (reloaded_job sha256 midnight service settings id e o)
  reloaded_job-Succeeds id e (raised f) s s' r h = cc h
  reloaded_job-Succeeds id e (returned job) s s' r h = elim (Bool-cases (is_terminal_failure job)) [
    | inl t ↦ cc (rw t at h)
    | inr t ↦ cc (rw t at h)
  ]

  finalized_run-Succeeds :
      (id : Text) (o : Answer (Unit {0}))
      → Succeeds (finalized_run sha256 midnight service settings id o)
  finalized_run-Succeeds id (raised e) s s' r h = cc h
  finalized_run-Succeeds id (returned u) s s' r h =
      let (o, t, _, k) =
        bind-returned (get_run sha256 midnight service settings id)
          (confirmed sha256 midnight service settings) s s' (some r) h in
      confirmed-Succeeds o t s' r k

  finish_job-Succeeds :
      (id : Text) (m : Run) (job : Job) (ended : Option ℕ)
      → Succeeds (finish_job sha256 midnight service settings id m job ended)
  finish_job-Succeeds id m job none s s' r h = cc h
  finish_job-Succeeds id m job (some ended) s s' r h =
      let (o, t, _, k) =
        bind-returned
          (attempt (
            service.finalize m.product (record {
              run_id = id;
              knowledge_at = ended;
              processed = job.total_bytes_processed;
              billed = job.total_bytes_billed;
            })))
          (finalized_run sha256 midnight service settings id) s s' (some r) h in
      finalized_run-Succeeds id o t s' r k

  waited_job-Succeeds :
      (id : Text) (m : Run) (job : Job) (o : Answer Job)
      → Succeeds (waited_job sha256 midnight service settings id m job o)
  waited_job-Succeeds id m job (returned waited) s s' r h =
      finish_job-Succeeds id m waited waited.ended s s' r h
  waited_job-Succeeds id m job (raised e) s s' r h =
      let (o, t, _, k) =
        bind-returned (attempt (service.reload job))
          (reloaded_job sha256 midnight service settings id e) s s' (some r) h in
      reloaded_job-Succeeds id e o t s' r k

  settle-Succeeds :
      (id : Text) (m : Run) (o : Option Job)
      → Succeeds (settle sha256 midnight service settings id m o)
  settle-Succeeds id m none s s' r h = elim (Bool-cases (is_committed m.status)) [
    | inl t ↦ cc (rw t at h)
    | inr t ↦ cc (rw t at h)
  ]
  settle-Succeeds id m (some job) s s' r h =
      let (o, t, _, k) =
        bind-returned (attempt (service.wait job))
          (waited_job sha256 midnight service settings id m job) s s' (some r) h in
      waited_job-Succeeds id m job o t s' r k

  by_status-Succeeds :
      (id : Text) (m : Run) (status : Status)
      → m.status ≡ status
      → Succeeds (by_status sha256 midnight service settings id m status)
  by_status-Succeeds id m succeeded e s s' r h = cc (h, e)
  by_status-Succeeds id m failed e s s' r h = cc h
  by_status-Succeeds id m started e s s' r h =
      let (o, t, _, k) =
        bind-returned
          (service.get_commit_job (job_id sha256 midnight service settings id (codes "commit")))
          (settle sha256 midnight service settings id m) s s' (some r) h in
      settle-Succeeds id m o t s' r k
  by_status-Succeeds id m committed e s s' r h =
      let (o, t, _, k) =
        bind-returned
          (service.get_commit_job (job_id sha256 midnight service settings id (codes "commit")))
          (settle sha256 midnight service settings id m) s s' (some r) h in
      settle-Succeeds id m o t s' r k

  -- Whatever BigQuery answers and raises, the run that reconcile returns, if it returns one, has
  -- succeeded.
  pub reconcile-succeeded :
      (id : Text) (s s' : S) (r : Run)
      → reconcile sha256 midnight service settings id s ≡ (returned (some r), s')
      → r.status ≡ succeeded
  unfolding reconcile
  reconcile-succeeded id s s' r h =
      let (o, t, _, k) =
        bind-returned (get_run sha256 midnight service settings id)
          (reconcile_run sha256 midnight service settings id) s s' (some r) h in
      found o t k
    where
      found :
          (o : Option Run) (t : S)
          → reconcile_run sha256 midnight service settings id o t ≡ (returned (some r), s')
          → r.status ≡ succeeded
      found none t k = cc k
      found (some m) t k = by_status-Succeeds id m m.status refl t s' r k

  reconciled-succeeded :
      (id : Text) (s s' : S) (o : Option Run) (r : Run) (t : S)
      → reconcile sha256 midnight service settings id s ≡ (returned o, t)
      → reconciled_again sha256 midnight service settings o t ≡ (returned r, s')
      → r.status ≡ succeeded
  reconciled-succeeded id s s' none r t e h = cc h
  reconciled-succeeded id s s' (some q) r t e h =
      let same : q ≡ r = cc h in
      ap (λ (p : Run). p.status) (sym same) ∙ reconcile-succeeded id s t q e

  submitted-succeeded :
      (id : Text) (o : Answer (Unit {0})) (s s' : S) (r : Run)
      → submitted sha256 midnight service settings id o s ≡ (returned r, s')
      → r.status ≡ succeeded
  submitted-succeeded id (raised e) s s' r h = cc h
  submitted-succeeded id (returned u) s s' r h =
      let (o, t, again, k) =
        bind-returned (reconcile sha256 midnight service settings id)
          (reconciled_again sha256 midnight service settings) s s' r h in
      reconciled-succeeded id s s' o r t again k

  submit-succeeded :
      (q : Request) (id : Text) (o : Answer WritePlan) (s s' : S) (r : Run)
      → submit sha256 midnight service settings q id o s ≡ (returned r, s')
      → r.status ≡ succeeded
  submit-succeeded q id (raised e) s s' r h =
      let (_, _, _, k) =
        bind-returned (fail sha256 midnight service settings id e none) (λ _. throw e) s s' r h in
      cc k
  submit-succeeded q id (returned plan) s s' r h =
      let (o, t, _, k) =
        bind-returned
          (attempt (
            service.submit_commit q.product (
              commit_parameters id (job_id sha256 midnight service settings id (codes "commit"))
                plan)))
          (submitted sha256 midnight service settings id) s s' r h in
      submitted-succeeded id o t s' r k

  -- Whatever BigQuery answers and raises, a run that `persist` returns has succeeded.
  persist-succeeded :
      (q : Request) (records : List Observation) (id : Text) (s s' : S) (r : Run)
      → persist sha256 midnight service settings q records id s ≡ (returned r, s')
      → r.status ≡ succeeded
  unfolding persist
  persist-succeeded q records id s s' r h =
      let (found, t, _, h1) =
        bind-returned (get_run sha256 midnight service settings id) _ s s' r h in
      let (m, u, _, h2) =
        bind-returned (bound_to sha256 midnight service settings q found) _ t s' r h1 in
      let (o, v, again, h3) =
        bind-returned (reconcile sha256 midnight service settings id) _ u s' r h2 in
      prior o u v again h3
    where
      prior :
          (o : Option Run) (u v : S)
          → reconcile sha256 midnight service settings id u ≡ (returned o, v)
          → persist_prior sha256 midnight service settings q records id o v ≡ (returned r, s')
          → r.status ≡ succeeded
      prior (some m) u v again k =
          let same : m ≡ r = cc k in
          ap (λ (p : Run). p.status) (sym same) ∙ reconcile-succeeded id u v m again
      prior none u v again k =
          let (o, t, _, k') =
            bind-returned (attempt (plan_batch sha256 midnight service settings q records id))
              (submit sha256 midnight service settings q id) v s' r k in
          submit-succeeded q id o t s' r k'

  -- Whatever BigQuery and the source answer and raise, a run that ingest returns has succeeded.
  pub ingest-succeeded :
      (q : Request) (id : Text) (fetch : Remote S (List Observation)) (s s' : S) (r : Run)
      → ingest sha256 midnight service settings q id fetch s ≡ (returned r, s')
      → r.status ≡ succeeded
  unfolding ingest
  ingest-succeeded q id fetch s s' r h =
      let (m, t, _, h1) = bind-returned (begin sha256 midnight service settings q id) _ s s' r h in
      let (o, u, again, h2) =
        bind-returned (reconcile sha256 midnight service settings id) _ t s' r h1 in
      prior o t u again h2
    where
      records_of :
          (o : Answer (List Observation)) (u : S)
          → fetched sha256 midnight service settings q id o u ≡ (returned r, s')
          → r.status ≡ succeeded
      records_of (returned records) u k = persist-succeeded q records id u s' r k
      records_of (raised e) u k =
          let (_, _, _, k') =
            bind-returned (attempt (fail sha256 midnight service settings id e none))
              (λ _. throw (platform warehouse)) u s' r k in
          cc k'

      prior :
          (o : Option Run) (t u : S)
          → reconcile sha256 midnight service settings id t ≡ (returned o, u)
          → ingest_prior sha256 midnight service settings q id fetch o u ≡ (returned r, s')
          → r.status ≡ succeeded
      prior (some m) t u again k =
          let same : m ≡ r = cc k in
          ap (λ (p : Run). p.status) (sym same) ∙ reconcile-succeeded id t u m again
      prior none t u again k =
          let (o, v, _, k') =
            bind-returned (attempt fetch) (fetched sha256 midnight service settings q id) u s' r
              k in
          records_of o v k'
