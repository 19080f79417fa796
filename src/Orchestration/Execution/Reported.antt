-- ===== src/Orchestration/Execution/Reported.antt =====
-- What the result of a unit reports.
use power_market_data_platfo.Base.{
  ℕ, ◌≡◌, refl, sym, ap, ◌∙◌, subst, arith, Result, ok, err, inl, inr, Bool, true, false,
  Bool-cases, List, Option, none, some, Text,
}
use power_market_data_platfo.Errors.{Error}
use power_market_data_platfo.Domain.{Observation}
use power_market_data_platfo.Warehouse.Request.{Request, validate_run_id}
use power_market_data_platfo.Warehouse.Tables.{Run, succeeded}
use power_market_data_platfo.Warehouse.Scripts.{is_succeeded}
use power_market_data_platfo.Warehouse.Client.{
  Raised, Answer, returned, raised, Remote, lift, attempt, Service, Settings, get_run,
}
use power_market_data_platfo.Warehouse.Client.Reconcile.{ingest}
use power_market_data_platfo.Warehouse.Client.Returns.{
  bind-returned, lift-returned, returned_injective,
}
use power_market_data_platfo.Orchestration.Plan.{PlanUnit, unit_request}
use power_market_data_platfo.Orchestration.Execution.{
  ErrorClass, IngestionResult, int_of, count_unless, has_succeeded, retryable, stopped, report,
  ingested, after_prior, execute_unit, seen_of, transient,
}

-- The result for a manifest: a run that had succeeded before counts nothing as new, and is the only
-- one to be called reused.
pub record IsReportOf (u : PlanUnit) (prior : Option Run) (manifest : Run) (res : IngestionResult)
    : Type 0 where
  pub of_unit : res.unit ≡ u
  pub status : res.status ≡ succeeded
  pub accepted : manifest.rows_accepted ≡ some res.accepted_rows
  pub reused :
      res.reused_success ≡ true
      → ((old : Run) × (prior ≡ some old) × (old.status ≡ succeeded))
        × (res.new_contents ≡ 0)
        × (res.new_transitions ≡ 0)
  pub fresh :
      res.reused_success ≡ false
      → ((old : Run) → prior ≡ some old → ¬ (old.status ≡ succeeded))
        × (manifest.new_contents ≡ some res.new_contents)
        × (manifest.new_transitions ≡ some res.new_transitions)

has_succeeded-true :
    (prior : Option Run)
    → has_succeeded prior ≡ true
    → (old : Run) × (prior ≡ some old) × (old.status ≡ succeeded)
has_succeeded-true none h = cc h
has_succeeded-true (some old) h = (old, refl, ground (arith, h))

has_succeeded-false :
    (prior : Option Run) (old : Run)
    → has_succeeded prior ≡ false
    → prior ≡ some old
    → ¬ (old.status ≡ succeeded)
has_succeeded-false prior old h found e = ground (arith, rw found at h, e)

lift_state :
    {S A : Type 0} (r : Result Error A) (a : A) (s t : S) → lift r s ≡ (returned a, t) → s ≡ t
lift_state (ok x) a s t h = ap (λ p. p.1) h
lift_state (err e) a s t h = ap (λ p. p.1) h

attempt-returned :
    {S A : Type 0} (m : Remote S A) (a : A) (s t : S)
    → attempt m s ≡ (returned (returned a), t)
    → m s ≡ (returned a, t)
attempt-returned {S} {A} m a s t h = pair (m s) h
  where
    pair :
        (p : Answer A × S)
        → ◌≡◌ {A = Answer (Answer A) × S} (returned p.0, p.1) (returned (returned a), t)
        → ◌≡◌ {A = Answer A × S} p (returned a, t)
    pair (x, y) e =
        let first : x ≡ returned a = returned_injective e in
        let second : y ≡ t = ap (λ (q : Answer (Answer A) × S). q.1) e in rw first (rw second refl)

int_state : {S : Type 0} (o : Option ℕ) (n : ℕ) (s t : S) → int_of o s ≡ (returned n, t) → s ≡ t
int_state none n s t h = ap (λ p. p.1) h
int_state (some m) n s t h = ap (λ p. p.1) h

count_state :
    {S : Type 0} (b : Bool) (o : Option ℕ) (n : ℕ) (s t : S)
    → count_unless b o s ≡ (returned n, t)
    → s ≡ t
count_state true o n s t h = ap (λ p. p.1) h
count_state false o n s t h = int_state o n s t h

int-returned :
    {S : Type 0} (o : Option ℕ) (n : ℕ) (s t : S) → int_of o s ≡ (returned n, t) → o ≡ some n
int-returned none n s t h = cc h
int-returned (some m) n s t h = cc h

count-reused :
    {S : Type 0} (b : Bool) (o : Option ℕ) (n : ℕ) (s t : S)
    → count_unless b o s ≡ (returned n, t)
    → b ≡ true
    → n ≡ 0
count-reused true o n s t h e = cc h
count-reused false o n s t h e = cc e

count-fresh :
    {S : Type 0} (b : Bool) (o : Option ℕ) (n : ℕ) (s t : S)
    → count_unless b o s ≡ (returned n, t)
    → b ≡ false
    → o ≡ some n
count-fresh true o n s t h e = cc e
count-fresh false o n s t h e = int-returned o n s t h

module _ (sha256 : Text → Text) (fromisoformat : Text → Option ℕ) (uuid5 : Text → Text → Text)
    (today : ℕ) (midnight : ℕ → ℕ) {S : Type 0} (service : Service S) (settings : Settings)
    (chain : Raised → List ErrorClass) (fetch : Request → Remote S (List Observation)) where
  -- The result is that of the run which `ingest` has returned for the unit, after the run that the
  -- table held for it was read.
  pub record IsReported (u : PlanUnit) (s s' : S) (res : IngestionResult) : Type 0 where
    pub request : Request
    pub planned : unit_request sha256 fromisoformat uuid5 today midnight u ≡ ok request
    pub prior : Option Run
    pub before : S
    pub known : get_run sha256 midnight service settings u.run_id s ≡ (returned prior, before)
    pub manifest : Run
    pub made :
        ingest sha256 midnight service settings request u.run_id (fetch request) before
        ≡ (returned manifest, s')
    pub done : manifest.status ≡ succeeded
    pub report : IsReportOf u prior manifest res

  report-IsReportOf :
      (u : PlanUnit) (prior : Option Run) (m : Run) (s s' : S) (res : IngestionResult)
      → report sha256 fromisoformat uuid5 today midnight service settings chain fetch u prior m s
        ≡ (returned res, s')
      → (s ≡ s') × IsReportOf u prior m res
  report-IsReportOf u prior m s s' res h =
      let (accepted, t, e1, h1) = bind-returned (int_of m.rows_accepted) _ s s' res h in
      let (contents, v, e2, h2) =
        bind-returned (count_unless (has_succeeded prior) m.new_contents) _ t s' res h1 in
      let (transitions, w, e3, h3) =
        bind-returned (count_unless (has_succeeded prior) m.new_transitions) _ v s' res h2 in
      let made : record {
        unit = u;
        status = succeeded;
        accepted_rows = accepted;
        new_contents = contents;
        new_transitions = transitions;
        reused_success = has_succeeded prior;
      }
          ≡ res =
        cc h3 in
      let unchanged : s ≡ s' =
        int_state m.rows_accepted accepted s t e1
        ∙ count_state (has_succeeded prior) m.new_contents contents t v e2
        ∙ count_state (has_succeeded prior) m.new_transitions transitions v w e3
        ∙ ap (λ (p : Answer IngestionResult × S). p.1) h3 in
      (
        unchanged,
        subst (IsReportOf u prior m) made (record {
          of_unit = refl;
          status = refl;
          accepted = int-returned m.rows_accepted accepted s t e1;
          reused = λ e. (
            has_succeeded-true prior e,
            count-reused (has_succeeded prior) m.new_contents contents t v e2 e,
            count-reused (has_succeeded prior) m.new_transitions transitions v w e3 e,
          );
          fresh = λ e. (
            λ old. has_succeeded-false prior old e,
            count-fresh (has_succeeded prior) m.new_contents contents t v e2 e,
            count-fresh (has_succeeded prior) m.new_transitions transitions v w e3 e,
          );
        }),
      )

  ingested-IsReportOf :
      (u : PlanUnit) (prior : Option Run) (o : Answer Run) (s s' : S) (res : IngestionResult)
      → ingested sha256 fromisoformat uuid5 today midnight service settings chain fetch u prior o s
        ≡ (returned res, s')
      → (m : Run) × (o ≡ returned m) × (m.status ≡ succeeded) × (s ≡ s') × IsReportOf u prior m res
  ingested-IsReportOf u prior (raised e) s s' res h =
      let (state, t, _, k) =
        bind-returned (attempt (get_run sha256 midnight service settings u.run_id))
          (stopped sha256 fromisoformat uuid5 today midnight service settings chain fetch e) s s'
          res h in
      elim (Bool-cases (
        retryable sha256 fromisoformat uuid5 today midnight service settings chain fetch e
          (seen_of state))) [ inl x ↦ cc (rw x at k) | inr x ↦ cc (rw x at k) ]
  ingested-IsReportOf u prior (returned m) s s' res h = elim (Bool-cases (is_succeeded m.status)) [
    | inl x ↦
        let (unchanged, is_report) = report-IsReportOf u prior m s s' res (rw x at h) in
        (m, refl, ground (arith, x), unchanged, is_report)
    | inr x ↦ cc (rw x at h)
  ]

  -- A result that execute_unit returns, whatever BigQuery and the source do, comes from one call of
  -- ingest for the request of the unit, after get_run was read, that returned a succeeded run: the
  -- result has the status SUCCEEDED and the accepted rows of that run, and as new contents and
  -- transitions its counts if get_run had found no succeeded run, or 0 and the mark of reuse if it
  -- had found one.
  pub execute_unit-IsReported :
      (u : PlanUnit) (s s' : S) (res : IngestionResult)
      → execute_unit sha256 fromisoformat uuid5 today midnight service settings chain fetch u s
        ≡ (returned res, s')
      → IsReported u s s' res
  unfolding execute_unit
  execute_unit-IsReported u s s' res h =
      let (q, t, e1, h1) =
        bind-returned (lift (unit_request sha256 fromisoformat uuid5 today midnight u)) _ s s' res
          h in
      let (valid, v, e2, h2) = bind-returned (lift (validate_run_id u.run_id)) _ t s' res h1 in
      let (prior, w, e3, h3) =
        bind-returned (attempt (get_run sha256 midnight service settings u.run_id))
          (after_prior sha256 fromisoformat uuid5 today midnight service settings chain fetch u q) v
          s' res h2 in
      let unchanged : v ≡ s = sym (
        lift_state (unit_request sha256 fromisoformat uuid5 today midnight u) q s t e1
        ∙ lift_state (validate_run_id u.run_id) valid t v e2) in
      after q (lift-returned (unit_request sha256 fromisoformat uuid5 today midnight u) q s t e1)
        prior w
        (subst
          (λ (x : S).
            attempt (get_run sha256 midnight service settings u.run_id) x ≡ (returned prior, w))
          unchanged e3)
        h3
    where
      after :
          (q : Request)
          → unit_request sha256 fromisoformat uuid5 today midnight u ≡ ok q
          → (prior : Answer (Option Run)) (w : S)
          → attempt (get_run sha256 midnight service settings u.run_id) s ≡ (returned prior, w)
          → after_prior sha256 fromisoformat uuid5 today midnight service settings chain fetch u q
              prior w
            ≡ (returned res, s')
          → IsReported u s s' res
      after q planned (raised e) w known k = elim (Bool-cases (transient (chain e))) [
        | inl x ↦ cc (rw x at k)
        | inr x ↦ cc (rw x at k)
      ]
      after q planned (returned prior) w known k =
          let (o, t, ran, k') =
            bind-returned (attempt (ingest sha256 midnight service settings q u.run_id (fetch q)))
              (ingested sha256 fromisoformat uuid5 today midnight service settings chain fetch u
                prior)
              w s' res k in
          let (m, answered, done, unchanged, is_report) =
            ingested-IsReportOf u prior o t s' res k' in
          record {
            request = q;
            planned = planned;
            prior = prior;
            before = w;
            known =
                attempt-returned (get_run sha256 midnight service settings u.run_id) prior s w
                  known;
            manifest = m;
            made =
                attempt-returned (ingest sha256 midnight service settings q u.run_id (fetch q)) m w
                  s'
                  (subst
                    (λ (p : Answer (Answer Run) × S).
                      attempt (ingest sha256 midnight service settings q u.run_id (fetch q)) w ≡ p)
                    (ap (λ (x : Answer Run). (returned x, t)) answered
                      ∙ ap (λ (y : S). (returned (returned m), y)) unchanged)
                    ran);
            done = done;
            report = is_report;
          }
