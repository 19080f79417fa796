-- ===== src/Warehouse/Scripts.antt =====
-- sql.py: each script as a function of the tables. An ASSERT that fails aborts the transaction;
-- `execute` is the transaction: all of the script's changes, or none.
pub mod Runs
pub mod Gate
use power_market_data_platfo.Base.{
  ℕ, ◌+◌, Bool, true, false, ◌&&◌, ◌||◌, not, List, [], ◌∷◌, ◌++◌, map, Option, none, some, ltb,
  ◌==◌, if◌then◌else◌, length, any, filter, Text, text_eq, Result, ok, err, ◌>>=◌, ◌>>◌, raise_if,
  is_some,
}
use power_market_data_platfo.Warehouse.Request.{Product, warehouse_schema}
use power_market_data_platfo.Warehouse.Tables.{
  Content, Transition, Run, Status, Control, Facts, Database, started, committed, succeeded, failed,
}

-- The ASSERT, or the scalar subquery of more than one row, at which a script stops.
pub data ScriptError : Type 0 where
  control_rows incompatible_schema other_request not_started stale_snapshot gate_closed :
      ScriptError
  scalar_rows not_owner not_committed : ScriptError

abbrev pub Script : Type 0
Script = Database → Result ScriptError Database

-- BEGIN TRANSACTION ... COMMIT TRANSACTION: an error rolls everything back.
unfoldable pub execute : Script → Database → Database
execute script db = elim (script db) [ ok db' ↦ db' | err e ↦ db ]

abbrev pub facts : Product → Database → Facts
facts Product.lmp db = db.lmp
facts Product.load db = db.load

abbrev pub set_facts : Product → Facts → Database → Database
set_facts Product.lmp f db = record db { lmp = f }
set_facts Product.load f db = record db { load = f }

abbrev pub is_singleton : Control → Bool
is_singleton c = c.singleton == 1

-- UPDATE warehouse_control ... WHERE singleton = 1.
abbrev pub update_control : (Control → Control) → List Control → List Control
update_control f cs = map (λ c. if is_singleton c then f c else c) cs

abbrev the_only : List Control → Result ScriptError Control
the_only (c ∷ []) = ok c
the_only cs = err control_rows

-- `guard`: exactly one control row, of this schema. Its row is what later subqueries read.
pub guard : Database → Result ScriptError Control
guard db = do
  c ← the_only (filter is_singleton db.warehouse_control)
  raise_if (not (text_eq c.warehouse_schema warehouse_schema)) incompatible_schema
  ok c

abbrev pub has_run_id : Text → Run → Bool
has_run_id id r = text_eq r.run_id id

-- UPDATE ingestion_runs ... WHERE run_id = @run_id.
abbrev pub update_runs : Text → (Run → Run) → List Run → List Run
update_runs id f rs = map (λ r. if has_run_id id r then f r else r) rs

-- `begin_run`, with the manifest row as parameter `@run`; CURRENT_TIMESTAMP() is `now`.
unfoldable pub begin_run : Run → ℕ → Script
unfolding guard
begin_run run now db = do
  c ← guard db
  raise_if
      (any (λ r. has_run_id run.run_id r && not (text_eq r.request_id run.request_id))
        db.ingestion_runs)
      other_request
  ok (
      if any (has_run_id run.run_id) db.ingestion_runs
      then db
      else record db { ingestion_runs = db.ingestion_runs ++ record run { started_at = now } ∷ [] })

-- `merge_rows` of contents: a row is inserted unless the table has its content ID.
unfoldable pub merge_contents : List Content → List Content → List Content
merge_contents table rows =
    table ++ filter (λ s. not (any (λ t. text_eq t.content_id s.content_id) table)) rows

-- `merge_rows` of transitions, by transition ID.
unfoldable pub merge_transitions : List Transition → List Transition → List Transition
merge_transitions table rows =
    table ++ filter (λ s. not (any (λ t. text_eq t.transition_id s.transition_id) table)) rows

-- The query parameters of `commit_query`.
pub record CommitParameters : Type 0 where
  pub run_id : Text
  pub expected_sequence : ℕ
  pub batch_hash : Text
  pub accepted : ℕ
  pub commit_job_id : Text
  pub contents : List Content
  pub transitions : List Transition

abbrev pub is_started : Status → Bool
is_started started = true
is_started _ = false

abbrev pub is_committed : Status → Bool
is_committed committed = true
is_committed _ = false

abbrev pub is_succeeded : Status → Bool
is_succeeded succeeded = true
is_succeeded _ = false

-- The columns that the commit sets in the manifest.
unfoldable pub mark_committed : CommitParameters → Run → Run
mark_committed p r = record r {
  status = committed;
  commit_completed = true;
  batch_hash = some p.batch_hash;
  commit_job_id = some p.commit_job_id;
  commit_sequence = some (p.expected_sequence + 1);
  rows_fetched = some p.accepted;
  rows_normalized = some p.accepted;
  rows_accepted = some p.accepted;
  rows_rejected = some 0;
  new_contents = some (length p.contents);
  new_transitions = some (length p.transitions);
}

-- The changes between the last ASSERT of `commit_query` and its COMMIT.
unfoldable pub commit_effect : Product → CommitParameters → Database → Database
commit_effect product p db =
    let old = facts product db in
    let new : Facts = record {
      contents = merge_contents old.contents p.contents;
      transitions = merge_transitions old.transitions p.transitions;
    } in
    record (set_facts product new db) {
      warehouse_control =
          update_control
            (λ d. record d { sequence = d.sequence + 1; active_run_id = some p.run_id })
            db.warehouse_control;
      ingestion_runs = update_runs p.run_id (mark_committed p) db.ingestion_runs;
    }

unfoldable pub commit_query : Product → CommitParameters → Script
unfolding guard
commit_query product p db = do
  c ← guard db
  raise_if
      (not (
        length (filter (λ r. has_run_id p.run_id r && is_started r.status) db.ingestion_runs) == 1))
      not_started
  raise_if (not (c.sequence == p.expected_sequence)) stale_snapshot
  raise_if (is_some c.active_run_id) gate_closed
  ok (commit_effect product p db)

-- `finalize_query`'s parameters besides the run.
pub record FinalizeParameters : Type 0 where
  pub run_id : Text
  pub knowledge_at : ℕ
  pub processed : Option ℕ
  pub billed : Option ℕ

abbrev pub or_else {ℓ} : {A : Type ℓ} → Option A → Option A → Option A
or_else none o = o
or_else (some a) o = some a

-- SET ... WHERE first_run_id = @run_id AND first_seen_at IS NULL.
unfoldable pub see_content : FinalizeParameters → Content → Content
see_content p s = record s {
  first_seen_at =
      if text_eq s.first_run_id p.run_id
      then or_else s.first_seen_at (some p.knowledge_at)
      else s.first_seen_at;
}

-- SET ... WHERE run_id = @run_id AND known_at IS NULL.
unfoldable pub know_transition : FinalizeParameters → Transition → Transition
know_transition p t = record t {
  known_at =
      if text_eq t.run_id p.run_id then or_else t.known_at (some p.knowledge_at) else t.known_at;
}

unfoldable pub mark_succeeded : FinalizeParameters → ℕ → Run → Run
mark_succeeded p now r = record r {
  status = succeeded;
  completed_at = some now;
  knowledge_at = some p.knowledge_at;
  query_bytes_processed = p.processed;
  query_bytes_billed = p.billed;
}

abbrev pub owned_by : Text → Option Text → Bool
owned_by id none = false
owned_by id (some a) = text_eq a id

-- The updates in the IF of `finalize_query`.
unfoldable pub finalize_effect : Product → FinalizeParameters → ℕ → Database → Database
finalize_effect product p now db =
    let old = facts product db in
    let new : Facts = record {
      contents = map (see_content p) old.contents;
      transitions = map (know_transition p) old.transitions;
    } in
    record (set_facts product new db) {
      warehouse_control =
          update_control (λ d. record d { active_run_id = none }) db.warehouse_control;
      ingestion_runs = update_runs p.run_id (mark_succeeded p now) db.ingestion_runs;
    }

-- The body of the IF in `finalize_query`.
pub finalize_committed : Product → FinalizeParameters → ℕ → Control → Status → Script
finalize_committed product p now c status db = do
  raise_if (not (owned_by p.run_id c.active_run_id)) not_owner
  raise_if (not (is_committed status)) not_committed
  ok (finalize_effect product p now db)

-- The IF: a NULL status, of a run that is not there, compares to nothing and skips the body.
pub finalize_if : Product → FinalizeParameters → ℕ → Control → List Run → Script
unfolding finalize_committed
finalize_if product p now c [] db = ok db
finalize_if product p now c (r ∷ []) db =
    if is_succeeded r.status then ok db else finalize_committed product p now c r.status db
finalize_if product p now c (r ∷ q ∷ rs) db = err scalar_rows

unfoldable pub finalize_query : Product → FinalizeParameters → ℕ → Script
unfolding guard finalize_if
finalize_query product p now db = do
  c ← guard db
  finalize_if product p now c (filter (has_run_id p.run_id) db.ingestion_runs) db

-- `failure_query`'s parameters.
pub record FailureParameters : Type 0 where
  pub run_id : Text
  pub error_class : Text
  pub error_message : Text
  pub commit_job_id : Option Text

unfoldable pub mark_failed : FailureParameters → ℕ → Run → Run
mark_failed p now r =
    if is_started r.status && not r.commit_completed
    then record r {
      status = failed;
      completed_at = some now;
      error_class = some p.error_class;
      error_message = some p.error_message;
      rows_accepted = some 0;
      commit_job_id = or_else p.commit_job_id r.commit_job_id;
    }
    else r

unfoldable pub failure_query : FailureParameters → ℕ → Script
unfolding guard mark_failed
failure_query p now db = do
  c ← guard db
  ok (record db { ingestion_runs = update_runs p.run_id (mark_failed p now) db.ingestion_runs })
