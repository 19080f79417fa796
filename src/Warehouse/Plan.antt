-- ===== src/Warehouse/Plan.antt =====
-- model.py: what a batch changes against a snapshot of the warehouse. A known content is not stored
-- again, and only a material change makes a transition.
use power_market_data_platfo.Base.{
  ℕ, ◌+◌, Bool, true, not, List, [], ◌∷◌, Option, none, some, if◌then◌else◌, length, Text, codes,
  text_eq, contains, Dict, insert, Result, ok, ◌>>=◌,
}
use power_market_data_platfo.Errors.{Error}
use power_market_data_platfo.Identity.{digest}
use power_market_data_platfo.Warehouse.Request.{key_schema, content_schema, validate_run_id}
use power_market_data_platfo.Warehouse.Tables.{Row, Content, Transition}

pub record Latest : Type 0 where
  pub content_hash : Text
  pub ordinal : ℕ

pub record Snapshot : Type 0 where
  pub sequence : ℕ
  pub contents : List Text
  pub latest : Text → Option Latest

pub record WritePlan : Type 0 where
  pub contents : List Content
  pub transitions : List Transition
  pub batch_hash : Text
  pub accepted : ℕ
  pub expected_sequence : ℕ

-- `latest is None or latest.content_hash != value_hash`.
abbrev pub is_change : Option Latest → Text → Bool
is_change none hash = true
is_change (some l) hash = not (text_eq l.content_hash hash)

-- `1 if latest is None else latest.ordinal + 1`.
abbrev pub next_ordinal : Option Latest → ℕ
next_ordinal none = 1
next_ordinal (some l) = l.ordinal + 1

-- The rows that the loop appends to `new_contents`.
unfoldable pub plan_contents : Text → Snapshot → List Row → List Content
plan_contents run_id snapshot [] = []
plan_contents run_id snapshot (row ∷ rows) =
    let rest = plan_contents run_id snapshot rows in
    if contains row.content_id snapshot.contents
    then rest
    else record { row = row; first_run_id = run_id; first_seen_at = none } ∷ rest

module _ (sha256 : Text → Text) where
  unfoldable pub transition_id : Text → Text → Text
  transition_id run_id key =
      digest sha256 (codes "state-transition/v1")
        ((codes "run_id", run_id) ∷ (codes "key", key) ∷ [])

  unfoldable pub transition_of : Text → Snapshot → Row → Transition
  transition_of run_id snapshot row = record {
    transition_id = transition_id run_id row.logical_key;
    run_id = run_id;
    logical_key = row.logical_key;
    content_id = row.content_id;
    content_hash = row.content_hash;
    logical_key_schema = key_schema;
    content_hash_schema = content_schema;
    market_date = row.market_date;
    interval_start_utc = row.interval_start_utc;
    ordinal = next_ordinal (snapshot.latest row.logical_key);
    commit_sequence = snapshot.sequence + 1;
    retrieved_at_utc = row.retrieved_at_utc;
    known_at = none;
  }

  -- The rows that the loop appends to `transitions`.
  unfoldable pub plan_transitions : Text → Snapshot → List Row → List Transition
  plan_transitions run_id snapshot [] = []
  plan_transitions run_id snapshot (row ∷ rows) =
      let rest = plan_transitions run_id snapshot rows in
      if is_change (snapshot.latest row.logical_key) row.content_hash
      then transition_of run_id snapshot row ∷ rest
      else rest

  abbrev fingerprint : List Row → Dict Text → Dict Text
  fingerprint [] d = d
  fingerprint (row ∷ rows) d = fingerprint rows (insert row.logical_key row.content_hash d)

  unfoldable pub plan_write : Text → List Row → Snapshot → Result Error WritePlan
  plan_write run_id rows snapshot = do
    valid ← validate_run_id run_id
    ok (record {
      contents = plan_contents run_id snapshot rows;
      transitions = plan_transitions run_id snapshot rows;
      batch_hash = digest sha256 (codes "batch-content/v1") (fingerprint rows []);
      accepted = length rows;
      expected_sequence = snapshot.sequence;
    })
