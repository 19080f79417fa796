-- ===== src/Warehouse/Records.antt =====
-- The invariant of the content and transition tables of one product, and what makes a batch and a
-- snapshot fit to be committed. `market_day` gives the Pacific date of a logical key: a key names
-- its interval, so its rows all lie on one date.
pub mod Commit
pub mod Contents
pub mod Finalize
use power_market_data_platfo.Base.{
  ℕ, ◌≡◌, Bool, true, false, List, [], ◌∷◌, Option, none, some, any, All, All-map, Text, text_eq,
  contains,
}
use power_market_data_platfo.Identity.Json.Injective.{IsBasic}
use power_market_data_platfo.Warehouse.Tables.{Row, Content, Transition, Run, Facts}
use power_market_data_platfo.Warehouse.Batch.{content_id}
use power_market_data_platfo.Warehouse.Plan.{Snapshot, transition_id}
use power_market_data_platfo.Warehouse.Snapshot.{ids_on, latest_from}
use power_market_data_platfo.Warehouse.Scripts.Runs.{find_run}
use power_market_data_platfo.Warehouse.Scripts.Gate.{has_completed}
use power_market_data_platfo.Warehouse.History.{IsChain}
use power_market_data_platfo.Warehouse.History.Chain.{DistinctKeys}

-- The run has committed its batch.
abbrev pub Completed : List Run → Text → Type 0
Completed runs id = (r : Run) × (find_run id runs ≡ some r) × (has_completed r ≡ true)

abbrev pub has_content_id : Text → Content → Bool
has_content_id id s = text_eq s.content_id id

abbrev pub DistinctContents : List Content → Type 0
DistinctContents [] = Unit
DistinctContents (s ∷ cs) = (any (has_content_id s.content_id) cs ≡ false) × DistinctContents cs

module _ (sha256 : Text → Text) (market_day : Text → ℕ) where
  -- A transition bears the identifier of its run and key, and its run has committed.
  pub record IsTracked (runs : List Run) (t : Transition) : Type 0 where
    pub named : t.transition_id ≡ transition_id sha256 t.run_id t.logical_key
    pub run_basic : IsBasic t.run_id
    pub key_basic : IsBasic t.logical_key
    pub committed_by : Completed runs t.run_id

  -- A row bears the identifier of its key and hash, and the date of its key.
  pub record IsSound (r : Row) : Type 0 where
    pub named : r.content_id ≡ content_id sha256 r.logical_key r.content_hash
    pub key_basic : IsBasic r.logical_key
    pub hash_basic : IsBasic r.content_hash
    pub dated : r.market_date ≡ market_day r.logical_key

  pub record IsRecorded (runs : List Run) (f : Facts) : Type 0 where
    pub chain : (key : Text) → IsChain (market_day key) key none f.transitions
    pub tracked : All (IsTracked runs) f.transitions
    pub stored : All (λ t. any (has_content_id t.content_id) f.contents ≡ true) f.transitions
    pub distinct : DistinctContents f.contents
    pub sound : All (λ s. IsSound s.row) f.contents

  -- The rows of one date, each key once.
  pub record IsBatch (day : ℕ) (rows : List Row) : Type 0 where
    pub distinct : DistinctKeys rows
    pub sound : All IsSound rows
    pub on_day : All (λ r. r.market_date ≡ day) rows

-- The snapshot shows what the tables hold for the date.
pub record IsFresh (day : ℕ) (s : Snapshot) (f : Facts) : Type 0 where
  pub contents : (id : Text) → contains id s.contents ≡ contains id (ids_on day f.contents)
  pub latest : (key : Text) → s.latest key ≡ latest_from day key none f.transitions

module _ (sha256 : Text → Text) (market_day : Text → ℕ) (runs runs' : List Run)
    (keeps : (id : Text) → Completed runs id → Completed runs' id) where
  pub still-IsTracked :
      (t : Transition) → IsTracked sha256 market_day runs t → IsTracked sha256 market_day runs' t
  still-IsTracked t k = record {
    named = k.named;
    run_basic = k.run_basic;
    key_basic = k.key_basic;
    committed_by = keeps t.run_id k.committed_by;
  }

  -- Manifests that change without undoing a commit keep the invariant of the tables.
  pub runs-IsRecorded :
      (f : Facts) → IsRecorded sha256 market_day runs f → IsRecorded sha256 market_day runs' f
  runs-IsRecorded f h = record {
    chain = h.chain;
    tracked = All-map still-IsTracked f.transitions h.tracked;
    stored = h.stored;
    distinct = h.distinct;
    sound = h.sound;
  }
