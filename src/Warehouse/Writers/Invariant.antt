-- ===== src/Warehouse/Writers/Invariant.antt =====
-- The invariant of a world, and the lemmas by which each step keeps it.
pub mod Commits
use power_market_data_platfo.Base.{
  ℕ, ◌+◌, ◌≤◌, ◌≡◌, refl, sym, ◌∙◌, ap, inl, inr, Bool, true, false, List, [], ◌∷◌, ◌++◌, Option,
  none, some, arith, if◌then◌else◌, any, All, All-map, Text, text_eq, contains, Bool-cases,
}
use power_market_data_platfo.Warehouse.Request.{Product}
use power_market_data_platfo.Warehouse.Tables.{Run, Control, Facts, Database, Content, Transition}
use power_market_data_platfo.Warehouse.Plan.{Latest, Snapshot}
use power_market_data_platfo.Warehouse.Snapshot.{ids_on, latest_from}
use power_market_data_platfo.Warehouse.Scripts.{facts, update_runs}
use power_market_data_platfo.Warehouse.Scripts.Runs.{
  find_run, KeepsId, map_run, find_run-update_runs, find_run-append, any-find_run,
}
use power_market_data_platfo.Warehouse.Scripts.Gate.{IsGated, has_completed}
use power_market_data_platfo.Warehouse.Records.{Completed, IsRecorded, IsFresh}
use power_market_data_platfo.Warehouse.Writers.{World, Reading}

-- A snapshot is as old as its sequence says: of the current sequence, it shows the current tables.
pub record IsHonest (c : Control) (db : Database) (r : Reading) : Type 0 where
  pub older : r.taken.sequence ≤ c.sequence
  pub fresh : r.taken.sequence ≡ c.sequence → IsFresh r.day r.taken (facts r.product db)

module _ (sha256 : Text → Text) (market_day : Text → ℕ) where
  pub record IsSoundWorld (c : Control) (w : World) : Type 0 where
    pub gated : IsGated c w.tables
    pub lmp : IsRecorded sha256 market_day w.tables.ingestion_runs w.tables.lmp
    pub load : IsRecorded sha256 market_day w.tables.ingestion_runs w.tables.load
    pub honest : All (IsHonest c w.tables) w.readings

-- The tables look the same to every snapshot.
pub record SameView (f g : Facts) : Type 0 where
  pub contents : (day : ℕ) → ids_on day g.contents ≡ ids_on day f.contents
  pub latest :
      (day : ℕ) (key : Text)
      → latest_from day key none g.transitions ≡ latest_from day key none f.transitions

pub SameView-refl : (f : Facts) → SameView f f
SameView-refl f = record { contents = λ day. refl; latest = λ day key. refl }

abbrev pub SameViews : Database → Database → Type 0
SameViews db db' = (p : Product) → SameView (facts p db) (facts p db')

-- A step that shows the same tables at the same sequence leaves every snapshot honest.
pub IsHonest-kept :
    (c c' : Control) (db db' : Database)
    → c'.sequence ≡ c.sequence
    → SameViews db db'
    → (r : Reading) → IsHonest c db r
    → IsHonest c' db' r
IsHonest-kept c c' db db' e same r h = record {
  older = omega (arith, h.older);
  fresh = λ current.
      let f = h.fresh (current ∙ e) in
      record {
        contents = λ id. f.contents id ∙ ap (contains id) (sym ((same r.product).contents r.day));
        latest = λ key. f.latest key ∙ sym ((same r.product).latest r.day key);
      };
}

-- A commit makes every snapshot that was read before it old.
pub IsHonest-older :
    (c c' : Control) (db db' : Database)
    → c'.sequence ≡ c.sequence + 1
    → (r : Reading) → IsHonest c db r
    → IsHonest c' db' r
IsHonest-older c c' db db' e r h = record {
  older = omega (arith, h.older);
  fresh = λ current. absurd (omega (arith, h.older));
}

-- An update that undoes no commit.
pub update-Completed :
    (j : Text) (f : Run → Run) (rs : List Run)
    → KeepsId f
    → ((r : Run) → has_completed r ≡ true → has_completed (f r) ≡ true)
    → (id : Text) → Completed rs id
    → Completed (update_runs j f rs) id
update-Completed j f rs keeps done id (r, found, h) = elim (Bool-cases (text_eq j id)) [
  | inl same ↦ (f r, find_run-update_runs j id f rs keeps ∙ rw same (rw found refl), done r h)
  | inr other ↦ (r, find_run-update_runs j id f rs keeps ∙ rw other found, h)
]

pub append-Completed :
    (rs : List Run) (q : Run) (id : Text) → Completed rs id → Completed (rs ++ q ∷ []) id
append-Completed rs q id (r, found, h) =
    (r, ground (arith, found, find_run-append id rs q, any-find_run id rs), h)
