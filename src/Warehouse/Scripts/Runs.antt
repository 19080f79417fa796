-- ===== src/Warehouse/Scripts/Runs.antt =====
-- The manifests as a table keyed by run ID: what the updates and the insert of the scripts do to it.
use power_market_data_platfo.Base.{
  ℕ, ◌+◌, ◌≡◌, refl, sym, ◌∙◌, ap, ◌≢◌, ◌⊎◌, inl, inr, Bool, true, false, ◌&&◌, ◌||◌, List, [], ◌∷◌,
  ◌++◌, Option, none, some, arith, ◌==◌, if◌then◌else◌, length, any, filter, Text, text_eq,
  text_eq_iff, Bool-cases, text_eq_refl,
}
use power_market_data_platfo.Warehouse.Tables.{Run}
use power_market_data_platfo.Warehouse.Scripts.{has_run_id, update_runs}

-- The manifest of a run.
abbrev pub find_run : Text → List Run → Option Run
find_run id [] = none
find_run id (r ∷ rs) = if text_eq r.run_id id then some r else find_run id rs

-- No run ID stands twice.
abbrev pub DistinctRuns : List Run → Type 0
DistinctRuns [] = Unit
DistinctRuns (r ∷ rs) = (any (has_run_id r.run_id) rs ≡ false) × DistinctRuns rs

-- An update that leaves run IDs alone.
abbrev pub KeepsId : (Run → Run) → Type 0
KeepsId f = (r : Run) → (f r).run_id ≡ r.run_id

abbrev pub map_run : (Run → Run) → Option Run → Option Run
map_run f none = none
map_run f (some r) = some (f r)

pub find_run-update_runs :
    (id j : Text) (f : Run → Run) (rs : List Run)
    → KeepsId f
    → find_run j (update_runs id f rs)
      ≡ (if text_eq id j then map_run f (find_run j rs) else find_run j rs)
find_run-update_runs id j f [] h = ground arith
find_run-update_runs id j f (r ∷ rs) h = ground (
  arith,
  find_run-update_runs id j f rs h,
  h r,
  text_eq_iff r.run_id id,
  text_eq_iff r.run_id j,
  text_eq_iff (f r).run_id j,
  text_eq_iff id j,
)

pub find_run-append :
    (j : Text) (rs : List Run) (r : Run)
    → find_run j (rs ++ r ∷ [])
      ≡ (if any (has_run_id j) rs then find_run j rs else find_run j (r ∷ []))
find_run-append j [] r = refl
find_run-append j (q ∷ rs) r = ground (arith, find_run-append j rs r)

pub any-find_run :
    (j : Text) (rs : List Run)
    → ((any (has_run_id j) rs ≡ false) × (find_run j rs ≡ none))
      ⊎ ((r : Run) × (any (has_run_id j) rs ≡ true) × (find_run j rs ≡ some r) × (r.run_id ≡ j))
any-find_run j [] = inl (refl, refl)
any-find_run j (r ∷ rs) = elim (Bool-cases (text_eq r.run_id j)) [
  | inl e ↦ inr (r, rw e, rw e, (text_eq_iff r.run_id j).0 e)
  | inr e ↦ rw e (any-find_run j rs)
]

any-update_runs :
    (id j : Text) (f : Run → Run) (rs : List Run)
    → KeepsId f
    → any (has_run_id j) (update_runs id f rs) ≡ any (has_run_id j) rs
any-update_runs id j f [] h = refl
any-update_runs id j f (r ∷ rs) h = ground (arith, any-update_runs id j f rs h, h r)

run_id-update :
    (id : Text) (f : Run → Run) (r : Run)
    → KeepsId f
    → (if has_run_id id r then f r else r).run_id ≡ r.run_id
run_id-update id f r h = ground (arith, h r)

pub update_runs-DistinctRuns :
    (id : Text) (f : Run → Run) (rs : List Run)
    → KeepsId f
    → DistinctRuns rs
    → DistinctRuns (update_runs id f rs)
update_runs-DistinctRuns id f [] h d = tt
update_runs-DistinctRuns id f (r ∷ rs) h d = (
  rw (run_id-update id f r h) (any-update_runs id r.run_id f rs h ∙ d.0),
  update_runs-DistinctRuns id f rs h d.1,
)

any-append :
    (j : Text) (rs : List Run) (r : Run)
    → any (has_run_id j) (rs ++ r ∷ []) ≡ (any (has_run_id j) rs || text_eq r.run_id j)
any-append j [] r = ground arith
any-append j (q ∷ rs) r = ground (arith, any-append j rs r)

pub append-DistinctRuns :
    (rs : List Run) (r : Run)
    → any (has_run_id r.run_id) rs ≡ false
    → DistinctRuns rs
    → DistinctRuns (rs ++ r ∷ [])
append-DistinctRuns [] r fresh d = (refl, tt)
append-DistinctRuns (q ∷ rs) r fresh d = (
  ground (
    arith,
    any-append q.run_id rs r,
    text_eq_iff r.run_id q.run_id,
    text_eq_iff q.run_id r.run_id,
  ),
  append-DistinctRuns rs r (ground arith) d.1,
)

abbrev pub to_list : Option Run → List Run
to_list none = []
to_list (some r) = r ∷ []

pub filter-none :
    (id : Text) (rs : List Run) → any (has_run_id id) rs ≡ false → filter (has_run_id id) rs ≡ []
filter-none id [] h = refl
filter-none id (r ∷ rs) h = ground (arith, filter-none id rs)

-- A subquery by run ID reads the one manifest of the run.
pub filter-find_run :
    (id : Text) (rs : List Run)
    → DistinctRuns rs
    → filter (has_run_id id) rs ≡ to_list (find_run id rs)
filter-find_run id [] d = refl
filter-find_run id (r ∷ rs) d = elim (Bool-cases (text_eq r.run_id id)) [
  | inl e ↦ rw e (
      ap (λ (l : List Run). r ∷ l)
        (filter-none id rs (rw (sym ((text_eq_iff r.run_id id).0 e)) d.0)))
  | inr e ↦ rw e (filter-find_run id rs d.1)
]

-- How many manifests pass a test.
abbrev pub count_runs : (Run → Bool) → List Run → ℕ
count_runs p [] = 0
count_runs p (r ∷ rs) = (if p r then 1 else 0) + count_runs p rs

abbrev pub weigh : (Run → Bool) → Run → ℕ
weigh p r = if p r then 1 else 0

pub update_runs-none :
    (id : Text) (f : Run → Run) (rs : List Run)
    → any (has_run_id id) rs ≡ false
    → update_runs id f rs ≡ rs
update_runs-none id f [] h = refl
update_runs-none id f (r ∷ rs) h = ground (arith, update_runs-none id f rs)

-- An update moves the count by what it does to the one manifest of the run.
pub count_runs-update_runs :
    (p : Run → Bool) (id : Text) (f : Run → Run) (rs : List Run) (r : Run)
    → DistinctRuns rs
    → find_run id rs ≡ some r
    → count_runs p (update_runs id f rs) + weigh p r ≡ count_runs p rs + weigh p (f r)
count_runs-update_runs p id f [] r d e = cc e
count_runs-update_runs p id f (q ∷ rs) r d e = elim (Bool-cases (text_eq q.run_id id)) [
  | inl same ↦
      let fresh : any (has_run_id id) rs ≡ false =
        rw (sym ((text_eq_iff q.run_id id).0 same)) d.0 in
      rw same (ground (arith, e, same, update_runs-none id f rs fresh))
  | inr other ↦ rw other (omega (arith, count_runs-update_runs p id f rs r d.1 (rw other at e)))
]

pub count_runs-append :
    (p : Run → Bool) (rs : List Run) (r : Run)
    → count_runs p (rs ++ r ∷ []) ≡ count_runs p rs + weigh p r
count_runs-append p [] r = omega arith
count_runs-append p (q ∷ rs) r = omega (arith, count_runs-append p rs r)

filter-and_none :
    (p : Run → Bool) (id : Text) (rs : List Run)
    → any (has_run_id id) rs ≡ false
    → filter (λ r. has_run_id id r && p r) rs ≡ []
filter-and_none p id [] h = refl
filter-and_none p id (r ∷ rs) h = ground (arith, filter-and_none p id rs)

-- `SELECT COUNT(*) ... WHERE run_id = id AND p` is 1 exactly if the manifest of the run passes `p`.
pub counted_once :
    (p : Run → Bool) (id : Text) (rs : List Run)
    → DistinctRuns rs
    → (length (filter (λ r. has_run_id id r && p r) rs) == 1) ≡ any p (to_list (find_run id rs))
counted_once p id [] d = refl
counted_once p id (r ∷ rs) d = elim (Bool-cases (text_eq r.run_id id)) [
  | inl same ↦
      let fresh : any (has_run_id id) rs ≡ false =
        rw (sym ((text_eq_iff r.run_id id).0 same)) d.0 in
      rw same (ground (arith, filter-and_none p id rs fresh))
  | inr other ↦ rw other (counted_once p id rs d.1)
]

module _ (id : Text) (f : Run → Run) (rs : List Run) (keeps : KeepsId f) (r : Run)
    (found : find_run id rs ≡ some r) where
  pub find_run-update_runs_self : find_run id (update_runs id f rs) ≡ some (f r)
  find_run-update_runs_self =
      find_run-update_runs id id f rs keeps ∙ rw text_eq_refl (rw found refl)

  -- The manifest found after an update is the updated one of the run, or the old one of another.
  pub find_run-update_cases :
      (j : Text) (q : Run)
      → find_run j (update_runs id f rs) ≡ some q
      → ((id ≡ j) × (q ≡ f r)) ⊎ ((id ≢ j) × (find_run j rs ≡ some q))
  find_run-update_cases j q e = elim (Bool-cases (text_eq id j)) [
    | inl same ↦
        let eq : id ≡ j = (text_eq_iff id j).0 same in
        inl (
          eq,
          cc (e, find_run-update_runs_self, ap (λ (k : Text). find_run k (update_runs id f rs)) eq),
        )
    | inr other ↦ inr (
      λ eq. cc (other, (text_eq_iff id j).1 eq),
      rw other at (sym (find_run-update_runs id j f rs keeps)) ∙ e,
    )
  ]
