-- ===== src/Orchestration/Operations/Verified.antt =====
-- orchestration/operations.py: what a verification that passes has compared.
use power_market_data_platfo.Base.{
  ℕ, ◌≤◌, ◌≡◌, refl, sym, ap, subst, ◌∙◌, arith, inl, inr, Bool, true, Bool-cases, List, [], ◌∷◌,
  Option, none, some, is_some, text_eq_refl, false, All, ltb, if◌then◌else◌, ℤ, Text, text_eq,
  text_eq_iff, Dict, lookup, insert, lookup-insert, >>=-eq-ok,
}
use power_market_data_platfo.Base
use power_market_data_platfo.Warehouse.Config.{Environment}
use power_market_data_platfo.Warehouse.Request.{Product}
use power_market_data_platfo.Warehouse.Client.{returned, lift}
use power_market_data_platfo.Warehouse.Client.Returns.{
  bind-returned, lift-returned, returned_injective,
}
use power_market_data_platfo.Orchestration.Configuration.{configuration}
use power_market_data_platfo.Orchestration.Plan.{PlanUnit}
use power_market_data_platfo.Orchestration.Execution.{IngestionResult}
use power_market_data_platfo.Orchestration.Operations.{
  VerificationResult, Runtime, label, get_or_zero, set_default, check_results, count_units,
  units_of, verify,
}

-- The counts have an entry of the result's unit, of at least its accepted rows.
abbrev pub IsCovered : Dict ℕ → IngestionResult → Type 0
IsCovered counts r = (n : ℕ) × (lookup (label r.unit) counts ≡ some n) × (r.accepted_rows ≤ n)

-- The entries of `counts` are in `later` too.
Extends : Dict ℕ → Dict ℕ → Type 0
Extends later counts = (key : Text) (n : ℕ) → lookup key counts ≡ some n → lookup key later ≡ some n

set_default-Extends : (key : Text) (counts : Dict ℕ) → Extends (set_default key counts) counts
unfolding Extends
set_default-Extends key counts k n h = elim (Bool-cases (is_some (lookup key counts))) [
  | inl e ↦ rw e h
  | inr e ↦
      rw e (ground (arith, lookup-insert key k 0 counts, text_eq_iff key k, h, e, other_key e))
]
  where
    other_key : is_some (lookup key counts) ≡ false → text_eq key k ≡ true → ⊥
    other_key e same =
        let here : lookup key counts ≡ some n =
          subst (λ (j : Text). lookup j counts ≡ some n) (sym ((text_eq_iff key k).0 same)) h in
        ground (arith, e, here)

set_default_lem :
    (key : Text) (counts : Dict ℕ)
    → lookup key (set_default key counts) ≡ some (get_or_zero key counts)
set_default_lem key counts = ground (arith, lookup-insert key key 0 counts, text_eq_refl key)

check_results-IsCovered :
    (rs : List IngestionResult) (counts later : Dict ℕ)
    → check_results rs counts ≡ Base.ok later
    → Extends later counts × All (IsCovered later) rs
unfolding Extends
check_results-IsCovered [] counts later h =
    subst (λ (d : Dict ℕ). Extends d counts × Unit) (cc h) ((λ key n e. e), tt)
check_results-IsCovered (r ∷ rs) counts later h =
    elim (Bool-cases (ltb (get_or_zero (label r.unit) counts) r.accepted_rows)) [
      | inl e ↦ cc (rw e at h)
      | inr e ↦
          (let key = label r.unit in
            let (kept, covered) =
              check_results-IsCovered rs (set_default key counts) later (rw e at h) in
            (
              λ k n found. kept k n (set_default-Extends key counts k n found),
              (
                (
                  get_or_zero key counts,
                  kept key (get_or_zero key counts) (set_default_lem key counts),
                  ground (arith, e),
                ),
                covered,
              ),
            ))
    ]

module _ (sha256 : Text → Text) (fromisoformat : Text → Option ℕ) (uuid5 : Text → Text → Text)
    (today : ℕ) (midnight : ℕ → ℕ) (read_int : Text → Option ℤ) (environ : Environment) {S : Type 0}
    (runtime : Runtime S) where
  -- Whatever BigQuery answers, in a verification that verify returns the counts have, for the label
  -- of every result, an entry of at least its accepted rows.
  pub verify-IsCovered :
      (units : List PlanUnit) (results : List IngestionResult) (s t : S) (v : VerificationResult)
      → verify sha256 fromisoformat uuid5 today midnight read_int environ runtime units results s
        ≡ (returned v, t)
      → All (IsCovered v.request_counts) results
  unfolding verify
  verify-IsCovered units results s t v h =
      let (found, s1, _, h1) = bind-returned (lift (configuration read_int environ)) _ s t v h in
      let (prices, s2, _, h2) =
        bind-returned
          (count_units sha256 fromisoformat uuid5 today midnight read_int environ runtime found.0
            found.1 Product.lmp
            (units_of sha256 fromisoformat uuid5 today midnight read_int environ runtime Product.lmp
              units)
            [])
          _ s1 t v h1 in
      let (both, s3, _, h3) =
        bind-returned
          (count_units sha256 fromisoformat uuid5 today midnight read_int environ runtime found.0
            found.1 Product.load
            (units_of sha256 fromisoformat uuid5 today midnight read_int environ runtime
              Product.load units)
            prices)
          _ s2 t v h2 in
      let (counts, s4, compared, h4) =
        bind-returned (lift (check_results results both)) _ s3 t v h3 in
      let (bytes, s5, _, h5) = bind-returned runtime.job_bytes _ s4 t v h4 in
      let same = ap (λ (r : VerificationResult). r.request_counts) (returned_injective h5) in
      subst (λ (d : Dict ℕ). All (IsCovered d) results) same
        (check_results-IsCovered results both counts
          (lift-returned (check_results results both) counts s3 s4 compared)).1
