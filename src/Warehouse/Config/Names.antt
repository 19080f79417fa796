-- ===== src/Warehouse/Config/Names.antt =====
-- The table names that the scripts quote in backticks.
use power_market_data_platfo.Base.{
  ℕ, ◌≡◌, subst, arith, Bool, true, ◌||◌, not, [], ◌∷◌, ◌++◌, ◌==◌, all, All, All-append, ℤ, Text,
  ok, >>=-eq-ok, >>-raise_if, ok_injective, raise_if, ◌≢◌,
}
use power_market_data_platfo.Errors.{warehouse}
use power_market_data_platfo.Warehouse.Config.{
  WarehouseConfig, warehouse_config, table, is_project, is_project_char, is_dataset, is_word,
  is_lower, is_table_name, is_location, is_allowance,
}

-- The text can stand between backticks.
abbrev pub IsQuotable : Text → Type 0
IsQuotable s = All (λ c. c ≢ 96) s

quotable :
    (p : ℕ → Bool) → ((c : ℕ) → p c ≡ true → c ≢ 96) → (s : Text) → all p s ≡ true → IsQuotable s
quotable p safe [] h = tt
quotable p safe (c ∷ s) h = (safe c (ground (arith, h)), quotable p safe s (ground (arith, h)))

project-IsQuotable : (s : Text) → is_project s ≡ true → IsQuotable s
project-IsQuotable [] h = tt
project-IsQuotable (c ∷ s) h = (
  λ e. absurd (ground (arith, h, e)),
  quotable is_project_char (λ d k e. absurd (ground (arith, k, e))) s (ground (arith, h)),
)

dataset-IsQuotable : (s : Text) → is_dataset s ≡ true → IsQuotable s
dataset-IsQuotable [] h = tt
dataset-IsQuotable (c ∷ s) h = (
  λ e. absurd (ground (arith, h, e)),
  quotable is_word (λ d k e. absurd (ground (arith, k, e))) s (ground (arith, h)),
)

name-IsQuotable : (s : Text) → is_table_name s ≡ true → IsQuotable s
name-IsQuotable [] h = tt
name-IsQuotable (c ∷ s) h =
    quotable (λ d. is_lower d || (d == b'_')) (λ d k e. absurd (ground (arith, k, e))) (c ∷ s) h

pub warehouse_config_lem :
    (project dataset location : Text) (maximum : ℤ) (config : WarehouseConfig)
    → warehouse_config project dataset location maximum ≡ ok config
    → record {
      project = project;
      dataset = dataset;
      location = location;
      maximum_bytes_billed = maximum;
    }
      ≡ config
unfolding warehouse_config
warehouse_config_lem project dataset location maximum config h =
    let (_, h1) = (>>-raise_if (not (is_project project)) warehouse _).0 h in
    let (_, h2) = (>>-raise_if (not (is_dataset dataset)) warehouse _).0 h1 in
    let (_, h3) = (>>-raise_if (not (is_location location)) warehouse _).0 h2 in
    let (_, h4) = (>>-raise_if (not (is_allowance maximum)) warehouse _).0 h3 in ok_injective h4

-- The names of tables that an accepted configuration gives contain no backtick, so that the scripts
-- can quote them.
pub table-IsQuotable :
    (project dataset location : Text) (maximum : ℤ) (config : WarehouseConfig) (name path : Text)
    → warehouse_config project dataset location maximum ≡ ok config
    → table config name ≡ ok path
    → IsQuotable path
unfolding warehouse_config table
table-IsQuotable project dataset location maximum config name path h k =
    let (_, p, h1) = >>=-eq-ok (raise_if (not (is_project project)) warehouse) _ h in
    let (_, d, h2) = >>=-eq-ok (raise_if (not (is_dataset dataset)) warehouse) _ h1 in
    let (_, n, k1) = >>=-eq-ok (raise_if (not (is_table_name name)) warehouse) _ k in
    let made = warehouse_config_lem project dataset location maximum config h in
    let path_of : config.project ++ (b'.' ∷ config.dataset) ++ (b'.' ∷ name) ≡ path = cc k1 in
    let named : IsQuotable (b'.' ∷ name) =
      (λ e. absurd (omega (arith, e)), name-IsQuotable name (ground (arith, n))) in
    let in_dataset : IsQuotable (b'.' ∷ config.dataset) = (
      λ e. absurd (omega (arith, e)),
      subst (λ (c : WarehouseConfig). IsQuotable c.dataset) made
          (dataset-IsQuotable dataset (ground (arith, d))),
    ) in
    let in_project : IsQuotable config.project =
      subst (λ (c : WarehouseConfig). IsQuotable c.project) made
        (project-IsQuotable project (ground (arith, p))) in
    subst IsQuotable path_of (
      All-append (λ c. c ≢ 96) (config.project ++ (b'.' ∷ config.dataset)) (b'.' ∷ name)
        (All-append (λ c. c ≢ 96) config.project (b'.' ∷ config.dataset) in_project in_dataset)
        named)
