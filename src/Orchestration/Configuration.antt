-- ===== src/Orchestration/Configuration.antt =====
-- orchestration/operations.py, `configuration`: the raw warehouse and the dataset of the analytics.
use power_market_data_platfo.Base.{
  ◌≡◌, ◌≢◌, subst, arith, ◌||◌, Option, ℤ, pos, Text, codes, text_eq, text_eq_iff, Result, ok,
  ok_injective, ◌>>=◌, ◌>>◌, raise_if, >>=-eq-ok, >>-raise_if,
}
use power_market_data_platfo.Errors.{Error, warehouse}
use power_market_data_platfo.Warehouse.Config.{
  WarehouseConfig, warehouse_config, table, max_bytes_billed, Environment, variable, maximum_of,
  from_environment,
}
use power_market_data_platfo.Warehouse.Config.Names.{
  IsQuotable, warehouse_config_lem, table-IsQuotable,
}

abbrev pub analytics_of : Environment → Text
analytics_of environ =
    variable environ (codes "BQ_ANALYTICS_DATASET") (codes "power_market_analytics")

-- `configuration`; `read_int` is `int` of a text.
unfoldable pub configuration :
    (Text → Option ℤ) → Environment → Result Error (WarehouseConfig × Text)
configuration read_int environ = do
  raw ← from_environment read_int environ
  valid ← warehouse_config raw.project (analytics_of environ) raw.location (pos max_bytes_billed)
  raise_if
      (text_eq (analytics_of environ) raw.dataset
        || text_eq (analytics_of environ) (codes "power_market_raw"))
      warehouse
  ok (raw, analytics_of environ)

-- The two datasets differ, and the tables of both have names that can be quoted.
pub record IsSeparate (raw : WarehouseConfig) (analytics : Text) : Type 0 where
  pub other_dataset : analytics ≢ raw.dataset
  pub not_raw : analytics ≢ codes "power_market_raw"
  pub raw_tables : (name path : Text) → table raw name ≡ ok path → IsQuotable path
  pub analytics_tables :
      (name path : Text)
      → table (record raw { dataset = analytics }) name ≡ ok path
      → IsQuotable path

-- If configuration accepts the environment, the dataset of the analytics is neither the raw dataset
-- nor power_market_raw, and the names of the tables in both datasets contain no backtick.
pub configuration-IsSeparate :
    (read_int : Text → Option ℤ) (environ : Environment) (raw : WarehouseConfig) (analytics : Text)
    → configuration read_int environ ≡ ok (raw, analytics)
    → IsSeparate raw analytics
unfolding configuration from_environment table
configuration-IsSeparate read_int environ raw analytics h =
    let (r, read, h1) = >>=-eq-ok (from_environment read_int environ) _ h in
    let (c, valid, h2) =
      >>=-eq-ok
        (warehouse_config r.project (analytics_of environ) r.location (pos max_bytes_billed)) _
        h1 in
    let (apart, h3) =
      (>>-raise_if
          (text_eq (analytics_of environ) r.dataset
            || text_eq (analytics_of environ) (codes "power_market_raw"))
          warehouse _).0
        h2 in
    let (_, _, made) = >>=-eq-ok (maximum_of read_int environ) _ read in
    let same = ok_injective h3 in
    subst (λ (p : WarehouseConfig × Text). IsSeparate p.0 p.1) same
      (record {
        other_dataset =
            λ e. absurd (ground (arith, apart, (text_eq_iff (analytics_of environ) r.dataset).1 e));
        not_raw = λ e. absurd (
            ground
              (arith, apart, (text_eq_iff (analytics_of environ) (codes "power_market_raw")).1 e));
        raw_tables = λ name path k. table-IsQuotable _ _ _ _ r name path made k;
        analytics_tables = λ name path k. table-IsQuotable _ _ _ _ c name path valid (
            subst (λ (d : WarehouseConfig). table d name ≡ ok path)
              (warehouse_config_lem r.project (analytics_of environ) r.location
                (pos max_bytes_billed) c valid)
              k);
      })
