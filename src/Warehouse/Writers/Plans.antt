-- ===== src/Warehouse/Writers/Plans.antt =====
-- What `plan_write` returns.
use power_market_data_platfo.Base.{◌≡◌, true, List, [], ◌∷◌, arith, all, Text, ok}
use power_market_data_platfo.Identity.Json.Injective.{IsBasic}
use power_market_data_platfo.Warehouse.Request.{is_run_id, is_lower_hex, validate_run_id}
use power_market_data_platfo.Warehouse.Tables.{Row}
use power_market_data_platfo.Warehouse.Plan.{
  Snapshot, WritePlan, plan_write, plan_contents, plan_transitions,
}

hex-IsBasic : (s : Text) → all is_lower_hex s ≡ true → IsBasic s
hex-IsBasic [] h = tt
hex-IsBasic (c ∷ s) h = (ground arith, hex-IsBasic s (ground arith))

module _ (sha256 : Text → Text) (run_id : Text) (rows : List Row) (snapshot : Snapshot)
    (plan : WritePlan) (planned : plan_write sha256 run_id rows snapshot ≡ ok plan) where
  run_id_valid : is_run_id run_id ≡ true
  unfolding plan_write validate_run_id
  run_id_valid = ground (arith, planned)

  pub run_id-IsBasic : IsBasic run_id
  run_id-IsBasic = hex-IsBasic run_id (ground (arith, run_id_valid))

  pub plan_fields :
      (plan.contents ≡ plan_contents run_id snapshot rows)
      × (plan.transitions ≡ plan_transitions sha256 run_id snapshot rows)
      × (plan.expected_sequence ≡ snapshot.sequence)
  unfolding plan_write validate_run_id
  plan_fields = ground (arith, planned)
