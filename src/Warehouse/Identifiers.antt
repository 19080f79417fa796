-- ===== src/Warehouse/Identifiers.antt =====
-- The identifiers of the warehouse determine what they are made from.
use power_market_data_platfo.Base.{◌≡◌, refl, Text, codes, [], ◌∷◌, Dict}
use power_market_data_platfo.Identity.Json.{sort_keys}
use power_market_data_platfo.Identity.Json.Injective.{IsBasic, IsBasicDict, basic}
use power_market_data_platfo.Identity.Digest.{IsCollisionFree, payload, digest_injective}
use power_market_data_platfo.Warehouse.Request.{key_schema, content_schema}
use power_market_data_platfo.Warehouse.Batch.{content_id}
use power_market_data_platfo.Warehouse.Plan.{transition_id}

abbrev run_fields : Text → Text → Dict Text
run_fields r k = (codes "run_id", r) ∷ (codes "key", k) ∷ []

run_fields-IsBasicDict :
    (r k : Text)
    → IsBasic r
    → IsBasic k
    → IsBasicDict (payload (codes "state-transition/v1") (run_fields r k))
run_fields-IsBasicDict r k hr hk = (
  (basic (codes "schema") refl, basic (codes "state-transition/v1") refl),
  ((basic (codes "run_id") refl, hr), ((basic (codes "key") refl, hk), tt)),
)

abbrev content_id_fields : Text → Text → Dict Text
content_id_fields k h =
    (codes "logical_key", k)
    ∷ (codes "content_hash", h)
    ∷ (codes "logical_key_schema", key_schema)
    ∷ (codes "content_hash_schema", content_schema)
    ∷ []

content_id_fields-IsBasicDict :
    (k h : Text)
    → IsBasic k
    → IsBasic h
    → IsBasicDict (payload (codes "warehouse-content/v1") (content_id_fields k h))
content_id_fields-IsBasicDict k h hk hh = (
  (basic (codes "schema") refl, basic (codes "warehouse-content/v1") refl),
  (
    (basic (codes "logical_key") refl, hk),
    (
      (basic (codes "content_hash") refl, hh),
      (
        (basic (codes "logical_key_schema") refl, basic key_schema refl),
        ((basic (codes "content_hash_schema") refl, basic content_schema refl), tt),
      ),
    ),
  ),
)

module _ (sha256 : Text → Text) (free : IsCollisionFree sha256) where
  -- Under a hash without collisions, the identifier of a transition determines its run and its key,
  -- if these are texts in the basic plane.
  pub transition_id_injective :
      (r k r' k' : Text)
      → IsBasic r × IsBasic k
      → IsBasic r' × IsBasic k'
      → transition_id sha256 r k ≡ transition_id sha256 r' k'
      → (r ≡ r') × (k ≡ k')
  unfolding transition_id sort_keys
  transition_id_injective r k r' k' h h' p =
      let fields =
        digest_injective sha256 free (codes "state-transition/v1") (codes "state-transition/v1")
          (run_fields r k) (run_fields r' k') (run_fields-IsBasicDict r k h.0 h.1)
          (run_fields-IsBasicDict r' k' h'.0 h'.1) p in
      (cc fields, cc fields)

  -- Under a hash without collisions, the identifier of a content determines its key and its content
  -- hash, if these are texts in the basic plane.
  pub content_id_injective :
      (k h k' h' : Text)
      → IsBasic k × IsBasic h
      → IsBasic k' × IsBasic h'
      → content_id sha256 k h ≡ content_id sha256 k' h'
      → (k ≡ k') × (h ≡ h')
  unfolding content_id sort_keys
  content_id_injective k h k' h' b b' p =
      let fields =
        digest_injective sha256 free (codes "warehouse-content/v1") (codes "warehouse-content/v1")
          (content_id_fields k h) (content_id_fields k' h')
          (content_id_fields-IsBasicDict k h b.0 b.1)
          (content_id_fields-IsBasicDict k' h' b'.0 b'.1) p in
      (cc fields, cc fields)
