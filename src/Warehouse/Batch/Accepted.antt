-- ===== src/Warehouse/Batch/Accepted.antt =====
-- When `batch_rows` accepts a list of observations.
use power_market_data_platfo.Base.{
  ℕ, ◌+◌, ◌≤◌, ◌≡◌, refl, false, List, [], ◌∷◌, arith, ltb, length, All, All-map2, Pairwise, Text,
  text_eq, contains, ok, raise_if, Succeeds, >>=-Succeeds,
}
use power_market_data_platfo.Errors.{warehouse}
use power_market_data_platfo.Domain.{
  Observation, logical_key, content_hash, interval_start, interval_end,
}
use power_market_data_platfo.Warehouse.Request.{Request, max_batch_rows}
use power_market_data_platfo.Warehouse.Batch.{
  other_product, other_hub, values_of, check_record, row_of, rows_from, batch_rows,
}

module _ (sha256 : Text → Text) (midnight : ℕ → ℕ) (request : Request) where
  -- The observation is of the request, and BigQuery can store it.
  pub record IsOf (r : Observation) : Type 0 where
    pub product : other_product r request.product ≡ false
    pub hub : other_hub r request.location ≡ false
    pub from_start : midnight request.day ≤ interval_start r
    pub before_end : interval_start r + 1 ≤ midnight (request.day + 1)
    pub ends : interval_end r ≤ midnight (request.day + 1)
    pub storable : Succeeds (values_of r)
    pub hashed : Succeeds (content_hash sha256 r)

  accepted :
      (seen : List Text) (r : Observation)
      → IsOf r
      → contains (logical_key sha256 r) seen ≡ false
      → check_record sha256 midnight request seen r ≡ ok tt
  unfolding check_record
  accepted seen r h new = ground (arith, h.product, h.hub, h.from_start, h.before_end, h.ends, new)

  row_of-Succeeds : (r : Observation) → IsOf r → Succeeds (row_of sha256 midnight request r)
  unfolding row_of
  row_of-Succeeds r h =
      >>=-Succeeds (content_hash sha256 r) _ h.hashed
        λ hash _. >>=-Succeeds (values_of r) _ h.storable λ values _. (_, refl)

  abbrev Differ : Observation → Observation → Type 0
  Differ r q = text_eq (logical_key sha256 r) (logical_key sha256 q) ≡ false

  still_new :
      (k : Text) (seen : List Text) (q : Observation)
      → text_eq k (logical_key sha256 q) ≡ false
      → contains (logical_key sha256 q) seen ≡ false
      → contains (logical_key sha256 q) (k ∷ seen) ≡ false
  still_new k seen q differ new = rw differ new

  rows_from-Succeeds :
      (seen : List Text) (rs : List Observation)
      → All IsOf rs
      → Pairwise Differ rs
      → All (λ r. contains (logical_key sha256 r) seen ≡ false) rs
      → Succeeds (rows_from sha256 midnight request seen rs)
  unfolding rows_from
  rows_from-Succeeds seen [] fit distinct new = ([], refl)
  rows_from-Succeeds seen (r ∷ rs) fit distinct new = rw (accepted seen r fit.0 new.0) (
      >>=-Succeeds (row_of sha256 midnight request r) _ (row_of-Succeeds r fit.0) λ row _.
        >>=-Succeeds (rows_from sha256 midnight request (logical_key sha256 r ∷ seen) rs) _
          (rows_from-Succeeds (logical_key sha256 r ∷ seen) rs fit.1 distinct.1
            (All-map2 (still_new (logical_key sha256 r) seen) rs distinct.0 new.1))
          λ rest _. (_, refl))

  none_seen : (rs : List Observation) → All (λ r. contains (logical_key sha256 r) [] ≡ false) rs
  none_seen [] = tt
  none_seen (r ∷ rs) = (refl, none_seen rs)

  -- At most 300 observations of the request with distinct keys make a batch.
  pub batch_rows-Succeeds :
      (rs : List Observation)
      → All IsOf rs
      → Pairwise Differ rs
      → length rs ≤ 300
      → Succeeds (batch_rows sha256 midnight request rs)
  unfolding batch_rows
  batch_rows-Succeeds rs fit distinct few =
      >>=-Succeeds (raise_if (ltb max_batch_rows (length rs)) warehouse) _ (tt, ground (arith, few))
        λ _ _.
          >>=-Succeeds (rows_from sha256 midnight request [] rs) _
            (rows_from-Succeeds [] rs fit distinct (none_seen rs)) λ rows _. (_, refl)
