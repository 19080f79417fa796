-- ===== src/Warehouse/Batch/Rows.antt =====
-- What `batch_rows` guarantees: its rows are fit to be committed, sorted and few.
use power_market_data_platfo.Base.{
  any-eq-false, any-All, Pairwise, IsSorted, sort_by-All, sort_by-Pairwise, sort_by-IsSorted,
  length-sort_by, ℕ, ◌≤◌, ◌≡◌, refl, sym, ◌∙◌, ap, subst, true, false, List, [], ◌∷◌, arith, ltb,
  length, any, All, Text, codes, text_eq_iff, contains, ok, raise_if, >>=-eq-ok,
}
use power_market_data_platfo.Errors.{warehouse}
use power_market_data_platfo.Identity.Digest.{IsCollisionFree, digest-IsBasic}
use power_market_data_platfo.Identity.Json.Injective.{IsBasic}
use power_market_data_platfo.Identity.Json.Order.{text_leb_total}
use power_market_data_platfo.Domain.{Observation, logical_key, content_hash, content_fields}
use power_market_data_platfo.Warehouse.Request.{Request, max_batch_rows}
use power_market_data_platfo.Warehouse.Tables.{Row}
use power_market_data_platfo.Warehouse.Batch.{
  row_le, sort_rows, row_of, check_record, rows_from, batch_rows, content_id, values_of,
}
use power_market_data_platfo.Warehouse.History.Chain.{DistinctKeys, has_key}
use power_market_data_platfo.Warehouse.Records.{IsSound, IsBatch}

abbrev Differ : Row → Row → Type 0
Differ r q = has_key r.logical_key q ≡ false

distinct-Pairwise : (rs : List Row) → DistinctKeys rs → Pairwise Differ rs
distinct-Pairwise [] h = tt
distinct-Pairwise (r ∷ rs) h =
    (any-eq-false (has_key r.logical_key) rs h.0, distinct-Pairwise rs h.1)

Pairwise-distinct : (rs : List Row) → Pairwise Differ rs → DistinctKeys rs
Pairwise-distinct [] h = tt
Pairwise-distinct (r ∷ rs) h = (any-All (has_key r.logical_key) rs h.0, Pairwise-distinct rs h.1)

sort_rows-DistinctKeys : (rs : List Row) → DistinctKeys rs → DistinctKeys (sort_rows rs)
sort_rows-DistinctKeys rs h = Pairwise-distinct (sort_rows rs) (
    sort_by-Pairwise row_le Differ
      (λ r q e. ground (
        arith,
        e,
        text_eq_iff q.logical_key r.logical_key,
        text_eq_iff r.logical_key q.logical_key,
      ))
      rs (distinct-Pairwise rs h))

module _ (sha256 : Text → Text) (free : IsCollisionFree sha256) (midnight : ℕ → ℕ)
    (market_day : Text → ℕ) (request : Request) where
  -- A record lies on the date that is requested, as its key says.
  abbrev OnDay : Observation → Type 0
  OnDay r = market_day (logical_key sha256 r) ≡ request.day

  row_fields :
      (r : Observation) (row : Row)
      → row_of sha256 midnight request r ≡ ok row
      → (row.logical_key ≡ logical_key sha256 r)
        × (row.content_id ≡ content_id sha256 row.logical_key row.content_hash)
        × (content_hash sha256 r ≡ ok row.content_hash)
        × (row.market_date ≡ request.day)
  unfolding row_of
  row_fields r row e =
      let (hash, hashed, rest) = >>=-eq-ok (content_hash sha256 r) _ e in
      let (values, valued, same) = >>=-eq-ok (values_of r) _ rest in
      (cc same, cc same, cc (same, hashed), cc same)

  hash-IsBasic : (r : Observation) (h : Text) → content_hash sha256 r ≡ ok h → IsBasic h
  unfolding content_hash
  hash-IsBasic r h e =
      let (fields, _, same) = >>=-eq-ok (content_fields r) _ e in
      subst IsBasic (cc same) (digest-IsBasic sha256 free (codes "observation-content/v1") fields)

  key-IsBasic : (r : Observation) → IsBasic (logical_key sha256 r)
  unfolding logical_key
  key-IsBasic r = digest-IsBasic sha256 free _ _

  row-IsSound :
      (r : Observation) (row : Row)
      → OnDay r
      → row_of sha256 midnight request r ≡ ok row
      → IsSound sha256 market_day row
  row-IsSound r row on e =
      let (key, named, hash, day) = row_fields r row e in
      record {
        named = named;
        key_basic = subst IsBasic (sym key) (key-IsBasic r);
        hash_basic = hash-IsBasic r row.content_hash hash;
        dated = day ∙ sym on ∙ ap market_day (sym key);
      }

  -- The keys of the rows are new, and among `seen` none.
  abbrev NotIn : List Text → List Row → Type 0
  NotIn seen rows = (key : Text) → contains key seen ≡ true → any (has_key key) rows ≡ false

  record IsRows (seen : List Text) (count : ℕ) (rows : List Row) : Type 0 where
    fit : IsBatch sha256 market_day request.day rows
    fresh : NotIn seen rows
    counted : length rows ≡ count

  unseen :
      (seen : List Text) (r : Observation)
      → check_record sha256 midnight request seen r ≡ ok tt
      → contains (logical_key sha256 r) seen ≡ false
  unfolding check_record
  unseen seen r e = ground (arith, e)

  fresh-cons :
      (seen : List Text) (k : Text) (row : Row) (rest : List Row)
      → row.logical_key ≡ k
      → contains k seen ≡ false
      → NotIn (k ∷ seen) rest
      → NotIn seen (row ∷ rest)
  fresh-cons seen k row rest same new not_in key h =
      ground (arith, same, new, h, not_in key, text_eq_iff row.logical_key key)

  rows_from-IsRows :
      (seen : List Text) (rs : List Observation) (rows : List Row)
      → All OnDay rs
      → rows_from sha256 midnight request seen rs ≡ ok rows
      → IsRows seen (length rs) rows
  unfolding rows_from
  rows_from-IsRows seen [] rows on e =
      let no_rows : [] ≡ rows = cc e in
      subst (IsRows seen 0) no_rows (record {
        fit = record { distinct = tt; sound = tt; on_day = tt };
        fresh = λ key h. refl;
        counted = refl;
      })
  rows_from-IsRows seen (r ∷ rs) rows on e =
      let (_, checked, e1) = >>=-eq-ok (check_record sha256 midnight request seen r) _ e in
      let (row, made, e2) = >>=-eq-ok (row_of sha256 midnight request r) _ e1 in
      let (rest, made_rest, same) =
        >>=-eq-ok (rows_from sha256 midnight request (logical_key sha256 r ∷ seen) rs) _ e2 in
      let hyp = rows_from-IsRows (logical_key sha256 r ∷ seen) rs rest on.1 made_rest in
      let (key, _, _, day) = row_fields r row made in
      let made_rows : row ∷ rest ≡ rows = cc same in
      subst (IsRows seen (length (r ∷ rs))) made_rows (record {
        fit = record {
          distinct = (
            hyp.fresh row.logical_key
                (ground (arith, key, text_eq_iff (logical_key sha256 r) row.logical_key)),
            hyp.fit.distinct,
          );
          sound = (row-IsSound r row on.0 made, hyp.fit.sound);
          on_day = (day, hyp.fit.on_day);
        };
        fresh =
            fresh-cons seen (logical_key sha256 r) row rest key (unseen seen r checked) hyp.fresh;
        counted = omega (arith, hyp.counted);
      })

  -- Under a hash without collisions, the rows that batch_rows makes of records whose keys are of
  -- the requested date, if it accepts them, have distinct keys, sound identifiers and the requested
  -- date; there is one for each record, at most 300, in the order of their keys.
  pub batch_rows-IsBatch :
      (records : List Observation) (rows : List Row)
      → All OnDay records
      → batch_rows sha256 midnight request records ≡ ok rows
      → IsBatch sha256 market_day request.day rows
        × IsSorted row_le rows
        × (length rows ≡ length records)
        × (length rows ≤ 300)
  unfolding batch_rows
  batch_rows-IsBatch records rows on e =
      let (_, few, e1) = >>=-eq-ok (raise_if (ltb max_batch_rows (length records)) warehouse) _ e in
      let (unsorted, made, same) = >>=-eq-ok (rows_from sha256 midnight request [] records) _ e1 in
      let h = rows_from-IsRows [] records unsorted on made in
      let same' : sort_rows unsorted ≡ rows = cc same in
      let count : length rows ≡ length records =
        ap length (sym same') ∙ length-sort_by row_le unsorted ∙ h.counted in
      (
        subst (IsBatch sha256 market_day request.day) same' (record {
          distinct = sort_rows-DistinctKeys unsorted h.fit.distinct;
          sound = sort_by-All row_le (IsSound sha256 market_day) unsorted h.fit.sound;
          on_day = sort_by-All row_le (λ r. r.market_date ≡ request.day) unsorted h.fit.on_day;
        }),
        subst (IsSorted row_le) same'
            (sort_by-IsSorted row_le (λ r q. text_leb_total r.logical_key q.logical_key) unsorted),
        count,
        few_rows (length records) few count,
      )
    where
      few_rows :
          (n : ℕ)
          → raise_if (ltb max_batch_rows n) warehouse ≡ ok tt
          → length rows ≡ n
          → length rows ≤ 300
      few_rows n few count = ground (arith, few, count)
