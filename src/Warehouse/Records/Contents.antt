-- ===== src/Warehouse/Records/Contents.antt =====
-- The content table under the merge of a planned batch: no identifier twice, and every row of the
-- batch has its content in the table.
use power_market_data_platfo.Base.{
  ℕ, ◌≡◌, refl, sym, ◌∙◌, ap, ◌⊎◌, inl, inr, Bool, true, false, not, List, [], ◌∷◌, ◌++◌, arith,
  any, filter, any-append, any-filter, filter_passes, none, All, All-map, Text, text_eq,
  text_eq_iff, text_eq_refl, contains, Bool-cases,
}
use power_market_data_platfo.Identity.Digest.{IsCollisionFree}
use power_market_data_platfo.Warehouse.Tables.{Row, Content}
use power_market_data_platfo.Warehouse.Plan.{Snapshot, plan_contents}
use power_market_data_platfo.Warehouse.Identifiers.{content_id_injective}
use power_market_data_platfo.Warehouse.Snapshot.{ids_on}
use power_market_data_platfo.Warehouse.Scripts.{merge_contents}
use power_market_data_platfo.Warehouse.History.Chain.{DistinctKeys, has_key, none_here}
use power_market_data_platfo.Warehouse.Records.{has_content_id, DistinctContents, IsSound}

abbrev pub IsStored : Text → List Content → Type 0
IsStored id cs = any (has_content_id id) cs ≡ true

filter-DistinctContents :
    (p : Content → Bool) (cs : List Content) → DistinctContents cs → DistinctContents (filter p cs)
filter-DistinctContents p [] d = tt
filter-DistinctContents p (s ∷ cs) d = elim (Bool-cases (p s)) [
  | inl e ↦
      rw e (any-filter (has_content_id s.content_id) p cs d.0, filter-DistinctContents p cs d.1)
  | inr e ↦ rw e (filter-DistinctContents p cs d.1)
]

abbrev pub is_new : List Content → Content → Bool
is_new table s = not (any (λ t. text_eq t.content_id s.content_id) table)

-- Rows that are new to a table stay new to its tail, and none has the identifier of its head.
new_to_tail :
    (t : Content) (table cs : List Content)
    → All (λ s. is_new (t ∷ table) s ≡ true) cs
    → All (λ s. is_new table s ≡ true) cs
new_to_tail t table cs h = All-map (λ s k. ground (arith, k)) cs h

new_to_head :
    (t : Content) (table cs : List Content)
    → All (λ s. is_new (t ∷ table) s ≡ true) cs
    → any (has_content_id t.content_id) cs ≡ false
new_to_head t table [] h = refl
new_to_head t table (s ∷ cs) h = ground (
  arith,
  h.0,
  new_to_head t table cs h.1,
  text_eq_iff t.content_id s.content_id,
  text_eq_iff s.content_id t.content_id,
)

append-DistinctContents :
    (table cs : List Content)
    → DistinctContents table
    → DistinctContents cs
    → All (λ s. is_new table s ≡ true) cs
    → DistinctContents (table ++ cs)
append-DistinctContents [] cs d e h = e
append-DistinctContents (t ∷ table) cs d e h = (
  rw (any-append (has_content_id t.content_id) table cs) (rw d.0 (new_to_head t table cs h)),
  append-DistinctContents table cs d.1 e (new_to_tail t table cs h),
)

-- A merge of rows with distinct identifiers keeps identifiers distinct.
pub merge-DistinctContents :
    (table cs : List Content)
    → DistinctContents table
    → DistinctContents cs
    → DistinctContents (merge_contents table cs)
unfolding merge_contents
merge-DistinctContents table cs d e =
    append-DistinctContents table (filter (is_new table) cs) d
      (filter-DistinctContents (is_new table) cs e) (filter_passes (is_new table) cs)

stored_new :
    (id : Text) (table cs : List Content)
    → any (has_content_id id) table ≡ false
    → any (has_content_id id) (filter (is_new table) cs) ≡ any (has_content_id id) cs
stored_new id table [] h = refl
stored_new id table (s ∷ cs) h = elim (Bool-cases (text_eq s.content_id id)) [
  | inl same ↦
      let new : is_new table s ≡ true = ap not (rw (← (text_eq_iff s.content_id id).0 same) at h) in
      rw (new, same)
  | inr other ↦ ground (arith, other, stored_new id table cs h)
]

-- What was stored stays stored, and what is merged in is stored.
pub merge-IsStored :
    (id : Text) (table cs : List Content)
    → IsStored id table ⊎ IsStored id cs
    → IsStored id (merge_contents table cs)
unfolding merge_contents
merge-IsStored id table cs h =
    any-append (has_content_id id) table (filter (is_new table) cs)
    ∙ ground (arith, h, stored_new id table cs)

module _ (run_id : Text) (snapshot : Snapshot) where
  planned-All :
      (P : Content → Type 0) (rows : List Row)
      → All (λ r. P (record { row = r; first_run_id = run_id; first_seen_at = none })) rows
      → All P (plan_contents run_id snapshot rows)
  unfolding plan_contents
  planned-All P [] k = tt
  planned-All P (r ∷ rs) k = elim (Bool-cases (contains r.content_id snapshot.contents)) [
    | inl known ↦ rw known (planned-All P rs k.1)
    | inr new ↦ rw new (k.0, planned-All P rs k.1)
  ]

  IsStored-behind :
      (r q : Row) (rs : List Row)
      → (contains q.content_id snapshot.contents ≡ true)
        ⊎ IsStored q.content_id (plan_contents run_id snapshot rs)
      → (contains q.content_id snapshot.contents ≡ true)
        ⊎ IsStored q.content_id (plan_contents run_id snapshot (r ∷ rs))
  unfolding plan_contents
  IsStored-behind r q rs (inl known) = inl known
  IsStored-behind r q rs (inr stored) = inr (ground (arith, stored))

  IsStored-here :
      (r : Row) (rs : List Row)
      → (contains r.content_id snapshot.contents ≡ true)
        ⊎ IsStored r.content_id (plan_contents run_id snapshot (r ∷ rs))
  unfolding plan_contents
  IsStored-here r rs = elim (Bool-cases (contains r.content_id snapshot.contents)) [
    | inl known ↦ inl known
    | inr new ↦ inr (rw new (ground (arith, text_eq_refl r.content_id)))
  ]

  -- The content of every row is in the snapshot or planned.
  pub planned-IsStored :
      (rows : List Row)
      → All
          (λ r.
            (contains r.content_id snapshot.contents ≡ true)
            ⊎ IsStored r.content_id (plan_contents run_id snapshot rows))
          rows
  planned-IsStored [] = tt
  planned-IsStored (r ∷ rs) =
      (IsStored-here r rs, All-map (λ q k. IsStored-behind r q rs k) rs (planned-IsStored rs))

  module _ (sha256 : Text → Text) (free : IsCollisionFree sha256) (market_day : Text → ℕ) where
    none_planned :
        (r : Row) (rs : List Row)
        → IsSound sha256 market_day r
        → All (IsSound sha256 market_day) rs
        → any (has_key r.logical_key) rs ≡ false
        → any (has_content_id r.content_id) (plan_contents run_id snapshot rs) ≡ false
    unfolding plan_contents
    none_planned r [] h k e = refl
    none_planned r (q ∷ rs) h k e =
        let (other, others) = none_here r.logical_key q rs e in
        let rest = none_planned r rs h k.1 others in
        let differs : text_eq q.content_id r.content_id ≡ false =
          elim (Bool-cases (text_eq q.content_id r.content_id)) [
            | inl same ↦
                let ids : q.content_id ≡ r.content_id =
                  (text_eq_iff q.content_id r.content_id).0 same in
                let keys =
                  content_id_injective sha256 free q.logical_key q.content_hash r.logical_key
                    r.content_hash (k.0.key_basic, k.0.hash_basic) (h.key_basic, h.hash_basic)
                    (sym k.0.named ∙ ids ∙ h.named) in
                cc (other, (text_eq_iff q.logical_key r.logical_key).1 keys.0)
            | inr no_ ↦ no_
          ] in
        ground (arith, rest, differs)

    pub planned-DistinctContents :
        (rows : List Row)
        → DistinctKeys rows
        → All (IsSound sha256 market_day) rows
        → DistinctContents (plan_contents run_id snapshot rows)
    unfolding plan_contents
    planned-DistinctContents [] d h = tt
    planned-DistinctContents (r ∷ rs) d h =
        let rest = planned-DistinctContents rs d.1 h.1 in
        elim (Bool-cases (contains r.content_id snapshot.contents)) [
          | inl known ↦ rw known rest
          | inr new ↦ rw new (none_planned r rs h.0 h.1 d.0, rest)
        ]

    pub planned-IsSound :
        (rows : List Row)
        → All (IsSound sha256 market_day) rows
        → All (λ s. IsSound sha256 market_day s.row) (plan_contents run_id snapshot rows)
    planned-IsSound rows h = planned-All (λ s. IsSound sha256 market_day s.row) rows h

-- What the snapshot of a date shows is stored.
pub ids_on-IsStored :
    (id : Text) (day : ℕ) (cs : List Content) → contains id (ids_on day cs) ≡ true → IsStored id cs
ids_on-IsStored id day [] h = h
ids_on-IsStored id day (s ∷ cs) h = ground (arith, h, ids_on-IsStored id day cs)
