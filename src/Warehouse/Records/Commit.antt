-- ===== src/Warehouse/Records/Commit.antt =====
-- A batch that is planned on a fresh snapshot and merged keeps the invariant of the tables, and its
-- history is observed.
use power_market_data_platfo.Base.{
  ℕ, ◌≡◌, refl, sym, ◌∙◌, ap, subst, ◌≢◌, ◌⊎◌, inl, inr, Bool, true, false, not, List, [], ◌∷◌,
  ◌++◌, none, any, filter, All, All-append, All-map, filter-passing, filter-All, Text, text_eq,
  text_eq_iff, contains, Bool-cases,
}
use power_market_data_platfo.Identity.Json.Injective.{IsBasic}
use power_market_data_platfo.Identity.Digest.{IsCollisionFree}
use power_market_data_platfo.Warehouse.Tables.{Row, Content, Transition, Run, Facts}
use power_market_data_platfo.Warehouse.Plan.{
  Snapshot, transition_id, is_change, plan_contents, plan_transitions, transition_of,
}
use power_market_data_platfo.Warehouse.Identifiers.{transition_id_injective}
use power_market_data_platfo.Warehouse.Snapshot.{latest_from}
use power_market_data_platfo.Warehouse.Scripts.{merge_contents, merge_transitions}
use power_market_data_platfo.Warehouse.History.{history, observe_row, value_of, last_from, IsChain}
use power_market_data_platfo.Warehouse.History.Chain.{
  has_key, planned_chain, planned_chain_other, latest_from-eq-last_from, IsChain-append,
}
use power_market_data_platfo.Warehouse.History.Observed.{history-commit, history-unchanged}
use power_market_data_platfo.Warehouse.Records.{
  Completed, IsTracked, IsSound, IsRecorded, IsBatch, IsFresh, still-IsTracked,
}
use power_market_data_platfo.Warehouse.Records.Contents.{
  IsStored, is_new, merge-DistinctContents, merge-IsStored, planned-IsStored,
  planned-DistinctContents, planned-IsSound, ids_on-IsStored,
}

any-false :
    (id : Text) (ts : List Transition)
    → All (λ t. t.transition_id ≢ id) ts
    → any (λ t. text_eq t.transition_id id) ts ≡ false
any-false id [] h = refl
any-false id (t ∷ ts) h = elim (Bool-cases (text_eq t.transition_id id)) [
  | inl same ↦ absurd (h.0 ((text_eq_iff t.transition_id id).0 same))
  | inr other ↦ rw other (any-false id ts h.1)
]

module _ (sha256 : Text → Text) (free : IsCollisionFree sha256) (market_day : Text → ℕ)
    (runs : List Run) (f : Facts) (h : IsRecorded sha256 market_day runs f) (day : ℕ)
    (snapshot : Snapshot) (fresh : IsFresh day snapshot f) (rows : List Row)
    (batch : IsBatch sha256 market_day day rows) (run_id : Text) (run_basic : IsBasic run_id)
    (pending : ¬ (Completed runs run_id)) where
  -- No stored transition has an identifier of the new run.
  other_runs :
      (key : Text)
      → IsBasic key
      → (ts : List Transition) → All (IsTracked sha256 market_day runs) ts
      → All (λ t. t.transition_id ≢ transition_id sha256 run_id key) ts
  other_runs key basic_key [] k = tt
  other_runs key basic_key (t ∷ ts) k = (
    (λ e. pending (
        subst (Completed runs)
          (transition_id_injective sha256 free t.run_id t.logical_key run_id key
            (k.0.run_basic, k.0.key_basic) (run_basic, basic_key) (sym k.0.named ∙ e)).0
          k.0.committed_by)),
    other_runs key basic_key ts k.1,
  )

  planned-All :
      (P : Transition → Type 0) (rs : List Row)
      → All (λ r. P (transition_of sha256 run_id snapshot r)) rs
      → All P (plan_transitions sha256 run_id snapshot rs)
  unfolding plan_transitions
  planned-All P [] k = tt
  planned-All P (r ∷ rs) k =
      elim (Bool-cases (is_change (snapshot.latest r.logical_key) r.content_hash)) [
        | inl change ↦ rw change (k.0, planned-All P rs k.1)
        | inr same ↦ rw same (planned-All P rs k.1)
      ]

  abbrev is_unseen : Transition → Bool
  is_unseen s = not (any (λ t. text_eq t.transition_id s.transition_id) f.transitions)

  unseen :
      (r : Row)
      → IsSound sha256 market_day r
      → is_unseen (transition_of sha256 run_id snapshot r) ≡ true
  unfolding transition_of
  unseen r s = ap not (
      any-false (transition_id sha256 run_id r.logical_key) f.transitions
        (other_runs r.logical_key s.key_basic f.transitions h.tracked))

  merged_transitions :
      merge_transitions f.transitions (plan_transitions sha256 run_id snapshot rows)
      ≡ f.transitions ++ plan_transitions sha256 run_id snapshot rows
  unfolding merge_transitions
  merged_transitions =
      ap (λ (ts : List Transition). f.transitions ++ ts)
        (filter-passing is_unseen (plan_transitions sha256 run_id snapshot rows)
          (planned-All (λ s. is_unseen s ≡ true) rows (All-map unseen rows batch.sound)))

  dated :
      (key : Text) (rs : List Row)
      → All (IsSound sha256 market_day) rs
      → All (λ r. text_eq r.logical_key key ≡ true → r.market_date ≡ market_day key) rs
  dated key rs k =
      All-map (λ r s e. s.dated ∙ ap market_day ((text_eq_iff r.logical_key key).0 e)) rs k

  -- A key of the batch has the batch's date.
  day_of :
      (key : Text) (rs : List Row)
      → All (IsSound sha256 market_day) rs
      → All (λ r. r.market_date ≡ day) rs
      → any (has_key key) rs ≡ true
      → market_day key ≡ day
  day_of key [] s d e = cc e
  day_of key (r ∷ rs) s d e = elim (Bool-cases (text_eq r.logical_key key)) [
    | inl same ↦ sym (ap market_day ((text_eq_iff r.logical_key key).0 same)) ∙ sym s.0.dated ∙ d.0
    | inr other ↦ day_of key rs s.1 d.1 (rw other at e)
  ]

  latest_is_last :
      (key : Text) → market_day key ≡ day → snapshot.latest key ≡ last_from key none f.transitions
  latest_is_last key e =
      fresh.latest key
      ∙ ap (λ (d : ℕ). latest_from d key none f.transitions) (sym e)
      ∙ latest_from-eq-last_from (market_day key) key none f.transitions (h.chain key)

  chain_after :
      (key : Text)
      → IsChain
          (market_day key)
          key
          none
          (f.transitions ++ plan_transitions sha256 run_id snapshot rows)
  chain_after key =
      IsChain-append (market_day key) key none f.transitions
        (plan_transitions sha256 run_id snapshot rows) (h.chain key)
        (elim (Bool-cases (any (has_key key) rows)) [
          | inl here ↦
              subst
                (λ l. IsChain (market_day key) key l (plan_transitions sha256 run_id snapshot rows))
                (latest_is_last key (day_of key rows batch.sound batch.on_day here))
                (planned_chain sha256 run_id snapshot (market_day key) key rows batch.distinct
                  (dated key rows batch.sound))
          | inr absent ↦
              planned_chain_other sha256 run_id snapshot (market_day key) key
                (last_from key none f.transitions) rows absent
        ])

  -- Every key's history observes its row of the batch, or stays as it was.
  pub history-merge :
      (key : Text)
      → history key (merge_transitions f.transitions (plan_transitions sha256 run_id snapshot rows))
        ≡ observe_row (history key f.transitions) (value_of key rows)
  history-merge key =
      ap (history key) merged_transitions ∙ elim (Bool-cases (any (has_key key) rows)) [
        | inl here ↦
            history-commit sha256 run_id snapshot key f.transitions rows batch.distinct
              (latest_is_last key (day_of key rows batch.sound batch.on_day here))
        | inr absent ↦ history-unchanged sha256 run_id snapshot key f.transitions rows absent
      ]

  module _ (runs' : List Run) (keeps : (id : Text) → Completed runs id → Completed runs' id)
      (done : Completed runs' run_id) where
    newly-IsTracked :
        (r : Row)
        → IsSound sha256 market_day r
        → IsTracked sha256 market_day runs' (transition_of sha256 run_id snapshot r)
    unfolding transition_of
    newly-IsTracked r k = record {
      named = refl;
      run_basic = run_basic;
      key_basic = k.key_basic;
      committed_by = done;
    }

    abbrev contents_after : List Content
    contents_after = merge_contents f.contents (plan_contents run_id snapshot rows)

    newly-IsStored :
        (r : Row)
        → (contains r.content_id snapshot.contents ≡ true)
          ⊎ IsStored r.content_id (plan_contents run_id snapshot rows)
        → IsStored (transition_of sha256 run_id snapshot r).content_id contents_after
    unfolding transition_of
    newly-IsStored r (inl known) =
        merge-IsStored r.content_id f.contents (plan_contents run_id snapshot rows) (
          inl (
            ids_on-IsStored r.content_id day f.contents
              (sym (fresh.contents r.content_id) ∙ known)))
    newly-IsStored r (inr new) =
        merge-IsStored r.content_id f.contents (plan_contents run_id snapshot rows) (inr new)

    -- The tables after the merge satisfy their invariant, under the manifests after the commit.
    pub merge-IsRecorded : IsRecorded sha256 market_day runs' (record {
      contents = contents_after;
      transitions = merge_transitions f.transitions (plan_transitions sha256 run_id snapshot rows);
    })
    unfolding merge_contents
    merge-IsRecorded = record {
      chain = λ key. rw merged_transitions (chain_after key);
      tracked = rw merged_transitions (
          All-append (IsTracked sha256 market_day runs') f.transitions
            (plan_transitions sha256 run_id snapshot rows)
            (All-map (still-IsTracked sha256 market_day runs runs' keeps) f.transitions h.tracked)
            (planned-All (IsTracked sha256 market_day runs') rows
              (All-map newly-IsTracked rows batch.sound)));
      stored = rw merged_transitions (
          All-append (λ t. IsStored t.content_id contents_after) f.transitions
            (plan_transitions sha256 run_id snapshot rows)
            (All-map
              (λ t k.
                merge-IsStored t.content_id f.contents (plan_contents run_id snapshot rows) (inl k))
              f.transitions h.stored)
            (planned-All (λ t. IsStored t.content_id contents_after) rows
              (All-map newly-IsStored rows (planned-IsStored run_id snapshot rows))));
      distinct = merge-DistinctContents f.contents (plan_contents run_id snapshot rows) h.distinct (
          planned-DistinctContents run_id snapshot sha256 free market_day rows batch.distinct
            batch.sound);
      sound =
          All-append (λ s. IsSound sha256 market_day s.row) f.contents
            (filter (is_new f.contents) (plan_contents run_id snapshot rows)) h.sound
            (filter-All (λ s. IsSound sha256 market_day s.row) (is_new f.contents)
              (plan_contents run_id snapshot rows)
              (planned-IsSound run_id snapshot sha256 free market_day rows batch.sound));
    }
