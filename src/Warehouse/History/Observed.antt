-- ===== src/Warehouse/History/Observed.antt =====
-- A planned batch appends to the history of a key what `observe` appends.
use power_market_data_platfo.Base.{
  ◌≡◌, refl, sym, ◌∙◌, ap, inl, inr, true, false, List, [], ◌∷◌, ◌++◌, Option, none, some, arith,
  if◌then◌else◌, any, Text, text_eq, text_eq_iff, Bool-cases, append-nil,
}
use power_market_data_platfo.Warehouse.Tables.{Row, Transition}
use power_market_data_platfo.Warehouse.Plan.{
  Latest, Snapshot, is_change, plan_transitions, transition_of,
}
use power_market_data_platfo.Warehouse.History.{
  history, last, observe_row, value_of, latest_of, last_from,
}
use power_market_data_platfo.Warehouse.History.Chain.{DistinctKeys, has_key, none_here}

pub history-append :
    (key : Text) (ts us : List Transition)
    → history key (ts ++ us) ≡ history key ts ++ history key us
history-append key [] us = refl
history-append key (t ∷ ts) us = elim (Bool-cases (text_eq t.logical_key key)) [
  | inl same ↦ rw same (ap (λ (hs : List Text). t.content_hash ∷ hs) (history-append key ts us))
  | inr other ↦ rw other (history-append key ts us)
]

abbrev pub hash_of : Option Latest → Option Text
hash_of none = none
hash_of (some l) = some l.content_hash

abbrev pub last_or : Option Text → List Text → Option Text
last_or o [] = o
last_or o (h ∷ hs) = last (h ∷ hs)

last_or-cons :
    (o : Option Text) (h : Text) (hs : List Text) → last_or o (h ∷ hs) ≡ last_or (some h) hs
last_or-cons o h [] = refl
last_or-cons o h (g ∷ gs) = refl

-- The state of a key holds the last hash of its history.
pub hash_of-last_from :
    (key : Text) (best : Option Latest) (ts : List Transition)
    → hash_of (last_from key best ts) ≡ last_or (hash_of best) (history key ts)
hash_of-last_from key best [] = refl
hash_of-last_from key best (t ∷ ts) = elim (Bool-cases (text_eq t.logical_key key)) [
  | inl same ↦ rw same (
      hash_of-last_from key (some (latest_of t)) ts
      ∙ sym (last_or-cons (hash_of best) t.content_hash (history key ts)))
  | inr other ↦ rw other (hash_of-last_from key best ts)
]

value_of-none :
    (key : Text) (rows : List Row) → any (has_key key) rows ≡ false → value_of key rows ≡ none
value_of-none key [] h = refl
value_of-none key (r ∷ rs) h =
    let (other, others) = none_here key r rs h in rw other (value_of-none key rs others)

last_or-none : (hs : List Text) → last_or none hs ≡ last hs
last_or-none [] = refl
last_or-none (h ∷ hs) = refl

-- The hashes that a change of the key adds.
abbrev added : Option Latest → Option Text → List Text
added l none = []
added l (some h) = if is_change l h then h ∷ [] else []

module _ (sha256 : Text → Text) (run_id : Text) (snapshot : Snapshot) where
  history_other :
      (key : Text) (r : Row) (ts : List Transition)
      → text_eq r.logical_key key ≡ false
      → history key (transition_of sha256 run_id snapshot r ∷ ts) ≡ history key ts
  unfolding transition_of
  history_other key r ts other = rw other refl

  history_same :
      (key : Text) (r : Row) (ts : List Transition)
      → text_eq r.logical_key key ≡ true
      → history key (transition_of sha256 run_id snapshot r ∷ ts) ≡ r.content_hash ∷ history key ts
  unfolding transition_of
  history_same key r ts same = rw same refl

  history-planned_none :
      (key : Text) (rows : List Row)
      → any (has_key key) rows ≡ false
      → history key (plan_transitions sha256 run_id snapshot rows) ≡ []
  unfolding plan_transitions
  history-planned_none key [] h = refl
  history-planned_none key (r ∷ rs) h =
      let (other, others) = none_here key r rs h in
      let rest = history-planned_none key rs others in
      elim (Bool-cases (is_change (snapshot.latest r.logical_key) r.content_hash)) [
        | inl change ↦
            rw change
              (history_other key r (plan_transitions sha256 run_id snapshot rs) other ∙ rest)
        | inr same ↦ rw same rest
      ]

  added_change :
      (key : Text) (r : Row)
      → is_change (snapshot.latest key) r.content_hash ≡ true
      → added (snapshot.latest key) (some r.content_hash) ≡ r.content_hash ∷ []
  added_change key r h = rw h refl

  added_kept :
      (key : Text) (r : Row)
      → is_change (snapshot.latest key) r.content_hash ≡ false
      → added (snapshot.latest key) (some r.content_hash) ≡ []
  added_kept key r h = rw h refl

  value_same :
      (key : Text) (r : Row) (rs : List Row)
      → text_eq r.logical_key key ≡ true
      → value_of key (r ∷ rs) ≡ some r.content_hash
  value_same key r rs same = rw same refl

  value_skip :
      (key : Text) (r : Row) (rs : List Row)
      → text_eq r.logical_key key ≡ false
      → added (snapshot.latest key) (value_of key rs)
        ≡ added (snapshot.latest key) (value_of key (r ∷ rs))
  value_skip key r rs other = rw other refl

  history-planned :
      (key : Text) (rows : List Row)
      → DistinctKeys rows
      → history key (plan_transitions sha256 run_id snapshot rows)
        ≡ added (snapshot.latest key) (value_of key rows)
  unfolding plan_transitions
  history-planned key [] d = refl
  history-planned key (r ∷ rs) d =
      let ts = plan_transitions sha256 run_id snapshot rs in
      elim (Bool-cases (text_eq r.logical_key key)) [
        | inl same ↦
            let e : r.logical_key ≡ key = (text_eq_iff r.logical_key key).0 same in
            let none_left : history key ts ≡ [] = history-planned_none key rs (rw e at d.0) in
            elim (Bool-cases (is_change (snapshot.latest r.logical_key) r.content_hash)) [
              | inl change ↦ rw change (
                  history_same key r ts same
                  ∙ ap (λ (hs : List Text). r.content_hash ∷ hs) none_left
                  ∙ sym (added_change key r (rw e at change))
                  ∙ ap (added (snapshot.latest key)) (sym (value_same key r rs same)))
              | inr kept ↦ rw kept (
                  none_left
                  ∙ sym (added_kept key r (rw e at kept))
                  ∙ ap (added (snapshot.latest key)) (sym (value_same key r rs same)))
            ]
        | inr other ↦
            let rest = history-planned key rs d.1 in
            elim (Bool-cases (is_change (snapshot.latest r.logical_key) r.content_hash)) [
              | inl change ↦
                  rw change (history_other key r ts other ∙ rest ∙ value_skip key r rs other)
              | inr kept ↦ rw kept (rest ∙ value_skip key r rs other)
            ]
      ]

added-eq-observe :
    (l : Option Latest) (v : Option Text) (hs : List Text)
    → hash_of l ≡ last hs
    → hs ++ added l v ≡ observe_row hs v
added-eq-observe l none hs e = append-nil hs
added-eq-observe none (some h) hs e = ground (arith, e)
added-eq-observe (some l) (some h) hs e = ground (arith, e, append-nil hs)

-- Transitions planned against the state that a chain ends in observe every row of the batch.
pub history-commit :
    (sha256 : Text → Text) (run_id : Text) (snapshot : Snapshot) (key : Text) (ts : List Transition)
    (rows : List Row)
    → DistinctKeys rows
    → snapshot.latest key ≡ last_from key none ts
    → history key (ts ++ plan_transitions sha256 run_id snapshot rows)
      ≡ observe_row (history key ts) (value_of key rows)
history-commit sha256 run_id snapshot key ts rows d e =
    history-append key ts (plan_transitions sha256 run_id snapshot rows)
    ∙ ap (λ (hs : List Text). history key ts ++ hs)
        (history-planned sha256 run_id snapshot key rows d)
    ∙ added-eq-observe (snapshot.latest key) (value_of key rows) (history key ts)
        (rw e (hash_of-last_from key none ts ∙ last_or-none (history key ts)))

-- A batch without the key leaves its history.
pub history-unchanged :
    (sha256 : Text → Text) (run_id : Text) (snapshot : Snapshot) (key : Text) (ts : List Transition)
    (rows : List Row)
    → any (has_key key) rows ≡ false
    → history key (ts ++ plan_transitions sha256 run_id snapshot rows)
      ≡ observe_row (history key ts) (value_of key rows)
history-unchanged sha256 run_id snapshot key ts rows h =
    history-append key ts (plan_transitions sha256 run_id snapshot rows)
    ∙ ap (λ (hs : List Text). history key ts ++ hs)
        (history-planned_none sha256 run_id snapshot key rows h)
    ∙ append-nil (history key ts)
    ∙ ap (observe_row (history key ts)) (sym (value_of-none key rows h))
