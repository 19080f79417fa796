-- ===== src/Warehouse/History/Chain.antt =====
-- Chains of transitions: what a snapshot reads from one, and how a planned batch extends one.
use power_market_data_platfo.Base.{
  ℕ, ◌≡◌, refl, sym, none, ◌∙◌, ap, inl, inr, Bool, true, false, ◌&&◌, List, [], ◌∷◌, ◌++◌, Option,
  some, arith, ◌==◌, if◌then◌else◌, any, All, Text, text_eq, text_eq_iff, Bool-cases,
}
use power_market_data_platfo.Warehouse.Tables.{Row, Transition}
use power_market_data_platfo.Warehouse.Plan.{
  Latest, Snapshot, is_change, next_ordinal, plan_transitions, transition_of,
}
use power_market_data_platfo.Warehouse.Snapshot.{latest_from, supersedes}
use power_market_data_platfo.Warehouse.History.{latest_of, last_from, Extends, Follows, IsChain}

supersedes-Extends :
    (best : Option Latest) (ordinal : ℕ) (hash : Text)
    → Extends best ordinal hash
    → supersedes ordinal best ≡ true
supersedes-Extends none ordinal hash h = refl
supersedes-Extends (some l) ordinal hash h = ground (arith, h.0)

change-Extends :
    (best : Option Latest) (hash : Text)
    → is_change best hash ≡ true
    → Extends best (next_ordinal best) hash
change-Extends none hash h = refl
change-Extends (some l) hash h =
    (refl, λ same. ground (arith, h, sym same, text_eq_iff l.content_hash hash))

best_step :
    (day : ℕ) (key : Text) (best : Option Latest) (t : Transition)
    → (text_eq t.logical_key key ≡ true → Follows day best t)
    → (if (t.market_date == day) && text_eq t.logical_key key && supersedes t.ordinal best
        then some (record { content_hash = t.content_hash; ordinal = t.ordinal })
        else best)
      ≡ (if text_eq t.logical_key key then some (latest_of t) else best)
best_step day key best t h = elim (Bool-cases (text_eq t.logical_key key)) [
  | inl same ↦
      ground (arith, (h same).1, supersedes-Extends best t.ordinal t.content_hash (h same).0, same)
  | inr other ↦ ground (arith, other)
]

-- In a chain the row of highest ordinal is the last one.
pub latest_from-eq-last_from :
    (day : ℕ) (key : Text) (best : Option Latest) (ts : List Transition)
    → IsChain day key best ts
    → latest_from day key best ts ≡ last_from key best ts
latest_from-eq-last_from day key best [] h = refl
latest_from-eq-last_from day key best (t ∷ ts) h =
    ap (λ (b : Option Latest). latest_from day key b ts) (best_step day key best t h.0)
    ∙ latest_from-eq-last_from day key
        (if text_eq t.logical_key key then some (latest_of t) else best) ts h.1

pub IsChain-append :
    (day : ℕ) (key : Text) (best : Option Latest) (ts us : List Transition)
    → IsChain day key best ts
    → IsChain day key (last_from key best ts) us
    → IsChain day key best (ts ++ us)
IsChain-append day key best [] us h k = k
IsChain-append day key best (t ∷ ts) us h k = (
  h.0,
  IsChain-append day key (if text_eq t.logical_key key then some (latest_of t) else best) ts us h.1
      k,
)

-- No row after the first has the key.
abbrev pub DistinctKeys : List Row → Type 0
DistinctKeys [] = Unit
DistinctKeys (r ∷ rs) =
    (any (λ q. text_eq q.logical_key r.logical_key) rs ≡ false) × DistinctKeys rs

abbrev pub has_key : Text → Row → Bool
has_key key q = text_eq q.logical_key key

pub none_here :
    (key : Text) (r : Row) (rs : List Row)
    → any (has_key key) (r ∷ rs) ≡ false
    → (text_eq r.logical_key key ≡ false) × (any (has_key key) rs ≡ false)
none_here key r rs h = ground arith

module _ (sha256 : Text → Text) (run_id : Text) (snapshot : Snapshot) where
  -- A transition of another key, put before a chain.
  skip :
      (day : ℕ) (key : Text) (best : Option Latest) (r : Row) (ts : List Transition)
      → text_eq r.logical_key key ≡ false
      → IsChain day key best ts
      → IsChain day key best (transition_of sha256 run_id snapshot r ∷ ts)
  unfolding transition_of
  skip day key best r ts other h = ((λ e. cc (e, other)), rw other h)

  -- Rows of other keys plan no transition of the key.
  pub planned_chain_other :
      (day : ℕ) (key : Text) (best : Option Latest) (rows : List Row)
      → any (has_key key) rows ≡ false
      → IsChain day key best (plan_transitions sha256 run_id snapshot rows)
  unfolding plan_transitions
  planned_chain_other day key best [] h = tt
  planned_chain_other day key best (r ∷ rs) h =
      let (other, others) = none_here key r rs h in
      let rest = planned_chain_other day key best rs others in
      elim (Bool-cases (is_change (snapshot.latest r.logical_key) r.content_hash)) [
        | inl change ↦
            rw change (skip day key best r (plan_transitions sha256 run_id snapshot rs) other rest)
        | inr same ↦ rw same rest
      ]

  start :
      (day : ℕ) (key : Text) (r : Row) (ts : List Transition)
      → r.logical_key ≡ key
      → is_change (snapshot.latest r.logical_key) r.content_hash ≡ true
      → r.market_date ≡ day
      → ((best : Option Latest) → IsChain day key best ts)
      → IsChain day key (snapshot.latest key) (transition_of sha256 run_id snapshot r ∷ ts)
  unfolding transition_of
  start day key r ts e change m h = (
    (λ _. rw (← e) (change-Extends (snapshot.latest r.logical_key) r.content_hash change, m)),
    h _,
  )

  -- What a batch plans for a key follows the key's state in the snapshot.
  pub planned_chain :
      (day : ℕ) (key : Text) (rows : List Row)
      → DistinctKeys rows
      → All (λ r. text_eq r.logical_key key ≡ true → r.market_date ≡ day) rows
      → IsChain day key (snapshot.latest key) (plan_transitions sha256 run_id snapshot rows)
  unfolding plan_transitions
  planned_chain day key [] d m = tt
  planned_chain day key (r ∷ rs) d m =
      let rest = planned_chain day key rs d.1 m.1 in
      let ts = plan_transitions sha256 run_id snapshot rs in
      elim (Bool-cases (is_change (snapshot.latest r.logical_key) r.content_hash)) [
        | inl change ↦ rw change (elim (Bool-cases (text_eq r.logical_key key)) [
          | inl same ↦
              let e : r.logical_key ≡ key = (text_eq_iff r.logical_key key).0 same in
              start day key r ts e change (m.0 same)
                (λ best. planned_chain_other day key best rs (rw e at d.0))
          | inr other ↦ skip day key (snapshot.latest key) r ts other rest
        ])
        | inr same ↦ rw same rest
      ]
