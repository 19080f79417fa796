-- ===== src/Warehouse/History.antt =====
-- The revision history that a transition table stands for: for each logical key the content hashes
-- in the order of their transitions. `observe` is its specification: a value that differs from the
-- last one is appended, an equal one changes nothing.
pub mod Chain
pub mod Observed
use power_market_data_platfo.Base.{
  ℕ, ◌+◌, ◌≡◌, Bool, true, false, List, [], ◌∷◌, ◌++◌, map, Option, none, some, if◌then◌else◌,
  filter, Text, text_eq,
}
use power_market_data_platfo.Warehouse.Tables.{Row, Transition}
use power_market_data_platfo.Warehouse.Plan.{Latest}

-- The content hashes of a key, oldest first.
abbrev pub history : Text → List Transition → List Text
history key ts = map (λ t. t.content_hash) (filter (λ t. text_eq t.logical_key key) ts)

abbrev pub last : List Text → Option Text
last [] = none
last (h ∷ []) = some h
last (h ∷ g ∷ gs) = last (g ∷ gs)

-- One more observation of a key.
abbrev pub observe : List Text → Text → List Text
observe hs h = elim (last hs) [
  | none ↦ hs ++ h ∷ []
  | some g ↦ if text_eq g h then hs else hs ++ h ∷ []
]

-- The observation of a key in a batch.
abbrev pub value_of : Text → List Row → Option Text
value_of key [] = none
value_of key (r ∷ rs) = if text_eq r.logical_key key then some r.content_hash else value_of key rs

abbrev pub observe_row : List Text → Option Text → List Text
observe_row hs none = hs
observe_row hs (some h) = observe hs h

abbrev pub latest_of : Transition → Latest
latest_of t = record { content_hash = t.content_hash; ordinal = t.ordinal }

-- The state of a key after the transitions, from its state before them.
abbrev pub last_from : Text → Option Latest → List Transition → Option Latest
last_from key best [] = best
last_from key best (t ∷ ts) =
    last_from key (if text_eq t.logical_key key then some (latest_of t) else best) ts

-- The first transition of a key has the ordinal 1; each later one counts on from the one before it
-- and has another hash.
abbrev pub Extends : Option Latest → ℕ → Text → Type 0
Extends none ordinal hash = ordinal ≡ 1
Extends (some l) ordinal hash = (ordinal ≡ l.ordinal + 1) × ¬ (hash ≡ l.content_hash)

-- Each transition of a key extends those before it, and lies on the key's market day.
abbrev pub Follows : ℕ → Option Latest → Transition → Type 0
Follows day best t = Extends best t.ordinal t.content_hash × (t.market_date ≡ day)

abbrev pub IsChain : ℕ → Text → Option Latest → List Transition → Type 0
IsChain day key best [] = Unit
IsChain day key best (t ∷ ts) =
    (text_eq t.logical_key key ≡ true → Follows day best t)
    × IsChain day key (if text_eq t.logical_key key then some (latest_of t) else best) ts
