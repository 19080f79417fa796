-- ===== src/Warehouse/Records/Finalize.antt =====
-- A finalization sets only knowledge times: the invariant of the tables, what a snapshot shows and
-- the histories stay.
use power_market_data_platfo.Base.{
  ℕ, ◌≡◌, refl, ap, true, List, [], ◌∷◌, map, Option, none, ◌&&◌, ◌==◌, if◌then◌else◌, any, All,
  Text, text_eq, some, Bool-cases, inl, inr,
}
use power_market_data_platfo.Warehouse.Tables.{Content, Transition, Run, Facts}
use power_market_data_platfo.Warehouse.Plan.{Latest}
use power_market_data_platfo.Warehouse.Snapshot.{ids_on, latest_from, supersedes}
use power_market_data_platfo.Warehouse.Scripts.{FinalizeParameters, see_content, know_transition}
use power_market_data_platfo.Warehouse.History.{history, latest_of, IsChain}
use power_market_data_platfo.Warehouse.Records.{
  Completed, has_content_id, DistinctContents, IsTracked, IsSound, IsRecorded,
}

module _ (p : FinalizeParameters) where
  known-IsChain :
      (day : ℕ) (key : Text) (best : Option Latest) (ts : List Transition)
      → IsChain day key best ts
      → IsChain day key best (map (know_transition p) ts)
  unfolding know_transition
  known-IsChain day key best [] h = tt
  known-IsChain day key best (t ∷ ts) h = (
    h.0,
    known-IsChain day key (if text_eq t.logical_key key then some (latest_of t) else best) ts h.1,
  )

  pub latest_from-known :
      (day : ℕ) (key : Text) (best : Option Latest) (ts : List Transition)
      → latest_from day key best (map (know_transition p) ts) ≡ latest_from day key best ts
  unfolding know_transition
  latest_from-known day key best [] = refl
  latest_from-known day key best (t ∷ ts) =
      latest_from-known day key
        (if (t.market_date == day) && text_eq t.logical_key key && supersedes t.ordinal best
          then some (record { content_hash = t.content_hash; ordinal = t.ordinal })
          else best)
        ts

  pub ids_on-seen :
      (day : ℕ) (cs : List Content) → ids_on day (map (see_content p) cs) ≡ ids_on day cs
  unfolding see_content
  ids_on-seen day [] = refl
  ids_on-seen day (s ∷ cs) = elim (Bool-cases (s.market_date == day)) [
    | inl e ↦ rw e (ap (λ (ids : List Text). s.content_id ∷ ids) (ids_on-seen day cs))
    | inr e ↦ rw e (ids_on-seen day cs)
  ]

  pub history-known :
      (key : Text) (ts : List Transition)
      → history key (map (know_transition p) ts) ≡ history key ts
  unfolding know_transition
  history-known key [] = refl
  history-known key (t ∷ ts) = elim (Bool-cases (text_eq t.logical_key key)) [
    | inl e ↦ rw e (ap (λ (hs : List Text). t.content_hash ∷ hs) (history-known key ts))
    | inr e ↦ rw e (history-known key ts)
  ]

  stored-seen :
      (id : Text) (cs : List Content)
      → any (has_content_id id) (map (see_content p) cs) ≡ any (has_content_id id) cs
  unfolding see_content
  stored-seen id [] = refl
  stored-seen id (s ∷ cs) = rw (stored-seen id cs)

  seen-DistinctContents :
      (cs : List Content) → DistinctContents cs → DistinctContents (map (see_content p) cs)
  unfolding see_content
  seen-DistinctContents [] d = tt
  seen-DistinctContents (s ∷ cs) d =
      (rw (stored-seen s.content_id cs) d.0, seen-DistinctContents cs d.1)

  module _ (sha256 : Text → Text) (market_day : Text → ℕ) (runs runs' : List Run)
      (keeps : (id : Text) → Completed runs id → Completed runs' id) where
    known-IsTracked :
        (ts : List Transition)
        → All (IsTracked sha256 market_day runs) ts
        → All (IsTracked sha256 market_day runs') (map (know_transition p) ts)
    unfolding know_transition
    known-IsTracked [] h = tt
    known-IsTracked (t ∷ ts) h = (
      record {
        named = h.0.named;
        run_basic = h.0.run_basic;
        key_basic = h.0.key_basic;
        committed_by = keeps t.run_id h.0.committed_by;
      },
      known-IsTracked ts h.1,
    )

    known-stored :
        (cs : List Content) (ts : List Transition)
        → All (λ t. any (has_content_id t.content_id) cs ≡ true) ts
        → All
            (λ t. any (has_content_id t.content_id) (map (see_content p) cs) ≡ true)
            (map (know_transition p) ts)
    unfolding know_transition
    known-stored cs [] h = tt
    known-stored cs (t ∷ ts) h = (rw (stored-seen t.content_id cs) h.0, known-stored cs ts h.1)

    seen-IsSound :
        (cs : List Content)
        → All (λ s. IsSound sha256 market_day s.row) cs
        → All (λ s. IsSound sha256 market_day s.row) (map (see_content p) cs)
    unfolding see_content
    seen-IsSound [] h = tt
    seen-IsSound (s ∷ cs) h = (h.0, seen-IsSound cs h.1)

    pub finalize-IsRecorded :
        (f : Facts)
        → IsRecorded sha256 market_day runs f
        → IsRecorded sha256 market_day runs' (record {
          contents = map (see_content p) f.contents;
          transitions = map (know_transition p) f.transitions;
        })
    finalize-IsRecorded f h = record {
      chain = λ key. known-IsChain (market_day key) key none f.transitions (h.chain key);
      tracked = known-IsTracked f.transitions h.tracked;
      stored = known-stored f.contents f.transitions h.stored;
      distinct = seen-DistinctContents f.contents h.distinct;
      sound = seen-IsSound f.contents h.sound;
    }
