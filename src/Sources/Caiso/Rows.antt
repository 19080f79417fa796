-- ===== src/Sources/Caiso/Rows.antt =====
-- sources/caiso.py: what normalization makes of the rows of prices.
use power_market_data_platfo.Base.{
  ℕ, ◌≡◌, refl, sym, ◌∙◌, ap, subst, ◌⊎◌, inl, inr, Bool, true, Bool-cases, not, ◌||◌, List, [],
  ◌∷◌, arith, length, All, All-map, sort_by, insert_by, Text, codes, contains, Dict, Result, ok,
  raise_if, >>=-eq-ok,
}
use power_market_data_platfo.Errors.{Error, validation}
use power_market_data_platfo.Identity.Decimal.{Decimal, is_finite}
use power_market_data_platfo.Domain.{
  trading_hubs, Provenance, LmpObservation, lmp_observation, interval, require_finite,
}
use power_market_data_platfo.Sources.Frame.{
  Value, null, other, huge, flag, number, text, moment, Frame, source_rows, field,
}
use power_market_data_platfo.Sources.Caiso.{
  keyed_records, times, number_of, hub_of, is_text, utc_datetime, lmp_record, normalize_lmp,
  lmp_columns, lmp_le, lmp_key,
}
use power_market_data_platfo.Sources.Caiso.Day.{
  lmp_record-IsHourly, lmp_le_total, IsPriceBefore, lmp_le-IsPriceBefore,
}
use power_market_data_platfo.Sources.Caiso.Records.{sort_by-AreSorted}
use power_market_data_platfo.Domain.Intervals.{IsHourly}
use power_market_data_platfo.Domain.Instants.{interval_utc}
use power_market_data_platfo.Sources.Caiso.Instants.{IsMoment, times-IsMoment}

-- The list has the item.
abbrev pub Has : {A : Type 0} → A → List A → Type 0
Has a [] = ⊥
Has a (x ∷ xs) = (a ≡ x) ⊎ Has a xs

insert_by-Has :
    {A : Type 0} (le : A → A → Bool) (a x : A) (ys : List A)
    → Has a (x ∷ ys)
    → Has a (insert_by le x ys)
insert_by-Has le a x [] h = h
insert_by-Has le a x (y ∷ ys) h = elim (Bool-cases (le x y)) [
  | inl e ↦ rw e h
  | inr e ↦ rw e (elim h [
    | inl here ↦ inr (insert_by-Has le a x ys (inl here))
    | inr later ↦ elim later [
      | inl here ↦ inl here
      | inr further ↦ inr (insert_by-Has le a x ys (inr further))
    ]
  ])
]

sort_by-Has :
    {A : Type 0} (le : A → A → Bool) (a : A) (xs : List A) → Has a xs → Has a (sort_by le xs)
unfolding sort_by
sort_by-Has le a [] h = h
sort_by-Has le a (x ∷ xs) h =
    insert_by-Has le a x (sort_by le xs)
      (elim h [ inl here ↦ inl here | inr later ↦ inr (sort_by-Has le a xs later) ])

number-eq : (v : Value) (d : Decimal) → number_of v ≡ ok d → v ≡ number d
unfolding number_of
number-eq (number x) d h =
    let (_, _, same) = >>=-eq-ok (raise_if (not (is_finite x)) validation) _ h in cc same
number-eq null d h = cc h
number-eq other d h = cc h
number-eq huge d h = cc h
number-eq (flag b) d h = cc h
number-eq (text s) d h = cc h
number-eq (moment t n) d h = cc h

hub-eq : (v : Value) (s : Text) → hub_of v ≡ ok s → v ≡ text s
hub-eq (text x) s h = elim (Bool-cases (contains x trading_hubs)) [
  | inl e ↦ cc (rw e at h)
  | inr e ↦ cc (rw e at h)
]
hub-eq (number x) s h = cc h
hub-eq null s h = cc h
hub-eq other s h = cc h
hub-eq huge s h = cc h
hub-eq (flag b) s h = cc h
hub-eq (moment t n) s h = cc h

-- The hub, the interval and the numbers of the price are those of the row's cells.
pub record IsPriceOf (row : Dict Value) (r : LmpObservation) : Type 0 where
  pub market : is_text (field row (codes "Market")) (codes "DAY_AHEAD_HOURLY") ≡ true
  pub start : IsMoment (field row (codes "Interval Start")) r.interval_start_utc
  pub end : IsMoment (field row (codes "Interval End")) r.interval_end_utc
  pub location : field row (codes "Location") ≡ text r.location
  pub lmp : field row (codes "LMP") ≡ number r.lmp
  pub energy : field row (codes "Energy") ≡ number r.energy
  pub congestion : field row (codes "Congestion") ≡ number r.congestion
  pub loss : field row (codes "Loss") ≡ number r.loss

-- The fields that the constructor stores.
abbrev Stores : ℕ × ℕ → Text → Decimal → Decimal → Decimal → Decimal → LmpObservation → Type 0
Stores se location lmp energy congestion loss r =
    (r.interval_start_utc ≡ se.0)
    × (r.interval_end_utc ≡ se.1)
    × (r.location ≡ location)
    × (r.lmp ≡ lmp)
    × (r.energy ≡ energy)
    × (r.congestion ≡ congestion)
    × (r.loss ≡ loss)

lmp_observation-Stores :
    (location : Text) (start end : ℕ) (lmp energy congestion loss : Decimal) (p : Provenance)
    (r : LmpObservation)
    → lmp_observation location (utc_datetime start) (utc_datetime end) lmp energy congestion loss p
      ≡ ok r
    → Stores (start, end) location lmp energy congestion loss r
unfolding lmp_observation
lmp_observation-Stores location start end lmp energy congestion loss p r h =
    let (_, _, h1) = >>=-eq-ok (raise_if (not (contains location trading_hubs)) validation) _ h in
    let (se, made, h2) = >>=-eq-ok (interval (utc_datetime start) (utc_datetime end) 60) _ h1 in
    let (first, second) = interval_utc start end 60 se made in
    let (_, _, h3) = >>=-eq-ok (require_finite lmp) _ h2 in
    let (_, _, h4) = >>=-eq-ok (require_finite energy) _ h3 in
    let (_, _, h5) = >>=-eq-ok (require_finite congestion) _ h4 in
    let (_, _, same) = >>=-eq-ok (require_finite loss) _ h5 in
    subst (Stores (start, end) location lmp energy congestion loss) (stored same)
      (first, second, refl, refl, refl, refl, refl)
  where
    stored : {a b : LmpObservation} → ◌≡◌ {A = Result Error LmpObservation} (ok a) (ok b) → a ≡ b
    stored e = cc e

lmp_record-IsPriceOf :
    (p : Provenance) (row : Dict Value) (r : LmpObservation)
    → lmp_record p row ≡ ok r
    → IsPriceOf row r
unfolding lmp_record
lmp_record-IsPriceOf p row r h =
    let (se, timed, h1) = >>=-eq-ok (times row) _ h in
    let (starts, ends) = times-IsMoment row se timed in
    let (location, hub, h2) = >>=-eq-ok (hub_of (field row (codes "Location"))) _ h1 in
    let (_, kind, h3) =
      >>=-eq-ok
        (raise_if
          (not (is_text (field row (codes "Market")) (codes "DAY_AHEAD_HOURLY"))
            || not (is_text (field row (codes "Location Type")) (codes "Trading Hub")))
          validation)
        _ h2 in
    let (lmp, e1, h4) = >>=-eq-ok (number_of (field row (codes "LMP"))) _ h3 in
    let (energy, e2, h5) = >>=-eq-ok (number_of (field row (codes "Energy"))) _ h4 in
    let (congestion, e3, h6) = >>=-eq-ok (number_of (field row (codes "Congestion"))) _ h5 in
    let (loss, e4, h7) = >>=-eq-ok (number_of (field row (codes "Loss"))) _ h6 in
    let (from, until, s0, s1, s2, s3, s4) =
      lmp_observation-Stores location se.0 se.1 lmp energy congestion loss p r h7 in
    record {
      market = ground (arith, kind);
      start = subst (IsMoment (field row (codes "Interval Start"))) (sym from) starts;
      end = subst (IsMoment (field row (codes "Interval End"))) (sym until) ends;
      location = hub-eq (field row (codes "Location")) location hub ∙ ap text (sym s0);
      lmp = number-eq (field row (codes "LMP")) lmp e1 ∙ ap number (sym s1);
      energy = number-eq (field row (codes "Energy")) energy e2 ∙ ap number (sym s2);
      congestion = number-eq (field row (codes "Congestion")) congestion e3 ∙ ap number (sym s3);
      loss = number-eq (field row (codes "Loss")) loss e4 ∙ ap number (sym s4);
    }

-- One of the prices is that of the row.
abbrev pub IsKept : List LmpObservation → Dict Value → Type 0
IsKept rs row = (r : LmpObservation) × IsPriceOf row r × Has r rs

keyed_records-AreKept :
    (p : Provenance) (key : LmpObservation → Text) (seen : List Text) (rows : List (Dict Value))
    (rs : List LmpObservation)
    → keyed_records (lmp_record p) key seen rows ≡ ok rs
    → All (IsKept rs) rows
unfolding keyed_records
keyed_records-AreKept p key seen [] rs h = tt
keyed_records-AreKept p key seen (row ∷ rows) rs h =
    let (r, made, h1) = >>=-eq-ok (lmp_record p row) _ h in
    let (_, _, h2) = >>=-eq-ok (raise_if (contains (key r) seen) validation) _ h1 in
    let (rest, made_rest, same) =
      >>=-eq-ok (keyed_records (lmp_record p) key (key r ∷ seen) rows) _ h2 in
    let both : r ∷ rest ≡ rs = cc same in
    subst (λ xs. All (IsKept xs) (row ∷ rows)) both
      (
        (r, lmp_record-IsPriceOf p row r made, inl refl),
        All-map (λ q kept. (kept.0, kept.1, inr kept.2)) rows
            (keyed_records-AreKept p key (key r ∷ seen) rows rest made_rest),
      )

-- Prices that normalize_lmp returns are as many as the rows that it has read, and for each row one
-- of them has the hub, the instants of the two ends and the four numbers that the cells of the row
-- hold; the row is of the market DAY_AHEAD_HOURLY.
pub normalize_lmp-AreKept :
    (sha256 : Text → Text) (f : Frame) (p : Provenance) (rs : List LmpObservation)
    → normalize_lmp sha256 f p ≡ ok rs
    → (rows : List (Dict Value)) × (source_rows lmp_columns f ≡ ok rows)
      × (length rs ≡ length rows)
      × All (IsKept rs) rows
unfolding normalize_lmp
normalize_lmp-AreKept sha256 f p rs h =
    let (rows, read, h1) = >>=-eq-ok (source_rows lmp_columns f) _ h in
    let (records, made, same) =
      >>=-eq-ok (keyed_records (lmp_record p) (lmp_key sha256) [] rows) _ h1 in
    let sorted : sort_by lmp_le records ≡ rs = cc same in
    let size =
      (sort_by-AreSorted (lmp_record p) (lmp_key sha256) IsHourly (lmp_record-IsHourly p) lmp_le
        IsPriceBefore lmp_le_total lmp_le-IsPriceBefore rows records made).1 in
    let kept = keyed_records-AreKept p (lmp_key sha256) [] rows records made in
    (
      rows,
      read,
      ap length (sym sorted) ∙ size,
      subst (λ xs. All (IsKept xs) rows) sorted
          (All-map (λ row k. (k.0, k.1, sort_by-Has lmp_le k.0 records k.2)) rows kept),
    )
