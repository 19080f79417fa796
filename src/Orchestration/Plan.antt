-- ===== src/Orchestration/Plan.antt =====
-- orchestration/plan.py: a backfill as a list of bounded requests, each with its run ID. Reading an
-- ISO date, `uuid5`, today's Pacific date and the instants of midnight are arguments.
pub mod Rebuilt
use power_market_data_platfo.Base.{
  sort_by, has_repeats, ℕ, zero, suc, ◌+◌, ◌-◌, ◌*◌, Bool, true, false, ◌&&◌, ◌||◌, not, List, [],
  ◌∷◌, ◌++◌, map, Option, none, some, leb, ltb, if◌then◌else◌, length, any, ℤ, pos, eq_ℤ, Text,
  codes, text_eq, contains, Result, ok, err, ◌>>=◌, ◌>>◌, raise_if,
}
use power_market_data_platfo.Errors.{Error, warehouse, value_error}
use power_market_data_platfo.Time.Calendar.{date_text, microseconds_per_day}
use power_market_data_platfo.Identity.Json.{text_leb}
use power_market_data_platfo.Domain.{trading_hubs}
use power_market_data_platfo.Warehouse.Request.{
  Request, Product, request, bounds, request_id, product_text, or_empty, validate_run_id,
}

abbrev pub max_days : ℕ
max_days = 7

-- `Unit`: one request of a backfill, as texts.
pub record PlanUnit : Type 0 where
  pub day : Text
  pub product : Text
  pub location : Text
  pub run_id : Text

pub record Backfill : Type 0 where
  pub backfill_id : Text
  pub start_date : Text
  pub end_date : Text
  pub ingest_lmp : Bool
  pub ingest_load : Bool
  pub locations : List Text
  pub run_dbt : Bool
  pub concurrency : ℤ

-- `location or None`.
abbrev pub or_none : Text → Option Text
or_none [] = none
or_none (c ∷ s) = some (c ∷ s)

-- `sorted(locations)`.
abbrev pub sort_texts : List Text → List Text
sort_texts = sort_by text_leb

abbrev is_empty : List Text → Bool
is_empty [] = true
is_empty _ = false

abbrev pub parsed : Error → Option ℕ → Result Error ℕ
parsed e none = err e
parsed e (some d) = ok d

module _ (sha256 : Text → Text) (fromisoformat : Text → Option ℕ) (uuid5 : Text → Text → Text)
    (today : ℕ) (midnight : ℕ → ℕ) where
  -- `Unit.request`.
  unfoldable pub unit_request : PlanUnit → Result Error Request
  unit_request u = do
    day ← parsed value_error (fromisoformat u.day)
    request today u.product day (or_none u.location)

  -- The unit of a request.
  unfoldable pub unit_of : Text → Request → PlanUnit
  unit_of backfill_id r = record {
    day = date_text r.day;
    product = product_text r.product;
    location = or_empty r.location;
    run_id = uuid5 backfill_id (codes "backfill-unit/v1:" ++ request_id sha256 r);
  }

  -- `[Request("lmp", day, hub) for hub in hubs]`.
  pub lmp_requests : ℕ → List Text → Result Error (List Request)
  lmp_requests day [] = ok []
  lmp_requests day (hub ∷ hubs) = do
    r ← request today (codes "lmp") day (some hub)
    rest ← lmp_requests day hubs
    ok (r ∷ rest)

  -- The load request of a day, which may not be longer than 24 hours.
  pub load_requests : ℕ → Result Error (List Request)
  load_requests day = do
    r ← request today (codes "load") day none
    let (begin, finish) = bounds midnight r
    raise_if (ltb microseconds_per_day (finish - begin)) warehouse
    ok (r ∷ [])

  pub day_requests : Backfill → ℕ → Result Error (List Request)
  unfolding lmp_requests load_requests sort_by
  day_requests spec day = do
    prices ← (if spec.ingest_lmp then lmp_requests day (sort_texts spec.locations) else ok [])
    loads ← (if spec.ingest_load then load_requests day else ok [])
    ok (prices ++ loads)

  -- The loop over the days.
  pub units_from : Backfill → ℕ → ℕ → Result Error (List PlanUnit)
  unfolding day_requests
  units_from spec day zero = ok []
  units_from spec day (suc n) = do
    requests ← day_requests spec day
    rest ← units_from spec (day + 1) n
    ok (map (unit_of spec.backfill_id) requests ++ rest)

  -- The checks on the plan as a whole, after the dates.
  pub check_backfill : Backfill → ℕ → ℕ → Result Error (Unit {0})
  check_backfill spec start end = do
    raise_if
        (not (text_eq (date_text start) spec.start_date)
          || not (text_eq (date_text end) spec.end_date))
        warehouse
    raise_if (ltb end start || leb max_days (end - start)) warehouse
    raise_if (not (eq_ℤ spec.concurrency (pos 1))) warehouse
    raise_if (not spec.ingest_lmp && not spec.ingest_load) warehouse
    raise_if (any (λ hub. not (contains hub trading_hubs)) spec.locations) warehouse
    raise_if (has_repeats spec.locations) warehouse
    raise_if (spec.ingest_lmp && is_empty spec.locations) warehouse

  unfoldable pub expand : Backfill → Result Error (List PlanUnit)
  unfolding check_backfill units_from
  expand spec = do
    valid ← validate_run_id spec.backfill_id
    start ← parsed warehouse (fromisoformat spec.start_date)
    end ← parsed warehouse (fromisoformat spec.end_date)
    check_backfill spec start end
    units_from spec start (end - start + 1)
