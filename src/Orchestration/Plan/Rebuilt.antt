-- ===== src/Orchestration/Plan/Rebuilt.antt =====
-- A worker rebuilds the request of a unit from its texts.
use power_market_data_platfo.Base.{
  ℕ, zero, suc, ◌+◌, ◌-◌, ◌≤◌, ◌≡◌, refl, sym, ap, subst, arith, Bool, true, false, ◌||◌, not, List,
  [], ◌∷◌, ◌++◌, map, Option, none, some, ◌<◌, text_eq, leb, ltb, if◌then◌else◌, All, All-append,
  Text, codes, Result, ok, err, ◌>>◌, raise_if, >>=-eq-ok, length,
}
use power_market_data_platfo.Errors.{Error, warehouse}
use power_market_data_platfo.Time.Calendar.{date_text, microseconds_per_day}
use power_market_data_platfo.Warehouse.Request.{
  Request, Product, request, request_id, bounds, product_text, product_of, check_location, or_empty,
  validate_run_id,
}
use power_market_data_platfo.Orchestration.Plan.{
  PlanUnit, Backfill, max_days, or_none, sort_texts, parsed, unit_request, unit_of, lmp_requests,
  load_requests, day_requests, units_from, check_backfill, expand,
}

-- The location of a valid request survives being written as a text.
location_again :
    (p : Product) (location : Option Text)
    → check_location p location ≡ ok tt
    → or_none (or_empty location) ≡ location
location_again p none h = refl
location_again Product.lmp (some []) h = cc h
location_again Product.lmp (some (c ∷ s)) h = refl
location_again Product.load (some s) h = cc h

module _ (today : ℕ) where
  request_checks :
      (product : Text) (day : ℕ) (location : Option Text) (r : Request)
      → request today product day location ≡ ok r
      → (leb today day ≡ false)
        × (check_location r.product location ≡ ok tt)
        × (r.day ≡ day)
        × (r.location ≡ location)
  unfolding request
  request_checks product day location r h = go (product_of product) h
    where
      go :
          (o : Option Product)
          → (elim o [
            | none ↦ err warehouse
            | some p ↦
                raise_if (leb today day) warehouse
                >> (check_location p location
                    >> ok (record { product = p; day = day; location = location }))
          ])
            ≡ ok r
          → (leb today day ≡ false)
            × (check_location r.product location ≡ ok tt)
            × (r.day ≡ day)
            × (r.location ≡ location)
      go none e = cc e
      go (some p) e =
          let (_, past, e1) = >>=-eq-ok (raise_if (leb today day) warehouse) _ e in
          let (_, here, e2) = >>=-eq-ok (check_location p location) _ e1 in
          let same : record { product = p; day = day; location = location } ≡ r = cc e2 in
          (
            ground (arith, past),
            subst (λ (q : Request). check_location q.product location ≡ ok tt) same here,
            ap (λ (q : Request). q.day) (sym same),
            ap (λ (q : Request). q.location) (sym same),
          )

  request_of :
      (p : Product) (day : ℕ) (location : Option Text)
      → leb today day ≡ false
      → check_location p location ≡ ok tt
      → request today (product_text p) day location
        ≡ ok (record { product = p; day = day; location = location })
  unfolding request
  request_of Product.lmp day location past here = rw past (rw here refl)
  request_of Product.load day location past here = rw past (rw here refl)

-- What the code relies on in `date.fromisoformat`: its dates lie in a range, which in Python is from
-- the year 1 to the year 9999, and it reads the texts that `str` writes of these.
pub record ReadsDates (first last : ℕ) (fromisoformat : Text → Option ℕ) : Type 0 where
  pub reads : (day : ℕ) → first ≤ day → day < last → fromisoformat (date_text day) ≡ some day
  pub in_range : (s : Text) (day : ℕ) → fromisoformat s ≡ some day → (first ≤ day) × (day < last)

module _ (sha256 : Text → Text) (fromisoformat : Text → Option ℕ) (first last : ℕ)
    (reads_dates : ReadsDates first last fromisoformat) (uuid5 : Text → Text → Text) (today : ℕ)
    (midnight : ℕ → ℕ) where
  -- The unit yields a valid request of the dates again, and its run ID is the one of that request.
  pub record IsRebuilt (spec : Backfill) (start end : ℕ) (u : PlanUnit) : Type 0 where
    pub request : Request
    pub rebuilt : unit_request sha256 fromisoformat uuid5 today midnight u ≡ ok request
    pub named :
        u.run_id ≡ uuid5 spec.backfill_id (codes "backfill-unit/v1:" ++ request_id sha256 request)
    pub past : leb today request.day ≡ false
    pub from_start : start ≤ request.day
    pub to_end : request.day ≤ end

  -- A request as `Request` makes it, of one day.
  abbrev IsValid : ℕ → Request → Type 0
  IsValid day r =
      (r.day ≡ day) × (leb today r.day ≡ false) × (check_location r.product r.location ≡ ok tt)

  request-IsValid :
      (product : Text) (day : ℕ) (location : Option Text) (r : Request)
      → request today product day location ≡ ok r
      → IsValid day r
  request-IsValid product day location r h =
      let (past, here, d, l) = request_checks today product day location r h in
      (d, rw d past, rw l here)

  lmp_requests-IsValid :
      (day : ℕ) (hubs : List Text) (rs : List Request)
      → lmp_requests sha256 fromisoformat uuid5 today midnight day hubs ≡ ok rs
      → All (IsValid day) rs × (length rs ≡ length hubs)
  unfolding lmp_requests
  lmp_requests-IsValid day [] rs h =
      let none_made : [] ≡ rs = cc h in
      subst (λ qs. All (IsValid day) qs × (length qs ≡ 0)) none_made (tt, refl)
  lmp_requests-IsValid day (hub ∷ hubs) rs h =
      let (r, made, h1) = >>=-eq-ok (request today (codes "lmp") day (some hub)) _ h in
      let (rest, made_rest, h2) =
        >>=-eq-ok (lmp_requests sha256 fromisoformat uuid5 today midnight day hubs) _ h1 in
      let same : r ∷ rest ≡ rs = cc h2 in
      let hyp = lmp_requests-IsValid day hubs rest made_rest in
      subst (λ qs. All (IsValid day) qs × (length qs ≡ length (hub ∷ hubs))) same
        ((request-IsValid (codes "lmp") day (some hub) r made, hyp.0), omega (arith, hyp.1))

  load_requests-IsValid :
      (day : ℕ) (rs : List Request)
      → load_requests sha256 fromisoformat uuid5 today midnight day ≡ ok rs
      → All (IsValid day) rs
  unfolding load_requests
  load_requests-IsValid day rs h =
      let (r, made, h1) = >>=-eq-ok (request today (codes "load") day none) _ h in
      let (_, short, h2) =
        >>=-eq-ok
          (raise_if (ltb microseconds_per_day ((bounds midnight r).1 - (bounds midnight r).0))
            warehouse)
          _ h1 in
      let same : r ∷ [] ≡ rs = cc h2 in
      subst (All (IsValid day)) same (request-IsValid (codes "load") day none r made, tt)

  chosen-IsValid :
      (day : ℕ) (wanted : Bool) (made : Result Error (List Request)) (rs : List Request)
      → ((qs : List Request) → made ≡ ok qs → All (IsValid day) qs)
      → (if wanted then made else ok []) ≡ ok rs
      → All (IsValid day) rs
  chosen-IsValid day true made rs valid h = valid rs h
  chosen-IsValid day false made rs valid h =
      let none_made : [] ≡ rs = cc h in subst (All (IsValid day)) none_made tt

  day_requests-IsValid :
      (spec : Backfill) (day : ℕ) (rs : List Request)
      → day_requests sha256 fromisoformat uuid5 today midnight spec day ≡ ok rs
      → All (IsValid day) rs
  unfolding day_requests
  day_requests-IsValid spec day rs h =
      let prices_of =
        if spec.ingest_lmp
        then lmp_requests sha256 fromisoformat uuid5 today midnight day (sort_texts spec.locations)
        else ok [] in
      let loads_of =
        if spec.ingest_load
        then load_requests sha256 fromisoformat uuid5 today midnight day
        else ok [] in
      let (prices, made, h1) = >>=-eq-ok prices_of _ h in
      let (loads, made_loads, h2) = >>=-eq-ok loads_of _ h1 in
      let same : prices ++ loads ≡ rs = cc h2 in
      subst (All (IsValid day)) same (
        All-append (IsValid day) prices loads
          (chosen-IsValid day spec.ingest_lmp _ prices
            (λ qs e. (lmp_requests-IsValid day (sort_texts spec.locations) qs e).0) made)
          (chosen-IsValid day spec.ingest_load _ loads (load_requests-IsValid day) made_loads))

  unit_of-IsRebuilt :
      (spec : Backfill) (start end day : ℕ) (r : Request)
      → first ≤ start
      → end < last
      → start ≤ day
      → day ≤ end
      → IsValid day r
      → IsRebuilt spec start end
          (unit_of sha256 fromisoformat uuid5 today midnight spec.backfill_id r)
  unfolding unit_of unit_request
  unit_of-IsRebuilt spec start end day r low high from_start to_end (d, past, here) = record {
    request = r;
    rebuilt = rw (reads_dates.reads r.day (omega (arith, d)) (omega (arith, d))) (
        rw (location_again r.product r.location here)
          (request_of today r.product r.day r.location past here));
    named = refl;
    past = past;
    from_start = omega (arith, d);
    to_end = omega (arith, d);
  }

  units_of-IsRebuilt :
      (spec : Backfill) (start end day : ℕ) (rs : List Request)
      → first ≤ start
      → end < last
      → start ≤ day
      → day ≤ end
      → All (IsValid day) rs
      → All
          (IsRebuilt spec start end)
          (map (unit_of sha256 fromisoformat uuid5 today midnight spec.backfill_id) rs)
  units_of-IsRebuilt spec start end day [] low high f t h = tt
  units_of-IsRebuilt spec start end day (r ∷ rs) low high f t h = (
    unit_of-IsRebuilt spec start end day r low high f t h.0,
    units_of-IsRebuilt spec start end day rs low high f t h.1,
  )

  units_from-IsRebuilt :
      (spec : Backfill) (start end day n : ℕ) (us : List PlanUnit)
      → first ≤ start
      → end < last
      → start ≤ day
      → day + n ≡ end + 1
      → units_from sha256 fromisoformat uuid5 today midnight spec day n ≡ ok us
      → All (IsRebuilt spec start end) us
  unfolding units_from
  units_from-IsRebuilt spec start end day zero us low high f t h =
      let none_made : [] ≡ us = cc h in subst (All (IsRebuilt spec start end)) none_made tt
  units_from-IsRebuilt spec start end day (suc n) us low high f t h =
      let (rs, made, h1) =
        >>=-eq-ok (day_requests sha256 fromisoformat uuid5 today midnight spec day) _ h in
      let (rest, made_rest, h2) =
        >>=-eq-ok (units_from sha256 fromisoformat uuid5 today midnight spec (day + 1) n) _ h1 in
      let same : map (unit_of sha256 fromisoformat uuid5 today midnight spec.backfill_id) rs ++ rest
          ≡ us =
        cc h2 in
      subst (All (IsRebuilt spec start end)) same (
        All-append (IsRebuilt spec start end)
          (map (unit_of sha256 fromisoformat uuid5 today midnight spec.backfill_id) rs) rest
          (units_of-IsRebuilt spec start end day rs low high f (omega (arith, t))
            (day_requests-IsValid spec day rs made))
          (units_from-IsRebuilt spec start end (day + 1) n rest low high (omega arith)
            (omega (arith, t)) made_rest))

  dates_bounded :
      (spec : Backfill) (start end : ℕ)
      → check_backfill sha256 fromisoformat uuid5 today midnight spec start end ≡ ok tt
      → (start ≤ end) × (end < start + 7)
  unfolding check_backfill
  dates_bounded spec start end h =
      let (_, written, h1) =
        >>=-eq-ok
          (raise_if
            (not (text_eq (date_text start) spec.start_date)
              || not (text_eq (date_text end) spec.end_date))
            warehouse)
          _ h in
      let (_, few, h2) =
        >>=-eq-ok (raise_if (ltb end start || leb max_days (end - start)) warehouse) _ h1 in
      ground (arith, few)

  parsed-some : (e : Error) (o : Option ℕ) (d : ℕ) → parsed e o ≡ ok d → o ≡ some d
  parsed-some e none d h = cc h
  parsed-some e (some d') d h = cc h

  -- With a reader of ISO dates that reads what str writes, a backfill that expand accepts has one
  -- to seven days, and from the texts of each unit a worker rebuilds a valid request, of a
  -- completed day from the first through the last date, and the run ID of the unit is the one that
  -- the backfill gives this request.
  pub expand-IsRebuilt :
      (spec : Backfill) (units : List PlanUnit)
      → expand sha256 fromisoformat uuid5 today midnight spec ≡ ok units
      → (start : ℕ) × (end : ℕ) × (fromisoformat spec.start_date ≡ some start)
        × (fromisoformat spec.end_date ≡ some end)
        × (start ≤ end)
        × (end < start + 7)
        × All (IsRebuilt spec start end) units
  unfolding expand
  expand-IsRebuilt spec units h =
      let (_, valid, h1) = >>=-eq-ok (validate_run_id spec.backfill_id) _ h in
      let (start, first_read, h2) =
        >>=-eq-ok (parsed warehouse (fromisoformat spec.start_date)) _ h1 in
      let (end, final, h3) = >>=-eq-ok (parsed warehouse (fromisoformat spec.end_date)) _ h2 in
      let (_, checked, h4) =
        >>=-eq-ok (check_backfill sha256 fromisoformat uuid5 today midnight spec start end) _ h3 in
      let (ordered, short) = dates_bounded spec start end checked in
      (
        start,
        end,
        parsed-some warehouse _ start first_read,
        parsed-some warehouse _ end final,
        ordered,
        short,
        units_from-IsRebuilt spec start end start (end - start + 1) units
            (reads_dates.in_range _ start (parsed-some warehouse _ start first_read)).0
            (reads_dates.in_range _ end (parsed-some warehouse _ end final)).1 (omega arith)
            (omega (arith, ordered)) h4,
      )
