-- ===== src/Backtesting/Engine/Days/Groups.antt =====
-- backtesting/engine.py: the groups of a plan, the rows of each day in its hours.
use power_market_data_platfo.Base.{
  ℕ, zero, suc, ◌+◌, ◌-◌, ◌*◌, ◌/◌, ◌≡◌, refl, sym, ap, subst, ◌∙◌, Bool, false, ◌&&◌, List, [],
  ◌∷◌, map, some, arith, ltb, leb, ◌==◌, ==_iff, length, get_elem?, filter, filter_passes,
  sort_by-All, length-sort_by, All, All-map, ok, ok_injective, >>=-eq-ok, >>-raise_if,
}
use power_market_data_platfo.Errors.{validation}
use power_market_data_platfo.Warehouse.Request.{Request}
use power_market_data_platfo.Backtesting.Inputs.{MarketPrice}
use power_market_data_platfo.Backtesting.Inputs.Planned.{AreDaily}
use power_market_data_platfo.Backtesting.Engine.{
  start_le, day_rows, off_hour, is_short_or_off, groups_of,
}

-- Each row is the hour at its place, of hours from `start`.
abbrev pub FillHours : ℕ → List MarketPrice → Type 0
FillHours start rows =
    (i : ℕ) (r : MarketPrice)
    → get_elem? rows i ≡ some r
    → (r.interval.start_utc ≡ start + i * 3600000000)
      × (r.interval.end_utc ≡ start + suc i * 3600000000)

off_hour-FillHours :
    (start : ℕ) (rows : List MarketPrice) → off_hour start rows ≡ false → FillHours start rows
off_hour-FillHours start [] h i r e = absurd (cc e)
off_hour-FillHours start (x ∷ rows) h zero r e =
    let same : x ≡ r = cc e in
    subst
      (λ (y : MarketPrice).
        (y.interval.start_utc ≡ start + 0 * 3600000000)
        × (y.interval.end_utc ≡ start + 1 * 3600000000))
      same (ground (arith, h), ground (arith, h))
off_hour-FillHours start (x ∷ rows) h (suc i) r e =
    let (starts, ends) = off_hour-FillHours (start + 3600000000) rows (ground (arith, h)) i r e in
    (omega arith, omega arith)

abbrev pub sum : List ℕ → ℕ
sum [] = 0
sum (n ∷ ns) = n + sum ns

-- The row lies on one of the `n` days from `day`.
abbrev pub is_within : ℕ → ℕ → MarketPrice → Bool
is_within day n r = leb day r.market_date && ltb r.market_date (day + n)

none_within : (day : ℕ) (rows : List MarketPrice) → length (filter (is_within day 0) rows) ≡ 0
none_within day [] = refl
none_within day (r ∷ rows) = ground (arith, none_within day rows)

first_and_rest :
    (day n : ℕ) (rows : List MarketPrice)
    → length (filter (is_within day (suc n)) rows)
      ≡ length (filter (λ r. r.market_date == day) rows)
        + length (filter (is_within (day + 1) n) rows)
first_and_rest day n [] = refl
first_and_rest day n (r ∷ rows) = ground (arith, first_and_rest day n rows)

module _ (midnight : ℕ → ℕ) (inputs : List MarketPrice) where
  -- The rows of a day: those of the inputs, one for each hour between its midnights.
  pub record IsGroup (day : ℕ) (rows : List MarketPrice) : Type 0 where
    pub selected : rows ≡ day_rows inputs day
    pub dated : All (λ r. r.market_date ≡ day) rows
    pub whole : length rows ≡ (midnight (day + 1) - midnight day) / 3600000000
    pub hours : FillHours (midnight day) rows

  abbrev pub AreGroups : ℕ → List (List MarketPrice) → Type 0
  AreGroups day [] = Unit
  AreGroups day (rows ∷ groups) = IsGroup day rows × AreGroups (day + 1) groups

  day_rows-dated : (day : ℕ) → All (λ r. r.market_date ≡ day) (day_rows inputs day)
  day_rows-dated day =
      sort_by-All start_le (λ r. r.market_date ≡ day) (filter (λ r. r.market_date == day) inputs)
        (All-map (λ r. (==_iff r.market_date day).0) (filter (λ r. r.market_date == day) inputs)
          (filter_passes (λ r. r.market_date == day) inputs))

  pub groups_of-AreGroups :
      (day : ℕ) (plan : List Request) (groups : List (List MarketPrice))
      → AreDaily day plan
      → groups_of midnight inputs plan ≡ ok groups
      → AreGroups day groups × (length groups ≡ length plan)
  groups_of-AreGroups day [] groups h e =
      subst (λ (gs : List (List MarketPrice)). AreGroups day gs × (length gs ≡ 0)) (ok_injective e)
        (tt, refl)
  groups_of-AreGroups day (q ∷ plan) groups h e =
      let (right, e1) =
        (>>-raise_if (is_short_or_off midnight q (day_rows inputs q.day)) validation _).0 e in
      let (rest, later, e2) = >>=-eq-ok (groups_of midnight inputs plan) _ e1 in
      let (others, sized) = groups_of-AreGroups (day + 1) plan rest h.1 later in
      let here : IsGroup q.day (day_rows inputs q.day) = record {
        selected = refl;
        dated = day_rows-dated q.day;
        whole = ground (arith, right);
        hours = off_hour-FillHours (midnight q.day) (day_rows inputs q.day) (ground (arith, right));
      } in
      subst (λ (gs : List (List MarketPrice)). AreGroups day gs × (length gs ≡ suc (length plan)))
        (ok_injective e2)
        ((subst (λ (n : ℕ). IsGroup n (day_rows inputs q.day)) h.0 here, others), ap suc sized)

  -- The groups have as many rows as the inputs have on their days.
  pub AreGroups-sum :
      (day : ℕ) (groups : List (List MarketPrice))
      → AreGroups day groups
      → sum (map length groups) ≡ length (filter (is_within day (length groups)) inputs)
  AreGroups-sum day [] h = sym (none_within day inputs)
  AreGroups-sum day (rows ∷ groups) h =
      let sorted : length rows ≡ length (filter (λ r. r.market_date == day) inputs) =
        ap length h.0.selected
        ∙ length-sort_by start_le (filter (λ r. r.market_date == day) inputs) in
      omega (
        arith,
        sorted,
        AreGroups-sum (day + 1) groups h.1,
        first_and_rest day (length groups) inputs,
      )
