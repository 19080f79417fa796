-- ===== src/Optimization/Model/Amounts.antt =====
-- optimization/model.py, `validate_dispatch`: the finite values and the cash flow of each
-- interval.
use power_market_data_platfo.Base.{
  ℕ, zero, suc, ◌≡◌, refl, ◌↔◌, true, List, [], ◌∷◌, ◌++◌, some, arith, get_elem?, length, All,
}
use power_market_data_platfo.Optimization.Floats.{Floats}
use power_market_data_platfo.Optimization.Model.{
  BatteryConfig, PriceInterval, DispatchResult, cash_terms, price_floats, dispatch_values,
}

All-++ : {A : Type 0} (P : A → Type 0) (xs ys : List A) → All P (xs ++ ys) ↔ (All P xs × All P ys)
All-++ P [] ys = (λ h. (tt, h), λ h. h.1)
All-++ P (x ∷ xs) ys = (
  λ h. let both = (All-++ P xs ys).0 h.1 in ((h.0, both.0), both.1),
  λ h. (h.0.0, (All-++ P xs ys).1 (h.0.1, h.1)),
)

module _ {F : Type 0} (floats : Floats F) (config : BatteryConfig F) where
  abbrev pub AreFinite : List F → Type 0
  AreFinite = All (λ x. floats.is_finite x ≡ true)

  -- Each vector and each amount of the result.
  pub record IsFiniteResult (r : DispatchResult F) : Type 0 where
    pub charge_mw : AreFinite r.charge_mw
    pub discharge_mw : AreFinite r.discharge_mw
    pub soc_mwh : AreFinite r.soc_mwh
    pub objective_usd : floats.is_finite r.objective_usd ≡ true
    pub gross_arbitrage_value_usd : floats.is_finite r.gross_arbitrage_value_usd ≡ true
    pub throughput_cost_usd : floats.is_finite r.throughput_cost_usd ≡ true

  pub dispatch_values-IsFiniteResult :
      (r : DispatchResult F) → AreFinite (dispatch_values floats config r) ↔ IsFiniteResult r
  dispatch_values-IsFiniteResult r = (
    λ h.
        let (cs, rest) = (All-++ _ r.charge_mw _).0 h in
        let (ds, rest') = (All-++ _ r.discharge_mw _).0 rest in
        let (ss, rest'') = (All-++ _ r.soc_mwh _).0 rest' in
        record {
          charge_mw = cs;
          discharge_mw = ds;
          soc_mwh = ss;
          objective_usd = rest''.0;
          gross_arbitrage_value_usd = rest''.1.0;
          throughput_cost_usd = rest''.1.1.0;
        },
    λ f. (All-++ _ r.charge_mw _).1 (
      f.charge_mw,
      (All-++ _ r.discharge_mw _).1 (
        f.discharge_mw,
        (All-++ _ r.soc_mwh _).1 (
          f.soc_mwh,
          (f.objective_usd, (f.gross_arbitrage_value_usd, (f.throughput_cost_usd, tt))),
        ),
      ),
    ),
  )

  -- At every index the term is what the net discharge of the interval earns at its price.
  pub record AreCashFlows (prices : List PriceInterval) (cs ds terms : List F) : Type 0 where
    pub count : length terms ≡ length prices
    pub each :
        (t : ℕ) (p : PriceInterval) (c d : F)
        → get_elem? prices t ≡ some p
        → get_elem? cs t ≡ some c
        → get_elem? ds t ≡ some d
        → get_elem? terms t
          ≡ some (
              floats.mul
                (floats.mul (floats.of_decimal p.price_usd_per_mwh) (floats.sub d c))
                config.interval_hours)

  pub cash_terms-AreCashFlows :
      (prices : List PriceInterval) (cs ds : List F)
      → length cs ≡ length prices
      → length ds ≡ length prices
      → AreCashFlows prices cs ds
          (cash_terms floats config (price_floats floats config prices) cs ds)
  cash_terms-AreCashFlows [] [] [] hc hd = record {
    count = refl;
    each = λ t p c d hp. absurd (cc hp);
  }
  cash_terms-AreCashFlows (p ∷ ps) (c ∷ cs) (d ∷ ds) hc hd =
      let rest = cash_terms-AreCashFlows ps cs ds (omega (arith, hc)) (omega (arith, hd)) in
      record { count = omega (arith, rest.count); each = at rest }
    where
      at :
          AreCashFlows ps cs ds (cash_terms floats config (price_floats floats config ps) cs ds)
          → (t : ℕ) (p0 : PriceInterval) (c0 d0 : F) → get_elem? (p ∷ ps) t ≡ some p0
          → get_elem? (c ∷ cs) t ≡ some c0
          → get_elem? (d ∷ ds) t ≡ some d0
          → get_elem?
              (cash_terms floats config (price_floats floats config (p ∷ ps)) (c ∷ cs) (d ∷ ds))
              t
            ≡ some (
                floats.mul
                  (floats.mul (floats.of_decimal p0.price_usd_per_mwh) (floats.sub d0 c0))
                  config.interval_hours)
      at rest zero p0 c0 d0 hp hc0 hd0 =
          let ep : p0 ≡ p = cc hp in
          let ec : c0 ≡ c = cc hc0 in let ed : d0 ≡ d = cc hd0 in rw ep (rw ec (rw ed refl))
      at rest (suc t) p0 c0 d0 hp hc0 hd0 = rest.each t p0 c0 d0 hp hc0 hd0
  cash_terms-AreCashFlows _ _ _ hc hd = absurd (omega (arith, hc, hd))

  -- The terms are determined.
  pub AreCashFlows-cash_terms :
      (prices : List PriceInterval) (cs ds terms : List F)
      → length cs ≡ length prices
      → length ds ≡ length prices
      → AreCashFlows prices cs ds terms
      → cash_terms floats config (price_floats floats config prices) cs ds ≡ terms
  AreCashFlows-cash_terms [] [] [] [] hc hd flows = refl
  AreCashFlows-cash_terms (p ∷ ps) (c ∷ cs) (d ∷ ds) (x ∷ xs) hc hd flows =
      let rest : cash_terms floats config (price_floats floats config ps) cs ds ≡ xs =
        AreCashFlows-cash_terms ps cs ds xs (omega (arith, hc)) (omega (arith, hd))
          (record { count = omega (arith, flows.count); each = λ t. flows.each (suc t) }) in
      let first = flows.each zero p c d refl refl refl in cc (first, rest)
  AreCashFlows-cash_terms _ _ _ _ hc hd flows = absurd (omega (arith, hc, hd, flows.count))
