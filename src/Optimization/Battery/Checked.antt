-- ===== src/Optimization/Battery/Checked.antt =====
-- optimization/battery.py: what every dispatch that is returned satisfies.
use power_market_data_platfo.Base.{
  ℕ, zero, suc, ◌≡◌, ◌≤◌, sym, ap, subst, ◌∙◌, false, ◌&&◌, ◌||◌, not, List, [], ◌∷◌, some, ◌==◌,
  ltb, arith, get_elem?, length, any, codes, text_eq, text_eq_iff, ok, >>=-eq-ok, >>-raise_if,
}
use power_market_data_platfo.Errors.{validation, optimization, value_error}
use power_market_data_platfo.Optimization.Floats.{Floats}
use power_market_data_platfo.Optimization.Model.{
  BatteryConfig, PriceInterval, DispatchResult, validate_dispatch,
}
use power_market_data_platfo.Optimization.Model.Feasible.{IsFeasible, validate_dispatch-IsFeasible}
use power_market_data_platfo.Optimization.Battery.{
  Solution, Solver, has_gap, solution_of, vector, is_nonintegral, result_of, check_horizon,
  accept_solution, solve_battery_dispatch,
}

-- Each interval starts where the one before it ends.
abbrev pub AreContiguous : List PriceInterval → Type 0
AreContiguous ps =
    (t : ℕ) (p q : PriceInterval)
    → get_elem? ps t ≡ some p
    → get_elem? ps (suc t) ≡ some q
    → q.start_utc ≡ p.end_utc

pub has_gap-AreContiguous : (ps : List PriceInterval) → has_gap ps ≡ false → AreContiguous ps
has_gap-AreContiguous [] h t p q hp hq = absurd (cc hp)
has_gap-AreContiguous (p ∷ []) h t p0 q0 hp hq = absurd (cc hq)
has_gap-AreContiguous (p ∷ q ∷ ps) h zero p0 q0 hp hq =
    let same_p : p ≡ p0 = cc hp in
    let same_q : q ≡ q0 = cc hq in
    let next : p.end_utc ≡ q.start_utc = ground (arith, h) in
    ap (λ (x : PriceInterval). x.start_utc) (sym same_q)
    ∙ sym next
    ∙ ap (λ (x : PriceInterval). x.end_utc) same_p
has_gap-AreContiguous (p ∷ q ∷ ps) h (suc t) p0 q0 hp hq =
    has_gap-AreContiguous (q ∷ ps) (ground (arith, h)) t p0 q0 hp hq

module _ {F : Type 0} (floats : Floats F) (solver : Solver F) where
  pub record IsAccepted (config : BatteryConfig F) (ps : List PriceInterval) (r : DispatchResult F)
      : Type 0 where
    pub some_hours : 1 ≤ length ps
    pub few_hours : length ps ≤ 25
    pub contiguous : AreContiguous ps
    pub optimal : r.status ≡ codes "optimal"
    pub feasible : IsFeasible floats config ps r

  accept_solution-IsFeasible :
      (ps : List PriceInterval) (config : BatteryConfig F) (s : Solution F) (r : DispatchResult F)
      → accept_solution floats solver ps config s ≡ ok r
      → (r.status ≡ codes "optimal") × IsFeasible floats config ps r
  accept_solution-IsFeasible ps config s r h =
      let (best, h1) =
        (>>-raise_if (not (text_eq s.status (codes "optimal"))) optimization _).0 h in
      let (charge, _, h2) = >>=-eq-ok (vector s.charge) _ h1 in
      let (discharge, _, h3) = >>=-eq-ok (vector s.discharge) _ h2 in
      let (soc, _, h4) = >>=-eq-ok (vector s.soc) _ h3 in
      let (mode, _, h5) = >>=-eq-ok (vector s.mode) _ h4 in
      let (_, h6) = (>>-raise_if (any (is_nonintegral floats solver) mode) optimization _).0 h5 in
      let (_, h7) =
        (>>-raise_if (not ((length charge == length ps) && (length discharge == length ps)))
            value_error _).0
          h6 in
      let result = result_of floats solver ps config s charge discharge soc mode in
      let (_, valid, same) = >>=-eq-ok (validate_dispatch floats config ps result) _ h7 in
      let same_result : result ≡ r = cc same in
      let optimal : s.status ≡ codes "optimal" =
        ground (arith, best, text_eq_iff s.status (codes "optimal")) in
      subst (λ (x : DispatchResult F). (x.status ≡ codes "optimal") × IsFeasible floats config ps x)
        same_result (optimal, (validate_dispatch-IsFeasible floats config ps result).0 valid)

  -- Whatever the solver answers, a dispatch that solve_battery_dispatch returns is feasible for its
  -- prices, of status optimal, and over 1 to 25 intervals of which each starts where the one before
  -- it ends.
  pub solve_battery_dispatch-IsAccepted :
      (ps : List PriceInterval) (config : BatteryConfig F) (limit : F) (r : DispatchResult F)
      → solve_battery_dispatch floats solver ps config limit ≡ ok r
      → IsAccepted config ps r
  unfolding solve_battery_dispatch
  solve_battery_dispatch-IsAccepted ps config limit r h =
      let (_, horizon, h1) = >>=-eq-ok (check_horizon floats solver ps limit) _ h in
      let (s, _, h2) = >>=-eq-ok (solution_of (solver ps config limit)) _ h1 in
      let (sized, g1) =
        (>>-raise_if (ltb (length ps) 1 || ltb 25 (length ps)) validation _).0 horizon in
      let (joined, g2) = (>>-raise_if (has_gap ps) validation _).0 g1 in
      let (optimal, feasible) = accept_solution-IsFeasible ps config s r h2 in
      record {
        some_hours = ground (arith, sized);
        few_hours = ground (arith, sized);
        contiguous = has_gap-AreContiguous ps joined;
        optimal = optimal;
        feasible = feasible;
      }
