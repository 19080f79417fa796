-- ===== src/Backtesting/Inputs/Planned.antt =====
-- backtesting/inputs.py, `requests`: one request for each day.
use power_market_data_platfo.Base.{
  ℕ, zero, suc, ◌+◌, ◌-◌, ◌≤◌, ◌≡◌, refl, sym, ap, subst, ok_injective, ◌||◌, List, [], ◌∷◌, some,
  arith, ltb, leb, length, Text, codes, ok, raise_if, >>=-eq-ok, >>-raise_if,
}
use power_market_data_platfo.Errors.{validation, warehouse}
use power_market_data_platfo.Warehouse.Request.{Request, Product, request, check_location}
use power_market_data_platfo.Backtesting.Inputs.{requests_from, requests}

request-day :
    (today day : ℕ) (location : Text) (q : Request)
    → request today (codes "lmp") day (some location) ≡ ok q
    → q.day ≡ day
unfolding request
request-day today day location q h =
    let (_, _, h1) = >>=-eq-ok (raise_if (leb today day) warehouse) _ h in
    let (_, _, h2) = >>=-eq-ok (check_location Product.lmp (some location)) _ h1 in
    ap (λ (r : Request). r.day) (sym (ok_injective h2))

-- Consecutive days.
abbrev pub AreDaily : ℕ → List Request → Type 0
AreDaily day [] = Unit
AreDaily day (q ∷ qs) = (q.day ≡ day) × AreDaily (day + 1) qs

requests_from-AreDaily :
    (today start : ℕ) (location : Text) (n : ℕ) (plan : List Request)
    → requests_from today start location n ≡ ok plan
    → AreDaily start plan × (length plan ≡ n)
unfolding requests_from
requests_from-AreDaily today start location zero plan h =
    subst (λ (qs : List Request). AreDaily start qs × (length qs ≡ 0)) (ok_injective h) (tt, refl)
requests_from-AreDaily today start location (suc n) plan h =
    let (q, made, h1) = >>=-eq-ok (request today (codes "lmp") start (some location)) _ h in
    let (rest, later, h2) = >>=-eq-ok (requests_from today (start + 1) location n) _ h1 in
    let (daily, sized) = requests_from-AreDaily today (start + 1) location n rest later in
    subst (λ (qs : List Request). AreDaily start qs × (length qs ≡ suc n)) (ok_injective h2)
      ((request-day today start location q made, daily), ap suc sized)

pub requests-AreDaily :
    (today start end : ℕ) (location : Text) (plan : List Request)
    → requests today start end location ≡ ok plan
    → AreDaily start plan × (length plan + start ≡ end + 1) × (1 ≤ length plan) × (length plan ≤ 7)
unfolding requests
requests-AreDaily today start end location plan h =
    let (few, h1) =
      (>>-raise_if (ltb (end + 1 - start) 1 || ltb 7 (end + 1 - start)) validation _).0 h in
    let (daily, sized) = requests_from-AreDaily today start location (end + 1 - start) plan h1 in
    (daily, ground (arith, few, sized), ground (arith, few, sized), ground (arith, few, sized))
