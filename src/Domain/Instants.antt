-- ===== src/Domain/Instants.antt =====
-- The instants of an interval whose ends are datetimes in UTC.
use power_market_data_platfo.Base.{
  ℕ, ◌+◌, ◌*◌, ◌/◌, ◌%◌, ◌≡◌, sym, ◌∙◌, subst, false, not, ◌||◌, ◌==◌, some, arith, ℤ, pos, ◌-ℤ◌,
  -ℤ_parts, eq_of_parts, ok, raise_if, >>=-eq-ok,
}
use power_market_data_platfo.Errors.{validation}
use power_market_data_platfo.Time.{Datetime, Zone, as_utc, or_invalid, in_range}
use power_market_data_platfo.Domain.{interval, canonical_time}

abbrev utc_at : ℕ → Datetime
utc_at t = record { wall = t; fold = false; tzinfo = some Zone.utc }

in_range-eq : (t u : ℕ) → or_invalid (in_range (pos t)) ≡ ok u → u ≡ t
in_range-eq t u h = ground (arith, h)

as_utc_utc : (t u : ℕ) → as_utc (utc_at t) ≡ ok u → u ≡ t
unfolding as_utc
as_utc_utc t u h =
    let same : pos t -ℤ pos 0 ≡ pos t =
      grind (arith, -ℤ_parts (pos t) (pos 0), eq_of_parts (pos t -ℤ pos 0) (pos t)) in
    let (c, converted, h1) = >>=-eq-ok (or_invalid (in_range (pos t -ℤ pos 0))) _ h in
    let (_, _, h2) = >>=-eq-ok (raise_if (not (c == t)) validation) _ h1 in
    let e : c ≡ u = cc h2 in
    sym e ∙ in_range-eq t c (subst (λ (z : ℤ). or_invalid (in_range z) ≡ ok c) same converted)

canonical_utc : (t u : ℕ) → canonical_time (utc_at t) ≡ ok u → u ≡ t
unfolding canonical_time
canonical_utc t u h =
    let (c, converted, h1) = >>=-eq-ok (as_utc (utc_at t)) _ h in
    let e : c ≡ u = cc h1 in sym e ∙ as_utc_utc t c converted

-- `interval` keeps the instants of its two datetimes.
pub interval_utc :
    (s e minutes : ℕ) (se : ℕ × ℕ)
    → interval (utc_at s) (utc_at e) minutes ≡ ok se
    → (se.0 ≡ s) × (se.1 ≡ e)
unfolding interval
interval_utc s e minutes se h =
    let (a, ha, h1) = >>=-eq-ok (canonical_time (utc_at s)) _ h in
    let (b, hb, h2) = >>=-eq-ok (canonical_time (utc_at e)) _ h1 in
    let (_, _, h3) = >>=-eq-ok (raise_if (not (b == a + minutes * 60000000)) validation) _ h2 in
    let (_, _, h4) =
      >>=-eq-ok
        (raise_if
          (not (a / 1000000 % 60 == 0)
            || not (a % 1000000 == 0)
            || not (a / 60000000 % 60 % minutes == 0))
          validation)
        _ h3 in
    let first : a ≡ se.0 = cc h4 in
    let second : b ≡ se.1 = cc h4 in
    (sym first ∙ canonical_utc s a ha, sym second ∙ canonical_utc e b hb)
