-- ===== src/Sources/Caiso/Instants.antt =====
-- sources/caiso.py: the instants of a row in the observation that is made of it.
use power_market_data_platfo.Base.{
  ℕ, ◌≡◌, ap, subst, not, ◌==◌, arith, Dict, ok, raise_if, >>=-eq-ok, codes,
}
use power_market_data_platfo.Errors.{validation}
use power_market_data_platfo.Time.{Datetime, as_utc}
use power_market_data_platfo.Sources.Frame.{
  Value, null, other, huge, flag, number, text, moment, field,
}
use power_market_data_platfo.Sources.Caiso.{times, timestamp_of}

-- The cell is a datetime in whole microseconds, of that instant.
abbrev pub IsMoment : Value → ℕ → Type 0
IsMoment v t = (d : Datetime) × (v ≡ moment d 0) × (as_utc d ≡ ok t)

timestamp-IsMoment : (v : Value) (t : ℕ) → timestamp_of v ≡ ok t → IsMoment v t
unfolding timestamp_of
timestamp-IsMoment (moment d n) t h =
    let (_, whole, h1) = >>=-eq-ok (raise_if (not (n == 0)) validation) _ h in
    let zero_ns : n ≡ 0 = ground (arith, whole) in (d, ap (moment d) zero_ns, h1)
timestamp-IsMoment (number x) t h = cc h
timestamp-IsMoment null t h = cc h
timestamp-IsMoment other t h = cc h
timestamp-IsMoment huge t h = cc h
timestamp-IsMoment (flag b) t h = cc h
timestamp-IsMoment (text s) t h = cc h

pub times-IsMoment :
    (row : Dict Value) (se : ℕ × ℕ)
    → times row ≡ ok se
    → IsMoment (field row (codes "Interval Start")) se.0
      × IsMoment (field row (codes "Interval End")) se.1
unfolding times
times-IsMoment row se h =
    let (s, hs, h1) = >>=-eq-ok (timestamp_of (field row (codes "Interval Start"))) _ h in
    let (e, he, h2) = >>=-eq-ok (timestamp_of (field row (codes "Interval End"))) _ h1 in
    let (l, _, h3) = >>=-eq-ok (timestamp_of (field row (codes "Time"))) _ h2 in
    let (_, _, h4) = >>=-eq-ok (raise_if (not (l == s)) validation) _ h3 in
    let first : s ≡ se.0 = cc h4 in
    let second : e ≡ se.1 = cc h4 in
    (
      subst (IsMoment (field row (codes "Interval Start"))) first
          (timestamp-IsMoment (field row (codes "Interval Start")) s hs),
      subst (IsMoment (field row (codes "Interval End"))) second
          (timestamp-IsMoment (field row (codes "Interval End")) e he),
    )
