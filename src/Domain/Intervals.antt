-- ===== src/Domain/Intervals.antt =====
-- The intervals of accepted observations.
use power_market_data_platfo.Base.{
  ℕ, ◌+◌, ◌*◌, ◌/◌, ◌%◌, ◌<◌, ◌≤◌, ◌≡◌, subst, arith, true, not, ◌&&◌, ◌||◌, ◌==◌, contains, Text,
  ok, raise_if, >>=-eq-ok,
}
use power_market_data_platfo.Errors.{validation}
use power_market_data_platfo.Time.{Datetime}
use power_market_data_platfo.Identity.Decimal.{Decimal, is_finite}
use power_market_data_platfo.Domain.{
  interval, canonical_time, Provenance, LmpObservation, LoadObservation, lmp_observation,
  load_observation, is_negative, trading_hubs, require_finite,
}

-- The result of `interval` is as long as asked and starts on a whole minute of that step.
interval_aligned :
    (start end : Datetime) (minutes s e : ℕ)
    → interval start end minutes ≡ ok (s, e)
    → (e ≡ s + minutes * 60000000)
      × (s / 1000000 % 60 ≡ 0)
      × (s % 1000000 ≡ 0)
      × (s / 60000000 % 60 % minutes ≡ 0)
unfolding interval
interval_aligned start end minutes s e h =
    let (s', _, h1) = >>=-eq-ok (canonical_time start) _ h in
    let (e', _, h2) = >>=-eq-ok (canonical_time end) _ h1 in
    let (_, long, h3) =
      >>=-eq-ok (raise_if (not (e' == s' + minutes * 60000000)) validation) _ h2 in
    let (_, aligned, h4) =
      >>=-eq-ok
        (raise_if
          (not (s' / 1000000 % 60 == 0)
            || not (s' % 1000000 == 0)
            || not (s' / 60000000 % 60 % minutes == 0))
          validation)
        _ h3 in
    ground (arith, long, aligned, h4)

hour_start :
    (s : ℕ)
    → s / 1000000 % 60 ≡ 0
    → s % 1000000 ≡ 0
    → s / 60000000 % 60 % 60 ≡ 0
    → s % 3600000000 ≡ 0
hour_start s a b c = omega arith

five_minute_start :
    (s : ℕ) → s / 1000000 % 60 ≡ 0 → s % 1000000 ≡ 0 → s / 60000000 % 60 % 5 ≡ 0 → s % 300000000 ≡ 0
five_minute_start s a b c = omega arith

-- An hourly price: of a trading hub, over one whole hour of UTC, of finite numbers.
pub record IsHourly (r : LmpObservation) : Type 0 where
  pub hub : contains r.location trading_hubs ≡ true
  pub aligned : r.interval_start_utc % 3600000000 ≡ 0
  pub lasting : r.interval_end_utc ≡ r.interval_start_utc + 3600000000
  pub finite :
      (is_finite r.lmp && is_finite r.energy && is_finite r.congestion && is_finite r.loss) ≡ true

-- A system load: over five whole minutes of UTC, finite.
pub record IsFiveMinute (r : LoadObservation) : Type 0 where
  pub aligned : r.interval_start_utc % 300000000 ≡ 0
  pub lasting : r.interval_end_utc ≡ r.interval_start_utc + 300000000
  pub finite : is_finite r.load ≡ true

finite_of : (d : Decimal) → require_finite d ≡ ok tt → is_finite d ≡ true
unfolding require_finite
finite_of d h = ground (arith, h)

-- A price observation that is accepted is of a trading hub, over one whole hour of UTC, and of
-- finite numbers.
pub lmp_observation-IsHourly :
    (location : Text) (start end : Datetime) (lmp energy congestion loss : Decimal) (p : Provenance)
    (r : LmpObservation)
    → lmp_observation location start end lmp energy congestion loss p ≡ ok r
    → IsHourly r
unfolding lmp_observation
lmp_observation-IsHourly location start end lmp energy congestion loss p r h =
    let (_, hub, h1) = >>=-eq-ok (raise_if (not (contains location trading_hubs)) validation) _ h in
    let (se, made, h2) = >>=-eq-ok (interval start end 60) _ h1 in
    let (_, f1, h3) = >>=-eq-ok (require_finite lmp) _ h2 in
    let (_, f2, h4) = >>=-eq-ok (require_finite energy) _ h3 in
    let (_, f3, h5) = >>=-eq-ok (require_finite congestion) _ h4 in
    let (_, f4, same) = >>=-eq-ok (require_finite loss) _ h5 in
    let (long, minute, whole, hour) = interval_aligned start end 60 se.0 se.1 made in
    let made_r : record {
      location = location;
      interval_start_utc = se.0;
      interval_end_utc = se.1;
      lmp = lmp;
      energy = energy;
      congestion = congestion;
      loss = loss;
      provenance = p;
    }
        ≡ r =
      cc same in
    subst IsHourly made_r (record {
      hub = ground (arith, hub);
      aligned = hour_start se.0 minute whole hour;
      lasting = omega (arith, long);
      finite = ground (
        arith,
        finite_of lmp f1,
        finite_of energy f2,
        finite_of congestion f3,
        finite_of loss f4,
      );
    })

-- A load observation that is accepted covers five whole minutes and is finite.
pub load_observation-IsFiveMinute :
    (start end : Datetime) (load : Decimal) (p : Provenance) (r : LoadObservation)
    → load_observation start end load p ≡ ok r
    → IsFiveMinute r
unfolding load_observation
load_observation-IsFiveMinute start end load p r h =
    let (se, made, h1) = >>=-eq-ok (interval start end 5) _ h in
    let (_, f, h2) = >>=-eq-ok (require_finite load) _ h1 in
    let (_, _, same) = >>=-eq-ok (raise_if (is_negative load) validation) _ h2 in
    let (long, minute, whole, five) = interval_aligned start end 5 se.0 se.1 made in
    let made_r : record {
      interval_start_utc = se.0;
      interval_end_utc = se.1;
      load = load;
      provenance = p;
    }
        ≡ r =
      cc same in
    subst IsFiveMinute made_r (record {
      aligned = five_minute_start se.0 minute whole five;
      lasting = omega (arith, long);
      finite = finite_of load f;
    })

-- The hours of two price observations are the same or do not overlap.
pub hours_apart :
    (r q : LmpObservation)
    → IsHourly r
    → IsHourly q
    → r.interval_start_utc < q.interval_start_utc
    → r.interval_end_utc ≤ q.interval_start_utc
hours_apart r q h k lt = omega (arith, h.aligned, k.aligned, h.lasting, k.lasting)
