-- ===== src/Domain/Hashes.antt =====
-- An observation of finite numbers has a content hash.
use power_market_data_platfo.Base.{
  ◌≡◌, refl, Bool, true, false, ◌&&◌, arith, Text, Result, ok, err, Succeeds, >>=-Succeeds,
}
use power_market_data_platfo.Identity.Decimal.{
  Decimal, finite, infinite, nan, is_finite, decimal_text,
}
use power_market_data_platfo.Domain.{
  Observation, LmpObservation, LoadObservation, content_fields, content_hash, value_fields,
}
use power_market_data_platfo.Domain.Intervals.{IsHourly, IsFiveMinute}

abbrev is_ok : {E A : Type 0} → Result E A → Bool
is_ok (ok a) = true
is_ok (err e) = false

is_ok-Succeeds : {E A : Type 0} (m : Result E A) → is_ok m ≡ true → Succeeds m
is_ok-Succeeds (ok a) h = (a, refl)
is_ok-Succeeds (err e) h = absurd (cc h)

decimal_text-Succeeds : (d : Decimal) → is_finite d ≡ true → Succeeds (decimal_text d)
unfolding decimal_text
decimal_text-Succeeds (finite neg c e) h =
    is_ok-Succeeds (decimal_text (finite neg c e)) (ground arith)
decimal_text-Succeeds (infinite neg) h = absurd (cc h)
decimal_text-Succeeds nan h = absurd (cc h)

lmp_values-Succeeds :
    (r : LmpObservation)
    → (is_finite r.lmp && is_finite r.energy && is_finite r.congestion && is_finite r.loss) ≡ true
    → Succeeds (value_fields (Observation.lmp r))
unfolding value_fields
lmp_values-Succeeds r h =
    >>=-Succeeds _ _ (decimal_text-Succeeds r.lmp (ground (arith, h))) λ price _.
      >>=-Succeeds _ _ (decimal_text-Succeeds r.energy (ground (arith, h))) λ energy _.
        >>=-Succeeds _ _ (decimal_text-Succeeds r.congestion (ground (arith, h))) λ congestion _.
          >>=-Succeeds _ _ (decimal_text-Succeeds r.loss (ground (arith, h))) λ loss _. (_, refl)

load_values-Succeeds :
    (r : LoadObservation) → is_finite r.load ≡ true → Succeeds (value_fields (Observation.load r))
unfolding value_fields
load_values-Succeeds r h = >>=-Succeeds _ _ (decimal_text-Succeeds r.load h) λ demand _. (_, refl)

module _ (sha256 : Text → Text) where
  hash-Succeeds : (r : Observation) → Succeeds (value_fields r) → Succeeds (content_hash sha256 r)
  unfolding content_hash content_fields
  hash-Succeeds r h =
      >>=-Succeeds _ _ (>>=-Succeeds (value_fields r) _ h λ values _. (_, refl))
        λ fields _. (_, refl)

  pub hourly-hash :
      (r : LmpObservation) → IsHourly r → Succeeds (content_hash sha256 (Observation.lmp r))
  hourly-hash r h = hash-Succeeds (Observation.lmp r) (lmp_values-Succeeds r h.finite)

  pub five_minute-hash :
      (r : LoadObservation) → IsFiveMinute r → Succeeds (content_hash sha256 (Observation.load r))
  five_minute-hash r h = hash-Succeeds (Observation.load r) (load_values-Succeeds r h.finite)
