-- ===== src/Domain.antt =====
-- domain.py: validated observations. A constructor here is the dataclass with its `__post_init__`;
-- class attributes with `init=False` are constants. The keyword arguments are positional.
pub mod Intervals
pub mod Hashes
pub mod Instants
use power_market_data_platfo.Base.{
  ℕ, ◌+◌, ◌*◌, ◌/◌, ◌%◌, Bool, true, false, ◌&&◌, ◌||◌, not, List, [], ◌∷◌, ◌++◌, some, ltb, ◌==◌,
  if◌then◌else◌, Text, codes, contains, Dict, insert, merge, Result, ok, err, ◌>>=◌, ◌>>◌, raise_if,
}
use power_market_data_platfo.Errors.{Error, validation}
use power_market_data_platfo.Time.{Datetime, Zone, as_utc, utc_text}
use power_market_data_platfo.Identity.{digest}
use power_market_data_platfo.Identity.Decimal.{Decimal, finite, is_finite, decimal_text}

abbrev pub trading_hubs : List Text
trading_hubs = codes "TH_NP15_GEN-APND" ∷ codes "TH_SP15_GEN-APND" ∷ codes "TH_ZP26_GEN-APND" ∷ []

abbrev pub is_utc : Datetime → Bool
is_utc value = elim value.tzinfo [ some z ↦ (elim z [ Zone.utc ↦ true | _ ↦ false ]) | _ ↦ false ]

-- `_canonical_time`; its result is the instant that the accepted value denotes.
pub canonical_time : Datetime → Result Error ℕ
canonical_time value = do t ← as_utc value; raise_if (not (is_utc value)) validation; ok t

-- `_interval`, for a duration in whole minutes.
pub interval : Datetime → Datetime → ℕ → Result Error (ℕ × ℕ)
unfolding canonical_time
interval start end minutes = do
  s ← canonical_time start
  e ← canonical_time end
  raise_if (not (e == s + minutes * 60000000)) validation
  raise_if
      (not (s / 1000000 % 60 == 0)
        || not (s % 1000000 == 0)
        || not (s / 60000000 % 60 % minutes == 0))
      validation
  ok (s, e)

-- `_finite`.
pub require_finite : Decimal → Result Error (Unit {0})
require_finite value = raise_if (not (is_finite value)) validation

abbrev pub is_empty : Text → Bool
is_empty [] = true
is_empty _ = false

pub record Provenance : Type 0 where
  pub retrieved_at_utc : ℕ
  pub source_url : Text
  pub source_method : Text
  pub library_version : Text

unfoldable pub provenance : Datetime → Text → Text → Text → Result Error Provenance
unfolding canonical_time
provenance retrieved url method version = do
  t ← canonical_time retrieved
  raise_if (is_empty url || is_empty method || is_empty version) validation
  ok (record {
    retrieved_at_utc = t;
    source_url = url;
    source_method = method;
    library_version = version;
  })

pub record LmpObservation : Type 0 where
  pub location : Text
  pub interval_start_utc : ℕ
  pub interval_end_utc : ℕ
  pub lmp : Decimal
  pub energy : Decimal
  pub congestion : Decimal
  pub loss : Decimal
  pub provenance : Provenance

pub record LoadObservation : Type 0 where
  pub interval_start_utc : ℕ
  pub interval_end_utc : ℕ
  pub load : Decimal
  pub provenance : Provenance

unfoldable pub lmp_observation :
    Text
    → Datetime
    → Datetime
    → Decimal
    → Decimal
    → Decimal
    → Decimal
    → Provenance
    → Result Error LmpObservation
unfolding interval require_finite
lmp_observation location start end lmp energy congestion loss p = do
  raise_if (not (contains location trading_hubs)) validation
  (s, e) ← interval start end 60
  require_finite lmp
  require_finite energy
  require_finite congestion
  require_finite loss
  ok (record {
    location = location;
    interval_start_utc = s;
    interval_end_utc = e;
    lmp = lmp;
    energy = energy;
    congestion = congestion;
    loss = loss;
    provenance = p;
  })

-- `value < 0` of a finite decimal: a negative zero is no negative value.
abbrev pub is_negative : Decimal → Bool
is_negative (finite neg c e) = neg && not (c == 0)
is_negative _ = false

unfoldable pub load_observation :
    Datetime → Datetime → Decimal → Provenance → Result Error LoadObservation
unfolding interval require_finite
load_observation start end load p = do
  (s, e) ← interval start end 5
  require_finite load
  raise_if (is_negative load) validation
  ok (record { interval_start_utc = s; interval_end_utc = e; load = load; provenance = p })

-- `type Observation`.
pub data Observation : Type 0 where
  lmp : LmpObservation → Observation
  load : LoadObservation → Observation

abbrev pub interval_start : Observation → ℕ
interval_start (lmp r) = r.interval_start_utc
interval_start (load r) = r.interval_start_utc

abbrev pub interval_end : Observation → ℕ
interval_end (lmp r) = r.interval_end_utc
interval_end (load r) = r.interval_end_utc

abbrev pub provenance_of : Observation → Provenance
provenance_of (lmp r) = r.provenance
provenance_of (load r) = r.provenance

-- `identity_fields` of both classes.
unfoldable pub identity_fields : Observation → Dict Text
identity_fields (lmp r) =
    (codes "source", codes "CAISO")
    ∷ (codes "product", codes "day_ahead_hourly_lmp")
    ∷ (codes "market", codes "DAY_AHEAD_HOURLY")
    ∷ (codes "location", r.location)
    ∷ (codes "interval_start_utc", utc_text r.interval_start_utc)
    ∷ (codes "interval_end_utc", utc_text r.interval_end_utc)
    ∷ []
identity_fields (load r) =
    (codes "source", codes "CAISO")
    ∷ (codes "product", codes "system_load_5min")
    ∷ (codes "area", codes "CAISO")
    ∷ (codes "interval_start_utc", utc_text r.interval_start_utc)
    ∷ (codes "interval_end_utc", utc_text r.interval_end_utc)
    ∷ []

-- The unit and the values that `content_fields` adds.
pub value_fields : Observation → Result Error (Dict Text)
value_fields (lmp r) = do
  price ← decimal_text r.lmp
  energy ← decimal_text r.energy
  congestion ← decimal_text r.congestion
  loss ← decimal_text r.loss
  ok (
      (codes "unit", codes "USD/MWh")
      ∷ (codes "lmp", price)
      ∷ (codes "energy", energy)
      ∷ (codes "congestion", congestion)
      ∷ (codes "loss", loss)
      ∷ [])
value_fields (load r) = do
  demand ← decimal_text r.load
  ok ((codes "unit", codes "MW") ∷ (codes "load", demand) ∷ [])

-- `content_fields` of both classes.
unfoldable pub content_fields : Observation → Result Error (Dict Text)
unfolding value_fields identity_fields
content_fields r = do values ← value_fields r; ok (merge (identity_fields r) values)

module _ (sha256 : Text → Text) where
  unfoldable pub logical_key : Observation → Text
  logical_key r = digest sha256 (codes "observation-key/v1") (identity_fields r)

  unfoldable pub content_hash : Observation → Result Error Text
  content_hash r = do
    fields ← content_fields r
    ok (digest sha256 (codes "observation-content/v1") fields)
