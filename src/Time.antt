-- ===== src/Time.antt =====
-- time.py: aware timestamps and their conversion to UTC. An instant counts the microseconds from
-- 0001-01-01T00:00 UTC, a date the days from 0001-01-01, a wall time the microseconds on a local
-- clock; all are bounded by the year 9999. Zone data is no part of the repository: a zone is its
-- two functions.
pub mod Calendar
pub mod Conversion
use power_market_data_platfo.Base.{
  ℕ, ◌+◌, ◌-◌, ◌*◌, ◌/◌, ◌%◌, Bool, true, false, ◌||◌, not, Option, none, some, ltb, ◌==◌, eq_ℤ, ℤ,
  pos, pos_part, neg_part, ◌-ℤ◌, if◌then◌else◌, Text, [], ◌∷◌, ◌++◌, Result, ok, err, ◌>>=◌, ◌>>◌,
  raise_if,
}
use power_market_data_platfo.Errors.{Error, validation}
use Calendar.{date_text, pad, microseconds_per_day}

-- The rules of a `tzinfo`: the offset of a wall time, and the wall time and `fold` of an instant.
-- `none` stands for an offset of None, and for an overflow of the range of datetimes.
pub record ZoneRules : Type 0 where
  pub utcoffset : ℕ → Bool → Option ℤ
  pub fromutc : ℕ → Option (ℕ × Bool)

-- `datetime.UTC`, or another zone.
pub data Zone : Type 0 where
  utc : Zone
  zone : ZoneRules → Zone

pub record Datetime : Type 0 where
  pub wall : ℕ
  pub fold : Bool
  pub tzinfo : Option Zone

-- datetime.max is the last microsecond of the year 9999.
abbrev pub instant_limit : ℕ
instant_limit = 3652059 * 86400000000

abbrev pub zone_rules : Zone → ZoneRules
zone_rules utc = record { utcoffset = λ w f. some (pos 0); fromutc = λ u. some (u, false) }
zone_rules (zone r) = r

abbrev pub in_range : ℤ → Option ℕ
in_range (pos n) = if ltb n instant_limit then some n else none
in_range _ = none

abbrev pub or_invalid : {A : Type 0} → Option A → Result Error A
or_invalid none = err validation
or_invalid (some a) = ok a

abbrev pub same_offset : Option ℤ → ℤ → Bool
same_offset none o = false
same_offset (some p) o = eq_ℤ p o

-- `as_utc`: the instant of an aware datetime. Naive values, wall times that the zone skips, and
-- offsets that do not survive the round trip are refused.
unfoldable pub as_utc : Datetime → Result Error ℕ
as_utc value = do
  tz ← or_invalid value.tzinfo
  let rules = zone_rules tz
  offset ← or_invalid (rules.utcoffset value.wall value.fold)
  converted ← or_invalid (in_range (pos value.wall -ℤ offset))
  back ← or_invalid (rules.fromutc converted)
  raise_if (not (back.0 == value.wall)) validation
  raise_if (not (same_offset (rules.utcoffset back.0 back.1) offset)) validation
  ok converted

-- `utc_text` of an instant that `as_utc` has returned.
unfoldable pub utc_text : ℕ → Text
utc_text t =
    let seconds = t / 1000000 in
    date_text (t / microseconds_per_day)
    ++ (b'T' ∷ pad 2 (seconds / 3600 % 24))
    ++ (b':' ∷ pad 2 (seconds / 60 % 60))
    ++ (b':' ∷ pad 2 (seconds % 60))
    ++ (b'.' ∷ pad 6 (t % 1000000))
    ++ (b'Z' ∷ [])
