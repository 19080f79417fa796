-- ===== src/Tests/Batches.antt =====
-- The theorems on identities, times, observations and batches at concrete inputs.
use power_market_data_platfo.Base.{
  true, ◌*◌, ◌^◌, IsSorted, ℕ, ◌+◌, ◌≤◌, ◌<◌, ◌≡◌, refl, false, Bool, List, [], ◌∷◌, none, some,
  length, Text, codes, Dict, ok, err, Result, pos, if◌then◌else◌, ◌==◌, ◌-ℤ◌,
}
use power_market_data_platfo.Errors.{Error}
use power_market_data_platfo.Time.{utc_text, Datetime, Zone, zone_rules, as_utc, instant_limit}
use power_market_data_platfo.Time.Calendar.{date_text}
use power_market_data_platfo.Time.Conversion.{as_utc-fromutc}
use power_market_data_platfo.Identity.{digest}
use power_market_data_platfo.Identity.Decimal.{Decimal, finite, signed, decimal_text}
use power_market_data_platfo.Identity.Decimal.Integers.{read_integer, decimal_text-integer}
use power_market_data_platfo.Identity.Json.{dumps, sort_keys}
use power_market_data_platfo.Identity.Json.Injective.{IsBasicDict, basic, dumps_injective}
use power_market_data_platfo.Identity.Digest.{payload, digest_injective}
use power_market_data_platfo.Domain.{
  Provenance, LmpObservation, LoadObservation, Observation, lmp_observation, load_observation,
  content_fields, content_hash, logical_key,
}
use power_market_data_platfo.Domain.Intervals.{
  IsHourly, IsFiveMinute, lmp_observation-IsHourly, load_observation-IsFiveMinute,
}
use power_market_data_platfo.Warehouse.Request.{Product, Request}
use power_market_data_platfo.Warehouse.Tables.{Row}
use power_market_data_platfo.Warehouse.Batch.{row_le, batch_rows, numeric}
use power_market_data_platfo.Warehouse.Batch.Rows.{batch_rows-IsBatch}
use power_market_data_platfo.Warehouse.Records.{IsBatch}
use power_market_data_platfo.Warehouse.Identifiers.{transition_id_injective, content_id_injective}
use power_market_data_platfo.Tests.Hash.{encode, encode-IsCollisionFree}

abbrev utc_at : ℕ → Datetime
utc_at t = record { wall = t; fold = false; tzinfo = some Zone.utc }

accepted : as_utc (utc_at 7200000000) ≡ ok 7200000000
unfolding as_utc ◌-ℤ◌
accepted = refl

as_utc-fromutc_example :
    (z : Zone) × (fold : Bool) × (some Zone.utc ≡ some z)
    × ((zone_rules z).fromutc 7200000000 ≡ some (7200000000, fold))
    × ((zone_rules z).utcoffset 7200000000 fold ≡ (zone_rules z).utcoffset 7200000000 false)
    × (7200000000 < instant_limit)
as_utc-fromutc_example = as_utc-fromutc (utc_at 7200000000) 7200000000 accepted

abbrev origin : Provenance
origin = record {
  retrieved_at_utc = 7200000000;
  source_url = codes "url";
  source_method = codes "method";
  library_version = codes "1";
}

abbrev number : ℕ → Decimal
number c = finite false c (pos 0)

abbrev price : LmpObservation
price = record {
  location = codes "TH_NP15_GEN-APND";
  interval_start_utc = 3600000000;
  interval_end_utc = 7200000000;
  lmp = number 42;
  energy = number 40;
  congestion = number 1;
  loss = number 1;
  provenance = origin;
}

price_accepted :
    lmp_observation
      (codes "TH_NP15_GEN-APND")
      (utc_at 3600000000)
      (utc_at 7200000000)
      (number 42)
      (number 40)
      (number 1)
      (number 1)
      origin
    ≡ ok price
unfolding lmp_observation as_utc ◌-ℤ◌
price_accepted = refl

lmp_observation-IsHourly_example : IsHourly price
lmp_observation-IsHourly_example =
    lmp_observation-IsHourly (codes "TH_NP15_GEN-APND") (utc_at 3600000000) (utc_at 7200000000)
      (number 42) (number 40) (number 1) (number 1) origin price price_accepted

abbrev demand : ℕ → LoadObservation
demand start = record {
  interval_start_utc = start;
  interval_end_utc = start + 300000000;
  load = number 20000;
  provenance = origin;
}

demand_accepted :
    load_observation (utc_at 300000000) (utc_at 600000000) (number 20000) origin
    ≡ ok (demand 300000000)
unfolding load_observation as_utc ◌-ℤ◌
demand_accepted = refl

load_observation-IsFiveMinute_example : IsFiveMinute (demand 300000000)
load_observation-IsFiveMinute_example =
    load_observation-IsFiveMinute (utc_at 300000000) (utc_at 600000000) (number 20000) origin
      (demand 300000000) demand_accepted

abbrev member : Dict Text
member = (codes "a", codes "b\"") ∷ []

member-IsBasicDict : IsBasicDict member
member-IsBasicDict = ((basic (codes "a") refl, basic (codes "b\"") refl), tt)

-- Two members, in both orders.
abbrev forwards : Dict Text
forwards = (codes "a", codes "1") ∷ (codes "b", codes "2") ∷ []

abbrev backwards : Dict Text
backwards = (codes "b", codes "2") ∷ (codes "a", codes "1") ∷ []

same_text : dumps forwards ≡ dumps backwards
unfolding dumps
same_text = refl

dumps_injective_example : sort_keys forwards ≡ sort_keys backwards
dumps_injective_example =
    dumps_injective forwards backwards
      (
        (basic (codes "a") refl, basic (codes "1") refl),
        ((basic (codes "b") refl, basic (codes "2") refl), tt),
      )
      (
        (basic (codes "b") refl, basic (codes "2") refl),
        ((basic (codes "a") refl, basic (codes "1") refl), tt),
      )
      same_text

payload-IsBasicDict : IsBasicDict (payload (codes "n") member)
payload-IsBasicDict = ((basic (codes "schema") refl, basic (codes "n") refl), member-IsBasicDict)

digest_injective_example :
    sort_keys (payload (codes "n") member) ≡ sort_keys (payload (codes "n") member)
digest_injective_example =
    digest_injective encode encode-IsCollisionFree (codes "n") (codes "n") member member
      payload-IsBasicDict payload-IsBasicDict refl

transition_id_injective_example : (codes "r" ≡ codes "r") × (codes "k" ≡ codes "k")
transition_id_injective_example =
    transition_id_injective encode encode-IsCollisionFree (codes "r") (codes "k") (codes "r")
      (codes "k") (basic (codes "r") refl, basic (codes "k") refl)
      (basic (codes "r") refl, basic (codes "k") refl) refl

content_id_injective_example : (codes "k" ≡ codes "k") × (codes "h" ≡ codes "h")
content_id_injective_example =
    content_id_injective encode encode-IsCollisionFree (codes "k") (codes "h") (codes "k")
      (codes "h") (basic (codes "k") refl, basic (codes "h") refl)
      (basic (codes "k") refl, basic (codes "h") refl) refl

abbrev midnight : ℕ → ℕ
midnight d = if d == 0 then 0 else 86400000000

abbrev load_day : Request
load_day = record { product = Product.load; day = 0; location = none }

abbrev observations : List Observation
observations = Observation.load (demand 300000000) ∷ Observation.load (demand 0) ∷ []

abbrev rows_or : Result Error (List Row) → List Row
rows_or (ok rs) = rs
rows_or (err e) = []

abbrev two_rows : List Row
two_rows = rows_or (batch_rows encode midnight load_day observations)

two_accepted : batch_rows encode midnight load_day observations ≡ ok two_rows
unfolding batch_rows content_hash content_fields decimal_text numeric logical_key digest dumps
    utc_text date_text
two_accepted = refl

batch_rows-IsBatch_example :
    IsBatch encode (λ key. 0) 0 two_rows
    × IsSorted row_le two_rows
    × (length two_rows ≡ 2)
    × (length two_rows ≤ 300)
batch_rows-IsBatch_example =
    batch_rows-IsBatch encode encode-IsCollisionFree midnight (λ key. 0) load_day observations
      two_rows (refl, (refl, tt)) two_accepted

hundreds_written : decimal_text (finite true 42 (pos 2)) ≡ ok (codes "-4200")
unfolding decimal_text
hundreds_written = refl

decimal_text-integer_example : read_integer (codes "-4200") ≡ signed true (42 * 10 ^ 2)
decimal_text-integer_example = decimal_text-integer true 42 2 (codes "-4200") hundreds_written
