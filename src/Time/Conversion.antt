-- ===== src/Time/Conversion.antt =====
-- What `as_utc` guarantees.
use power_market_data_platfo.Base.{
  ℕ, ◌<◌, ◌≡◌, arith, Bool, true, Option, none, some, ℤ, ok, >>=-eq-ok, raise_if, ◌-ℤ◌, pos, not,
  ap, sym, subst, ◌∙◌, negsuc, eq_of_parts, ◌==◌,
}
use power_market_data_platfo.Errors.{validation}
use power_market_data_platfo.Time.{
  Datetime, Zone, zone_rules, as_utc, instant_limit, or_invalid, in_range, same_offset,
}

valid_some : {A : Type 0} (o : Option A) (a : A) → or_invalid o ≡ ok a → o ≡ some a
valid_some none a h = cc h
valid_some (some b) a h = cc h

range_bound : (i : ℤ) (n : ℕ) → or_invalid (in_range i) ≡ ok n → n < instant_limit
range_bound (pos m) n h = ground (arith, h)
range_bound (negsuc m) n h = cc h

offset_some : (p : Option ℤ) (o : ℤ) → same_offset p o ≡ true → p ≡ some o
offset_some none o h = cc h
offset_some (some p) o h = ap some (eq_of_parts p o (ground (arith, h)))

-- An accepted timestamp is aware, and its instant converts back: its zone shows at that instant the
-- same wall time at the same offset from UTC, and the instant lies before the year 10000.
pub as_utc-fromutc :
    (value : Datetime) (t : ℕ)
    → as_utc value ≡ ok t
    → (z : Zone) × (fold : Bool) × (value.tzinfo ≡ some z)
      × ((zone_rules z).fromutc t ≡ some (value.wall, fold))
      × ((zone_rules z).utcoffset value.wall fold ≡ (zone_rules z).utcoffset value.wall value.fold)
      × (t < instant_limit)
unfolding as_utc
as_utc-fromutc value t e =
    let (z, aware, e1) = >>=-eq-ok (or_invalid value.tzinfo) _ e in
    let (o, offset, e2) =
      >>=-eq-ok (or_invalid ((zone_rules z).utcoffset value.wall value.fold)) _ e1 in
    let (u, converted, e3) = >>=-eq-ok (or_invalid (in_range (pos value.wall -ℤ o))) _ e2 in
    let (back, shown, e4) = >>=-eq-ok (or_invalid ((zone_rules z).fromutc u)) _ e3 in
    let (_, wall, e5) = >>=-eq-ok (raise_if (not (back.0 == value.wall)) validation) _ e4 in
    let (_, kept, e6) =
      >>=-eq-ok (raise_if (not (same_offset ((zone_rules z).utcoffset back.0 back.1) o)) validation)
        _ e5 in
    let same : u ≡ t = cc e6 in
    let at : (zone_rules z).fromutc t ≡ some back =
      subst (λ x. (zone_rules z).fromutc x ≡ some back) same (valid_some _ back shown) in
    let wall' : back.0 ≡ value.wall = ground (arith, wall) in
    (
      z,
      back.1,
      valid_some value.tzinfo z aware,
      at ∙ ap (λ w. some (w, back.1)) wall',
      ap (λ w. (zone_rules z).utcoffset w back.1) (sym wall')
          ∙ offset_some ((zone_rules z).utcoffset back.0 back.1) o (ground (arith, kept))
          ∙ sym (valid_some _ o offset),
      subst (λ x. x < instant_limit) same (range_bound (pos value.wall -ℤ o) u converted),
    )
