-- ===== src/Sources/Caiso/Records.antt =====
-- The records that a normalization returns: each is what its constructor guarantees, and no two
-- have one key.
use power_market_data_platfo.Base.{
  ℕ, ◌≡◌, refl, subst, Bool, true, false, List, [], ◌∷◌, arith, length, All, All-map, Pairwise,
  sort_by, sort_by-All, sort_by-Pairwise, sort_by-IsSorted, length-sort_by, IsSorted, Text, text_eq,
  text_eq_iff, contains, Dict, Result, ok, raise_if, >>=-eq-ok,
}
use power_market_data_platfo.Errors.{Error, validation}
use power_market_data_platfo.Sources.Frame.{Value}
use power_market_data_platfo.Sources.Caiso.{keyed_records}

module _ {R : Type 0} (key : R → Text) where
  abbrev pub Differ : R → R → Type 0
  Differ r q = text_eq (key r) (key q) ≡ false

  first_fresh :
      (k : Text) (seen : List Text) (q : R)
      → contains (key q) (k ∷ seen) ≡ false
      → text_eq k (key q) ≡ false
  first_fresh k seen q h = ground (arith, h)

  rest_fresh :
      (k : Text) (seen : List Text) (q : R)
      → contains (key q) (k ∷ seen) ≡ false
      → contains (key q) seen ≡ false
  rest_fresh k seen q h = ground (arith, h)

  Differ_symm : (r q : R) → Differ r q → Differ q r
  Differ_symm r q h = ground (arith, h, text_eq_iff (key r) (key q), text_eq_iff (key q) (key r))

  -- What the loop returns, after the keys `seen`.
  pub record AreKeyed (P : R → Type 0) (seen : List Text) (count : ℕ) (rs : List R) : Type 0 where
    pub each : All P rs
    pub distinct : Pairwise Differ rs
    pub fresh : All (λ r. contains (key r) seen ≡ false) rs
    pub counted : length rs ≡ count

  -- Of two neighbours the first comes before the second.
  abbrev pub AreInOrder : (R → R → Type 0) → List R → Type 0
  AreInOrder Before [] = Unit
  AreInOrder Before (r ∷ []) = Unit
  AreInOrder Before (r ∷ q ∷ rs) = Before r q × AreInOrder Before (q ∷ rs)

  IsSorted-AreInOrder :
      (le : R → R → Bool) (Before : R → R → Type 0)
      → ((r q : R) → le r q ≡ true → Before r q)
      → (rs : List R) → IsSorted le rs
      → AreInOrder Before rs
  IsSorted-AreInOrder le Before means [] h = tt
  IsSorted-AreInOrder le Before means (r ∷ []) h = tt
  IsSorted-AreInOrder le Before means (r ∷ q ∷ rs) h =
      (means r q h.0, IsSorted-AreInOrder le Before means (q ∷ rs) h.1)

  -- The records, sorted.
  pub record AreSorted (P : R → Type 0) (Before : R → R → Type 0) (rs : List R) : Type 0 where
    pub each : All P rs
    pub distinct : Pairwise Differ rs
    pub ordered : AreInOrder Before rs

module _ {R : Type 0} (make : Dict Value → Result Error R) (key : R → Text) (P : R → Type 0)
    (made : (row : Dict Value) (r : R) → make row ≡ ok r → P r) where
  pub keyed_records-AreKeyed :
      (seen : List Text) (rows : List (Dict Value)) (rs : List R)
      → keyed_records make key seen rows ≡ ok rs
      → AreKeyed key P seen (length rows) rs
  unfolding keyed_records
  keyed_records-AreKeyed seen [] rs h =
      let nothing : [] ≡ rs = cc h in
      subst (AreKeyed key P seen 0) nothing
        (record { each = tt; distinct = tt; fresh = tt; counted = refl })
  keyed_records-AreKeyed seen (row ∷ rows) rs h =
      let (r, e, h1) = >>=-eq-ok (make row) _ h in
      let (_, new, h2) = >>=-eq-ok (raise_if (contains (key r) seen) validation) _ h1 in
      let (rest, made_rest, same) = >>=-eq-ok (keyed_records make key (key r ∷ seen) rows) _ h2 in
      let k = keyed_records-AreKeyed (key r ∷ seen) rows rest made_rest in
      let both : r ∷ rest ≡ rs = cc same in
      subst (AreKeyed key P seen (length (row ∷ rows))) both (record {
        each = (made row r e, k.each);
        distinct = (All-map (first_fresh key (key r) seen) rest k.fresh, k.distinct);
        fresh = (ground (arith, new), All-map (rest_fresh key (key r) seen) rest k.fresh);
        counted = omega (arith, k.counted);
      })

  pub sort_by-AreSorted :
      (le : R → R → Bool) (Before : R → R → Type 0)
      → ((r q : R) → le r q ≡ false → le q r ≡ true)
      → ((r q : R) → le r q ≡ true → Before r q)
      → (rows : List (Dict Value)) (rs : List R) → keyed_records make key [] rows ≡ ok rs
      → AreSorted key P Before (sort_by le rs) × (length (sort_by le rs) ≡ length rows)
  sort_by-AreSorted le Before total means rows rs h =
      let k = keyed_records-AreKeyed [] rows rs h in
      (
        record {
          each = sort_by-All le P rs k.each;
          distinct = sort_by-Pairwise le (Differ key) (Differ_symm key) rs k.distinct;
          ordered =
              IsSorted-AreInOrder key le Before means (sort_by le rs)
                (sort_by-IsSorted le total rs);
        },
        omega (arith, length-sort_by le rs, k.counted),
      )
