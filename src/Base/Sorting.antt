-- ===== src/Base/Sorting.antt =====
-- `sorted(xs, key=...)`, a stable insertion sort by a Boolean order, and what it keeps.
use Prim.Native.Nat.{suc}
use mathlib.Core.Path.{◌≡◌, refl}
use mathlib.Core.Logic.{inl, inr}
use mathlib.Core.Bool.{Bool, true, false}
use mathlib.Core.List.{List, [], ◌∷◌, map}
use native.Mathlib.Omega.{arith}
use power_market_data_platfo.Base.Tests.{if◌then◌else◌, Bool-cases}
use power_market_data_platfo.Base.Lists.{length, All}

-- A relation between each item and all behind it.
abbrev pub Pairwise {κ} : {A : Type 0} → (A → A → Type κ) → List A → Type κ
Pairwise R [] = Unit
Pairwise R (x ∷ xs) = All (R x) xs × Pairwise R xs

module _ {A : Type 0} (le : A → A → Bool) where
  -- Each item is at most the next one.
  abbrev pub IsSorted : List A → Type 0
  IsSorted [] = Unit
  IsSorted (x ∷ []) = Unit
  IsSorted (x ∷ y ∷ xs) = (le x y ≡ true) × IsSorted (y ∷ xs)

  -- Before the first item that is not smaller.
  abbrev pub insert_by : A → List A → List A
  insert_by x [] = x ∷ []
  insert_by x (y ∷ ys) = if le x y then x ∷ y ∷ ys else y ∷ insert_by x ys

  unfoldable pub sort_by : List A → List A
  sort_by [] = []
  sort_by (x ∷ xs) = insert_by x (sort_by xs)

  insert_by-All {κ} :
      (P : A → Type κ) (x : A) (ys : List A) → P x → All P ys → All P (insert_by x ys)
  insert_by-All P x [] h hs = (h, tt)
  insert_by-All P x (y ∷ ys) h hs = elim (Bool-cases (le x y)) [
    | inl e ↦ rw e (h, hs)
    | inr e ↦ rw e (hs.0, insert_by-All P x ys h hs.1)
  ]

  pub sort_by-All {κ} : (P : A → Type κ) (xs : List A) → All P xs → All P (sort_by xs)
  unfolding sort_by
  sort_by-All P [] h = tt
  sort_by-All P (x ∷ xs) h = insert_by-All P x (sort_by xs) h.0 (sort_by-All P xs h.1)

  insert_by-length : (x : A) (ys : List A) → length (insert_by x ys) ≡ suc (length ys)
  insert_by-length x [] = refl
  insert_by-length x (y ∷ ys) = ground (arith, insert_by-length x ys)

  pub length-sort_by : (xs : List A) → length (sort_by xs) ≡ length xs
  unfolding sort_by
  length-sort_by [] = refl
  length-sort_by (x ∷ xs) = omega (arith, insert_by-length x (sort_by xs), length-sort_by xs)

  module _ {κ} (R : A → A → Type κ) (symmetric : (x y : A) → R x y → R y x) where
    insert_by-Pairwise :
        (x : A) (ys : List A) → All (R x) ys → Pairwise R ys → Pairwise R (insert_by x ys)
    insert_by-Pairwise x [] h hs = (tt, tt)
    insert_by-Pairwise x (y ∷ ys) h hs = elim (Bool-cases (le x y)) [
      | inl e ↦ rw e (h, hs)
      | inr e ↦
          rw e (insert_by-All (R y) x ys (symmetric x y h.0) hs.0, insert_by-Pairwise x ys h.1 hs.1)
    ]

    -- A symmetric relation between all items outlasts the sort.
    pub sort_by-Pairwise : (xs : List A) → Pairwise R xs → Pairwise R (sort_by xs)
    unfolding sort_by
    sort_by-Pairwise [] h = tt
    sort_by-Pairwise (x ∷ xs) h =
        insert_by-Pairwise x (sort_by xs) (sort_by-All (R x) xs h.0) (sort_by-Pairwise xs h.1)

  module _ (total : (x y : A) → le x y ≡ false → le y x ≡ true) where
    below :
        (x y : A) (ys : List A) → le y x ≡ true → IsSorted (y ∷ ys) → IsSorted (y ∷ insert_by x ys)
    below x y [] e h = (e, tt)
    below x y (z ∷ zs) e h = elim (Bool-cases (le x z)) [
      | inl before ↦ rw before (e, (before, h.1))
      | inr behind ↦ rw behind (h.0, below x z zs (total x z behind) h.1)
    ]

    insert_by-IsSorted : (x : A) (ys : List A) → IsSorted ys → IsSorted (insert_by x ys)
    insert_by-IsSorted x [] h = tt
    insert_by-IsSorted x (y ∷ ys) h = elim (Bool-cases (le x y)) [
      | inl before ↦ rw before (before, h)
      | inr behind ↦ rw behind (below x y ys (total x y behind) h)
    ]

    pub sort_by-IsSorted : (xs : List A) → IsSorted (sort_by xs)
    unfolding sort_by
    sort_by-IsSorted [] = tt
    sort_by-IsSorted (x ∷ xs) = insert_by-IsSorted x (sort_by xs) (sort_by-IsSorted xs)

pub All-map_items {κ} :
    {A B : Type 0} (f : A → B) (P : B → Type κ) (xs : List A)
    → All (λ x. P (f x)) xs
    → All P (map f xs)
All-map_items f P [] h = tt
All-map_items f P (x ∷ xs) h = (h.0, All-map_items f P xs h.1)

pub Pairwise-map {κ} :
    {A B : Type 0} (f : A → B) (R : B → B → Type κ) (xs : List A)
    → Pairwise (λ x y. R (f x) (f y)) xs
    → Pairwise R (map f xs)
Pairwise-map f R [] h = tt
Pairwise-map f R (x ∷ xs) h = (All-map_items f (R (f x)) xs h.0, Pairwise-map f R xs h.1)

pub length-map : {A B : Type 0} (f : A → B) (xs : List A) → length (map f xs) ≡ length xs
length-map f [] = refl
length-map f (x ∷ xs) = omega (arith, length-map f xs)
