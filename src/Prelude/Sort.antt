-- ===== src/Prelude/Sort.antt =====
-- sort.Slice and sort.Strings, as the insertion sort that Go's sort runs on short slices. The order
-- of elements that the comparison does not tell apart is used by no theorem.
use Prim.Native.Nat.{suc}
use mathlib.Core.Path.{◌≡◌, refl}
use mathlib.Core.Bool.{true, false, Bool, ◌||◌}
use mathlib.Core.Logic.{inl, inr}
use mathlib.Core.List.{List, [], ◌∷◌}
use native.Mathlib.Omega.{arith}
use gnmic_operator.Prelude.Tests.{Bool-cases, Eq, ◌==◌, if◌then◌else◌}
use gnmic_operator.Prelude.Lists.{length}
use gnmic_operator.Prelude.Members.{count, contains, distinct}

module _ {ℓ} {A : Type ℓ} where
  -- `less y x` keeps `y` in front of `x`.
  unfoldable pub insert_by : (A → A → Bool) → A → List A → List A
  insert_by less x [] = x ∷ []
  insert_by less x (y ∷ ys) = if less y x then y ∷ insert_by less x ys else x ∷ y ∷ ys

  unfoldable pub sort_by : (A → A → Bool) → List A → List A
  unfolding insert_by
  sort_by less [] = []
  sort_by less (x ∷ xs) = insert_by less x (sort_by less xs)

  length-insert_by :
      (less : A → A → Bool) (x : A) (ys : List A) → length (insert_by less x ys) ≡ suc (length ys)
  unfolding insert_by
  length-insert_by less x [] = refl
  length-insert_by less x (y ∷ ys) = ground (arith, length-insert_by less x ys)

  pub length-sort_by : (less : A → A → Bool) (xs : List A) → length (sort_by less xs) ≡ length xs
  unfolding sort_by
  length-sort_by less [] = refl
  length-sort_by less (x ∷ xs) =
      omega (arith, length-insert_by less x (sort_by less xs), length-sort_by less xs)

module _ {ℓ} {A : Type ℓ} ⦃e : Eq A⦄ (less : A → A → Bool) where
  contains-insert_by :
      (x : A) (ys : List A) (a : A) → contains (insert_by less x ys) a ≡ (x == a || contains ys a)
  unfolding insert_by
  contains-insert_by x [] a = refl
  contains-insert_by x (y ∷ ys) a = ground (arith, contains-insert_by x ys a)

  pub contains-sort_by : (xs : List A) (a : A) → contains (sort_by less xs) a ≡ contains xs a
  unfolding sort_by
  contains-sort_by [] a = refl
  contains-sort_by (x ∷ xs) a =
      ground (arith, contains-insert_by x (sort_by less xs) a, contains-sort_by xs a)

  distinct-insert_by : (x : A) (ys : List A) → distinct (insert_by less x ys) ≡ distinct (x ∷ ys)
  unfolding insert_by
  distinct-insert_by x [] = refl
  distinct-insert_by x (y ∷ ys) =
      ground (
        arith,
        distinct-insert_by x ys,
        contains-insert_by x ys y,
        e.agree_iff x y,
        e.agree_iff y x,
      )

  pub distinct-sort_by : (xs : List A) → distinct (sort_by less xs) ≡ distinct xs
  unfolding sort_by
  distinct-sort_by [] = refl
  distinct-sort_by (x ∷ xs) =
      ground
        (arith, distinct-insert_by x (sort_by less xs), distinct-sort_by xs, contains-sort_by xs x)

  count-insert_by : (a x : A) (ys : List A) → count a (insert_by less x ys) ≡ count a (x ∷ ys)
  unfolding insert_by
  count-insert_by a x [] = refl
  count-insert_by a x (y ∷ ys) = ground (arith, count-insert_by a x ys)

  pub count-sort_by : (a : A) (xs : List A) → count a (sort_by less xs) ≡ count a xs
  unfolding sort_by
  count-sort_by a [] = refl
  count-sort_by a (x ∷ xs) =
      omega (arith, count-insert_by a x (sort_by less xs), count-sort_by a xs)

module _ {ℓ} {A : Type ℓ} (less : A → A → Bool)
    (asym : (x y : A) → less x y ≡ true → less y x ≡ false)
    (trans : (x y z : A) → less y x ≡ false → less z y ≡ false → less z x ≡ false) where
  -- Nothing in the list comes before `x`.
  abbrev pub IsFirst : A → List A → Type 0
  IsFirst x [] = Unit {0}
  IsFirst x (y ∷ ys) = (less y x ≡ false) × IsFirst x ys

  abbrev pub IsSortedBy : List A → Type 0
  IsSortedBy [] = Unit {0}
  IsSortedBy (x ∷ xs) = IsFirst x xs × IsSortedBy xs

  IsFirst-trans : (x y : A) (ys : List A) → less y x ≡ false → IsFirst y ys → IsFirst x ys
  IsFirst-trans x y [] h f = tt
  IsFirst-trans x y (z ∷ zs) h f = (trans x y z h f.0, IsFirst-trans x y zs h f.1)

  IsFirst-insert_by :
      (x y : A) (ys : List A) → less x y ≡ false → IsFirst y ys → IsFirst y (insert_by less x ys)
  unfolding insert_by
  IsFirst-insert_by x y [] h f = (h, tt)
  IsFirst-insert_by x y (z ∷ zs) h f = elim (Bool-cases (less z x)) [
    | inl before ↦ rw before (f.0, IsFirst-insert_by x y zs h f.1)
    | inr after ↦ rw after (h, f)
  ]

  sorted-insert_by : (x : A) (ys : List A) → IsSortedBy ys → IsSortedBy (insert_by less x ys)
  unfolding insert_by
  sorted-insert_by x [] s = (tt, tt)
  sorted-insert_by x (y ∷ ys) s = elim (Bool-cases (less y x)) [
    | inl before ↦
        rw before (IsFirst-insert_by x y ys (asym y x before) s.0, sorted-insert_by x ys s.1)
    | inr after ↦ rw after ((after, IsFirst-trans x y ys after s.0), s)
  ]

  pub sorted-sort_by : (xs : List A) → IsSortedBy (sort_by less xs)
  unfolding sort_by
  sorted-sort_by [] = tt
  sorted-sort_by (x ∷ xs) = sorted-insert_by x (sort_by less xs) (sorted-sort_by xs)

-- A property of every element does not depend on the order.
module _ {ℓ κ} {A : Type ℓ} (P : A → Type κ) where
  abbrev pub All : List A → Type κ
  All [] = Unit
  All (x ∷ xs) = P x × All xs

module _ {ℓ κ} {A : Type ℓ} (P : A → Type κ) (less : A → A → Bool) where
  All-insert_by : (x : A) (ys : List A) → P x → All P ys → All P (insert_by less x ys)
  unfolding insert_by
  All-insert_by x [] p h = (p, tt)
  All-insert_by x (y ∷ ys) p h = by_case (less y x) (All-insert_by x ys p h.1)
    where
      by_case :
          (b : Bool)
          → All P (insert_by less x ys)
          → All P (if b then y ∷ insert_by less x ys else x ∷ y ∷ ys)
      by_case true later = (h.0, later)
      by_case false later = (p, h)

  pub All-sort_by : (xs : List A) → All P xs → All P (sort_by less xs)
  unfolding sort_by
  All-sort_by [] h = tt
  All-sort_by (x ∷ xs) h = All-insert_by x (sort_by less xs) h.0 (All-sort_by xs h.1)

  All-of_insert_by : (x : A) (ys : List A) → All P (insert_by less x ys) → P x × All P ys
  unfolding insert_by
  All-of_insert_by x [] h = h
  All-of_insert_by x (y ∷ ys) h = by_case (less y x) h (All-of_insert_by x ys)
    where
      by_case :
          (b : Bool)
          → All P (if b then y ∷ insert_by less x ys else x ∷ y ∷ ys)
          → (All P (insert_by less x ys) → P x × All P ys)
          → P x × All P (y ∷ ys)
      by_case true g next = ((next g.1).0, (g.0, (next g.1).1))
      by_case false g next = g

  pub All-of_sort_by : (xs : List A) → All P (sort_by less xs) → All P xs
  unfolding sort_by
  All-of_sort_by [] h = tt
  All-of_sort_by (x ∷ xs) h =
      let g = All-of_insert_by x (sort_by less xs) h in (g.0, All-of_sort_by xs g.1)
