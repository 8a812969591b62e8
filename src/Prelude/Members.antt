-- ===== src/Prelude/Members.antt =====
-- Membership as a test, lists without repetitions, and counting.
use Prim.Native.Nat.{ℕ, ◌+◌, suc, ◌≤◌, ◌<◌}
use mathlib.Core.Path.{◌≡◌, refl, ap, ◌∙◌}
use mathlib.Core.Logic.{◌≢◌, inl, inr}
use mathlib.Core.Bool.{Bool, true, false, ◌||◌, ◌&&◌, not}
use mathlib.Core.List.{List, [], ◌∷◌, ◌++◌}
use native.Mathlib.Omega.{arith}
use gnmic_operator.Prelude.Tests.{ltb, Eq, ◌==◌, if◌then◌else◌, Bool-cases, ==_refl}
use gnmic_operator.Prelude.Lists.{length}

module _ {ℓ} {A : Type ℓ} ⦃e : Eq A⦄ where
  abbrev pub contains : List A → A → Bool
  contains [] a = false
  contains (x ∷ xs) a = x == a || contains xs a

  -- Every element stands once.
  abbrev pub distinct : List A → Bool
  distinct [] = true
  distinct (x ∷ xs) = not (contains xs x) && distinct xs

  -- All occurrences of `a` are taken out.
  abbrev pub without : List A → A → List A
  without [] a = []
  without (x ∷ xs) a = let rest = without xs a in if x == a then rest else x ∷ rest

module _ {ℓ} {A : Type ℓ} ⦃e : Eq A⦄ where
  pub contains-append :
      (xs ys : List A) (a : A) → contains (xs ++ ys) a ≡ (contains xs a || contains ys a)
  contains-append [] ys a = refl
  contains-append (x ∷ xs) ys a = ground (arith, contains-append xs ys a)

  pub contains-without : (xs : List A) (a b : A) → a ≢ b → contains (without xs a) b ≡ contains xs b
  contains-without [] a b h = refl
  contains-without (x ∷ xs) a b h =
      ground (arith, contains-without xs a b h, e.agree_iff x a, e.agree_iff x b)

  pub without-absent : (xs : List A) (a : A) → contains xs a ≡ false → without xs a ≡ xs
  without-absent [] a h = refl
  without-absent (x ∷ xs) a h = ground (arith, without-absent xs a)

  -- A list without repetitions loses at most one element.
  pub length-without :
      (xs : List A) (a : A) → distinct xs ≡ true → length xs ≤ suc (length (without xs a))
  length-without [] a h = omega arith
  length-without (x ∷ xs) a h = elim (Bool-cases (x == a)) [
    | inl same ↦ rw same (ground (arith, without-absent xs a, e.agree_iff x a))
    | inr other ↦ rw other (ground (arith, length-without xs a))
  ]

  pub length-without_present :
      (xs : List A) (a : A) → contains xs a ≡ true → length (without xs a) < length xs
  length-without_present [] a h = absurd (ground arith)
  length-without_present (x ∷ xs) a h =
      ground (arith, length-without_present xs a, length-without-le xs a)
    where
      length-without-le : (ys : List A) (b : A) → length (without ys b) ≤ length ys
      length-without-le [] b = omega arith
      length-without-le (y ∷ ys) b = ground (arith, length-without-le ys b)

  -- A distinct list whose elements all stand in another is no longer than it.
  pub distinct-le :
      (xs ys : List A)
      → distinct xs ≡ true
      → ((a : A) → contains xs a ≡ true → contains ys a ≡ true)
      → length xs ≤ length ys
  distinct-le [] ys d h = omega arith
  distinct-le (x ∷ xs) ys d h = omega (
    arith,
    length-without_present ys x (h x (ground (arith, ==_refl x))),
    distinct-le xs (without ys x) (ground arith) rest,
  )
    where
      rest : (a : A) → contains xs a ≡ true → contains (without ys x) a ≡ true
      rest a m = contains-without ys x a (λ p. absent (ap (contains xs) p ∙ m)) ∙ h a (ground arith)
        where
          absent : contains xs x ≡ true → ⊥
          absent q = ground arith

module _ {ℓ} {A : Type ℓ} ⦃e : Eq A⦄ where
  -- How often an element stands in a list.
  abbrev pub count : A → List A → ℕ
  count a [] = 0
  count a (x ∷ xs) = (if x == a then 1 else 0) + count a xs

  pub count-append : (a : A) (xs ys : List A) → count a (xs ++ ys) ≡ count a xs + count a ys
  count-append a [] ys = omega arith
  count-append a (x ∷ xs) ys = omega (arith, count-append a xs ys)

  pub contains-count : (a : A) (xs : List A) → contains xs a ≡ ltb 0 (count a xs)
  contains-count a [] = refl
  contains-count a (x ∷ xs) = ground (arith, contains-count a xs)

  pub distinct_of_count : (xs : List A) → ((a : A) → count a xs ≤ 1) → distinct xs ≡ true
  distinct_of_count [] h = refl
  distinct_of_count (x ∷ xs) h =
      ground
        (arith, h x, contains-count x xs, ==_refl x, distinct_of_count xs (λ a. omega (arith, h a)))

  pub count_of_distinct : (a : A) (xs : List A) → distinct xs ≡ true → count a xs ≤ 1
  count_of_distinct a [] h = omega arith
  count_of_distinct a (x ∷ xs) h =
      ground (arith, count_of_distinct a xs, contains-count x xs, e.agree_iff x a)

  pub distinct-cons :
      (x : A) (xs : List A) → contains xs x ≡ false → distinct xs ≡ true → distinct (x ∷ xs) ≡ true
  distinct-cons x xs h d = ground arith

  pub distinct-tail : (x : A) (xs : List A) → distinct (x ∷ xs) ≡ true → distinct xs ≡ true
  distinct-tail x xs d = ground arith

  pub distinct-head : (x : A) (xs : List A) → distinct (x ∷ xs) ≡ true → contains xs x ≡ false
  distinct-head x xs d = ground arith
