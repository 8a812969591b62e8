-- ===== src/Plan/Inverse.antt =====
-- The pool of ports has a prime size, so that every step of the double hashing visits every slot.
use native.Mathlib.Nat.{div-add-mod'}
use gnmic_operator.Prelude.{
  ℕ, zero, suc, ◌+◌, ◌*◌, ◌-◌, ◌/◌, ◌%◌, ◌^◌, ◌≤◌, ◌<◌, Bool, true, ◌&&◌, ◌≡◌, ◌≢◌, refl, ap, arith,
  nat_beq, sym, subst, inl, inr, Bool-cases,
}

-- Fermat's inverse
abbrev inverse : ℕ → ℕ
inverse s = s ^ 1007 % 1009

-- Whether each of 1 to n has its inverse.
all_invertible : ℕ → Bool
all_invertible zero = true
all_invertible (suc n) = nat_beq (suc n * inverse (suc n) % 1009) 1 && all_invertible n

invertible_1008 : all_invertible 1008 ≡ true
unfolding all_invertible
invertible_1008 = refl

invertible_below : (n s : ℕ) → all_invertible n ≡ true → 1 ≤ s → s ≤ n → s * inverse s % 1009 ≡ 1
unfolding all_invertible
invertible_below zero s h l r = absurd (omega arith)
invertible_below (suc n) s h l r = elim (Bool-cases (nat_beq s (suc n))) [
  | inl same ↦
      let is : s ≡ suc n = ground arith in
      subst (λ k. k * inverse k % 1009 ≡ 1) (sym is) (ground arith)
  | inr other ↦ invertible_below n s (ground arith) l (ground arith)
]

-- A multiple of the size, as a sum.
no_multiple :
    (d s v q m : ℕ) → s * v ≡ 1009 * q + 1 → d * s ≡ 1009 * m → d ≡ 1009 * (m * v) - 1009 * (d * q)
no_multiple d s v q m e f =
    let left : d * s * v ≡ 1009 * m * v = ap (λ x. x * v) f in
    let right : d * (s * v) ≡ d * (1009 * q + 1) = ap (λ x. d * x) e in omega (arith, left, right)

-- A step below the size times a distance below the size is no multiple of the size.
step_distance : (d s : ℕ) → 1 ≤ d → d < 1009 → 1 ≤ s → s < 1009 → d * s % 1009 ≢ 0
step_distance d s ld hd ls hs e =
    let v = inverse s in
    let inv = invertible_below 1008 s invertible_1008 ls (omega arith) in
    let sum =
      no_multiple d s v (s * v / 1009) (d * s / 1009)
        (omega (arith, div-add-mod' (s * v) 1009, inv))
        (omega (arith, div-add-mod' (d * s) 1009, e)) in
    omega (arith, sum)

-- Two rounds of the loop visit different slots.
pub slots_differ :
    (start s i j : ℕ)
    → i < j
    → j < 1009
    → 1 ≤ s
    → s < 1009
    → (start + i * s) % 1009 ≢ (start + j * s) % 1009
slots_differ start s i j l r ls hs e =
    step_distance (j - i) s (omega arith) (omega arith) ls hs (omega (arith, e, distance s i j l))
  where
    distance : (s i j : ℕ) → i < j → (j - i) * s + i * s ≡ j * s
    distance s i j l = let sum : j - i + i ≡ j = omega arith in omega (arith, ap (λ x. x * s) sum)
