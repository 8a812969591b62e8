-- ===== src/Plan/Probe.antt =====
-- The loop of assignPorts that looks for a free slot (internal/gnmic/plan.go), for the pool of ports.
use gnmic_operator.Prelude.{
  ℕ, zero, suc, ◌+◌, ◌*◌, ◌%◌, ◌≤◌, ◌<◌, ℤ, pos, negsuc, int_eq, true, false, none, some, List, [],
  ◌∷◌, ◌≡◌, refl, sym, ◌∙◌, subst, nat_eq, string_eq, contains, distinct, distinct-le, length,
  arith, inl, inr, Bool-cases, eqb_ℤ_iff,
}
use gnmic_operator.Plan.Ports.{slot_at, probe}
use gnmic_operator.Plan.Inverse.{slots_differ}

-- No product of the loop wraps.
slot_at_pool :
    (start step i : ℕ)
    → start < 1009
    → step < 1009
    → i < 1009
    → slot_at 1009 start step i ≡ pos ((start + i * step) % 1009)
slot_at_pool start step i hs ht hi =
    let bound : i * step ≤ 1008 * 1008 = grind arith in ground (arith, bound)

-- The slots that the loop visits.
abbrev slots : ℕ → ℕ → ℕ → ℕ → List ℤ
slots start step i zero = []
slots start step i (suc n) = slot_at 1009 start step i ∷ slots start step (suc i) n

pub length-slots : (start step i n : ℕ) → length (slots start step i n) ≡ n
length-slots start step i zero = refl
length-slots start step i (suc n) = omega (arith, length-slots start step (suc i) n)

module _ (start step : ℕ) (hs : start < 1009) (ls : 1 ≤ step) (ht : step < 1009) where
  slots-later :
      (i j n : ℕ)
      → i < j
      → j + n ≤ 1009
      → contains (slots start step j n) (slot_at 1009 start step i) ≡ false
  slots-later i j zero l h = refl
  slots-later i j (suc n) l h = ground (
    arith,
    slots-later i (suc j) n (omega arith) (omega arith),
    slot_at_pool start step i hs ht (omega arith),
    slot_at_pool start step j hs ht (omega arith),
    slots_differ start step i j l (omega arith) ls ht,
    eqb_ℤ_iff (slot_at 1009 start step j) (slot_at 1009 start step i),
  )

  distinct-slots : (i n : ℕ) → i + n ≤ 1009 → distinct (slots start step i n) ≡ true
  distinct-slots i zero h = refl
  distinct-slots i (suc n) h = ground (
    arith,
    distinct-slots (suc i) n (omega arith),
    slots-later i (suc i) n (omega arith) (omega arith),
  )

-- When no slot is found, all visited ones are used.
probe-none :
    (used : List ℤ) (start step i n : ℕ) (x : ℤ)
    → probe 1009 used start step i n ≡ none
    → contains (slots start step i n) x ≡ true
    → contains used x ≡ true
unfolding probe
probe-none used start step i zero x h m = absurd (ground arith)
probe-none used start step i (suc n) x h m =
    ground (arith, probe-none used start step (suc i) n x, eqb_ℤ_iff (slot_at 1009 start step i) x)

-- Fewer used slots than the pool has leave one.
pub probe_found :
    (used : List ℤ) (start step : ℕ)
    → start < 1009
    → 1 ≤ step
    → step < 1009
    → probe 1009 used start step 0 1009 ≡ none
    → 1009 ≤ length used
probe_found used start step hs ls ht h = omega (
  arith,
  length-slots start step 0 1009,
  distinct-le (slots start step 0 1009) used
      (distinct-slots start step hs ls ht 0 1009 (omega arith))
      (λ x m. probe-none used start step 0 1009 x h m),
)

abbrev pub IsSlot : ℤ → Type 0
IsSlot (pos k) = k < 1009
IsSlot (negsuc k) = ⊥

-- A slot that is found is a slot of the pool and free.
pub probe-some :
    (used : List ℤ) (start step i n : ℕ) (x : ℤ)
    → start < 1009
    → step < 1009
    → i + n ≤ 1009
    → probe 1009 used start step i n ≡ some x
    → IsSlot x × (contains used x ≡ false)
unfolding probe
probe-some used start step i zero x hs ht l h = absurd (ground arith)
probe-some used start step i (suc n) x hs ht l h =
    elim (Bool-cases (contains used (slot_at 1009 start step i))) [
      | inl taken ↦ probe-some used start step (suc i) n x hs ht (omega arith) (ground arith)
      | inr free ↦
          let is : slot_at 1009 start step i ≡ x = ground arith in
          (
            subst IsSlot (sym (slot_at_pool start step i hs ht (omega arith)) ∙ is) (omega arith),
            subst (λ y. contains used y ≡ false) is free,
          )
    ]
