-- ===== src/Prelude/Int.antt =====
-- Go's signed integers. `negsuc n` is -(n + 1); a width is written out where it matters.
use Prim.Native.Nat.{ℕ, zero, suc, ◌-◌, ◌%◌}
use mathlib.Core.Path.{◌≡◌}
use mathlib.Core.Logic.{◌↔◌}
use mathlib.Core.Bool.{Bool, true, false}
use native.Mathlib.Omega.{arith}
use gnmic_operator.Prelude.Tests.{Eq, ltb, leb, nat_beq, if◌then◌else◌}

pub data ℤ : Type 0 where
  pos : ℕ → ℤ
  negsuc : ℕ → ℤ

-- `a ≥ b` for a length `a`.
abbrev pub geb_ℤ : ℕ → ℤ → Bool
geb_ℤ a (pos b) = leb b a
geb_ℤ a (negsuc b) = true

-- `a ≤ 0`
abbrev pub nonpos_ℤ : ℤ → Bool
nonpos_ℤ (pos zero) = true
nonpos_ℤ (pos (suc n)) = false
nonpos_ℤ (negsuc n) = true

-- `a == b`
abbrev pub eqb_ℤ : ℤ → ℤ → Bool
eqb_ℤ (pos a) (pos b) = nat_beq a b
eqb_ℤ (negsuc a) (negsuc b) = nat_beq a b
eqb_ℤ (pos a) (negsuc b) = false
eqb_ℤ (negsuc a) (pos b) = false

-- The rounds of `for i := 0; i < n; i++`.
abbrev pub rounds : ℤ → ℕ
rounds (pos n) = n
rounds (negsuc n) = 0

pub eqb_ℤ_iff : (a b : ℤ) → (eqb_ℤ a b ≡ true) ↔ (a ≡ b)
eqb_ℤ_iff (pos a) (pos b) = ground arith
eqb_ℤ_iff (negsuc a) (negsuc b) = ground arith
eqb_ℤ_iff (pos a) (negsuc b) = ground arith
eqb_ℤ_iff (negsuc a) (pos b) = ground arith

instance abbrev pub int_eq : Eq ℤ
int_eq = record { agree = eqb_ℤ; agree_iff = eqb_ℤ_iff }

-- An int32 as the number that its bit pattern stands for, and back.
abbrev pub i32 : ℕ → ℤ
i32 w = let v = w % 4294967296 in if ltb v 2147483648 then pos v else negsuc (4294967296 - v - 1)

abbrev pub pattern32 : ℤ → ℕ
pattern32 (pos n) = n % 4294967296
pattern32 (negsuc n) = 4294967296 - n % 4294967296 - 1

abbrev neg_ℕ : ℕ → ℤ
neg_ℕ zero = pos zero
neg_ℕ (suc n) = negsuc n

-- a % b for a positive b: the sign is that of a
abbrev pub rem_ℤ : ℤ → ℕ → ℤ
rem_ℤ (pos a) b = pos (a % b)
rem_ℤ (negsuc a) b = neg_ℕ (suc a % b)
