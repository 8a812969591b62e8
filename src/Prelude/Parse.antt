-- ===== src/Prelude/Parse.antt =====
-- Reading texts: strings.SplitN at the first of a character, the part after the last, strconv.Atoi.
use Prim.Native.Nat.{ℕ, zero, suc, ◌+◌, ◌-◌, ◌*◌, ◌/◌, ◌%◌, ◌<◌}
use Prim.Native.Char.{Char, code}
use Prim.Native.String.{String}
use mathlib.Core.Path.{◌≡◌, refl, ap, ◌∙◌}
use mathlib.Core.Logic.{inl, inr}
use mathlib.Core.Bool.{Bool, true, false, ◌&&◌}
use mathlib.Core.Option.{Option, none, some}
use text.Mathlib.TextLemmas.{nil-append, cons-append}
use native.Mathlib.Omega.{arith}
use gnmic_operator.Prelude.Int.{ℤ, pos, negsuc}
use gnmic_operator.Prelude.Tests.{nat_beq, ltb, leb, if◌then◌else◌, Bool-cases}
use gnmic_operator.Prelude.Text.{digit, itoa_fuel, itoa, has_char, ◌<>◌}

abbrev cons_left : Char → Option (String × String) → Option (String × String)
cons_left d none = none
cons_left d (some (s, t)) = some (String.◌∷◌ d s, t)

-- strings.SplitN(s, c, 2): the parts before and after the first `c`, `none` when there is none.
unfoldable pub cut : ℕ → String → Option (String × String)
cut c String.[] = none
cut c (String.◌∷◌ d s) =
    let rest = cut c s in if nat_beq c (code d) then some (String.[], s) else cons_left d rest

pub cut-append :
    (c : ℕ) (d : Char) (s t : String)
    → nat_beq c (code d) ≡ true
    → has_char c s ≡ false
    → cut c (s <> String.◌∷◌ d t) ≡ some (s, t)
unfolding cut has_char
cut-append c d String.[] t e h = ap (cut c) (nil-append (String.◌∷◌ d t)) ∙ ground arith
cut-append c d (String.◌∷◌ a s) t e h =
    ap (cut c) (cons-append a s (String.◌∷◌ d t)) ∙ ground (arith, cut-append c d s t e)

pub cut-none : (c : ℕ) (s : String) → has_char c s ≡ false → cut c s ≡ none
unfolding cut has_char
cut-none c String.[] h = refl
cut-none c (String.◌∷◌ d s) h = ground (arith, cut-none c s)

abbrev or_here : Option String → Option String → Option String
or_here none here = here
or_here (some t) here = some t

-- The part after the last `c`.
unfoldable pub after_last : ℕ → String → Option String
after_last c String.[] = none
after_last c (String.◌∷◌ d s) =
    or_here (after_last c s) (if nat_beq c (code d) then some s else none)

pub after_last-append :
    (c : ℕ) (d : Char) (s t : String)
    → nat_beq c (code d) ≡ true
    → after_last c t ≡ none
    → after_last c (s <> String.◌∷◌ d t) ≡ some t
unfolding after_last
after_last-append c d String.[] t e h =
    ap (after_last c) (nil-append (String.◌∷◌ d t)) ∙ ground arith
after_last-append c d (String.◌∷◌ a s) t e h =
    ap (after_last c) (cons-append a s (String.◌∷◌ d t))
    ∙ ground (arith, after_last-append c d s t e h)

-- The loop over the digits of a number; `none` is a character that is not a digit.
unfoldable pub read_digits : ℕ → String → Option ℕ
read_digits acc String.[] = some acc
read_digits acc (String.◌∷◌ d s) =
    let rest = read_digits (acc * 10 + (code d - 48)) s in
    if leb 48 (code d) && leb (code d) 57 then rest else none

pub one_char : (c : Char) (s : String) → String.◌∷◌ c String.[] <> s ≡ String.◌∷◌ c s
one_char c s = cons-append c String.[] s ∙ ap (String.◌∷◌ c) (nil-append s)

-- A digit is read back, and the loop goes on.
read_digits-digit :
    (acc n : ℕ) (s : String)
    → n < 10
    → read_digits acc (digit n <> s) ≡ read_digits (acc * 10 + n) s
unfolding digit read_digits
read_digits-digit acc zero s h = ap (read_digits acc) (one_char "0" s)
read_digits-digit acc (suc zero) s h = ap (read_digits acc) (one_char "1" s)
read_digits-digit acc (suc (suc zero)) s h = ap (read_digits acc) (one_char "2" s)
read_digits-digit acc (suc (suc (suc zero))) s h = ap (read_digits acc) (one_char "3" s)
read_digits-digit acc (suc (suc (suc (suc zero)))) s h = ap (read_digits acc) (one_char "4" s)
read_digits-digit acc (suc (suc (suc (suc (suc zero))))) s h = ap (read_digits acc) (one_char "5" s)
read_digits-digit acc (suc (suc (suc (suc (suc (suc zero)))))) s h =
    ap (read_digits acc) (one_char "6" s)
read_digits-digit acc (suc (suc (suc (suc (suc (suc (suc zero))))))) s h =
    ap (read_digits acc) (one_char "7" s)
read_digits-digit acc (suc (suc (suc (suc (suc (suc (suc (suc zero)))))))) s h =
    ap (read_digits acc) (one_char "8" s)
read_digits-digit acc (suc (suc (suc (suc (suc (suc (suc (suc (suc zero))))))))) s h =
    ap (read_digits acc) (one_char "9" s)
read_digits-digit acc (suc (suc (suc (suc (suc (suc (suc (suc (suc (suc n)))))))))) s h =
    absurd (omega arith)

after_last-digit :
    (n : ℕ) (s : String) → after_last 45 s ≡ none → after_last 45 (digit n <> s) ≡ none
unfolding digit after_last
after_last-digit n s h = ground (
  arith,
  one_char "0" s,
  one_char "1" s,
  one_char "2" s,
  one_char "3" s,
  one_char "4" s,
  one_char "5" s,
  one_char "6" s,
  one_char "7" s,
  one_char "8" s,
  one_char "9" s,
)

read_digits-itoa_fuel :
    (f n : ℕ) (s : String) → n < f → read_digits 0 (itoa_fuel f n s) ≡ read_digits n s
unfolding itoa_fuel
read_digits-itoa_fuel zero n s h = absurd (omega arith)
read_digits-itoa_fuel (suc f) n s h = elim (Bool-cases (ltb n 10)) [
  | inl small ↦
      rw small (read_digits-digit 0 n s (ground arith) ∙ ap (λ k. read_digits k s) (omega arith))
  | inr large ↦ rw large (
      read_digits-itoa_fuel f (n / 10) (digit (n % 10) <> s) (ground arith)
      ∙ read_digits-digit (n / 10) (n % 10) s (omega arith)
      ∙ ap (λ k. read_digits k s) (omega arith))
]

after_last-itoa_fuel :
    (f n : ℕ) (s : String) → after_last 45 s ≡ none → after_last 45 (itoa_fuel f n s) ≡ none
unfolding itoa_fuel
after_last-itoa_fuel zero n s h = h
after_last-itoa_fuel (suc f) n s h = elim (Bool-cases (ltb n 10)) [
  | inl small ↦ rw small (after_last-digit n s h)
  | inr large ↦
      rw large
        (after_last-itoa_fuel f (n / 10) (digit (n % 10) <> s) (after_last-digit (n % 10) s h))
]

-- A decimal number is read back, and it has no dash.
pub read_digits-itoa : (n : ℕ) → read_digits 0 (itoa n) ≡ some n
unfolding itoa read_digits
read_digits-itoa n = read_digits-itoa_fuel (suc n) n "" (omega arith)

pub after_last-itoa : (n : ℕ) → after_last 45 (itoa n) ≡ none
unfolding itoa after_last
after_last-itoa n = after_last-itoa_fuel (suc n) n "" refl

abbrev is_digit : Char → Bool
is_digit c = leb 48 (code c) && leb (code c) 57

abbrev within : ℕ → Option ℕ → Option ℤ
within bound none = none
within bound (some n) = if ltb n bound then some (pos n) else none

abbrev neg_within : ℕ → Option ℕ → Option ℤ
neg_within bound none = none
neg_within bound (some zero) = some (pos zero)
neg_within bound (some (suc n)) = if ltb n bound then some (negsuc n) else none

abbrev read_number : String → Option ℕ
read_number String.[] = none
read_number (String.◌∷◌ c s) = read_digits 0 (String.◌∷◌ c s)

-- strconv.ParseInt in base 10, for numbers from -bound to bound - 1; `none` is an error.
unfoldable pub parse_int : ℕ → String → Option ℤ
unfolding read_digits
parse_int bound String.[] = none
parse_int bound (String.◌∷◌ c s) =
    if nat_beq (code c) 43
    then within bound (read_number s)
    else if nat_beq (code c) 45
    then neg_within bound (read_number s)
    else within bound (read_digits 0 (String.◌∷◌ c s))

abbrev starts_digit : String → Bool
starts_digit String.[] = false
starts_digit (String.◌∷◌ c s) = is_digit c

starts_digit-digit : (n : ℕ) (s : String) → starts_digit (digit n <> s) ≡ true
unfolding digit
starts_digit-digit n s = ground (
  arith,
  one_char "0" s,
  one_char "1" s,
  one_char "2" s,
  one_char "3" s,
  one_char "4" s,
  one_char "5" s,
  one_char "6" s,
  one_char "7" s,
  one_char "8" s,
  one_char "9" s,
)

starts_digit-itoa_fuel : (f n : ℕ) (s : String) → n < f → starts_digit (itoa_fuel f n s) ≡ true
unfolding itoa_fuel
starts_digit-itoa_fuel zero n s h = absurd (omega arith)
starts_digit-itoa_fuel (suc f) n s h = elim (Bool-cases (ltb n 10)) [
  | inl small ↦ rw small (starts_digit-digit n s)
  | inr large ↦ rw large (starts_digit-itoa_fuel f (n / 10) (digit (n % 10) <> s) (ground arith))
]

parse_int-digits :
    (bound : ℕ) (s : String)
    → starts_digit s ≡ true
    → parse_int bound s ≡ within bound (read_digits 0 s)
unfolding parse_int
parse_int-digits bound String.[] h = absurd (ground arith)
parse_int-digits bound (String.◌∷◌ c s) h = ground arith

-- A number that is in range is read back from its digits.
pub parse_int-itoa : (bound n : ℕ) → n < bound → parse_int bound (itoa n) ≡ some (pos n)
unfolding itoa
parse_int-itoa bound n h =
    parse_int-digits bound (itoa n) (starts_digit-itoa_fuel (suc n) n "" (omega arith))
    ∙ ap (within bound) (read_digits-itoa n)
    ∙ ground arith

abbrev or_no_namespace : String → Option (String × String) → String × String
or_no_namespace nn none = ("", nn)
or_no_namespace nn (some p) = p

-- SplitNN of internal/utils: a name with its namespace is cut at the first slash.
unfoldable pub split_nn : String → String × String
unfolding cut
split_nn nn = or_no_namespace nn (cut 47 nn)
