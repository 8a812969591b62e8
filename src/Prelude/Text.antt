-- ===== src/Prelude/Text.antt =====
-- Go strings: the bytes of a text, decimal numbers, and the order of sort.Strings.
use Prim.Native.Nat.{ℕ, zero, suc, ◌+◌, ◌/◌, ◌%◌, Ordering}
use Prim.Native.Char.{code}
use Prim.Native.String
use Prim.Native.String.{String}
use mathlib.Core.Path.{◌≡◌, refl}
use mathlib.Core.Bool.{Bool, true, false, ◌||◌}
use mathlib.Core.List.{List, [], ◌∷◌, ◌++◌}
use gnmic_operator.Prelude.Int.{ℤ, pos, negsuc}
use gnmic_operator.Prelude.Tests.{nat_beq, ltb, if◌then◌else◌}

-- The UTF-8 encoding of one code point.
abbrev encode : ℕ → List ℕ
encode c =
    if ltb c 0x80
    then c ∷ []
    else if ltb c 0x800
    then (0xc0 + c / 64) ∷ (0x80 + c % 64) ∷ []
    else if ltb c 0x10000
    then (0xe0 + c / 4096) ∷ (0x80 + c / 64 % 64) ∷ (0x80 + c % 64) ∷ []
    else (0xf0 + c / 262144) ∷ (0x80 + c / 4096 % 64) ∷ (0x80 + c / 64 % 64) ∷ (0x80 + c % 64) ∷ []

-- []byte(s)
unfoldable pub bytes : String → List ℕ
bytes String.[] = []
bytes (String.◌∷◌ c s) = encode (code c) ++ bytes s

unfoldable pub digit : ℕ → String
digit n =
    if nat_beq n 0
    then "0"
    else if nat_beq n 1
    then "1"
    else if nat_beq n 2
    then "2"
    else if nat_beq n 3
    then "3"
    else if nat_beq n 4
    then "4"
    else if nat_beq n 5
    then "5"
    else if nat_beq n 6
    then "6"
    else if nat_beq n 7
    then "7"
    else if nat_beq n 8
    then "8"
    else "9"

unfoldable pub itoa_fuel : ℕ → ℕ → String → String
itoa_fuel zero n acc = acc
itoa_fuel (suc f) n acc =
    let rest = itoa_fuel f (n / 10) (String.◌++◌ (digit (n % 10)) acc) in
    if ltb n 10 then String.◌++◌ (digit n) acc else rest

-- strconv.Itoa and `%d` of a number that is not negative: it has at most as many digits as its
-- value, and one more.
unfoldable pub itoa : ℕ → String
unfolding digit itoa_fuel
itoa n = itoa_fuel (suc n) n ""

-- strconv.Itoa
unfoldable pub itoa_ℤ : ℤ → String
unfolding itoa
itoa_ℤ (pos n) = itoa n
itoa_ℤ (negsuc n) = String.◌++◌ "-" (itoa (suc n))

-- s + t
infixr 65 ◌<>◌
abbrev pub ◌<>◌ : String → String → String
s <> t = String.◌++◌ s t

-- strings.Contains(s, c) for one character, by its code
unfoldable pub has_char : ℕ → String → Bool
has_char c String.[] = false
has_char c (String.◌∷◌ d s) = nat_beq c (code d) || has_char c s

-- s < t, byte by byte
abbrev pub str_ltb : String → String → Bool
str_ltb s t = elim (String.compare s t) [ Ordering.lt ↦ true | _ ↦ false ]

itoa_1009 : itoa 1009 ≡ "1009"
unfolding itoa
itoa_1009 = refl

bytes_accent : bytes "é€" ≡ 0xc3 ∷ 0xa9 ∷ 0xe2 ∷ 0x82 ∷ 0xac ∷ []
unfolding bytes
bytes_accent = refl
