-- ===== src/Common/Numerals.antt =====
-- `Number(s)` on strings: the StringNumericLiteral grammar of ECMAScript. Values are exact; a
-- literal of more than 15 significant digits is not rounded, and none is too large to be finite.
use Prim.Native.Nat.{ℕ, zero, suc, ◌+◌, ◌-◌, ◌*◌, ◌/◌, ◌%◌, ◌^◌}
use mathlib.Core.Path.{◌≡◌, refl}
use mathlib.Core.Bool.{Bool, true, false, ◌&&◌, ◌||◌}
use mathlib.Core.Option.{Option, none, some}
use mathlib.Core.List.{[], ◌∷◌, ◌++◌}
use kmc.Common.Tests.{ltb, leb, ◌==◌, if◌then◌else◌}
use kmc.Common.Lists.{length}
use kmc.Common.Strings.{Text, codes, text_eq, truthy, trim}
use kmc.Common.Decimal.{is_digit, all_digits, value}

-- `other` is a number that is negative, fractional or infinite.
pub data Number : Type 0 where
  nan : Number
  whole : ℕ → Number
  other : Number

span_digits : Text → Text × Text
span_digits [] = ([], [])
span_digits (c ∷ s) =
    let (ds, rest) = span_digits s in if is_digit c then (c ∷ ds, rest) else ([], c ∷ s)

fraction : Text → Text × Text
fraction [] = ([], [])
fraction (c ∷ s) = if c == b'.' then span_digits s else ([], c ∷ s)

exponent_digits : Bool → Text → Option (Bool × ℕ)
exponent_digits negative s = if truthy s && all_digits s then some (negative, value s) else none

exponent_sign : Text → Option (Bool × ℕ)
exponent_sign [] = none
exponent_sign (c ∷ s) =
    if c == b'-'
    then exponent_digits true s
    else if c == b'+'
    then exponent_digits false s
    else exponent_digits false (c ∷ s)

exponent : Text → Option (Bool × ℕ)
exponent [] = some (false, 0)
exponent (c ∷ s) = if c == b'e' || c == b'E' then exponent_sign s else none

divided : ℕ → ℕ → Number
divided m d = if m % d == 0 then whole (m / d) else other

-- m / 10 ^ places, times ten to the exponent
scaled : ℕ → ℕ → Option (Bool × ℕ) → Number
scaled m places none = nan
scaled m places (some (true, e)) = divided m (10 ^ (places + e))
scaled m places (some (false, e)) =
    if leb places e then whole (m * 10 ^ (e - places)) else divided m (10 ^ (places - e))

mantissa : Text → Number
mantissa s =
    let (ds, rest) = span_digits s in
    let (fs, rest') = fraction rest in
    if truthy (ds ++ fs) then scaled (value (ds ++ fs)) (length fs) (exponent rest') else nan

unsigned : Text → Number
unsigned s = if text_eq s (codes "Infinity") then other else mantissa s

negated : Number → Number
negated nan = nan
negated (whole zero) = whole zero
negated (whole (suc n)) = other
negated other = other

signed : Text → Number
signed [] = whole 0
signed (c ∷ s) =
    if c == b'-' then negated (unsigned s) else if c == b'+' then unsigned s else unsigned (c ∷ s)

digit_value : ℕ → ℕ
digit_value c =
    if is_digit c
    then c - b'0'
    else if leb b'a' c && leb c b'f'
    then c - 87
    else if leb b'A' c && leb c b'F'
    then c - 55
    else 99

radix_digits : ℕ → ℕ → Text → Number
radix_digits r acc [] = whole acc
radix_digits r acc (c ∷ s) =
    let more = radix_digits r (acc * r + digit_value c) s in
    if ltb (digit_value c) r then more else nan

radix : ℕ → Text → Number
radix r [] = nan
radix r (c ∷ s) = radix_digits r 0 (c ∷ s)

-- `0x`, `0o`, `0b` in either case
literal : Text → Number
literal (z ∷ x ∷ s) =
    if z == b'0' && (x == b'x' || x == b'X')
    then radix 16 s
    else if z == b'0' && (x == b'o' || x == b'O')
    then radix 8 s
    else if z == b'0' && (x == b'b' || x == b'B')
    then radix 2 s
    else signed (z ∷ x ∷ s)
literal s = signed s

unfoldable pub to_number : Text → Number
unfolding span_digits fraction exponent_digits exponent_sign exponent divided scaled mantissa
    unsigned negated signed digit_value radix_digits radix literal trim text_eq all_digits value
to_number s = literal (trim s)

numbers :
    (to_number (codes " 24 ") ≡ whole 24)
    × (to_number (codes "") ≡ whole 0)
    × (to_number (codes "0x18") ≡ whole 24)
    × (to_number (codes "2.4e1") ≡ whole 24)
    × (to_number (codes "-1") ≡ other)
    × (to_number (codes "2.5") ≡ other)
    × (to_number (codes "24/8") ≡ nan)
unfolding to_number
numbers = (refl, refl, refl, refl, refl, refl, refl)
