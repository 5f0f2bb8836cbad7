-- ===== src/Common/Decimal.antt =====
-- Decimal digits: `String(n)`, and the value of a run of digits.
use Prim.Native.Nat.{ℕ, zero, suc, ◌+◌, ◌-◌, ◌*◌, ◌/◌, ◌%◌}
use mathlib.Core.Bool.{Bool, true, ◌&&◌}
use mathlib.Core.List.{[], ◌∷◌}
use kmc.Common.Tests.{ltb, leb, if◌then◌else◌}
use kmc.Common.Strings.{Text}

-- `\d`
abbrev pub is_digit : ℕ → Bool
is_digit c = leb b'0' c && leb c b'9'

-- `/^\d*$/`
unfoldable pub all_digits : Text → Bool
all_digits [] = true
all_digits (c ∷ s) = is_digit c && all_digits s

unfoldable pub value_from : ℕ → Text → ℕ
value_from acc [] = acc
value_from acc (c ∷ s) = value_from (acc * 10 + (c - b'0')) s

-- The number that a run of digits stands for.
unfoldable pub value : Text → ℕ
unfolding value_from
value s = value_from 0 s

unfoldable pub digits_fuel : ℕ → ℕ → Text → Text
digits_fuel zero n out = out
digits_fuel (suc f) n out =
    let more = digits_fuel f (n / 10) ((b'0' + n % 10) ∷ out) in
    if ltb n 10 then (b'0' + n) ∷ out else more

-- `String(n)`: a number has at most `n + 1` digits.
unfoldable pub decimal : ℕ → Text
unfolding digits_fuel
decimal n = digits_fuel (suc n) n []
