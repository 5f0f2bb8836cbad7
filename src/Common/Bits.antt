-- ===== src/Common/Bits.antt =====
-- Bitwise `&` on words of a given width, and the masks of a network prefix.
use Prim.Native.Nat.{ℕ, zero, suc, ◌+◌, ◌-◌, ◌*◌, ◌/◌, ◌%◌, ◌^◌, ◌≤◌, ◌<◌}
use mathlib.Core.Path.{◌≡◌, ap}
use native.Mathlib.Omega.{arith}
use native.Mathlib.Nat.{pow-suc, one-le-pow, pow-le-pow_right, mod-eq_of_lt}

-- `a & b` on `w` bits, from the lowest bit up.
unfoldable pub bit_and : ℕ → ℕ → ℕ → ℕ
bit_and zero a b = 0
bit_and (suc w) a b = (a % 2) * (b % 2) + 2 * bit_and w (a / 2) (b / 2)

-- The lowest bit of a remainder by an even number.
mod_double : (a d : ℕ) → 0 < d → a % (d * 2) ≡ 2 * (a / 2 % d) + a % 2
mod_double a d h = grind arith

-- All ones keep a word as it is.
bit_and-ones : (w a : ℕ) → bit_and w a (2 ^ w - 1) ≡ a % 2 ^ w
unfolding bit_and
bit_and-ones zero a = omega arith
bit_and-ones (suc w) a =
    let odd : (2 ^ suc w - 1) % 2 ≡ 1 = omega (arith, pow-suc 2 w, one-le-pow w 2 (omega arith)) in
    let half : (2 ^ suc w - 1) / 2 ≡ 2 ^ w - 1 =
      omega (arith, pow-suc 2 w, one-le-pow w 2 (omega arith)) in
    rw (odd, half)
      (omega (
        arith,
        bit_and-ones w (a / 2),
        mod_double a (2 ^ w) (one-le-pow w 2 (omega arith)),
        ap (λ (d : ℕ). a % d) (pow-suc 2 w),
      ))

le-zero_eq : (h : ℕ) → h ≤ 0 → h ≡ 0
le-zero_eq h p = omega arith

-- A mask of high ones clears the `h` low bits.
pub bit_and-mask : (w h a : ℕ) → h ≤ w → a < 2 ^ w → bit_and w a (2 ^ w - 2 ^ h) + a % 2 ^ h ≡ a
unfolding bit_and
bit_and-mask zero h a p q = rw (le-zero_eq h p) (omega arith)
bit_and-mask (suc w) zero a p q = omega (arith, bit_and-ones (suc w) a, mod-eq_of_lt q)
bit_and-mask (suc w) (suc h) a p q =
    let le : 2 ^ h ≤ 2 ^ w = pow-le-pow_right (omega arith) (omega arith) in
    let even : (2 ^ suc w - 2 ^ suc h) % 2 ≡ 0 = omega (arith, pow-suc 2 w, pow-suc 2 h) in
    let half : (2 ^ suc w - 2 ^ suc h) / 2 ≡ 2 ^ w - 2 ^ h =
      omega (arith, pow-suc 2 w, pow-suc 2 h) in
    rw (even, half)
      (omega (
        arith,
        bit_and-mask w h (a / 2) (omega arith) (omega (arith, pow-suc 2 w)),
        mod_double a (2 ^ h) (one-le-pow h 2 (omega arith)),
        ap (λ (d : ℕ). a % d) (pow-suc 2 h),
      ))
