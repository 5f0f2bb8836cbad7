-- ===== src/Ipam/Cidr/RoundTrip.antt =====
-- `parseIpv4` of what `formatIpv4` prints, in cidr.ts.
use kmc.Common.{
  ℕ, ◌^◌, ◌<◌, ◌≡◌, refl, sym, ◌∙◌, ap, inl, inr, Option-cases, Bool, true, false, ◌&&◌, Option,
  none, some, List, [], ◌∷◌, arith, ◌==◌, holds_below, holds_below_at, ok, All, All-append, Text,
  Lacks, is_space, split, join, trim, decimal, is_digit, all_digits,
}
use native.Mathlib.Nat.{mod-eq_of_lt}
use kmc.Common.Splitting.{split-join}
use kmc.Common.Trimming.{IsSolid, trim-IsSolid}
use kmc.Ipam.Cidr.{octet, octets, shift_in, byte_at, parse_ipv4, format_ipv4}

-- Digits hold no dot and no space.
all_digits-Lacks : (s : Text) → all_digits s ≡ true → Lacks b'.' s
unfolding all_digits
all_digits-Lacks [] h = tt
all_digits-Lacks (c ∷ s) h = (ground arith, all_digits-Lacks s (ground arith))

is_digit-solid : (c : ℕ) → is_digit c ≡ true → is_space c ≡ false
unfolding is_space
is_digit-solid c h = ground arith

all_digits-IsSolid : (s : Text) → all_digits s ≡ true → IsSolid s
unfolding all_digits
all_digits-IsSolid [] h = tt
all_digits-IsSolid (c ∷ s) h =
    (is_digit-solid c (ground arith), all_digits-IsSolid s (ground arith))

reads_back : ℕ → Option ℕ → Bool
reads_back o none = false
reads_back o (some v) = v == o

byte_test : ℕ → Bool
byte_test o = all_digits (decimal o) && reads_back o (octet (decimal o))

byte_table : holds_below byte_test 256 ≡ true
unfolding holds_below byte_test reads_back octet decimal all_digits
byte_table = refl

pub decimal-all_digits : (o : ℕ) → o < 256 → all_digits (decimal o) ≡ true
unfolding byte_test
decimal-all_digits o h =
    let t : byte_test o ≡ true = holds_below_at byte_test 256 o h byte_table in ground arith

reads_back-eq : (o : ℕ) (r : Option ℕ) → reads_back o r ≡ true → r ≡ some o
unfolding reads_back
reads_back-eq o none h = ground arith
reads_back-eq o (some v) h = ground arith

pub octet-decimal : (o : ℕ) → o < 256 → octet (decimal o) ≡ some o
unfolding byte_test
octet-decimal o h =
    let t : byte_test o ≡ true = holds_below_at byte_test 256 o h byte_table in
    reads_back-eq o _ (ground arith)

byte_at-lt : (x k : ℕ) → byte_at x k < 256
unfolding byte_at
byte_at-lt x k = omega arith

shift_in_bytes :
    (n : ℕ)
    → n < 2 ^ 32
    → shift_in
        (shift_in (shift_in (shift_in 0 (byte_at n 24)) (byte_at n 16)) (byte_at n 8))
        (byte_at n 0)
      ≡ n
unfolding shift_in byte_at
shift_in_bytes n h = omega arith

octets-nil : (n : ℕ) → octets n [] ≡ some n
unfolding octets
octets-nil n = refl

octets-cons :
    (n o : ℕ) (p : Text) (ps : List Text)
    → octet p ≡ some o
    → octets n (p ∷ ps) ≡ octets (shift_in n o) ps
unfolding octets
octets-cons n o p ps h = rw (h, octets)

-- The four parts of a formatted address.
module _ (n : ℕ) where
  abbrev pub parts_of : List Text
  parts_of =
      decimal (byte_at n 24)
      ∷ decimal (byte_at n 16)
      ∷ decimal (byte_at n 8)
      ∷ decimal (byte_at n 0)
      ∷ []

  pub byte_digits : (k : ℕ) → all_digits (decimal (byte_at n k)) ≡ true
  byte_digits k = decimal-all_digits (byte_at n k) (byte_at-lt n k)

  dotted-IsSolid : IsSolid (join (b'.' ∷ []) parts_of)
  unfolding join is_space
  dotted-IsSolid =
      let digits : (k : ℕ) → IsSolid (decimal (byte_at n k)) =
        λ k. all_digits-IsSolid _ (byte_digits k) in
      All-append _ _ _ (digits 24)
        (refl, All-append _ _ _ (digits 16) (refl, All-append _ _ _ (digits 8) (refl, digits 0)))

  parts_of-Lacks : All (Lacks b'.') parts_of
  parts_of-Lacks =
      let lacks : (k : ℕ) → Lacks b'.' (decimal (byte_at n k)) =
        λ k. all_digits-Lacks _ (byte_digits k) in
      (lacks 24, (lacks 16, (lacks 8, (lacks 0, tt))))

  octets-parts_of : n < 2 ^ 32 → octets 0 parts_of ≡ some n
  octets-parts_of h =
      let part : (k : ℕ) → octet (decimal (byte_at n k)) ≡ some (byte_at n k) =
        λ k. octet-decimal (byte_at n k) (byte_at-lt n k) in
      octets-cons _ _ _ _ (part 24)
      ∙ octets-cons _ _ _ _ (part 16)
      ∙ octets-cons _ _ _ _ (part 8)
      ∙ octets-cons _ _ _ _ (part 0)
      ∙ octets-nil _
      ∙ ap some (shift_in_bytes n h)

-- Parsing a formatted 32-bit address gives the address back.
pub parse_ipv4-format_ipv4 : (n : ℕ) → n < 2 ^ 32 → parse_ipv4 (format_ipv4 n) ≡ ok n
unfolding parse_ipv4 format_ipv4
parse_ipv4-format_ipv4 n h = rw (mod-eq_of_lt h) (
    rw (trim-IsSolid _ (dotted-IsSolid n))
      (rw (split-join b'.' _ _ (parts_of-Lacks n)) (rw (octets-parts_of n h))))

-- Distinct 32-bit addresses have distinct texts.
pub format_ipv4_injective :
    (m n : ℕ) → m < 2 ^ 32 → n < 2 ^ 32 → format_ipv4 m ≡ format_ipv4 n → m ≡ n
format_ipv4_injective m n hm hn e =
    cc (parse_ipv4-format_ipv4 m hm, parse_ipv4-format_ipv4 n hn, ap parse_ipv4 e)

octets-lt : (n : ℕ) (parts : List Text) (r : ℕ) → n < 2 ^ 32 → octets n parts ≡ some r → r < 2 ^ 32
unfolding octets shift_in
octets-lt n [] r h e = ground arith
octets-lt n (p ∷ ps) r h e = elim (Option-cases (octet p)) [
  | inl bad ↦ ground arith
  | inr (o, good) ↦
      octets-lt (shift_in n o) ps r (omega arith) (sym (octets-cons n o p ps good) ∙ e)
]

-- A parsed address fits 32 bits.
pub parse_ipv4-lt : (ip : Text) (n : ℕ) → parse_ipv4 ip ≡ ok n → n < 2 ^ 32
unfolding parse_ipv4
parse_ipv4-lt ip n e = ground (arith, octets-lt 0 (split b'.' (trim ip)) n (omega arith))
