-- ===== src/Ipam/Cidr.antt =====
-- console/app/lib/ipam/cidr.ts: IPv4 addresses, CIDR blocks, windows of usable hosts. A uint32 is
-- a natural number below 2 ^ 32, and `>>> 0` is `% 2 ^ 32`.
pub mod RoundTrip
pub mod Blocks
pub mod Window
pub mod FirstFree
mod Tests
use kmc.Common.{
  ℕ, zero, suc, ◌+◌, ◌-◌, ◌*◌, ◌/◌, ◌%◌, ◌^◌, min, max, Bool, ◌&&◌, ◌||◌, Option, none, some, List,
  [], ◌∷◌, ◌++◌, ltb, leb, ◌==◌, if◌then◌else◌, Result, ok, err, ◌>>=◌, ◌>>◌, guard, length, Text,
  truthy, trim, split, join, cut, has, all_digits, value, decimal, Number, whole, to_number,
}
use kmc.Common.Bits.{bit_and}

pub data CidrError : Type 0 where
  invalid_address : Text → CidrError
  invalid_cidr : Text → CidrError
  invalid_prefix : Text → CidrError
  start_outside : Text → Text → CidrError
  end_outside : Text → Text → CidrError
  no_usable_hosts : Text → CidrError

pub record ParsedCidr : Type 0 where
  pub cidr : Text
  pub network : ℕ
  pub prefix : ℕ
  pub mask : ℕ
  pub first : ℕ
  pub last : ℕ

pub record HostRange : Type 0 where
  pub start : ℕ
  pub end : ℕ

-- One part of a dotted address: `/^\d+$/` and at most 255.
unfoldable pub octet : Text → Option ℕ
unfolding all_digits value
octet part =
    if truthy part && all_digits part
    then (if ltb 255 (value part) then none else some (value part))
    else none

-- `((n << 8) + o) >>> 0`
unfoldable pub shift_in : ℕ → ℕ → ℕ
shift_in n o = (n * 2 ^ 8 % 2 ^ 32 + o) % 2 ^ 32

-- The loop of `parseIpv4` over the parts.
unfoldable pub octets : ℕ → List Text → Option ℕ
octets n [] = some n
octets n (part ∷ parts) = elim (octet part) [ none ↦ none | some o ↦ octets (shift_in n o) parts ]

unfoldable pub parse_ipv4 : Text → Result CidrError ℕ
unfolding octets octet shift_in split trim
parse_ipv4 ip =
    let parts = split b'.' (trim ip) in
    if length parts == 4
    then elim (octets 0 parts) [ none ↦ err (invalid_address ip) | some n ↦ ok n ]
    else err (invalid_address ip)

-- `(x >>> k) & 0xff`
unfoldable pub byte_at : ℕ → ℕ → ℕ
byte_at x k = x / 2 ^ k % 2 ^ 8

unfoldable pub format_ipv4 : ℕ → Text
unfolding byte_at decimal join
format_ipv4 n =
    let x = n % 2 ^ 32 in
    join (b'.' ∷ []) (
      decimal (byte_at x 24)
      ∷ decimal (byte_at x 16)
      ∷ decimal (byte_at x 8)
      ∷ decimal (byte_at x 0)
      ∷ [])

-- `prefix === 0 ? 0 : ((0xffffffff << (32 - prefix)) >>> 0)`
unfoldable pub mask_of : ℕ → ℕ
mask_of prefix = if prefix == 0 then 0 else 0xffffffff * 2 ^ (32 - prefix) % 2 ^ 32

-- `1 << 31` is negative in the source; only its sum with the network is read, modulo 2 ^ 32.
unfoldable pub last_of : ℕ → ℕ → ℕ
last_of network prefix = (network + 2 ^ (32 - prefix) - 1) % 2 ^ 32

unfoldable pub block_of : ℕ → ℕ → ParsedCidr
unfolding mask_of last_of bit_and format_ipv4 decimal
block_of addr prefix =
    let network = bit_and 32 addr (mask_of prefix) in
    record {
      cidr = format_ipv4 network ++ b'/' ∷ decimal prefix;
      network = network;
      prefix = prefix;
      mask = mask_of prefix;
      first = network;
      last = last_of network prefix;
    }

-- `Number(text)`, an integer from 0 to 32
unfoldable pub prefix_of : Text → Number → Result CidrError ℕ
prefix_of cidr (whole n) = if ltb 32 n then err (invalid_prefix cidr) else ok n
prefix_of cidr _ = err (invalid_prefix cidr)

parse_parts : Text → Option (Text × Text) → Result CidrError ParsedCidr
unfolding prefix_of parse_ipv4 block_of to_number
parse_parts cidr none = err (invalid_cidr cidr)
parse_parts cidr (some (ip, rest)) =
    if truthy ip
    then (do
      prefix ← prefix_of cidr (to_number rest)
      addr ← parse_ipv4 ip
      ok (block_of addr prefix))
    else err (invalid_cidr cidr)

unfoldable pub parse_cidr : Text → Result CidrError ParsedCidr
unfolding parse_parts cut trim
parse_cidr cidr = parse_parts cidr (cut b'/' (trim cidr))

-- `containsIpv4` at a number
unfoldable pub contains_number : ParsedCidr → ℕ → Bool
contains_number parsed ip = let n = ip % 2 ^ 32 in leb parsed.first n && leb n parsed.last

-- `containsIpv4` at a string
unfoldable pub contains_ipv4 : ParsedCidr → Text → Result CidrError Bool
unfolding contains_number parse_ipv4
contains_ipv4 parsed ip = do n ← parse_ipv4 ip; ok (leb parsed.first n && leb n parsed.last)

abbrev pub base_of : Text → Option (Text × Text) → Text
base_of s none = s
base_of s (some (base, rest)) = base

abbrev pub annotated : Text → Text → Result CidrError ℕ → Option Text
annotated s base (err e) = none
annotated s base (ok n) = if truthy s then some base else none

unfoldable pub address_from_annotation : Text → Option Text
unfolding trim cut parse_ipv4
address_from_annotation text =
    let s = trim text in let base = base_of s (cut b'/' s) in annotated s base (parse_ipv4 base)

-- The bounds before the options: the block, without its ends for a prefix up to 30.
unfoldable pub host_start : ParsedCidr → ℕ
host_start parsed = if leb parsed.prefix 30 then (parsed.first + 1) % 2 ^ 32 else parsed.first

unfoldable pub host_end : ParsedCidr → ℕ
host_end parsed = if leb parsed.prefix 30 then (parsed.last + 2 ^ 32 - 1) % 2 ^ 32 else parsed.last

-- `if (opts?.start) { … }`: an empty string counts as absent.
unfoldable pub narrow_start : ParsedCidr → Option Text → Result CidrError ℕ
unfolding host_start parse_ipv4 contains_number
narrow_start parsed none = ok (host_start parsed)
narrow_start parsed (some []) = ok (host_start parsed)
narrow_start parsed (some (c ∷ t)) = do
  s ← parse_ipv4 (c ∷ t)
  guard (contains_number parsed s) (start_outside (c ∷ t) parsed.cidr)
  ok (max (host_start parsed) s % 2 ^ 32)

unfoldable pub narrow_end : ParsedCidr → Option Text → Result CidrError ℕ
unfolding host_end parse_ipv4 contains_number
narrow_end parsed none = ok (host_end parsed)
narrow_end parsed (some []) = ok (host_end parsed)
narrow_end parsed (some (c ∷ t)) = do
  e ← parse_ipv4 (c ∷ t)
  guard (contains_number parsed e) (end_outside (c ∷ t) parsed.cidr)
  ok (min (host_end parsed) e % 2 ^ 32)

unfoldable pub usable_host_range :
    ParsedCidr → Option Text → Option Text → Result CidrError HostRange
unfolding narrow_start narrow_end
usable_host_range parsed from to = do
  start ← narrow_start parsed from
  end ← narrow_end parsed to
  guard (leb start end) (no_usable_hosts parsed.cidr)
  ok (record { start = start; end = end })

unfoldable pub count_usable_hosts : HostRange → ℕ
count_usable_hosts range = range.end - range.start + 1

-- The loop of `firstFreeIpv4`, with the rounds that are left.
unfoldable pub first_free_from : ℕ → ℕ → List Text → List Text → Option Text
unfolding format_ipv4 has
first_free_from zero n used exclude = none
first_free_from (suc rounds) n used exclude =
    let rest = first_free_from rounds (n + 1) used exclude in
    if has used (format_ipv4 n) || has exclude (format_ipv4 n) then rest else some (format_ipv4 n)

-- `n` runs from `start` to `end`, which are `end + 1 - start` rounds.
unfoldable pub first_free_ipv4 : HostRange → List Text → List Text → Option Text
unfolding first_free_from
first_free_ipv4 range used exclude =
    first_free_from (range.end + 1 - range.start) range.start used exclude
