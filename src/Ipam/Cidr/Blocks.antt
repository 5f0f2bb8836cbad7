-- ===== src/Ipam/Cidr/Blocks.antt =====
-- The block that `parseCidr` reads, and membership in it.
use kmc.Common.{
  ℕ, ◌+◌, ◌-◌, ◌*◌, ◌/◌, ◌%◌, ◌^◌, ◌≤◌, ◌<◌, ◌≡◌, refl, sym, ◌∙◌, ap, ◌↔◌, inl, inr, Bool, true,
  Option, none, some, Number, arith, ◌==◌, ==_iff, Bool-cases, holds_below, holds_below_at, ok,
  ◌>>=◌, >>=-eq-ok, Text, truthy, cut, trim, to_number, nan, whole, other,
}
use native.Mathlib.Nat.{
  div-lt_iff_lt-mul, div-add-mod', one-le-pow, mul-mod_left, mod-eq_of_lt, mod-lt, div-eq_of_lt-le,
}
use kmc.Common.Bits.{bit_and, bit_and-mask}
use kmc.Ipam.Cidr.{
  ParsedCidr, mask_of, last_of, block_of, prefix_of, parse_parts, parse_ipv4, parse_cidr,
  contains_number,
}
use kmc.Ipam.Cidr.RoundTrip.{parse_ipv4-lt}

-- A block of 2 ^ (32 - prefix) addresses, aligned at its size.
pub record IsBlock (b : ParsedCidr) : Type 0 where
  pub short : b.prefix ≤ 32
  pub aligned : b.first % 2 ^ (32 - b.prefix) ≡ 0
  pub sized : b.last + 1 ≡ b.first + 2 ^ (32 - b.prefix)
  pub fits : b.last < 2 ^ 32
  pub at_network : b.first ≡ b.network

mask_test : ℕ → Bool
mask_test p = mask_of p == 2 ^ 32 - 2 ^ (32 - p)

mask_table : holds_below mask_test 33 ≡ true
unfolding holds_below mask_test mask_of
mask_table = refl

mask_of_lem : (p : ℕ) → p ≤ 32 → mask_of p ≡ 2 ^ 32 - 2 ^ (32 - p)
unfolding mask_test
mask_of_lem p h = (==_iff _ _).0 (holds_below_at mask_test 33 p (omega arith) mask_table)

size_test : ℕ → Bool
size_test p = 2 ^ p * 2 ^ (32 - p) == 2 ^ 32

size_table : holds_below size_test 33 ≡ true
unfolding holds_below size_test
size_table = refl

size_lem : (p : ℕ) → p ≤ 32 → 2 ^ p * 2 ^ (32 - p) ≡ 2 ^ 32
unfolding size_test
size_lem p h = (==_iff _ _).0 (holds_below_at size_test 33 p (omega arith) size_table)

-- The multiple of `d` below `a`, and the next one.
block_fits : (a d k : ℕ) → 0 < d → a < k * d → a / d * d + d ≤ k * d
block_fits a d k p h = let q : a / d < k = (div-lt_iff_lt-mul p).1 h in grind arith

floor_eq : (a d : ℕ) → a / d * d + a % d ≡ a
floor_eq a d = div-add-mod' a d

network_lem :
    (addr p : ℕ)
    → addr < 2 ^ 32
    → p ≤ 32
    → bit_and 32 addr (mask_of p) ≡ addr / 2 ^ (32 - p) * 2 ^ (32 - p)
network_lem addr p h le =
    rw (mask_of_lem p le)
      (omega (arith, bit_and-mask 32 (32 - p) addr (omega arith) h, floor_eq addr (2 ^ (32 - p))))

last_of_lem : (n p : ℕ) → n + 2 ^ (32 - p) ≤ 2 ^ 32 → last_of n p + 1 ≡ n + 2 ^ (32 - p)
unfolding last_of
last_of_lem n p h = omega (arith, one-le-pow (32 - p) 2 (omega arith))

pub block_of-IsBlock : (addr p : ℕ) → addr < 2 ^ 32 → p ≤ 32 → IsBlock (block_of addr p)
unfolding block_of
block_of-IsBlock addr p h le =
    let d : ℕ = 2 ^ (32 - p) in
    let pos : 0 < d = one-le-pow (32 - p) 2 (omega arith) in
    let net : bit_and 32 addr (mask_of p) ≡ addr / d * d = network_lem addr p h le in
    let fits : addr / d * d + d ≤ 2 ^ 32 =
      rw (← size_lem p le) (block_fits addr d (2 ^ p) pos (rw (size_lem p le) h)) in
    let sized = last_of_lem (bit_and 32 addr (mask_of p)) p (rw net fits) in
    record {
      short = le;
      aligned = rw net (mul-mod_left (addr / d) d);
      sized = sized;
      fits = omega (arith, sized, net, fits);
      at_network = refl;
    }

-- What `parseCidr` has read when it returns.
pub record IsRead (parts : Option (Text × Text)) (b : ParsedCidr) : Type 0 where
  pub ip : Text
  pub rest : Text
  pub addr : ℕ
  pub prefix : ℕ
  pub at_slash : parts ≡ some (ip, rest)
  pub ip_address : parse_ipv4 ip ≡ ok addr
  pub is_prefix : to_number rest ≡ whole prefix
  pub in_range : prefix ≤ 32
  pub block : b ≡ block_of addr prefix

prefix_of-eq-ok :
    (text : Text) (x : Number) (p : ℕ) → prefix_of text x ≡ ok p → (x ≡ whole p) × (p ≤ 32)
unfolding prefix_of
prefix_of-eq-ok text (whole n) p h = ground arith
prefix_of-eq-ok text nan p h = cc
prefix_of-eq-ok text other p h = cc

some_parts-IsRead :
    (text ip rest : Text) (b : ParsedCidr)
    → (do prefix ← prefix_of text (to_number rest); addr ← parse_ipv4 ip; ok (block_of addr prefix))
      ≡ ok b
    → IsRead (some (ip, rest)) b
some_parts-IsRead text ip rest b h =
    let (p, read, h') = >>=-eq-ok (prefix_of text (to_number rest)) _ h in
    let (addr, parsed, h'') = >>=-eq-ok (parse_ipv4 ip) _ h' in
    let (number, range) = prefix_of-eq-ok text (to_number rest) p read in
    record {
      ip = ip;
      rest = rest;
      addr = addr;
      prefix = p;
      at_slash = refl;
      ip_address = parsed;
      is_prefix = number;
      in_range = range;
      block = cc;
    }

parse_parts-IsRead :
    (text : Text) (parts : Option (Text × Text)) (b : ParsedCidr)
    → parse_parts text parts ≡ ok b
    → IsRead parts b
unfolding parse_parts
parse_parts-IsRead text none b h = cc
parse_parts-IsRead text (some (ip, rest)) b h = elim (Bool-cases (truthy ip)) [
  | inl given ↦ some_parts-IsRead text ip rest b (rw given at h)
  | inr empty ↦ ground arith
]

pub parse_cidr-IsRead :
    (text : Text) (b : ParsedCidr) → parse_cidr text ≡ ok b → IsRead (cut b'/' (trim text)) b
unfolding parse_cidr
parse_cidr-IsRead text b h = parse_parts-IsRead text (cut b'/' (trim text)) b h

-- A parsed CIDR is an aligned block of 2 ^ (32 - prefix) addresses within 32 bits.
pub parse_cidr-IsBlock : (text : Text) (b : ParsedCidr) → parse_cidr text ≡ ok b → IsBlock b
parse_cidr-IsBlock text b h =
    let r = parse_cidr-IsRead text b h in
    rw r.block
      (block_of-IsBlock r.addr r.prefix (parse_ipv4-lt r.ip r.addr r.ip_address) r.in_range)

-- In a block, the addresses between the ends are those that agree with the first but for the
-- low 32 - prefix bits.
same_network :
    (first last d n : ℕ)
    → 0 < d
    → first % d ≡ 0
    → last + 1 ≡ first + d
    → ((first ≤ n) × (n ≤ last)) ↔ (n / d ≡ first / d)
same_network first last d n pos aligned sized =
    let base : first / d * d ≡ first = omega (arith, floor_eq first d) in
    (
      λ h. div-eq_of_lt-le d (omega (arith, base)) (grind (arith, base)),
      λ e.
          let here : n / d * d ≡ first = rw e base in
          let low : n % d < d = mod-lt n pos in omega (arith, floor_eq n d),
    )

pub contains_number-between :
    (b : ParsedCidr) (n : ℕ)
    → n < 2 ^ 32
    → (contains_number b n ≡ true) ↔ ((b.first ≤ n) × (n ≤ b.last))
unfolding contains_number
contains_number-between b n h = rw (mod-eq_of_lt h) (ground arith)

-- A parsed CIDR contains exactly the addresses that agree with its network address but for the
-- low 32 - prefix bits.
pub contains_number_iff :
    (text : Text) (b : ParsedCidr) (n : ℕ)
    → parse_cidr text ≡ ok b
    → n < 2 ^ 32
    → (contains_number b n ≡ true) ↔ (n / 2 ^ (32 - b.prefix) ≡ b.network / 2 ^ (32 - b.prefix))
contains_number_iff text b n h lt =
    let block = parse_cidr-IsBlock text b h in
    let between = contains_number-between b n lt in
    let same =
      same_network b.first b.last (2 ^ (32 - b.prefix)) n
        (one-le-pow (32 - b.prefix) 2 (omega arith)) block.aligned block.sized in
    let network = ap (λ (a : ℕ). a / 2 ^ (32 - b.prefix)) block.at_network in
    (λ t. same.0 (between.0 t) ∙ network, λ e. between.1 (same.1 (e ∙ sym network)))
