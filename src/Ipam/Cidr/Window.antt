-- ===== src/Ipam/Cidr/Window.antt =====
-- The window of usable hosts.
use kmc.Common.{
  ℕ, ◌+◌, ◌-◌, ◌%◌, ◌^◌, ◌≤◌, ◌<◌, max, min, ◌≡◌, inl, inr, ◌⊎◌, Option, none, some, [], ◌∷◌, arith,
  leb, Bool-cases, leb→le, leb_false→lt, ok, guard, >>=-eq-ok, Text,
}
use kmc.Ipam.Cidr.{
  ParsedCidr, HostRange, parse_ipv4, contains_number, host_start, host_end, narrow_start,
  narrow_end, usable_host_range,
}
use native.Mathlib.Nat.{one-le-pow, pow-le-pow_right}
use kmc.Ipam.Cidr.RoundTrip.{parse_ipv4-lt}
use kmc.Ipam.Cidr.Blocks.{IsBlock}

-- The address that an option names: no bound when it is absent or empty.
abbrev pub IsAtLeast : Option Text → ℕ → Type 0
IsAtLeast none n = Unit
IsAtLeast (some []) n = Unit
IsAtLeast (some (c ∷ t)) n = (s : ℕ) × (parse_ipv4 (c ∷ t) ≡ ok s) × (s ≤ n)

abbrev pub IsAtMost : Option Text → ℕ → Type 0
IsAtMost none n = Unit
IsAtMost (some []) n = Unit
IsAtMost (some (c ∷ t)) n = (s : ℕ) × (parse_ipv4 (c ∷ t) ≡ ok s) × (n ≤ s)

-- The ends of a block are no hosts, but for the prefixes 31 and 32.
pub record IsHost (b : ParsedCidr) (n : ℕ) : Type 0 where
  pub low : b.first ≤ n
  pub high : n ≤ b.last
  pub not_ends : (30 < b.prefix) ⊎ ((b.first < n) × (n < b.last))

module _ {b : ParsedCidr} (v : IsBlock b) where
  pub first-le-last : b.first ≤ b.last
  first-le-last = omega (arith, v.sized, one-le-pow (32 - b.prefix) 2 (omega arith))

  wide : b.prefix ≤ 30 → b.first + 3 ≤ b.last
  wide h =
      let four : 2 ^ 2 ≤ 2 ^ (32 - b.prefix) =
        pow-le-pow_right (omega arith) {i = 2} (omega arith) in
      omega (arith, v.sized)

  host_start-low : (b.first ≤ host_start b) × (b.prefix ≤ 30 → b.first < host_start b)
  unfolding host_start
  host_start-low = elim (Bool-cases (leb b.prefix 30)) [
    | inl e ↦
        let w = wide (leb→le _ _ e) in
        rw e (omega (arith, w, v.fits), λ _. omega (arith, w, v.fits))
    | inr e ↦ rw e (omega arith, λ h. absurd (omega (arith, leb_false→lt _ _ e)))
  ]

  host_end-high : (host_end b ≤ b.last) × (b.prefix ≤ 30 → host_end b < b.last)
  unfolding host_end
  host_end-high = elim (Bool-cases (leb b.prefix 30)) [
    | inl e ↦
        let w = wide (leb→le _ _ e) in
        rw e (omega (arith, w, v.fits), λ _. omega (arith, w, v.fits))
    | inr e ↦ rw e (omega arith, λ h. absurd (omega (arith, leb_false→lt _ _ e)))
  ]

  host_start-lt : host_start b < 2 ^ 32
  unfolding host_start
  host_start-lt = ground (arith, first-le-last, v.fits)

  narrow_start-low :
      (o : Option Text) (n : ℕ) → narrow_start b o ≡ ok n → (host_start b ≤ n) × IsAtLeast o n
  unfolding narrow_start
  narrow_start-low none n h = ground arith
  narrow_start-low (some []) n h = ground arith
  narrow_start-low (some (c ∷ t)) n h =
      let (s, parsed, h') = >>=-eq-ok (parse_ipv4 (c ∷ t)) _ h in
      let (_, inside, h'') = >>=-eq-ok (guard (contains_number b s) _) _ h' in
      let e : max (host_start b) s % 2 ^ 32 ≡ n = ground arith in
      let lt = parse_ipv4-lt (c ∷ t) s parsed in
      (omega (arith, host_start-lt, e, lt), (s, parsed, omega (arith, host_start-lt, e, lt)))

  narrow_end-high :
      (o : Option Text) (n : ℕ) → narrow_end b o ≡ ok n → (n ≤ host_end b) × IsAtMost o n
  unfolding narrow_end
  narrow_end-high none n h = ground arith
  narrow_end-high (some []) n h = ground arith
  narrow_end-high (some (c ∷ t)) n h =
      let (s, parsed, h') = >>=-eq-ok (parse_ipv4 (c ∷ t)) _ h in
      let (_, inside, h'') = >>=-eq-ok (guard (contains_number b s) _) _ h' in
      let e : min (host_end b) s % 2 ^ 32 ≡ n = ground arith in
      (omega (arith, e), (s, parsed, omega (arith, e)))

-- What a window of usable hosts promises.
pub record IsWindow (b : ParsedCidr) (from to : Option Text) (r : HostRange) : Type 0 where
  pub ordered : r.start ≤ r.end
  pub hosts : (n : ℕ) → r.start ≤ n → n ≤ r.end → IsHost b n
  pub from_start : IsAtLeast from r.start
  pub to_end : IsAtMost to r.end

usable_host_range-eq-ok :
    (b : ParsedCidr) (from to : Option Text) (r : HostRange)
    → usable_host_range b from to ≡ ok r
    → (narrow_start b from ≡ ok r.start) × (narrow_end b to ≡ ok r.end) × (r.start ≤ r.end)
unfolding usable_host_range
usable_host_range-eq-ok b from to r h =
    let (s, at_start, h') = >>=-eq-ok (narrow_start b from) _ h in
    let (e, at_end, h'') = >>=-eq-ok (narrow_end b to) _ h' in
    (ground arith, ground arith, ground arith)

-- In a parsed block, every address of the window is a host of the block, strictly between its
-- ends for a prefix up to 30, and the window respects the given start and end; it is not empty.
pub usable_host_range-IsWindow :
    (b : ParsedCidr) (from to : Option Text) (r : HostRange)
    → IsBlock b
    → usable_host_range b from to ≡ ok r
    → IsWindow b from to r
usable_host_range-IsWindow b from to r v h =
    let (at_start, at_end, ordered) = usable_host_range-eq-ok b from to r h in
    let (low, from_start) = narrow_start-low v from r.start at_start in
    let (high, to_end) = narrow_end-high v to r.end at_end in
    record {
      ordered = ordered;
      hosts = λ n p q. record {
        low = omega (arith, low, (host_start-low v).0);
        high = omega (arith, high, (host_end-high v).0);
        not_ends = elim (Bool-cases (leb b.prefix 30)) [
          | inr e ↦ inl (leb_false→lt _ _ e)
          | inl e ↦
              let k : b.prefix ≤ 30 = leb→le b.prefix 30 e in
              inr (
                omega (arith, low, (host_start-low v).1 k),
                omega (arith, high, (host_end-high v).1 k),
              )
        ];
      };
      from_start = from_start;
      to_end = to_end;
    }
