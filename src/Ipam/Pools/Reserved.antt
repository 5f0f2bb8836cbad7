-- ===== src/Ipam/Pools/Reserved.antt =====
-- Allocations against the claims and the gateway of a pool, in pools.server.ts.
use kmc.Common.{
  ℕ, ◌≡◌, ◌≢◌, refl, sym, ◌∙◌, ap, Bool, true, false, Option, some, Bool-cases, inl, inr, List, [],
  ◌∷◌, ◌++◌, arith, ok, In, ok_injective, keep, Text, trimmed, has, text_eq_iff, text_eq_refl,
}
use mathlib.Core.Bool.{false≢true}
use kmc.Errors.{ErrorValue}
use kmc.Ipam.Cidr.{ParsedCidr, parse_cidr, contains_ipv4}
use kmc.Ipam.Config.{IpPoolConfig}
use kmc.Ipam.Claims.{ClaimBody}
use kmc.Ipam.Pools.{
  AllocatedIp, AllocateOpts, contained, used_of_claims, taken_addresses, build_exclude_set,
  allocate_ipv4,
}
use kmc.Ipam.Pools.Allocation.{allocate_ipv4-IsAllocation}

has-append_right : (xs ys : List Text) (t : Text) → has (xs ++ ys) t ≡ false → has ys t ≡ false
unfolding has
has-append_right [] ys t h = h
has-append_right (x ∷ xs) ys t h = has-append_right xs ys t (ground arith)

has-append_left : (xs ys : List Text) (t : Text) → has (xs ++ ys) t ≡ false → has xs t ≡ false
unfolding has
has-append_left [] ys t h = refl
has-append_left (x ∷ xs) ys t h = ground (arith, has-append_left xs ys t)

-- A text that the kept ones do not hold is none of those that pass the test.
absent :
    (p : Text → Bool) (xs : List Text) (t c : Text)
    → In c xs
    → p c ≡ true
    → has (keep p xs) t ≡ false
    → t ≢ c
unfolding has keep
absent p (x ∷ xs) t c m q h = elim (Bool-cases (p x)) [
  | inl passes ↦
      let h' : has (x ∷ keep p xs) t ≡ false = rw passes at h in
      elim m [
        | inl same ↦ ground (arith, text_eq_iff x t)
        | inr later ↦ absent p xs t c later q (ground arith)
      ]
  | inr fails ↦ elim m [
    | inl same ↦ ground arith
    | inr later ↦ absent p xs t c later q (ground arith)
  ]
]
absent p [] t c m q h = absurd m

has_self : (t : Text) (xs : List Text) → has (t ∷ xs) t ≡ true
unfolding has
has_self t xs = rw (text_eq_refl t)

contains-contained :
    (parsed : ParsedCidr) (c : Text) → contains_ipv4 parsed c ≡ ok true → contained parsed c ≡ true
unfolding contained
contains-contained parsed c h = rw (h, contained)

gateway-excluded :
    (pool : IpPoolConfig) (parsed : ParsedCidr) (gw : Text)
    → trimmed pool.gateway ≡ some gw
    → has (build_exclude_set pool parsed) gw ≡ true
unfolding build_exclude_set
gateway-excluded pool parsed gw h = rw h (has_self gw _)

module _ (reply : ℕ → ClaimBody → Option ErrorValue) (pool : IpPoolConfig) (namespace : Text)
    (claims : List Text) (opts : AllocateOpts) (a : AllocatedIp) where
  -- An allocation is never the text of a listed claim in the pool's block.
  pub allocate_ipv4-ne-claim :
      (parsed : ParsedCidr) (c : Text)
      → parse_cidr pool.cidr ≡ ok parsed
      → In c claims
      → contains_ipv4 parsed c ≡ ok true
      → allocate_ipv4 reply pool namespace claims opts ≡ ok a
      → a.address ≢ c
  unfolding taken_addresses used_of_claims
  allocate_ipv4-ne-claim parsed c read listed inside h =
      let i = allocate_ipv4-IsAllocation reply pool namespace claims opts a h in
      let same : i.valid.parsed ≡ parsed = ok_injective (sym i.checked.read ∙ read) in
      absent (contained i.valid.parsed) claims a.address c listed
        (rw same (contains-contained parsed c inside)) (has-append_right _ _ a.address i.unused)

  -- An allocation is never the text of the pool's gateway, unless it may claim the gateway.
  pub allocate_ipv4-ne-gateway :
      (gw : Text)
      → trimmed pool.gateway ≡ some gw
      → opts.claim_gateway ≡ false
      → allocate_ipv4 reply pool namespace claims opts ≡ ok a
      → a.address ≢ gw
  allocate_ipv4-ne-gateway gw given plain h =
      let i = allocate_ipv4-IsAllocation reply pool namespace claims opts a h in
      let held : has i.valid.exclude gw ≡ true =
        rw i.checked.exclude (gateway-excluded pool i.valid.parsed gw given) in
      elim i.allowed [
        | inl claims_it ↦ cc
        | inr free ↦ λ same. false≢true (sym free ∙ ap (has i.valid.exclude) same ∙ held)
      ]
