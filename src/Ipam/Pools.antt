-- ===== src/Ipam/Pools.antt =====
-- console/app/lib/ipam/pools.server.ts: the inventory of a pool and the allocation of an address.
-- A set of strings is a list that is read by `has`.
pub mod Outcomes
pub mod Allocation
pub mod Reserved
mod Tests
use kmc.Common.{
  ℕ, zero, suc, ◌+◌, ◌-◌, Bool, true, false, not, ◌&&◌, ◌||◌, Option, none, some, List, [], ◌∷◌,
  ◌++◌, ltb, leb, if◌then◌else◌, or_else, Result, ok, err, ◌>>=◌, ◌>>◌, guard, keep, length, Text,
  codes, truthy, trim, trimmed, trim_all, text_eq, has, split, cut, strip_prefix, starts_with,
  decimal,
}
use kmc.Errors.{ErrorValue}
use kmc.Ipam.Cidr.{
  CidrError, ParsedCidr, HostRange, parse_ipv4, format_ipv4, parse_cidr, contains_ipv4,
  address_from_annotation, usable_host_range, count_usable_hosts, first_free_ipv4,
}
use kmc.Ipam.Config.{IpPoolConfig}
use kmc.Ipam.Status.{is_ip_address_already_exists}
use kmc.Ipam.Claims.{IpAddressClaimRef, IpAddressInterface, ClaimBody, create_ip_address_claim}
use kmc.Ipam.Releases.{plain_address}

pub data PoolError : Type 0 where
  namespace_required : PoolError
  bad_cidr : CidrError → PoolError
  gateway_outside : Text → PoolError
  preferred_outside : Text → PoolError
  preferred_not_in_window : Text → PoolError
  preferred_in_use : Text → PoolError
  preferred_reserved : Text → PoolError
  exhausted : Text → PoolError
  too_many_conflicts : Text → PoolError
  claim_failed : ErrorValue → PoolError

abbrev pub lift {ℓ} : {A : Type ℓ} → Result CidrError A → Result PoolError A
lift (ok a) = ok a
lift (err e) = err (bad_cidr e)

pub record AllocatedIp : Type 0 where
  pub pool_id : Text
  pub address : Text
  pub prefix : ℕ
  pub cidr_host : Text
  pub gateway : Option Text
  pub dns : List Text
  pub interface_name : Option Text
  pub mac_address : Option Text
  pub network_name : Option Text
  pub dhcp4 : Bool

add_gateway : Option Text → List Text → List Text
add_gateway none set = set
add_gateway (some gw) set = gw ∷ set

nonempty_all : List Text → List Text
unfolding keep
nonempty_all = keep truthy

plain_all : List Text → List Text
unfolding plain_address nonempty_all
plain_all [] = []
plain_all (e ∷ es) = plain_address e ∷ plain_all es

-- The gateway, the excluded addresses, and the ends of a block with a prefix up to 30.
unfoldable pub build_exclude_set : IpPoolConfig → ParsedCidr → List Text
unfolding add_gateway nonempty_all plain_all trimmed format_ipv4
build_exclude_set pool parsed =
    let ends =
      if leb parsed.prefix 30
      then format_ipv4 parsed.first ∷ format_ipv4 parsed.last ∷ []
      else [] in
    add_gateway (trimmed pool.gateway) (nonempty_all (plain_all pool.exclude) ++ ends)

pub record ValidPool : Type 0 where
  pub parsed : ParsedCidr
  pub range : HostRange
  pub exclude : List Text

unfoldable pub check_gateway : Option Text → ParsedCidr → Result PoolError (Unit {0})
unfolding contains_ipv4
check_gateway none parsed = ok tt
check_gateway (some gw) parsed = do
  inside ← lift (contains_ipv4 parsed gw)
  guard inside (gateway_outside gw)

unfoldable pub validate_pool : IpPoolConfig → Result PoolError ValidPool
unfolding check_gateway trimmed parse_cidr usable_host_range build_exclude_set
validate_pool pool = do
  parsed ← lift (parse_cidr pool.cidr)
  check_gateway (trimmed pool.gateway) parsed
  range ← lift (usable_host_range parsed pool.start pool.end)
  ok (record { parsed = parsed; range = range; exclude = build_exclude_set pool parsed })

contained : ParsedCidr → Text → Bool
unfolding contains_ipv4
contained parsed a = elim (contains_ipv4 parsed a) [ ok inside ↦ inside | err e ↦ false ]

-- The listed claims that lie in the pool's block; an address that does not parse is skipped.
unfoldable pub used_of_claims : ParsedCidr → List Text → List Text
unfolding contained keep
used_of_claims parsed claims = keep (contained parsed) claims

namespace_of_rest : Option (Text × Text) → Text
namespace_of_rest none = []
namespace_of_rest (some (ns, name)) = ns

-- The namespace whose claims are listed: the caller's, or that of a pool named `vpc:ns/name`.
unfoldable pub claim_namespace : IpPoolConfig → Text → Text
unfolding namespace_of_rest trim strip_prefix cut
claim_namespace pool namespace =
    let ns = trim namespace in
    if truthy ns then ns else elim (strip_prefix (codes "vpc:") pool.id) [
      | none ↦ []
      | some rest ↦ namespace_of_rest (cut b'/' rest)
    ]

unfoldable pub is_static : IpPoolConfig → Bool
unfolding starts_with
is_static pool = not (starts_with (codes "vpc:") pool.id)

pub record AllocateOpts : Type 0 where
  pub extra_used : List Text
  pub preferred_address : Option Text
  pub claim_gateway : Bool
  -- `none` where the option is omitted, `some none` for null
  pub gateway_override : Option (Option Text)
  pub claim : Option IpAddressClaimRef
  pub interface : Option IpAddressInterface

unfoldable pub gateway_of : IpPoolConfig → Option (Option Text) → Option Text
unfolding trimmed
gateway_of pool none = trimmed pool.gateway
gateway_of pool (some none) = none
gateway_of pool (some (some gw)) = trimmed (some gw)

unfoldable pub build_allocated_ip : IpPoolConfig → ParsedCidr → Text → AllocateOpts → AllocatedIp
unfolding gateway_of trim_all trimmed decimal
build_allocated_ip pool parsed address opts = record {
  pool_id = pool.id;
  address = address;
  prefix = parsed.prefix;
  cidr_host = address ++ b'/' ∷ decimal parsed.prefix;
  gateway = gateway_of pool opts.gateway_override;
  dns = trim_all pool.dns;
  interface_name = trimmed pool.interface;
  mac_address = none;
  network_name = none;
  dhcp4 = false;
}

-- `set.delete(s)`
unfoldable pub remove : Text → List Text → List Text
unfolding keep text_eq
remove s set = keep (λ x. not (text_eq x s)) set

-- The addresses that are taken: the claims, and those chosen earlier in the same request.
unfoldable pub taken_addresses : ParsedCidr → List Text → AllocateOpts → List Text
unfolding nonempty_all plain_all used_of_claims
taken_addresses parsed claims opts =
    nonempty_all (plain_all opts.extra_used) ++ used_of_claims parsed claims

abbrev pub max_attempts : ℕ
max_attempts = 64

-- `reply n body` is the API's answer to the n-th create call of the request.
module _ (reply : ℕ → ClaimBody → Option ErrorValue) where
  unfoldable pub claim_address :
      ℕ → Text → IpPoolConfig → ParsedCidr → AllocateOpts → Text → Result ErrorValue (Unit {0})
  unfolding create_ip_address_claim
  claim_address n ns pool parsed opts address = create_ip_address_claim (reply n) (record {
    namespace = ns;
    address = address;
    prefix_length = parsed.prefix;
    pool = pool;
    claim = opts.claim;
    interface = opts.interface;
  })

  claimed_preferred :
      Text → AllocatedIp → Result ErrorValue (Unit {0}) → Result PoolError AllocatedIp
  unfolding is_ip_address_already_exists
  claimed_preferred address result (ok _) = ok result
  claimed_preferred address result (err e) =
      if is_ip_address_already_exists e
      then err (preferred_in_use address)
      else err (claim_failed e)

  -- The branch for a pinned address.
  unfoldable pub allocate_preferred :
      IpPoolConfig
      → Text
      → ValidPool
      → List Text
      → AllocateOpts
      → Text
      → Result PoolError AllocatedIp
  unfolding claimed_preferred claim_address build_allocated_ip remove has parse_ipv4 contains_ipv4
  allocate_preferred pool ns valid used opts preferred = do
    inside ← lift (contains_ipv4 valid.parsed preferred)
    guard inside (preferred_outside preferred)
    n ← lift (parse_ipv4 preferred)
    guard (leb valid.range.start n && leb n valid.range.end) (preferred_not_in_window preferred)
    guard (not (has used preferred)) (preferred_in_use preferred)
    guard
        (not (
          has (if opts.claim_gateway then remove preferred valid.exclude else valid.exclude)
            preferred))
        (preferred_reserved preferred)
    claimed_preferred preferred (build_allocated_ip pool valid.parsed preferred opts)
        (claim_address 0 ns pool valid.parsed opts preferred)

  -- The loop over the attempts: `rounds` are left, and `n` are done.
  unfoldable pub allocate_loop :
      ℕ
      → ℕ
      → IpPoolConfig
      → Text
      → ValidPool
      → List Text
      → AllocateOpts
      → Result PoolError AllocatedIp
  unfolding first_free_ipv4 claim_address is_ip_address_already_exists build_allocated_ip
  allocate_loop zero n pool ns valid used opts = err (too_many_conflicts pool.id)
  allocate_loop (suc rounds) n pool ns valid used opts =
      elim (first_free_ipv4 valid.range used valid.exclude) [
        | none ↦ err (exhausted pool.id)
        | some address ↦ elim (claim_address n ns pool valid.parsed opts address) [
          | ok _ ↦ ok (build_allocated_ip pool valid.parsed address opts)
          | err e ↦ elim (is_ip_address_already_exists e) [
            | true ↦ allocate_loop rounds (suc n) pool ns valid (address ∷ used) opts
            | false ↦ err (claim_failed e)
          ]
        ]
      ]

  by_preference :
      Option Text
      → IpPoolConfig
      → Text
      → ValidPool
      → List Text
      → AllocateOpts
      → Result PoolError AllocatedIp
  unfolding allocate_preferred allocate_loop
  by_preference (some preferred) pool ns valid used opts =
      allocate_preferred pool ns valid used opts preferred
  by_preference none pool ns valid used opts = allocate_loop max_attempts 0 pool ns valid used opts

  -- `allocateIpv4ForMultus` on the pool that serves the network: `claims` are the listed claims.
  unfoldable pub allocate_ipv4 :
      IpPoolConfig → Text → List Text → AllocateOpts → Result PoolError AllocatedIp
  unfolding by_preference validate_pool taken_addresses trim trimmed
  allocate_ipv4 pool namespace claims opts =
      if truthy (trim namespace)
      then (do
        valid ← validate_pool pool
        by_preference (trimmed opts.preferred_address) pool (trim namespace) valid
            (taken_addresses valid.parsed claims opts) opts)
      else err namespace_required
