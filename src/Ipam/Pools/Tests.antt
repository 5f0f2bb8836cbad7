-- ===== src/Ipam/Pools/Tests.antt =====
-- Runs of the allocation, and instances of its theorems.
use kmc.Common.{
  ℕ, ◌≡◌, ◌≢◌, refl, inl, true, false, Option, none, some, List, [], ◌∷◌, arith, if◌then◌else◌, ok,
  err, Text, codes, trimmed, text_eq,
}
use kmc.Errors.{ErrorValue, plain_error}
use kmc.Ipam.Cidr.{parse_cidr, contains_ipv4, ParsedCidr}
use kmc.Ipam.Config.{IpPoolConfig}
use kmc.Ipam.Claims.{ClaimBody}
use kmc.Ipam.Pools.{
  AllocatedIp, ValidPool, AllocateOpts, exhausted, preferred_reserved, preferred_in_use,
  namespace_required, allocate_ipv4, allocate_loop,
}
use kmc.Ipam.Pools.Outcomes.{Outcome, allocate_loop-Outcome}
use kmc.Ipam.Pools.Allocation.{IsAllocation, allocate_ipv4-IsAllocation}
use kmc.Ipam.Pools.Reserved.{allocate_ipv4-ne-claim, allocate_ipv4-ne-gateway}

abbrev lan : IpPoolConfig
lan = record {
  id = codes "lan";
  multus_network = codes "bridge-lan";
  cidr = codes "10.40.1.0/29";
  gateway = some (codes "10.40.1.1");
  dns = [];
  exclude = codes "10.40.1.2/29" ∷ [];
  start = none;
  end = none;
  interface = none;
  cni = none;
}

abbrev opts : AllocateOpts
opts = record {
  extra_used = codes "10.40.1.4" ∷ [];
  preferred_address = none;
  claim_gateway = false;
  gateway_override = none;
  claim = none;
  interface = none;
}

abbrev claims : List Text
claims = codes "10.40.1.3" ∷ codes "192.168.0.1" ∷ []

-- Another replica has taken 10.40.1.5.
race : ℕ → ClaimBody → Option ErrorValue
race n body =
    if text_eq body.name (codes "10-40-1-5")
    then some (plain_error (codes "ipaddresses \"10-40-1-5\" already exists"))
    else none

abbrev result : AllocatedIp
result = record {
  pool_id = codes "lan";
  address = codes "10.40.1.6";
  prefix = 29;
  cidr_host = codes "10.40.1.6/29";
  gateway = some (codes "10.40.1.1");
  dns = [];
  interface_name = none;
  mac_address = none;
  network_name = none;
  dhcp4 = false;
}

abbrev ns : Text
ns = codes "tenant"

after_race : allocate_ipv4 race lan ns claims opts ≡ ok result
unfolding allocate_ipv4 race text_eq
after_race = refl

abbrev all_claimed : List Text
all_claimed = codes "10.40.1.3" ∷ codes "10.40.1.6" ∷ []

none_left : allocate_ipv4 race lan ns all_claimed opts ≡ err (exhausted (codes "lan"))
unfolding allocate_ipv4 race text_eq
none_left = refl

pinned_errors :
    (allocate_ipv4 race lan ns claims (record opts { preferred_address = some (codes "10.40.1.1") })
      ≡ err (preferred_reserved (codes "10.40.1.1")))
    × (allocate_ipv4 race lan ns claims
          (record opts { preferred_address = some (codes "10.40.1.5") })
        ≡ err (preferred_in_use (codes "10.40.1.5")))
    × (allocate_ipv4 race lan [] claims opts ≡ err namespace_required)
unfolding allocate_ipv4 race text_eq
pinned_errors = (refl, refl, refl)

abbrev padded : IpPoolConfig
padded = record lan { gateway = some (codes "10.40.1.01"); exclude = [] }

-- A gateway that is written with a leading zero passes the validation, and is allocated.
padded_gateway :
    (a : AllocatedIp) × (allocate_ipv4 race padded ns [] opts ≡ ok a)
    × (a.address ≡ codes "10.40.1.1")
unfolding allocate_ipv4 race text_eq
padded_gateway = (_, refl, refl)

allocate_ipv4-IsAllocation_example : IsAllocation race lan ns claims opts result
allocate_ipv4-IsAllocation_example =
    allocate_ipv4-IsAllocation race lan ns claims opts result after_race

abbrev block : ParsedCidr
block = record {
  cidr = codes "10.40.1.0/29";
  network = 170393856;
  prefix = 29;
  mask = 4294967288;
  first = 170393856;
  last = 170393863;
}

read_lan : parse_cidr lan.cidr ≡ ok block
unfolding parse_cidr
read_lan = refl

in_lan : contains_ipv4 block (codes "10.40.1.3") ≡ ok true
unfolding contains_ipv4
in_lan = refl

allocate_ipv4-ne-claim_example : result.address ≢ codes "10.40.1.3"
allocate_ipv4-ne-claim_example =
    allocate_ipv4-ne-claim race lan ns claims opts result block (codes "10.40.1.3") read_lan
      (inl refl) in_lan after_race

given_gateway : trimmed lan.gateway ≡ some (codes "10.40.1.1")
unfolding trimmed
given_gateway = refl

allocate_ipv4-ne-gateway_example : result.address ≢ codes "10.40.1.1"
allocate_ipv4-ne-gateway_example =
    allocate_ipv4-ne-gateway race lan ns claims opts result (codes "10.40.1.1") given_gateway refl
      after_race

abbrev valid : ValidPool
valid = record {
  parsed = block;
  range = record { start = 170393857; end = 170393862 };
  exclude = codes "10.40.1.1" ∷ [];
}

allocate_loop-Outcome_example :
    Outcome race lan ns valid opts 0 64 claims (allocate_loop race 64 0 lan ns valid claims opts)
allocate_loop-Outcome_example =
    allocate_loop-Outcome race lan ns valid opts (omega arith) 64 0 64 claims (omega arith)
