-- ===== src/Ipam/UsageTests.antt =====
-- A run of the usage figures, and an instance of their theorem.
use kmc.Common.{◌≡◌, refl, none, some, [], ◌∷◌, ok, err, codes, text_eq}
use kmc.Ipam.Cidr.{invalid_address}
use kmc.Ipam.Config.{IpPoolConfig}
use kmc.Ipam.Pools.{ValidPool, bad_cidr, validate_pool}
use kmc.Ipam.Usage.{
  IpPoolUsage, IsUsage, get_ip_pool_usage_for_config, get_ip_pool_usage_for_config-IsBalanced,
}

abbrev lan : IpPoolConfig
lan = record {
  id = codes "lan";
  multus_network = codes "bridge-lan";
  cidr = codes "10.40.1.0/29";
  gateway = some (codes "10.40.1.1");
  dns = [];
  exclude = [];
  start = none;
  end = none;
  interface = none;
  cni = none;
}

abbrev figures : IpPoolUsage
figures = record {
  pool = lan;
  cidr = codes "10.40.1.0/29";
  total = 6;
  used = 2;
  free = 4;
  used_addresses = codes "10.40.1.1" ∷ codes "10.40.1.3" ∷ [];
}

usage_run : get_ip_pool_usage_for_config lan (codes "10.40.1.3" ∷ []) ≡ ok figures
unfolding get_ip_pool_usage_for_config text_eq
usage_run = refl

-- An excluded text that is no address makes the usage throw.
usage_error :
    get_ip_pool_usage_for_config (record lan { exclude = codes "router" ∷ [] }) []
    ≡ err (bad_cidr (invalid_address (codes "router")))
unfolding get_ip_pool_usage_for_config text_eq
usage_error = refl

get_ip_pool_usage_for_config-IsBalanced_example :
    (valid : ValidPool) × (validate_pool lan ≡ ok valid)
    × IsUsage lan (codes "10.40.1.3" ∷ []) figures valid
get_ip_pool_usage_for_config-IsBalanced_example =
    get_ip_pool_usage_for_config-IsBalanced lan (codes "10.40.1.3" ∷ []) figures usage_run
