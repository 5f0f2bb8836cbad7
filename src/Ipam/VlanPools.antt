-- ===== src/Ipam/VlanPools.antt =====
-- console/app/lib/ipam/vlan-pools.server.ts. VLAN numbers are natural numbers.
use kmc.Common.{
  ℕ, Bool, true, false, Option, none, some, List, [], ◌∷◌, map, find, Text, trimmed, trim_all,
  text_eq,
}

pub record VlanPoolConfig : Type 0 where
  pub id : Text
  pub start : ℕ
  pub end : ℕ
  pub bridge : Text
  pub dns : List Text
  pub exclude : List ℕ

pub record VlanPoolCr : Type 0 where
  pub name : Option Text
  pub start : Option ℕ
  pub end : Option ℕ
  pub bridge : Option Text
  pub dns : List Text
  pub exclude : List ℕ

from_fields : VlanPoolCr → Option Text → Option ℕ → Option ℕ → Option Text → Option VlanPoolConfig
unfolding trim_all
from_fields cr (some id) (some start) (some end) (some bridge) = some (record {
  id = id;
  start = start;
  end = end;
  bridge = bridge;
  dns = trim_all cr.dns;
  exclude = cr.exclude;
})
from_fields cr none start end bridge = none
from_fields cr (some id) none end bridge = none
from_fields cr (some id) (some start) none bridge = none
from_fields cr (some id) (some start) (some end) none = none

unfoldable pub vlan_pool_config_from_cr : VlanPoolCr → Option VlanPoolConfig
unfolding from_fields trimmed
vlan_pool_config_from_cr cr = from_fields cr (trimmed cr.name) cr.start cr.end (trimmed cr.bridge)

collect_some : List (Option VlanPoolConfig) → List VlanPoolConfig
collect_some [] = []
collect_some (none ∷ ps) = collect_some ps
collect_some (some p ∷ ps) = p ∷ collect_some ps

-- After the listing, which is `none` when the API fails.
unfoldable pub list_vlan_pools : Option (List VlanPoolCr) → List VlanPoolConfig
unfolding vlan_pool_config_from_cr collect_some
list_vlan_pools none = []
list_vlan_pools (some items) = collect_some (map vlan_pool_config_from_cr items)

first_pool : List VlanPoolConfig → Option VlanPoolConfig
first_pool [] = none
first_pool (p ∷ ps) = some p

unfoldable pub get_vlan_pool : List VlanPoolConfig → Option Text → Option VlanPoolConfig
unfolding first_pool trimmed find text_eq
get_vlan_pool pools pool_id = elim (trimmed pool_id) [
  | none ↦ first_pool pools
  | some id ↦ find (λ p. text_eq p.id id) pools
]

unfoldable pub cluster_has_vlan_pools : List VlanPoolConfig → Bool
cluster_has_vlan_pools [] = false
cluster_has_vlan_pools (p ∷ ps) = true
