-- ===== src/Ipam/Config.antt =====
-- The configuration of address pools: the type of console/app/lib/k8s/cluster-config.server.ts and
-- its reading from an IPPool resource or from a VPC's network (console/app/lib/ipam/pools.server.ts).
use kmc.Common.{
  ℕ, Bool, true, false, ◌&&◌, Option, none, some, List, [], ◌∷◌, ◌++◌, map, if◌then◌else◌, or_else,
  Text, codes, truthy, trim, trimmed, trim_all, text_eq, split, cut, after_last, find, strip_prefix,
  Labels, lookup,
}

pub record IpPoolCni : Type 0 where
  pub type : Text
  pub bridge : Text
  pub vlan : Option ℕ

-- An absent `dns` or `exclude` is the empty list; the source reads both through `?? []`.
pub record IpPoolConfig : Type 0 where
  pub id : Text
  pub multus_network : Text
  pub cidr : Text
  pub gateway : Option Text
  pub dns : List Text
  pub exclude : List Text
  pub start : Option Text
  pub end : Option Text
  pub interface : Option Text
  pub cni : Option IpPoolCni

pub record IpPoolCr : Type 0 where
  pub name : Option Text
  pub multus_network : Option Text
  pub cidr : Option Text
  pub gateway : Option Text
  pub dns : List Text
  pub exclude : List Text
  pub start : Option Text
  pub end : Option Text
  pub interface : Option Text
  pub cni_type : Option Text
  pub cni_bridge : Option Text
  pub cni_vlan : Option ℕ

unfoldable pub cni_of : Option Text → Option Text → Option ℕ → Option IpPoolCni
cni_of (some type) (some bridge) vlan = some (record { type = type; bridge = bridge; vlan = vlan })
cni_of (some type) none vlan = none
cni_of none bridge vlan = none

-- The result for the trimmed `id`, `multusNetwork` and `cidr`, each needed.
config_of : IpPoolCr → Option Text → Option Text → Option Text → Option IpPoolConfig
unfolding cni_of trimmed trim_all
config_of cr (some id) (some network) (some cidr) = some (record {
  id = id;
  multus_network = network;
  cidr = cidr;
  gateway = trimmed cr.gateway;
  dns = trim_all cr.dns;
  exclude = trim_all cr.exclude;
  start = trimmed cr.start;
  end = trimmed cr.end;
  interface = trimmed cr.interface;
  cni = cni_of (trimmed cr.cni_type) (trimmed cr.cni_bridge) cr.cni_vlan;
})
config_of cr (some id) (some network) none = none
config_of cr (some id) none cidr = none
config_of cr none network cidr = none

unfoldable pub ip_pool_config_from_cr : IpPoolCr → Option IpPoolConfig
unfolding config_of trimmed
ip_pool_config_from_cr cr =
    config_of cr (trimmed cr.name) (trimmed cr.multus_network) (trimmed cr.cidr)

-- `.map(ipPoolConfigFromCr).filter((p) => p != null)`
unfoldable pub collect_some : List (Option IpPoolConfig) → List IpPoolConfig
collect_some [] = []
collect_some (none ∷ ps) = collect_some ps
collect_some (some p ∷ ps) = p ∷ collect_some ps

-- `listIpPools` after the listing, which is `none` when the API fails.
unfoldable pub list_ip_pools : Option (List IpPoolCr) → List IpPoolConfig
unfolding ip_pool_config_from_cr collect_some
list_ip_pools none = []
list_ip_pools (some items) = collect_some (map ip_pool_config_from_cr items)

unfoldable pub multus_network_matches : Text → Text → Bool
unfolding trim text_eq after_last
multus_network_matches pool_network selected =
    let a = trim pool_network in
    let b = trim selected in
    if truthy a && truthy b
    then (if text_eq a b then true else text_eq (after_last b'/' a) (after_last b'/' b))
    else false

unfoldable pub find_ip_pool_for_multus : List IpPoolConfig → Text → Option IpPoolConfig
unfolding multus_network_matches trim find
find_ip_pool_for_multus pools multus_network =
    let name = trim multus_network in
    if truthy name
    then find (λ pool. multus_network_matches pool.multus_network name) pools
    else none

pub record NetworkRef : Type 0 where
  pub namespace : Text
  pub name : Text

ref_of : Text → Text → Option (Text × Text) → NetworkRef
ref_of raw default none = record { namespace = default; name = raw }
ref_of raw default (some ([], name)) = record { namespace = default; name = raw }
ref_of raw default (some (c ∷ ns, name)) = record { namespace = c ∷ ns; name = name }

unfoldable pub parse_multus_network_ref : Text → Text → NetworkRef
unfolding ref_of trim cut
parse_multus_network_ref multus_network default =
    let raw = trim multus_network in ref_of raw default (cut b'/' raw)

pub record NadForPool : Type 0 where
  pub name : Option Text
  pub namespace : Option Text
  pub labels : Labels
  pub annotations : Labels

abbrev pub label_resource : Text
label_resource = codes "kmc.ianunruh.com/resource"

abbrev pub resource_vpc : Text
resource_vpc = codes "vpc"

abbrev pub ann_cidr : Text
ann_cidr = codes "kmc.ianunruh.com/cidr"

abbrev pub ann_gateway : Text
ann_gateway = codes "kmc.ianunruh.com/gateway"

abbrev pub ann_dns : Text
ann_dns = codes "kmc.ianunruh.com/dns"

is_text : Option Text → Text → Bool
unfolding text_eq
is_text none t = false
is_text (some s) t = text_eq s t

-- `nad.metadata?.namespace?.trim() || namespaceHint?.trim() || ""`
unfoldable pub nad_namespace : NadForPool → Option Text → Text
unfolding trimmed
nad_namespace nad hint = or_else (trimmed nad.namespace) (or_else (trimmed hint) [])

vpc_config : NadForPool → Text → Option Text → Option Text → Option IpPoolConfig
unfolding trimmed trim_all split lookup
vpc_config nad ns (some cidr) (some name) = some (record {
  id = codes "vpc:" ++ (ns ++ b'/' ∷ name);
  multus_network = name;
  cidr = cidr;
  gateway = trimmed (lookup ann_gateway nad.annotations);
  dns = trim_all (split b',' (or_else (lookup ann_dns nad.annotations) []));
  exclude = [];
  start = none;
  end = none;
  interface = none;
  cni = none;
})
vpc_config nad ns (some cidr) none = none
vpc_config nad ns none name = none

unfoldable pub ip_pool_from_vpc_nad : NadForPool → Option Text → Option IpPoolConfig
unfolding is_text lookup vpc_config trimmed nad_namespace
ip_pool_from_vpc_nad nad hint =
    if is_text (lookup label_resource nad.labels) resource_vpc
    then vpc_config nad (nad_namespace nad hint) (trimmed (lookup ann_cidr nad.annotations))
        (trimmed nad.name)
    else none

-- The lookup of a network in a namespace is the cluster's; `none` when the call fails.
module _ (load_nad : Text → Text → Option NadForPool) where
  from_nad : NetworkRef → Option IpPoolConfig
  from_nad ref = elim (load_nad ref.namespace ref.name) [
    | none ↦ none
    | some nad ↦ ip_pool_from_vpc_nad nad (some ref.namespace)
  ]

  -- A static pool first, then the network's own annotations when the namespace is known.
  unfoldable pub resolve_ip_pool_for_multus :
      List IpPoolConfig → Text → Option Text → Option IpPoolConfig
  unfolding from_nad find_ip_pool_for_multus parse_multus_network_ref trim
  resolve_ip_pool_for_multus pools multus_network namespace =
      elim (find_ip_pool_for_multus pools multus_network) [
        | some pool ↦ some pool
        | none ↦
            let name = trim multus_network in
            let ns = or_else namespace [] in
            if truthy name && truthy (trim ns)
            then from_nad (parse_multus_network_ref name ns)
            else none
      ]

  vpc_ref : Option (Text × Text) → Option IpPoolConfig
  unfolding from_nad
  vpc_ref none = none
  vpc_ref (some ([], name)) = none
  vpc_ref (some (c ∷ ns, name)) = from_nad (record { namespace = c ∷ ns; name = name })

  unfoldable pub resolve_ip_pool_by_id : List IpPoolConfig → Text → Option IpPoolConfig
  unfolding vpc_ref text_eq find cut strip_prefix
  resolve_ip_pool_by_id pools pool_id = elim (find (λ p. text_eq p.id pool_id) pools) [
    | some pool ↦ some pool
    | none ↦ elim (strip_prefix (codes "vpc:") pool_id) [
      | none ↦ none
      | some rest ↦ vpc_ref (cut b'/' rest)
    ]
  ]
