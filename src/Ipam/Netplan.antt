-- ===== src/Ipam/Netplan.antt =====
-- cloud-init network data and annotations, in console/app/lib/ipam/pools.server.ts. A list of lines
-- is a list of texts; the allocations of a request are distinct objects, so `allocation === primary`
-- compares positions.
pub mod Annotations
mod Tests
use kmc.Common.{
  ℕ, suc, Bool, true, false, ◌&&◌, ◌==◌, Option, none, some, List, [], ◌∷◌, ◌++◌, map,
  if◌then◌else◌, or_else, keep, length, String, Text, codes, truthy, trim, trimmed, trim_all,
  to_lower, join, split, decimal, Labels,
}
use kmc.Ipam.Cidr.{address_from_annotation}
use kmc.Ipam.Pools.{AllocatedIp}

unfoldable pub dhcp_deferred_multus_allocation : Text → AllocatedIp
unfolding to_lower trim
dhcp_deferred_multus_allocation mac = record {
  pool_id = [];
  address = [];
  prefix = 0;
  cidr_host = [];
  gateway = none;
  dns = [];
  interface_name = none;
  mac_address = some (to_lower (trim mac));
  network_name = none;
  dhcp4 = true;
}

is_some : Option Text → Bool
is_some none = false
is_some (some t) = true

-- `a.gateway?.trim()` counts as true.
unfoldable pub has_gateway : AllocatedIp → Bool
unfolding is_some trimmed
has_gateway a = is_some (trimmed a.gateway)

-- The position of `pickPrimaryAllocation`'s result: the first allocation with a gateway, else 0.
unfoldable pub gateway_position : List AllocatedIp → Option ℕ
unfolding has_gateway
gateway_position [] = none
gateway_position (a ∷ as') =
    if has_gateway a
    then some 0
    else elim (gateway_position as') [ none ↦ none | some i ↦ some (suc i) ]

unfoldable pub primary_position : List AllocatedIp → ℕ
unfolding gateway_position
primary_position list = or_else (gateway_position list) 0

unfoldable pub ethernet_key_for : AllocatedIp → ℕ → Text
unfolding decimal
ethernet_key_for a index = elim a.interface_name [
  | some (c ∷ s) ↦ codes "static" ++ decimal index
  | _ ↦ elim a.network_name [ some (c ∷ s) ↦ c ∷ s | _ ↦ codes "net" ++ decimal index ]
]

abbrev match_line : Text
match_line = codes "    match:"

quoted : String → Text → Text
quoted key t = codes key ++ (b'"' ∷ (t ++ b'"' ∷ []))

unfoldable pub match_lines_for : AllocatedIp → List Text
unfolding quoted to_lower
match_lines_for a = elim a.interface_name [
  | some (c ∷ s) ↦ match_line ∷ quoted "      name: " (c ∷ s) ∷ []
  | _ ↦ elim a.mac_address [
    | some (c ∷ s) ↦ match_line ∷ quoted "      macaddress: " (to_lower (c ∷ s)) ∷ []
    | _ ↦ match_line ∷ codes "      driver: virtio_net" ∷ []
  ]
]

abbrev pub masquerade_gateway : Text
masquerade_gateway = codes "10.0.2.1"

pub record PodOpts : Type 0 where
  pub cluster_cidrs : List Text
  pub masquerade_gateway : Option Text
  pub pod_mac_address : Option Text

pod_match : Option Text → List Text
unfolding quoted to_lower
pod_match none = match_line ∷ codes "      name: \"en*\"" ∷ []
pod_match (some mac) = match_line ∷ quoted "      macaddress: " (to_lower mac) ∷ []

pod_route : Text → List Text → List Text
pod_route gw [] = []
pod_route gw (cidr ∷ cidrs) =
    (codes "      - to: " ++ cidr) ∷ (codes "        via: " ++ gw) ∷ pod_route gw cidrs

pod_routes : Text → List Text → List Text
unfolding pod_route
pod_routes gw [] = []
pod_routes gw (cidr ∷ cidrs) = codes "    routes:" ∷ pod_route gw (cidr ∷ cidrs)

-- The lines that `appendPodEthernet` pushes.
unfoldable pub pod_ethernet : PodOpts → List Text
unfolding pod_match pod_routes trimmed trim_all
pod_ethernet opts =
    let gw = or_else (trimmed opts.masquerade_gateway) masquerade_gateway in
    codes "  pod:"
    ∷ (pod_match (trimmed opts.pod_mac_address)
        ++ codes "    dhcp4: true"
          ∷ codes "    dhcp4-overrides:"
          ∷ codes "      use-routes: false"
          ∷ (pod_routes gw (trim_all opts.cluster_cidrs) ++ codes "    optional: true" ∷ []))

abbrev fallback_dns : List Text
fallback_dns = codes "1.1.1.1" ∷ codes "1.0.0.1" ∷ []

nameservers : List Text → List Text
nameservers [] = fallback_dns
nameservers (d ∷ ds) = d ∷ ds

unfoldable pub dns_lines : List Text → List Text
unfolding nameservers
dns_lines dns =
    codes "    nameservers:"
    ∷ codes "      addresses:"
    ∷ map (λ d. codes "        - " ++ d) (nameservers dns)

abbrev pub default_route : Text
default_route = codes "      - to: default"

route_lines : Option Text → List Text
route_lines none = []
route_lines (some gw) = codes "    routes:" ∷ default_route ∷ (codes "        via: " ++ gw) ∷ []

dhcp_identifier : Option Text → List Text
dhcp_identifier (some (c ∷ s)) = codes "    dhcp-identifier: mac" ∷ []
dhcp_identifier (some []) = []
dhcp_identifier none = []

-- The body of one allocation's stanza.
unfoldable pub stanza_lines : Bool → AllocatedIp → List Text
unfolding dhcp_identifier route_lines dns_lines trimmed
stanza_lines primary a =
    if a.dhcp4
    then codes "    dhcp4: true" ∷ dhcp_identifier a.mac_address
    else codes "    dhcp4: false"
      ∷ codes "    addresses:"
      ∷ (codes "      - " ++ a.cidr_host)
      ∷ (route_lines (if primary then trimmed a.gateway else none) ++ dns_lines a.dns)

unfoldable pub stanza : ℕ → ℕ → AllocatedIp → List Text
unfolding ethernet_key_for match_lines_for stanza_lines
stanza primary index a =
    (codes "  " ++ (ethernet_key_for a index ++ b':' ∷ []))
    ∷ (match_lines_for a ++ stanza_lines (index == primary) a)

unfoldable pub stanzas : ℕ → ℕ → List AllocatedIp → List Text
unfolding stanza
stanzas primary index [] = []
stanzas primary index (a ∷ as') = stanza primary index a ++ stanzas primary (suc index) as'

-- `lines.join("\n") + "\n"`
unfoldable pub text_of : List Text → Text
unfolding join
text_of lines = join (b'\n' ∷ []) lines ++ b'\n' ∷ []

abbrev header : List Text
header = codes "version: 2" ∷ codes "ethernets:" ∷ []

-- The lines of `buildNetworkData`; `pod` is none unless `includePodDhcp` is set.
unfoldable pub network_lines : List AllocatedIp → Option PodOpts → List Text
unfolding stanzas primary_position pod_ethernet
network_lines list pod =
    header
    ++ (stanzas (primary_position list) 0 list
        ++ elim pod [ none ↦ [] | some opts ↦ pod_ethernet opts ])

unfoldable pub build_network_data : List AllocatedIp → Option PodOpts → Option Text
unfolding network_lines text_of
build_network_data [] pod = none
build_network_data (a ∷ as') pod = some (text_of (network_lines (a ∷ as') pod))

private_stanza : ℕ → AllocatedIp → List Text
unfolding ethernet_key_for match_lines_for
private_stanza index a =
    (codes "  " ++ (ethernet_key_for a index ++ b':' ∷ []))
    ∷ (match_lines_for a ++ codes "    dhcp4: false" ∷ codes "    optional: true" ∷ [])

private_stanzas : ℕ → List AllocatedIp → List Text
unfolding private_stanza is_some trimmed
private_stanzas index [] = []
private_stanzas index (a ∷ as') =
    (if is_some (trimmed a.mac_address) then private_stanza index a else [])
    ++ private_stanzas (suc index) as'

external_stanza : ℕ → Option AllocatedIp → List Text
unfolding ethernet_key_for match_lines_for route_lines dns_lines trimmed trim
external_stanza index none = []
external_stanza index (some a) =
    if truthy (trim a.cidr_host)
    then (codes "  " ++ (ethernet_key_for a index ++ b':' ∷ []))
      ∷ (match_lines_for a
          ++ codes "    dhcp4: false"
            ∷ codes "    addresses:"
            ∷ (codes "      - " ++ a.cidr_host)
            ∷ (route_lines (trimmed a.gateway) ++ dns_lines a.dns))
    else []

unfoldable pub router_lines : List AllocatedIp → Option AllocatedIp → PodOpts → List Text
unfolding private_stanzas external_stanza pod_ethernet
router_lines private external pod =
    header
    ++ (private_stanzas 0 private
        ++ (external_stanza (length private) external ++ pod_ethernet pod))

unfoldable pub build_router_network_data : List AllocatedIp → Option AllocatedIp → PodOpts → Text
unfolding router_lines text_of
build_router_network_data private external pod = text_of (router_lines private external pod)

unfoldable pub has_address : AllocatedIp → Bool
unfolding trim
has_address a = truthy (trim a.address) && truthy (trim a.cidr_host)

unfoldable pub annotations_of : List AllocatedIp → Labels
unfolding join
annotations_of [] = []
annotations_of (a ∷ as') =
    (codes "kmc.ianunruh.com/ipv4", join (b',' ∷ []) (map (λ x. x.cidr_host) (a ∷ as')))
    ∷ (codes "kmc.ianunruh.com/ipam-pool", join (b',' ∷ []) (map (λ x. x.pool_id) (a ∷ as')))
    ∷ []

unfoldable pub ipam_annotations : List AllocatedIp → Labels
unfolding has_address annotations_of keep
ipam_annotations list = annotations_of (keep has_address list)

unfoldable pub addresses_of : List Text → List Text
unfolding address_from_annotation trim
addresses_of [] = []
addresses_of (part ∷ parts) = elim (address_from_annotation (trim part)) [
  | none ↦ addresses_of parts
  | some a ↦ a ∷ addresses_of parts
]

unfoldable pub parse_ipv4_annotation_list : Text → List Text
unfolding addresses_of split
parse_ipv4_annotation_list text = addresses_of (split b',' text)
