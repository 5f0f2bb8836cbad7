-- ===== src/Networking/Routers/Listing.antt =====
-- The router lists of console/app/vpcs/routers.server.ts: `listRoutersForVpcAttach`,
-- `listRouterAttachableVpcs` and the parts of `getRouter`. Orders by `localeCompare` are arguments,
-- and so are the answers of the API.
use kmc.Common.{
  ℕ, ◌+◌, Bool, true, false, not, ◌&&◌, ◌||◌, Option, none, some, List, [], ◌∷◌, map, keep,
  if◌then◌else◌, leb, or_else, Result, ok, err, ◌>>=◌, Text, codes, truthy, trim, trimmed, text_eq,
  to_lower, has,
}
use kmc.Errors.{ErrorValue}
use kmc.Networking.Objects.{
  RouterCr, RouterVpcAttachment, VpcCr, FloatingIpCr, PortForwardCr, IpAddressCr, PoolRef,
  IpClaimRef,
}
use kmc.Networking.Api.{listed_objects}
use kmc.Networking.Routers.{
  max_multus_attachments, RouterAgentStatus, agent_status_from_router, spec_external,
  map_interfaces,
}
use kmc.Networking.Routers.Attachments.{is_attached, multus_count, is_cidr, read_vpc}

pub record RouterForAttach : Type 0 where
  pub name : Text
  pub vpc_names : List Text
  pub has_external : Bool
  pub agent_status : Option RouterAgentStatus
  pub multus_count : ℕ

-- A network that cannot be read is passed over.
unfoldable pub has_cidr : Text → Result ErrorValue VpcCr → Bool
unfolding is_cidr
has_cidr cidr (ok other) = is_cidr cidr other
has_cidr cidr (err e) = false

module _ (namespace : Text) (get_vpc : Text → Result ErrorValue VpcCr) where
  unfoldable pub overlaps : Text → List RouterVpcAttachment → Bool
  unfolding has_cidr read_vpc
  overlaps cidr [] = false
  overlaps cidr (v ∷ vs) = has_cidr cidr (read_vpc namespace get_vpc v.name) || overlaps cidr vs

  -- The tests of the loop, behind which the router is offered.
  unfoldable pub is_offered : Text → Text → RouterCr → Bool
  unfolding is_attached multus_count overlaps
  is_offered vpc_name cidr r =
      truthy (or_else r.metadata.name [])
      && not (is_attached vpc_name r.spec.vpcs)
      && leb (multus_count r + 1) max_multus_attachments
      && not (overlaps cidr r.spec.vpcs)

  unfoldable pub offered : RouterCr → RouterForAttach
  unfolding spec_external agent_status_from_router multus_count
  offered r = record {
    name = or_else r.metadata.name [];
    vpc_names = map (λ v. v.name) r.spec.vpcs;
    has_external = elim (spec_external r) [ none ↦ false | some e ↦ true ];
    agent_status = agent_status_from_router r;
    multus_count = multus_count r;
  }

  -- What is offered for a network that was read.
  unfoldable pub offered_routers : Text → VpcCr → List RouterCr → List RouterForAttach
  unfolding is_offered offered keep trimmed
  offered_routers vpc_name vpc routers = elim (trimmed vpc.status.router_ref) [
    | some router ↦ []
    | none ↦ elim (trimmed vpc.spec.cidr) [
      | none ↦ []
      | some cidr ↦ map offered (keep (is_offered vpc_name cidr) routers)
    ]
  ]

  unfoldable pub list_routers_for_vpc_attach :
      (List RouterForAttach → List RouterForAttach)
      → Text
      → Result ErrorValue (List RouterCr)
      → Result ErrorValue (List RouterForAttach)
  unfolding read_vpc offered_routers listed_objects
  list_routers_for_vpc_attach sorted vpc_name list_routers = do
    vpc ← read_vpc namespace get_vpc vpc_name
    routers ← listed_objects list_routers
    ok (sorted (offered_routers vpc_name vpc routers))

pub record AttachableVpc : Type 0 where
  pub name : Text
  pub cidr : Option Text
  pub gateway : Option Text
  pub attached_router : Option Text

attachable : VpcCr → AttachableVpc
unfolding trimmed
attachable vpc = record {
  name = or_else vpc.metadata.name [];
  cidr = vpc.spec.cidr;
  gateway = vpc.spec.gateway;
  attached_router = trimmed vpc.status.router_ref;
}

unfoldable pub list_router_attachable_vpcs :
    (List AttachableVpc → List AttachableVpc)
    → Result ErrorValue (List VpcCr)
    → Result ErrorValue (List AttachableVpc)
unfolding attachable listed_objects keep
list_router_attachable_vpcs sorted list_vpcs = do
  items ← listed_objects list_vpcs
  ok (sorted (keep (λ v. truthy v.name) (map attachable items)))

pub record RouterLease : Type 0 where
  pub vpc : Text
  pub mac : Text
  pub ip : Text
  pub hostname : Text
  pub vm : Option Text

is_text : Text → Option Text → Bool
unfolding text_eq
is_text t none = false
is_text t (some s) = text_eq s t

-- The names of the networks that the router shows.
unfoldable pub attached_names : RouterCr → List Text
unfolding map_interfaces keep
attached_names cr = keep truthy (map (λ i. i.vpc) (map_interfaces cr))

pool_vpc : Option PoolRef → Option Text
unfolding text_eq trim
pool_vpc none = none
pool_vpc (some p) = if text_eq p.kind (codes "VPC") then some (trim p.name) else none

vm_of : IpClaimRef → Option Text
unfolding is_text
vm_of claim = if is_text (codes "VirtualMachine") claim.kind then claim.name else none

-- `a?.trim() || vm || "host"`
host_name : Option Text → Option Text → Text
unfolding trimmed
host_name hostname vm = elim (trimmed hostname) [
  | some h ↦ h
  | none ↦ elim vm [ none ↦ codes "host" | some [] ↦ codes "host" | some (c ∷ n) ↦ c ∷ n ]
]

lease_on : Text → Text → IpAddressCr → RouterLease
unfolding vm_of host_name to_lower trim
lease_on vpc mac ip = record {
  vpc = vpc;
  mac = to_lower mac;
  ip = elim ip.address [ none ↦ [] | some a ↦ trim a ];
  hostname = host_name ip.hostname (vm_of ip.claim_ref);
  vm = vm_of ip.claim_ref;
}

-- The round of the loop for an address: its lease, or none when it is passed over.
unfoldable pub lease_of : List Text → IpAddressCr → Option RouterLease
unfolding pool_vpc has trimmed is_text lease_on
lease_of attached ip = elim (pool_vpc ip.pool_ref) [
  | none ↦ none
  | some vpc ↦
      if has attached vpc
      then (elim (trimmed ip.mac) [
        | none ↦ none
        | some mac ↦
            if is_text (codes "Router") ip.claim_ref.kind then none else some (lease_on vpc mac ip)
      ])
      else none
]

unfoldable pub leases_of : List Text → List IpAddressCr → List RouterLease
unfolding lease_of
leases_of attached [] = []
leases_of attached (ip ∷ ips) =
    let rest = leases_of attached ips in
    elim (lease_of attached ip) [ none ↦ rest | some l ↦ l ∷ rest ]

-- `ref?.name && ref.name !== name`
elsewhere : Text → Option Text → Bool
unfolding text_eq
elsewhere name none = false
elsewhere name (some other) = truthy other && not (text_eq other name)

on_attached : List Text → Option Text → Bool
unfolding has
on_attached attached none = false
on_attached attached (some vpc) = truthy vpc && has attached vpc

-- The filters of the floating addresses and of the port forwards.
unfoldable pub shows_floating : Text → List Text → FloatingIpCr → Bool
unfolding on_attached elsewhere
shows_floating name attached f =
    on_attached attached f.spec.vpc_ref && not (elsewhere name f.spec.router_ref)

unfoldable pub shows_forward : Text → List Text → PortForwardCr → Bool
unfolding on_attached elsewhere
shows_forward name attached pf =
    on_attached attached pf.spec.vpc_ref && not (elsewhere name pf.spec.router_ref)
