-- ===== src/Networking/Routers/Attachments.antt =====
-- The attachments of a router: `attachRouterVpc`, `detachRouterVpc`, `setRouterExternalGateway` and
-- `listRoutersForVpcAttach` of console/app/vpcs/routers.server.ts. The API's answers to the reads
-- are arguments. A result `ok none` returns without a write, and `ok (some next)` is the resource
-- that is sent to replace the router.
use kmc.Common.{
  ℕ, ◌+◌, Bool, true, false, not, ◌&&◌, ◌||◌, Option, none, some, List, [], ◌∷◌, ◌++◌, keep, length,
  if◌then◌else◌, ltb, leb, Result, ok, err, ◌>>=◌, ◌>>◌, guard, Text, codes, truthy, trim, trimmed,
  text_eq, includes, decimal,
}
use kmc.Errors.{ErrorValue, plain_error}
use kmc.Networking.Objects.{
  RouterCr, RouterVpcAttachment, VpcCr, FloatingIpCr, IpAddressCr, PoolRef,
}
use kmc.Networking.Api.{is_not_found_error, listed_objects}
use kmc.Networking.Routers.{max_multus_attachments, load_vpc_cr, spec_external}

pub record AttachRouterVpcRequest : Type 0 where
  pub namespace : Text
  pub router_name : Text
  pub vpc_name : Text

pub record DetachRouterVpcRequest : Type 0 where
  pub namespace : Text
  pub router_name : Text
  pub vpc_name : Text
  pub force : Bool

pub record SetRouterExternalRequest : Type 0 where
  pub namespace : Text
  pub router_name : Text
  pub public_multus_network : Text

-- `vpcs.some((v) => v.name === name)`
unfoldable pub is_attached : Text → List RouterVpcAttachment → Bool
unfolding text_eq
is_attached name [] = false
is_attached name (v ∷ vs) = text_eq v.name name || is_attached name vs

unfoldable pub multus_count : RouterCr → ℕ
unfolding spec_external
multus_count router =
    length router.spec.vpcs + (elim (spec_external router) [ none ↦ 0 | some e ↦ 1 ])

unfoldable pub cidr_missing : Text → ErrorValue
cidr_missing vpc_name =
    plain_error (
      codes "VPC " ++ (vpc_name ++ codes " requires private IPAM (CIDR) before attaching a router"))

unfoldable pub required_cidr : Text → VpcCr → Result ErrorValue Text
unfolding trimmed cidr_missing
required_cidr vpc_name vpc = elim (trimmed vpc.spec.cidr) [
  | some cidr ↦ ok cidr
  | none ↦ err (cidr_missing vpc_name)
]

unfoldable pub already_attached : Text → Text → ErrorValue
already_attached vpc_name router_name =
    plain_error
      (codes "VPC " ++ (vpc_name ++ (codes " is already attached to router " ++ router_name)))

-- The network belongs to no other router.
unfoldable pub not_elsewhere : Text → Text → VpcCr → Result ErrorValue (Unit {0})
unfolding already_attached trimmed text_eq
not_elsewhere router_name vpc_name vpc = elim (trimmed vpc.status.router_ref) [
  | none ↦ ok tt
  | some other ↦ guard (text_eq other router_name) (already_attached vpc_name other)
]

unfoldable pub router_failure : Text → Text → ErrorValue → ErrorValue
unfolding is_not_found_error
router_failure namespace name e =
    if is_not_found_error e
    then plain_error (codes "Router " ++ (namespace ++ b'/' ∷ (name ++ codes " not found")))
    else e

unfoldable pub load_router : Text → Text → Result ErrorValue RouterCr → Result ErrorValue RouterCr
unfolding router_failure
load_router namespace name (ok router) = ok router
load_router namespace name (err e) = err (router_failure namespace name e)

-- `err.message`
unfoldable pub message : ErrorValue → Text
message e = elim e.messages [ [] ↦ [] | m ∷ ms ↦ m ]

unfoldable pub used_cidr : Text → Text → ErrorValue
used_cidr cidr name = plain_error (
    codes "CIDR " ++ (cidr ++ (codes " already used by VPC " ++ (name ++ codes " on this router"))))

unfoldable pub is_cidr : Text → VpcCr → Bool
unfolding trimmed text_eq
is_cidr cidr vpc = elim (trimmed vpc.spec.cidr) [ none ↦ false | some other ↦ text_eq other cidr ]

-- One round of the loop over the attached networks: what it throws, if anything.
unfoldable pub check_cidr : Text → Text → Result ErrorValue VpcCr → Result ErrorValue (Unit {0})
unfolding is_cidr used_cidr message includes
check_cidr cidr name (ok other) = guard (not (is_cidr cidr other)) (used_cidr cidr name)
check_cidr cidr name (err e) = guard (not (includes (codes "already used") (message e))) e

module _ (namespace : Text) (get_vpc : Text → Result ErrorValue VpcCr) where
  unfoldable pub read_vpc : Text → Result ErrorValue VpcCr
  unfolding load_vpc_cr
  read_vpc name = load_vpc_cr namespace name (get_vpc name)

  unfoldable pub check_cidrs : Text → List RouterVpcAttachment → Result ErrorValue (Unit {0})
  unfolding check_cidr
  check_cidrs cidr [] = ok tt
  check_cidrs cidr (v ∷ vs) = check_cidr cidr v.name (read_vpc v.name) >> check_cidrs cidr vs

-- `{ ...router, spec: { ...router.spec, vpcs } }`
abbrev pub with_vpcs : List RouterVpcAttachment → RouterCr → RouterCr
with_vpcs vpcs router = record router { spec = record router.spec { vpcs = vpcs } }

abbrev pub attachment : Text → RouterVpcAttachment
attachment name = record { name = name; gateway = none }

abbrev pub too_many : Text → ErrorValue
too_many what = plain_error (what ++ codes ": would exceed 8 Multus attachments")

unfoldable pub add_vpc :
    Text
    → (Text → Result ErrorValue VpcCr)
    → Text
    → Text
    → RouterCr
    → Result ErrorValue (Option RouterCr)
unfolding is_attached multus_count check_cidrs
add_vpc namespace get_vpc vpc_name cidr router =
    if is_attached vpc_name router.spec.vpcs then ok none else (do
      guard (leb (multus_count router + 1) max_multus_attachments)
          (too_many (codes "Cannot attach VPC"))
      check_cidrs namespace get_vpc cidr router.spec.vpcs
      ok (some (with_vpcs (router.spec.vpcs ++ attachment vpc_name ∷ []) router)))

unfoldable pub attach_router_vpc :
    (Text → Result ErrorValue VpcCr)
    → Result ErrorValue RouterCr
    → AttachRouterVpcRequest
    → Result ErrorValue (Option RouterCr)
unfolding trim read_vpc required_cidr not_elsewhere load_router add_vpc
attach_router_vpc get_vpc get_router input =
    let vpc_name = trim input.vpc_name in
    do
      guard (truthy vpc_name) (plain_error (codes "vpcName is required"))
      vpc ← read_vpc input.namespace get_vpc vpc_name
      cidr ← required_cidr vpc_name vpc
      not_elsewhere input.router_name vpc_name vpc
      router ← load_router input.namespace input.router_name get_router
      add_vpc input.namespace get_vpc vpc_name cidr router

abbrev is_kind : Text → Option Text → Bool
is_kind kind none = false
is_kind kind (some k) = text_eq k kind

abbrev pub present : Option Text → Bool
present none = false
present (some t) = truthy t

unfoldable pub in_pool : Text → Option PoolRef → Bool
unfolding text_eq
in_pool vpc_name none = false
in_pool vpc_name (some pool) = text_eq pool.kind (codes "VPC") && text_eq pool.name vpc_name

-- An address of the network that a guest holds.
unfoldable pub is_guest_lease : Text → IpAddressCr → Bool
unfolding in_pool text_eq
is_guest_lease vpc_name ip =
    in_pool vpc_name ip.pool_ref
    && is_kind (codes "VirtualMachine") ip.claim_ref.kind
    && present ip.mac

unfoldable pub is_active_floating : Text → FloatingIpCr → Bool
unfolding trimmed text_eq
is_active_floating vpc_name f =
    is_kind vpc_name f.spec.vpc_ref && present (trimmed f.spec.private_address)

still_used : Text → ℕ → ℕ → ErrorValue
unfolding decimal
still_used vpc_name leases floats = plain_error (
    codes "VPC "
    ++ (vpc_name
        ++ (codes " still has "
            ++ (decimal leases
                ++ (codes " guest lease(s) and "
                    ++ (decimal floats
                        ++ codes " associated floating IP(s). Force detach to continue."))))))

unfoldable pub check_unused :
    Text
    → Result ErrorValue (List IpAddressCr)
    → Result ErrorValue (List FloatingIpCr)
    → Result ErrorValue (Unit {0})
unfolding listed_objects keep is_guest_lease is_active_floating still_used
check_unused vpc_name list_addresses list_floating = do
  addresses ← listed_objects list_addresses
  floating ← listed_objects list_floating
  let leases = length (keep (is_guest_lease vpc_name) addresses)
  let floats = length (keep (is_active_floating vpc_name) floating)
  guard (not (ltb 0 leases || ltb 0 floats)) (still_used vpc_name leases floats)

unfoldable pub other_vpcs : Text → List RouterVpcAttachment → List RouterVpcAttachment
unfolding keep text_eq
other_vpcs name vpcs = keep (λ v. not (text_eq v.name name)) vpcs

abbrev pub not_attached : Text → ErrorValue
not_attached vpc_name =
    plain_error (codes "VPC " ++ (vpc_name ++ codes " is not attached to this router"))

abbrev pub last_vpc : ErrorValue
last_vpc = plain_error (codes "Cannot detach the last VPC — delete the router instead")

-- The two listings are read in this order: of two failures the first is thrown.
unfoldable pub detach_router_vpc :
    Result ErrorValue RouterCr
    → Result ErrorValue (List IpAddressCr)
    → Result ErrorValue (List FloatingIpCr)
    → DetachRouterVpcRequest
    → Result ErrorValue RouterCr
unfolding trim load_router is_attached check_unused other_vpcs
detach_router_vpc get_router list_addresses list_floating input =
    let vpc_name = trim input.vpc_name in
    do
      guard (truthy vpc_name) (plain_error (codes "vpcName is required"))
      router ← load_router input.namespace input.router_name get_router
      guard (is_attached vpc_name router.spec.vpcs) (not_attached vpc_name)
      guard (leb 2 (length router.spec.vpcs)) last_vpc
      if input.force then ok tt else check_unused vpc_name list_addresses list_floating
      ok (with_vpcs (other_vpcs vpc_name router.spec.vpcs) router)

unfoldable pub set_router_external_gateway :
    Result ErrorValue RouterCr → SetRouterExternalRequest → Result ErrorValue RouterCr
unfolding trim load_router
set_router_external_gateway get_router input =
    let public_net = trim input.public_multus_network in
    do
      guard (truthy public_net) (plain_error (codes "public Multus network is required"))
      existing ← load_router input.namespace input.router_name get_router
      guard (leb (length existing.spec.vpcs + 1) max_multus_attachments)
          (too_many (codes "Cannot add external gateway"))
      ok (record existing {
        spec = record existing.spec {
          external =
              some (record { multus_network = public_net; address = none; snat = some true });
        };
      })
