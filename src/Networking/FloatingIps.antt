-- ===== src/Networking/FloatingIps.antt =====
-- Floating addresses in console/app/vpcs/vpcs.server.ts: association, reservation, release. The
-- answers of the API are arguments.
pub mod Endings
pub mod Targets
pub mod Waiting
use kmc.Common.{
  ℕ, Bool, true, false, not, ◌&&◌, ◌||◌, Option, none, some, List, [], ◌∷◌, ◌++◌, map,
  if◌then◌else◌, or_else, Result, ok, err, ◌>>=◌, ◌>>◌, guard, Text, codes, truthy, trim, trimmed,
  text_eq, replace_all, lookup, nonempty,
}
use kmc.Errors.{ErrorValue, plain_error}
use kmc.Ipam.Cidr.{
  ParsedCidr, CidrError, parse_cidr, parse_ipv4, contains_ipv4, address_from_annotation,
}
use kmc.Ipam.Config.{IpPoolConfig, find_ip_pool_for_multus}
use kmc.Networking.Objects.{
  ObjectMeta, RouterCr, VpcCr, FloatingIpCr, FloatingIpSpec, FloatingIpStatus, PoolRef,
}
use kmc.Networking.Api.{is_not_found_error, kmc_managed_labels, listed_objects, deleted_object}
use kmc.Networking.Routers.{has_external, spec_external}
use kmc.Networking.Vpcs.{VpcError, of_cidr, of_other, fail_with, other_error}
use kmc.Networking.Vpcs.Members.{KubeVm, allocated_ipv4_for_vpc}
use kmc.Networking.Associations.{FloatingIpAssociation, map_floating_ip_association, public_address}

-- `loadRouter`: `none` for a router that is not found.
unfoldable pub load_router : Result ErrorValue RouterCr → Result ErrorValue (Option RouterCr)
unfolding is_not_found_error
load_router (ok router) = ok (some router)
load_router (err e) = if is_not_found_error e then ok none else err e

-- What the operations read of `getVpc`: the trimmed block, and the name of the VPC's router with
-- whether it has an external gateway.
pub record VpcView : Type 0 where
  pub cidr : Option Text
  pub router : Option (Text × Bool)

unfoldable pub router_view : Text → Result ErrorValue RouterCr → Text × Bool
unfolding load_router has_external
router_view name reply = elim (load_router reply) [
  | ok (some router) ↦ (or_else router.metadata.name (codes "unknown"), has_external router)
  | ok none ↦ (name, false)
  | err e ↦ (name, false)
]

unfoldable pub vpc_view : (Text → Result ErrorValue RouterCr) → VpcCr → VpcView
unfolding router_view trimmed
vpc_view get_router vpc = record {
  cidr = trimmed vpc.spec.cidr;
  router = elim (trimmed vpc.status.router_ref) [
    | none ↦ none
    | some name ↦ some (router_view name (get_router name))
  ];
}

abbrev pub some_cidr : Option Text → Result VpcError Text
some_cidr (some cidr) = ok cidr
some_cidr none = err (fail_with (codes "VPC has no private CIDR"))

unfoldable pub private_cidr : VpcView → Result VpcError Text
private_cidr view = some_cidr view.cidr

abbrev pub no_gateway : VpcError
no_gateway = fail_with (
    codes
      "VPC has no router external gateway — enable an external gateway on the shared router first")

abbrev pub external_router : Option (Text × Bool) → Result VpcError Text
external_router none = err no_gateway
external_router (some (name, false)) = err no_gateway
external_router (some ([], true)) = err no_gateway
external_router (some (c ∷ name, true)) = ok (c ∷ name)

unfoldable pub gateway_router : VpcView → Result VpcError Text
gateway_router view = external_router view.router

unfoldable pub some_router : Text → Result ErrorValue (Option RouterCr) → Result VpcError RouterCr
some_router name (ok (some router)) = ok router
some_router name (ok none) = err (fail_with (codes "Router " ++ (name ++ codes " not found")))
some_router name (err e) = err (other_error e)

-- `router.metadata?.name` in a template
abbrev shown : Option Text → Text
shown none = codes "undefined"
shown (some t) = t

abbrev or_other : Option Text → Option Text → Option Text
or_other none b = b
or_other (some t) b = some t

unfoldable pub resolve_public_pool_for_router :
    List IpPoolConfig → RouterCr → Result VpcError IpPoolConfig
unfolding trimmed spec_external find_ip_pool_for_multus
resolve_public_pool_for_router pools router =
    elim (or_other (trimmed router.status.external.multus_network) (spec_external router)) [
      | none ↦ err (
          fail_with (
            codes "Router "
            ++ (shown router.metadata.name ++ codes " has no external Multus network")))
      | some multus ↦ elim (find_ip_pool_for_multus pools multus) [
        | some pool ↦ ok pool
        | none ↦ err (
            fail_with (
              codes "No IPPool found for external Multus network \""
              ++ (multus ++ codes "\" — create an IPPool CR")))
      ]
    ]

abbrev annotated_address : Option Text → Option Text
annotated_address none = none
annotated_address (some part) = some (or_else (address_from_annotation part) part)

-- The address that the machine's annotation has in the block.
unfoldable pub address_of_vm : Text → KubeVm → Option Text
unfolding allocated_ipv4_for_vpc address_from_annotation lookup
address_of_vm vpc_cidr vm =
    annotated_address (
      allocated_ipv4_for_vpc (lookup (codes "kmc.ianunruh.com/ipv4") vm.annotations)
        (some vpc_cidr))

-- The address to look at: as it is given, or else that of the target machine.
unfoldable pub candidate :
    Text
    → Option Text
    → Option Text
    → (Text → Result ErrorValue KubeVm)
    → Result VpcError (Option Text)
unfolding address_of_vm of_other
candidate vpc_cidr (some address) target get_vm = ok (some address)
candidate vpc_cidr none none get_vm = ok none
candidate vpc_cidr none (some target) get_vm = do
  vm ← of_other (get_vm target)
  ok (address_of_vm vpc_cidr vm)

abbrev some_address : Option Text → Result VpcError Text
some_address none = err (fail_with (codes "privateIpv4 or targetVm with IPAM address is required"))
some_address (some address) = ok address

pub record PrivateTarget : Type 0 where
  pub private_ipv4 : Text
  pub target_vm : Option Text

unfoldable pub resolve_private_on_vpc :
    Text
    → Option Text
    → Option Text
    → (Text → Result ErrorValue KubeVm)
    → Result VpcError PrivateTarget
unfolding candidate trimmed parse_ipv4 parse_cidr contains_ipv4 of_cidr
resolve_private_on_vpc vpc_cidr private_ipv4 target_vm get_vm = do
  found ← candidate vpc_cidr (trimmed private_ipv4) (trimmed target_vm) get_vm
  address ← some_address found
  number ← of_cidr (parse_ipv4 address)
  parsed ← of_cidr (parse_cidr vpc_cidr)
  inside ← of_cidr (contains_ipv4 parsed address)
  guard inside
      (fail_with (codes "private address " ++ (address ++ (codes " is outside " ++ vpc_cidr))))
  ok (record { private_ipv4 = address; target_vm = trimmed target_vm })

pub record FloatingIpRequest : Type 0 where
  pub namespace : Text
  pub vpc_name : Text
  pub public_ipv4 : Option Text
  pub private_ipv4 : Option Text
  pub target_vm : Option Text

abbrev no_status : FloatingIpStatus
no_status = record { phase = none; address = none; prefix_length = none; conditions = [] }

object_name : Option Text → Option Text
unfolding replace_all
object_name none = none
object_name (some address) = some (replace_all b'.' b'-' address)

prefix_name : Text → Option Text → Option Text
prefix_name vpc_name none = some (codes "fip-" ++ (vpc_name ++ codes "-"))
prefix_name vpc_name (some address) = none

-- The resource of both creations: of an association with its target, of a reservation without.
unfoldable pub floating_ip_body :
    FloatingIpRequest → Text → Text → Option Text → Option Text → FloatingIpCr
unfolding object_name prefix_name trimmed kmc_managed_labels
floating_ip_body input router_name pool_id private_address target_vm =
    let preferred = trimmed input.public_ipv4 in
    record {
      metadata = record {
        name = object_name preferred;
        generate_name = prefix_name input.vpc_name preferred;
        namespace = some input.namespace;
        uid = none;
        creation_timestamp = none;
        labels = kmc_managed_labels [];
        annotations = [];
      };
      spec = record {
        pool_ref = some (record { kind = codes "IPPool"; name = pool_id });
        address = preferred;
        vpc_ref = some input.vpc_name;
        router_ref = some router_name;
        private_address = private_address;
        target_vm = target_vm;
      };
      status = no_status;
    }

is_named : Text → Option Text → Bool
unfolding text_eq
is_named t none = false
is_named t (some s) = text_eq s t

unfoldable pub is_floating : Text → FloatingIpCr → Bool
unfolding is_named public_address text_eq address_from_annotation
is_floating key f =
    is_named key f.metadata.name
    || text_eq (public_address f) (or_else (address_from_annotation key) key)
    || text_eq (public_address f) key

find_floating : Text → List FloatingIpCr → Option FloatingIpCr
unfolding is_floating
find_floating key [] = none
find_floating key (f ∷ fs) =
    let rest = find_floating key fs in if is_floating key f then some f else rest

unfoldable pub find_floating_ip_by_public :
    Text → Result ErrorValue (List FloatingIpCr) → Result ErrorValue (Option FloatingIpCr)
unfolding find_floating listed_objects trim
find_floating_ip_by_public id_or_public listing =
    let key = trim id_or_public in
    if truthy key
    then (listed_objects listing >>= λ items. ok (find_floating key items))
    else ok none

abbrev or_pool : Option PoolRef → PoolRef
or_pool none = record { kind = codes "IPPool"; name = [] }
or_pool (some p) = p

-- The resource that `patchFloatingPrivate` sends, whose targets are texts with characters.
unfoldable pub patch_floating_private : FloatingIpCr → Option Text → Option Text → FloatingIpCr
patch_floating_private existing private_ipv4 target_vm = record existing {
  spec = record {
    pool_ref = some (or_pool existing.spec.pool_ref);
    address = existing.spec.address;
    vpc_ref = some (or_else existing.spec.vpc_ref []);
    router_ref = existing.spec.router_ref;
    private_address = private_ipv4;
    target_vm = elim private_ipv4 [ none ↦ none | some a ↦ target_vm ];
  };
}

-- The write that an association sends.
pub data FloatingIpWrite : Type 0 where
  create : FloatingIpCr → FloatingIpWrite
  replace : Option Text → FloatingIpCr → FloatingIpWrite

unfoldable pub held_for : Text → Option FloatingIpCr → Option FloatingIpCr
unfolding is_named
held_for vpc_name none = none
held_for vpc_name (some f) = if is_named vpc_name f.spec.vpc_ref then some f else none

unfoldable pub preferred_floating :
    FloatingIpRequest
    → Result ErrorValue (List FloatingIpCr)
    → Result ErrorValue (Option FloatingIpCr)
unfolding find_floating_ip_by_public held_for trimmed
preferred_floating input listing = elim (trimmed input.public_ipv4) [
  | none ↦ ok none
  | some address ↦
      find_floating_ip_by_public address listing >>= λ found. ok (held_for input.vpc_name found)
]

unfoldable pub association_write :
    FloatingIpRequest → Text → Text → PrivateTarget → Option FloatingIpCr → FloatingIpWrite
unfolding patch_floating_private floating_ip_body
association_write input router_name pool_id target (some f) =
    replace f.metadata.name (patch_floating_private f (some target.private_ipv4) target.target_vm)
association_write input router_name pool_id target none =
    create (floating_ip_body input router_name pool_id (some target.private_ipv4) target.target_vm)

-- `view` is what `getVpc` answers.
unfoldable pub associate_floating_ip :
    Result ErrorValue VpcView
    → (Text → Result ErrorValue RouterCr)
    → List IpPoolConfig
    → (Text → Result ErrorValue KubeVm)
    → Result ErrorValue (List FloatingIpCr)
    → FloatingIpRequest
    → Result VpcError FloatingIpWrite
unfolding of_other private_cidr gateway_router some_router load_router
    resolve_public_pool_for_router resolve_private_on_vpc preferred_floating association_write
associate_floating_ip view get_router pools get_vm listing input = do
  vpc ← of_other view
  cidr ← private_cidr vpc
  router_name ← gateway_router vpc
  router ← some_router router_name (load_router (get_router router_name))
  pool ← resolve_public_pool_for_router pools router
  target ← resolve_private_on_vpc cidr input.private_ipv4 input.target_vm get_vm
  found ← of_other (preferred_floating input listing)
  ok (association_write input router_name pool.id target found)

-- The resource that a reservation creates.
unfoldable pub floating_ip_to_reserve :
    Result ErrorValue VpcView
    → (Text → Result ErrorValue RouterCr)
    → List IpPoolConfig
    → FloatingIpRequest
    → Result VpcError FloatingIpCr
unfolding of_other private_cidr gateway_router some_router load_router
    resolve_public_pool_for_router floating_ip_body
floating_ip_to_reserve view get_router pools input = do
  vpc ← of_other view
  cidr ← private_cidr vpc
  router_name ← gateway_router vpc
  router ← some_router router_name (load_router (get_router router_name))
  pool ← resolve_public_pool_for_router pools router
  ok (floating_ip_body input router_name pool.id none none)

abbrev floating_missing : Text → ErrorValue
floating_missing id = plain_error (codes "Floating IP \"" ++ (id ++ codes "\" not found"))

found_or : Text → Option FloatingIpCr → Result ErrorValue FloatingIpCr
found_or id none = err (floating_missing id)
found_or id (some f) = ok f

-- The resource that is sent to replace the floating address.
unfoldable pub disassociate_floating_ip :
    Text → Result ErrorValue (List FloatingIpCr) → Result ErrorValue FloatingIpCr
unfolding find_floating_ip_by_public found_or patch_floating_private
disassociate_floating_ip id_or_public listing = do
  found ← find_floating_ip_by_public id_or_public listing
  fip ← found_or id_or_public found
  ok (patch_floating_private fip none none)

name_or : Text → Option Text → Result ErrorValue Text
name_or id none = err (floating_missing id)
name_or id (some []) = err (floating_missing id)
name_or id (some (c ∷ name)) = ok (c ∷ name)

-- The name of the resource that is deleted.
unfoldable pub release_floating_ip :
    Text → Result ErrorValue (List FloatingIpCr) → Result ErrorValue Text
unfolding find_floating_ip_by_public found_or name_or
release_floating_ip id_or_public listing = do
  found ← find_floating_ip_by_public id_or_public listing
  fip ← found_or id_or_public found
  name_or id_or_public fip.metadata.name
