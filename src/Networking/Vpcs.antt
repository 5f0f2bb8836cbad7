-- ===== src/Networking/Vpcs.antt =====
-- The checks and the writes of console/app/vpcs/vpcs.server.ts on VPC resources. The API's answers
-- are arguments.
pub mod Addresses
pub mod Deletion
pub mod Members
use kmc.Common.{
  ℕ, ◌+◌, Bool, true, false, not, ◌&&◌, ◌||◌, Option, none, some, List, [], ◌∷◌, ◌++◌, map,
  if◌then◌else◌, leb, length, or_else, Result, ok, err, ◌>>=◌, ◌>>◌, guard, Text, codes, truthy,
  trim, trimmed, trim_all, lookup, Labels,
}
use kmc.Errors.{ErrorValue, format_error, plain_error, caused}
use kmc.Ipam.Cidr.{
  CidrError, ParsedCidr, HostRange, parse_cidr, parse_ipv4, contains_ipv4, format_ipv4,
  usable_host_range,
}
use kmc.Ipam.VlanPools.{VlanPoolConfig, get_vlan_pool, cluster_has_vlan_pools}
use kmc.Networking.Objects.{ObjectMeta, VpcCr, VpcSpec, VpcStatus}
use kmc.Networking.Api.{kmc_managed_labels, owner_annotation}
use kmc.Networking.Routers.{load_failure, vpc_missing}
use kmc.Networking.Routers.Creation.{check_name, assert_vm_namespace_allowed}

-- What these operations throw: an error of the address arithmetic, or another.
pub data VpcError : Type 0 where
  address_error : CidrError → VpcError
  other_error : ErrorValue → VpcError

unfoldable pub of_cidr {ℓ} : {A : Type ℓ} → Result CidrError A → Result VpcError A
of_cidr (ok a) = ok a
of_cidr (err e) = err (address_error e)

unfoldable pub of_other {ℓ} : {A : Type ℓ} → Result ErrorValue A → Result VpcError A
of_other (ok a) = ok a
of_other (err e) = err (other_error e)

abbrev pub fail_with : Text → VpcError
fail_with m = other_error (plain_error m)

pub record VpcIpamFields : Type 0 where
  pub cidr : Option Text
  pub gateway : Option Text
  pub dns : List Text

outside : Text → ParsedCidr → VpcError
outside gateway parsed =
    fail_with (codes "gateway " ++ (gateway ++ (codes " is outside " ++ parsed.cidr)))

unfoldable pub check_gateway : ParsedCidr → Option Text → Result VpcError (Unit {0})
unfolding outside parse_ipv4 contains_ipv4 of_cidr
check_gateway parsed none = ok tt
check_gateway parsed (some gateway) = do
  number ← of_cidr (parse_ipv4 gateway)
  inside ← of_cidr (contains_ipv4 parsed gateway)
  guard inside (outside gateway parsed)

check_server : Text → Result VpcError (Unit {0})
unfolding parse_ipv4 of_cidr
check_server [] = ok tt
check_server (c ∷ s) = of_cidr (parse_ipv4 (c ∷ s)) >>= λ n. ok tt

unfoldable pub check_dns : List Text → Result VpcError (Unit {0})
unfolding check_server trim
check_dns [] = ok tt
check_dns (d ∷ ds) = check_server (trim d) >> check_dns ds

no_gateway : Option Text → Result VpcError (Unit {0})
no_gateway none = ok tt
no_gateway (some gateway) = err (fail_with (codes "gateway requires cidr (enable private IPAM)"))

unfoldable pub validate_vpc_ipam_fields : VpcIpamFields → Result VpcError (Unit {0})
unfolding parse_cidr check_gateway check_dns no_gateway trimmed of_cidr
validate_vpc_ipam_fields input = elim (trimmed input.cidr) [
  | none ↦ no_gateway (trimmed input.gateway)
  | some cidr ↦ do
    parsed ← of_cidr (parse_cidr cidr)
    check_gateway parsed (trimmed input.gateway)
    check_dns input.dns
]

pub record CreateVpcRequest : Type 0 where
  pub cluster : Text
  pub namespace : Text
  pub name : Text
  pub vlan_pool_id : Option Text
  pub ipam : VpcIpamFields
  pub description : Option Text

pub record UpdateVpcRequest : Type 0 where
  pub cluster : Text
  pub namespace : Text
  pub name : Text
  pub ipam : VpcIpamFields
  pub description : Option Text

abbrev required : Text → Text → Result VpcError (Unit {0})
required what value = guard (truthy (trim value)) (fail_with (what ++ codes " is required"))

unfoldable pub validate_create_vpc_input : CreateVpcRequest → Result VpcError (Unit {0})
unfolding trim check_name validate_vpc_ipam_fields of_other
validate_create_vpc_input input = do
  required (codes "cluster") input.cluster
  required (codes "namespace") input.namespace
  of_other (check_name input.name)
  validate_vpc_ipam_fields input.ipam

pub record VpcSummary : Type 0 where
  pub cluster : Text
  pub namespace : Text
  pub name : Text
  pub vlan : ℕ
  pub vlan_pool_id : Option Text
  pub bridge : Option Text
  pub cidr : Option Text
  pub gateway : Option Text
  pub dns : List Text
  pub description : Option Text
  pub owner : Option Text
  pub age : Text

unfoldable pub map_vpc_summary : Text → VpcCr → VpcSummary
unfolding trimmed trim_all lookup
map_vpc_summary cluster cr = record {
  cluster = cluster;
  namespace = or_else cr.metadata.namespace (codes "default");
  name = or_else cr.metadata.name (codes "unknown");
  vlan = or_else cr.status.vlan 0;
  vlan_pool_id = cr.spec.vlan_pool_ref;
  bridge = trimmed cr.status.bridge;
  cidr = trimmed cr.spec.cidr;
  gateway = trimmed cr.spec.gateway;
  dns = trim_all cr.spec.dns;
  description = trimmed cr.spec.description;
  owner = lookup (codes "kmc.ianunruh.com/owner") cr.metadata.annotations;
  age = or_else cr.metadata.creation_timestamp [];
}

unfoldable pub default_gateway_address : Text → Result CidrError Text
unfolding parse_cidr usable_host_range format_ipv4
default_gateway_address cidr = do
  parsed ← parse_cidr cidr
  range ← usable_host_range parsed none none
  ok (format_ipv4 range.start)

abbrev no_pools : Text → VpcError
no_pools cluster = fail_with (
    codes "Cluster \""
    ++ (cluster
        ++ codes "\" has no VLANPool CRs — apply a VLANPool (see deploy/controller/examples)"))

pool_missing : Text → Option Text → VpcError
pool_missing cluster none = fail_with (codes "No VLAN pool available on cluster " ++ cluster)
pool_missing cluster (some pool) =
    fail_with (codes "VLAN pool \"" ++ (pool ++ (codes "\" not found on cluster " ++ cluster)))

abbrev given_text : Option Text → Option Text → Option Text
given_text none raw = none
given_text (some t) raw = raw

unfoldable pub some_pool :
    Text → Option Text → Option VlanPoolConfig → Result VpcError VlanPoolConfig
unfolding pool_missing trimmed
some_pool cluster pool_id (some pool) = ok pool
some_pool cluster pool_id none = err (pool_missing cluster (given_text (trimmed pool_id) pool_id))

-- The fields of an enabled and of a disabled address management.
unfoldable pub ipam_spec : Option Text → Option Text → VpcIpamFields → VpcSpec
unfolding trimmed trim_all
ipam_spec pool description input = elim (trimmed input.cidr) [
  | some cidr ↦ record {
    vlan_pool_ref = pool;
    cidr = some cidr;
    gateway = trimmed input.gateway;
    dns = trim_all input.dns;
    description = trimmed description;
  }
  | none ↦ record {
    vlan_pool_ref = pool;
    cidr = none;
    gateway = none;
    dns = [];
    description = trimmed description;
  }
]

abbrev no_status : VpcStatus
no_status = record { vlan = none; bridge = none; router_ref = none; conditions = [] }

unfoldable pub vpc_body : Option Text → VlanPoolConfig → CreateVpcRequest → VpcCr
unfolding ipam_spec kmc_managed_labels owner_annotation trim
vpc_body owner pool input = record {
  metadata = record {
    name = some (trim input.name);
    generate_name = none;
    namespace = some (trim input.namespace);
    uid = none;
    creation_timestamp = none;
    labels = kmc_managed_labels [];
    annotations = owner_annotation owner;
  };
  spec = ipam_spec (some pool.id) input.description input.ipam;
  status = no_status;
}

-- The resource that is sent to be created; `owner` is the login of the session.
unfoldable pub vpc_to_create :
    Result ErrorValue Labels
    → List VlanPoolConfig
    → Option Text
    → CreateVpcRequest
    → Result VpcError VpcCr
unfolding validate_create_vpc_input assert_vm_namespace_allowed some_pool vpc_body get_vlan_pool
    cluster_has_vlan_pools of_other
vpc_to_create namespace_labels pools owner input = do
  validate_create_vpc_input input
  of_other (assert_vm_namespace_allowed input.namespace namespace_labels)
  guard (cluster_has_vlan_pools pools) (no_pools input.cluster)
  pool ← some_pool input.cluster input.vlan_pool_id (get_vlan_pool pools input.vlan_pool_id)
  ok (vpc_body owner pool input)

-- What the write answers, as a summary.
unfoldable pub written : Text → Result ErrorValue VpcCr → Result VpcError VpcSummary
unfolding map_vpc_summary format_error
written cluster (ok cr) = ok (map_vpc_summary cluster cr)
written cluster (err e) = err (other_error (caused (format_error e) e))

unfoldable pub create_vpc :
    Result ErrorValue Labels
    → List VlanPoolConfig
    → Option Text
    → (VpcCr → Result ErrorValue VpcCr)
    → CreateVpcRequest
    → Result VpcError VpcSummary
unfolding vpc_to_create written
create_vpc namespace_labels pools owner create input = do
  body ← vpc_to_create namespace_labels pools owner input
  written input.cluster (create body)

unfoldable pub existing_vpc : Text → Text → Result ErrorValue VpcCr → Result VpcError VpcCr
unfolding load_failure vpc_missing
existing_vpc namespace name (ok vpc) = ok vpc
existing_vpc namespace name (err e) =
    err (other_error (load_failure (vpc_missing namespace name) e))

unfoldable pub updated_vpc : UpdateVpcRequest → VpcCr → VpcCr
unfolding ipam_spec
updated_vpc input existing = record existing {
  spec = ipam_spec (some (or_else existing.spec.vlan_pool_ref [])) input.description input.ipam;
}

-- The resource that is sent to replace the VPC.
unfoldable pub vpc_to_replace : Result ErrorValue VpcCr → UpdateVpcRequest → Result VpcError VpcCr
unfolding trim validate_vpc_ipam_fields existing_vpc updated_vpc
vpc_to_replace get input = do
  required (codes "cluster") input.cluster
  required (codes "namespace") input.namespace
  required (codes "name") input.name
  validate_vpc_ipam_fields input.ipam
  existing ← existing_vpc input.namespace input.name get
  ok (updated_vpc input existing)

unfoldable pub update_vpc :
    Result ErrorValue VpcCr
    → (VpcCr → Result ErrorValue VpcCr)
    → UpdateVpcRequest
    → Result VpcError VpcSummary
unfolding vpc_to_replace written
update_vpc get replace input = do
  next ← vpc_to_replace get input
  written input.cluster (replace next)
