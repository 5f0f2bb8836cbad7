-- ===== src/Networking/Objects.antt =====
-- The resource types of console/app/lib/k8s/networking-cr.server.ts. An absent metadata, spec or
-- status is one whose fields are all absent, and an absent list or map is empty: the source reads
-- them through `?.` and `?? []`. The constant group, version and kind are left out.
use kmc.Common.{ℕ, Bool, Option, List, Text, Labels}

pub record ObjectMeta : Type 0 where
  pub name : Option Text
  pub generate_name : Option Text
  pub namespace : Option Text
  pub uid : Option Text
  pub creation_timestamp : Option Text
  pub labels : Labels
  pub annotations : Labels

pub record Condition : Type 0 where
  pub type : Option Text
  pub status : Option Text
  pub reason : Option Text
  pub message : Option Text
  pub last_transition_time : Option Text

-- References to another object by its name are that name.
pub record VpcSpec : Type 0 where
  pub vlan_pool_ref : Option Text
  pub cidr : Option Text
  pub gateway : Option Text
  pub dns : List Text
  pub description : Option Text

pub record VpcStatus : Type 0 where
  pub vlan : Option ℕ
  pub bridge : Option Text
  pub router_ref : Option Text
  pub conditions : List Condition

pub record VpcCr : Type 0 where
  pub metadata : ObjectMeta
  pub spec : VpcSpec
  pub status : VpcStatus

pub record RouterVpcAttachment : Type 0 where
  pub name : Text
  pub gateway : Option Text

pub record RouterExternalSpec : Type 0 where
  pub multus_network : Text
  pub address : Option Text
  pub snat : Option Bool

pub record RouterImageRef : Type 0 where
  pub kind : Option Text
  pub namespace : Text
  pub name : Text

pub record RouterApplianceSpec : Type 0 where
  pub image : RouterImageRef
  pub instance_type : Option Text
  pub cpu_cores : Option ℕ
  pub memory : Option Text
  pub disk_size : Text
  pub storage_class : Option Text
  pub ssh_public_keys : List Text
  pub run_strategy : Option Text

pub record RouterSpec : Type 0 where
  pub vpcs : List RouterVpcAttachment
  pub external : Option RouterExternalSpec
  pub appliance : Option RouterApplianceSpec

pub record RouterInterface : Type 0 where
  pub vpc : Option Text
  pub cidr : Option Text
  pub gateway : Option Text
  pub mac : Option Text
  pub domain : Option Text

pub record RouterExternalStatus : Type 0 where
  pub multus_network : Option Text
  pub primary_cidr : Option Text
  pub gateway : Option Text
  pub snat : Option Bool

pub record RouterAgent : Type 0 where
  pub status : Option Text
  pub heartbeat_at : Option Text

pub record RouterStatus : Type 0 where
  pub policy_config_map : Option Text
  pub interfaces : Option (List RouterInterface)
  pub external : RouterExternalStatus
  pub vm_name : Option Text
  pub agent : RouterAgent
  pub conditions : List Condition

pub record RouterCr : Type 0 where
  pub metadata : ObjectMeta
  pub spec : RouterSpec
  pub status : RouterStatus

pub record PoolRef : Type 0 where
  pub kind : Text
  pub name : Text

pub record FloatingIpSpec : Type 0 where
  pub pool_ref : Option PoolRef
  pub address : Option Text
  pub vpc_ref : Option Text
  pub router_ref : Option Text
  pub private_address : Option Text
  pub target_vm : Option Text

pub record FloatingIpStatus : Type 0 where
  pub phase : Option Text
  pub address : Option Text
  pub prefix_length : Option ℕ
  pub conditions : List Condition

pub record FloatingIpCr : Type 0 where
  pub metadata : ObjectMeta
  pub spec : FloatingIpSpec
  pub status : FloatingIpStatus

pub record PortForwardSpec : Type 0 where
  pub vpc_ref : Option Text
  pub router_ref : Option Text
  pub public_address : Option Text
  pub public_port : Option ℕ
  pub private_address : Option Text
  pub private_port : Option ℕ
  pub protocol : Option Text
  pub target_vm : Option Text

pub record PortForwardCr : Type 0 where
  pub metadata : ObjectMeta
  pub spec : PortForwardSpec

pub record IpClaimRef : Type 0 where
  pub kind : Option Text
  pub name : Option Text

pub record IpAddressCr : Type 0 where
  pub address : Option Text
  pub pool_ref : Option PoolRef
  pub claim_ref : IpClaimRef
  pub mac : Option Text
  pub hostname : Option Text
