-- ===== src/Networking/Tests.antt =====
-- Runs of the operations on VPCs, floating addresses and port forwards on small examples.
use kmc.Common.{
  ℕ, zero, suc, ◌+◌, ◌*◌, ◌≡◌, ◌≢◌, refl, arith, true, false, Option, none, some, List, [], ◌∷◌,
  All, Result, ok, err, Text, codes, whole, truthy,
}
use kmc.Errors.{ErrorValue, plain_error}
use kmc.Ipam.Config.{IpPoolConfig}
use kmc.Networking.Objects.{ObjectMeta, VpcCr, RouterCr, FloatingIpCr, PortForwardCr}
use kmc.Networking.Routers.{stale, unknown, agent_status_from_router}
use kmc.Networking.Vpcs.{fail_with, UpdateVpcRequest, vpc_to_replace, updated_vpc}
use kmc.Networking.Vpcs.Addresses.{replaced, IsSound, Written-IsSound}
use kmc.Networking.Vpcs.Members.{KubeVm, delete_vpc, is_member}
use kmc.Networking.Vpcs.Deletion.{delete_vpc-none}
use kmc.Networking.Associations.{
  FloatingIpAssociation, map_floating_ip_association, vpc_agent_status, tcp,
}
use kmc.Networking.Statuses.{vpc_agent_status-forget_stale}
use kmc.Networking.FloatingIps.{
  VpcView, PrivateTarget, FloatingIpRequest, FloatingIpWrite, associate_floating_ip,
  association_write,
}
use kmc.Networking.FloatingIps.Targets.{IsAssociation, associate_floating_ip-IsAssociation}
use kmc.Networking.FloatingIps.Waiting.{wait_for_floating_ip_address, reserved}
use kmc.Networking.FloatingIps.Endings.{wait_for_floating_ip_address-ends, reserved-IsRead}
use kmc.Networking.PortForwards.{CreatePortForwardRequest, create_port_forward, port_forward_body}
use kmc.Networking.PortForwards.Bodies.{IsForward, create_port_forward-IsForward}

abbrev meta : Text → ObjectMeta
meta name = record {
  name = some name;
  generate_name = none;
  namespace = some (codes "lab");
  uid = none;
  creation_timestamp = none;
  labels = [];
  annotations = [];
}

abbrev vpc : VpcCr
vpc = record {
  metadata = meta (codes "a");
  spec = record {
    vlan_pool_ref = some (codes "pool");
    cidr = some (codes "10.0.0.0/24");
    gateway = none;
    dns = [];
    description = none;
  };
  status = record { vlan = some 10; bridge = none; router_ref = none; conditions = [] };
}

abbrev update : UpdateVpcRequest
update = record {
  cluster = codes "east";
  namespace = codes "lab";
  name = codes "a";
  ipam = record {
    cidr = some (codes " 10.1.0.0/24");
    gateway = some (codes "10.1.0.1");
    dns = codes "1.1.1.1" ∷ codes " " ∷ [];
  };
  description = none;
}

update_accepted : vpc_to_replace (ok vpc) update ≡ ok (updated_vpc update vpc)
unfolding vpc_to_replace
update_accepted = refl

Written-IsSound_example : IsSound (updated_vpc update vpc).spec
Written-IsSound_example =
    Written-IsSound (updated_vpc update vpc) (replaced (ok vpc) update _ update_accepted)

-- On the pod network and on a VPC of that name in another namespace.
abbrev vm : KubeVm
vm = record {
  namespace = some (codes "prod");
  name = some (codes "web");
  labels = [];
  annotations = [];
  networks = none ∷ some (codes "a") ∷ [];
}

nothing_attached :
    delete_vpc (λ vms. vms) (codes "lab") (codes "a") (ok vpc) (ok (vm ∷ [])) (ok (vm ∷ [])) ≡ ok tt
unfolding delete_vpc
nothing_attached = refl

delete_vpc-none_example :
    (vms : List KubeVm) × ◌≡◌ {A = Result ErrorValue (List KubeVm)} (ok (vm ∷ [])) (ok vms)
    × All (λ v. is_member (codes "lab") (codes "a") v ≡ false) vms
delete_vpc-none_example =
    delete_vpc-none (λ vms. vms) (λ vms. refl) (codes "lab") (codes "a") (ok vpc) (ok (vm ∷ []))
      (ok (vm ∷ [])) nothing_attached

abbrev router : Text → RouterCr
router status = record {
  metadata = meta (codes "r1");
  spec = record { vpcs = []; external = none; appliance = none };
  status = record {
    policy_config_map = none;
    interfaces = none;
    external = record {
      multus_network = some (codes "public");
      primary_cidr = some (codes "203.0.113.2/27");
      gateway = none;
      snat = none;
    };
    vm_name = none;
    agent = record { status = some status; heartbeat_at = none };
    conditions = [];
  };
}

vpc_agent_status-forget_stale_example :
    (agent_status_from_router (router (codes "Stale")) ≢ some stale
      → vpc_agent_status (router (codes "Stale"))
        ≡ agent_status_from_router (router (codes "Stale")))
    × (agent_status_from_router (router (codes "Stale")) ≡ some stale
        → vpc_agent_status (router (codes "Stale")) ≡ some unknown)
vpc_agent_status-forget_stale_example = vpc_agent_status-forget_stale (router (codes "Stale"))

stale_unknown : vpc_agent_status (router (codes "Stale")) ≡ some unknown
unfolding vpc_agent_status
stale_unknown = refl

stale_stale : agent_status_from_router (router (codes "Stale")) ≡ some stale
unfolding agent_status_from_router
stale_stale = refl

abbrev view : VpcView
view = record { cidr = some (codes "10.0.0.0/24"); router = some (codes "r1", true) }

abbrev pool : IpPoolConfig
pool = record {
  id = codes "public-pool";
  multus_network = codes "default/public";
  cidr = codes "203.0.113.0/27";
  gateway = none;
  dns = [];
  exclude = [];
  start = none;
  end = none;
  interface = none;
  cni = none;
}

abbrev floating_request : FloatingIpRequest
floating_request = record {
  namespace = codes "lab";
  vpc_name = codes "a";
  public_ipv4 = some (codes "203.0.113.9");
  private_ipv4 = some (codes "10.0.0.7");
  target_vm = none;
}

abbrev no_vm : Text → Result ErrorValue KubeVm
no_vm name = err (plain_error (codes "not found"))

abbrev private_target : PrivateTarget
private_target = record { private_ipv4 = codes "10.0.0.7"; target_vm = none }

abbrev floating_write : FloatingIpWrite
floating_write =
    association_write floating_request (codes "r1") (codes "public-pool") private_target none

association_accepted :
    associate_floating_ip
      (ok view)
      (λ n. ok (router (codes "Ready")))
      (pool ∷ [])
      no_vm
      (ok [])
      floating_request
    ≡ ok floating_write
unfolding associate_floating_ip
association_accepted = refl

associate_floating_ip-IsAssociation_example :
    (v : VpcView) × ◌≡◌ {A = Result ErrorValue VpcView} (ok view) (ok v)
    × IsAssociation (codes "a") v floating_write
associate_floating_ip-IsAssociation_example =
    associate_floating_ip-IsAssociation (ok view) (λ n. ok (router (codes "Ready"))) (pool ∷ [])
      no_vm (ok []) floating_request floating_write association_accepted

-- A floating address with that public address, and one that has none yet.
abbrev fip : Option Text → FloatingIpCr
fip address = record {
  metadata = meta (codes "fip-a-x");
  spec = record {
    pool_ref = none;
    address = none;
    vpc_ref = some (codes "a");
    router_ref = some (codes "r1");
    private_address = none;
    target_vm = none;
  };
  status = record {
    phase = some (codes "Pending");
    address = address;
    prefix_length = some 27;
    conditions = [];
  };
}

abbrev clock : ℕ → ℕ
clock i = 1000 + i * 400

abbrev poll : ℕ → Result ErrorValue FloatingIpCr
poll zero = ok (fip none)
poll (suc i) = ok (fip (some (codes "203.0.113.10")))

wait_for_floating_ip_address-ends_example :
    (result : Result ErrorValue FloatingIpCr) × (wait_for_floating_ip_address
        (codes "lab")
        (codes "fip-a-x")
        1000
        clock
        poll
      ≡ some result)
wait_for_floating_ip_address-ends_example =
    wait_for_floating_ip_address-ends (codes "lab") (codes "fip-a-x") 1000 clock poll (omega arith)
      (λ i. omega arith)

abbrev reserved_address : FloatingIpAssociation
reserved_address = map_floating_ip_association (fip (some (codes "203.0.113.10")))

address_reserved :
    reserved (codes "lab") 1000 clock poll (ok (fip none)) ≡ some (ok reserved_address)
unfolding reserved
address_reserved = refl

reserved-IsRead_example :
    (f : FloatingIpCr) × (reserved_address ≡ map_floating_ip_association f)
    × (truthy reserved_address.public_ip ≡ true)
    × (round : ℕ) × (poll round ≡ ok f)
reserved-IsRead_example =
    reserved-IsRead (codes "lab") 1000 clock poll (ok (fip none)) reserved_address address_reserved

abbrev forward_request : CreatePortForwardRequest
forward_request = record {
  namespace = codes "lab";
  vpc_name = codes "a";
  public_ipv4 = none;
  allocate_public = false;
  public_port = whole 8080;
  private_ipv4 = some (codes "10.0.0.7");
  private_port = whole 80;
  target_vm = none;
  protocol = tcp;
}

abbrev forward : PortForwardCr
forward =
    port_forward_body forward_request (codes "r1") (codes "203.0.113.2") (8080, 80) private_target

forward_accepted :
    create_port_forward
      (ok view)
      (λ n. ok (router (codes "Ready")))
      no_vm
      (err (fail_with []))
      forward_request
    ≡ ok forward
unfolding create_port_forward
forward_accepted = refl

create_port_forward-IsForward_example :
    (v : VpcView) × ◌≡◌ {A = Result ErrorValue VpcView} (ok view) (ok v)
    × IsForward forward_request v forward
create_port_forward-IsForward_example =
    create_port_forward-IsForward (ok view) (λ n. ok (router (codes "Ready"))) no_vm
      (err (fail_with [])) forward_request forward forward_accepted
