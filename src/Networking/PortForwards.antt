-- ===== src/Networking/PortForwards.antt =====
-- Port forwards in console/app/vpcs/vpcs.server.ts: `createPortForward` and `deletePortForward`.
-- The answers of the API, and what a reservation ends with, are arguments.
pub mod Bodies
use kmc.Common.{
  ℕ, Bool, true, false, not, ◌&&◌, ◌||◌, Option, none, some, List, [], ◌∷◌, ◌++◌, if◌then◌else◌,
  leb, ltb, or_else, Result, ok, err, ◌>>=◌, ◌>>◌, guard, Text, codes, truthy, trim, trimmed, split,
  Number, nan, whole, other, nonempty,
}
use kmc.Errors.{ErrorValue, plain_error}
use kmc.Ipam.Cidr.{address_from_annotation}
use kmc.Networking.Objects.{ObjectMeta, RouterCr, PortForwardCr, PortForwardSpec}
use kmc.Networking.Api.{kmc_managed_labels, port_forward_object_name}
use kmc.Networking.Vpcs.{VpcError, of_other, fail_with, other_error}
use kmc.Networking.Vpcs.Members.{KubeVm}
use kmc.Networking.Associations.{FloatingIpAssociation, Protocol, tcp, udp}
use kmc.Networking.FloatingIps.{
  VpcView, PrivateTarget, private_cidr, gateway_router, some_router, load_router,
  resolve_private_on_vpc,
}

pub record CreatePortForwardRequest : Type 0 where
  pub namespace : Text
  pub vpc_name : Text
  pub public_ipv4 : Option Text
  pub allocate_public : Bool
  pub public_port : Number
  pub private_ipv4 : Option Text
  pub private_port : Number
  pub target_vm : Option Text
  pub protocol : Protocol

abbrev not_ready : Text → VpcError
not_ready id =
    fail_with
      (codes "Allocated FloatingIP " ++ (id ++ codes " but public address is not ready yet"))

-- The public address of the reservation that was made for the port forward.
unfoldable pub held_address : Result VpcError FloatingIpAssociation → Result VpcError (Option Text)
unfolding trim
held_address (err e) = err e
held_address (ok held) = elim (nonempty (trim held.public_ip)) [
  | some address ↦ ok (some address)
  | none ↦ err (not_ready held.id)
]

abbrev first_text : List Text → Option Text
first_text [] = none
first_text (t ∷ ts) = nonempty t

primary_of : Option Text → Option Text
unfolding address_from_annotation split
primary_of none = none
primary_of (some primary) = elim (address_from_annotation primary) [
  | some address ↦ some address
  | none ↦ first_text (split b'/' primary)
]

-- The address that the router has on its external network.
unfoldable pub primary_address : RouterCr → Option Text
unfolding primary_of trimmed
primary_address router = primary_of (trimmed router.status.external.primary_cidr)

abbrev or_primary : RouterCr → Option Text → Option Text
or_primary router (some address) = some address
or_primary router none = primary_address router

abbrev some_public : Option Text → Result VpcError Text
some_public (some address) = ok address
some_public none = err (
    fail_with
      (codes "publicIpv4 is required (or set allocatePublic / configure router external primary)"))

-- `reserve` is what the call of `reserveFloatingIp` ends with.
unfoldable pub forward_address :
    RouterCr
    → Result VpcError FloatingIpAssociation
    → CreatePortForwardRequest
    → Result VpcError Text
unfolding trimmed held_address primary_address
forward_address router reserve input = do
  given ← elim (trimmed input.public_ipv4) [
    | some address ↦ ok (some address)
    | none ↦ if input.allocate_public then held_address reserve else ok none
  ]
  some_public (or_primary router given)

-- `Number.isInteger(port) && port >= 1 && port <= 65535`
unfoldable pub port_of : Number → Option ℕ
port_of (whole n) = if leb 1 n && leb n 65535 then some n else none
port_of nan = none
port_of other = none

abbrev both_ports : Option ℕ → Option ℕ → Result VpcError (ℕ × ℕ)
both_ports (some p) (some q) = ok (p, q)
both_ports (some p) none =
    err (fail_with (codes "publicPort and privatePort must be integers 1–65535"))
both_ports none q = err (fail_with (codes "publicPort and privatePort must be integers 1–65535"))

abbrev protocol_text : Protocol → Text
protocol_text udp = codes "UDP"
protocol_text tcp = codes "TCP"

unfoldable pub port_forward_body :
    CreatePortForwardRequest → Text → Text → ℕ × ℕ → PrivateTarget → PortForwardCr
unfolding kmc_managed_labels port_forward_object_name
port_forward_body input router_name address (public_port, private_port) target = record {
  metadata = record {
    name = some (port_forward_object_name address (protocol_text input.protocol) public_port);
    generate_name = none;
    namespace = some input.namespace;
    uid = none;
    creation_timestamp = none;
    labels = kmc_managed_labels [];
    annotations = [];
  };
  spec = record {
    vpc_ref = some input.vpc_name;
    router_ref = some router_name;
    public_address = some address;
    public_port = some public_port;
    private_address = some target.private_ipv4;
    private_port = some private_port;
    protocol = some (protocol_text input.protocol);
    target_vm = target.target_vm;
  };
}

-- The resource that is sent to be created.
unfoldable pub create_port_forward :
    Result ErrorValue VpcView
    → (Text → Result ErrorValue RouterCr)
    → (Text → Result ErrorValue KubeVm)
    → Result VpcError FloatingIpAssociation
    → CreatePortForwardRequest
    → Result VpcError PortForwardCr
unfolding of_other private_cidr gateway_router some_router load_router resolve_private_on_vpc
    forward_address port_of port_forward_body
create_port_forward view get_router get_vm reserve input = do
  vpc ← of_other view
  cidr ← private_cidr vpc
  router_name ← gateway_router vpc
  router ← some_router router_name (load_router (get_router router_name))
  target ← resolve_private_on_vpc cidr input.private_ipv4 input.target_vm get_vm
  address ← forward_address router reserve input
  ports ← both_ports (port_of input.public_port) (port_of input.private_port)
  ok (port_forward_body input router_name address ports target)

-- The name of the resource that is deleted.
unfoldable pub delete_port_forward : Text → Result ErrorValue Text
unfolding trim
delete_port_forward id = do
  guard (truthy (trim id)) (plain_error (codes "port forward id is required"))
  ok (trim id)
