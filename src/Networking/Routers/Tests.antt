-- ===== src/Networking/Routers/Tests.antt =====
-- Runs of the router operations on small examples.
use kmc.Common.{
  ◌≡◌, refl, false, Option, none, some, List, [], ◌∷◌, Result, ok, err, Text, codes, trim, text_eq,
  trimmed, if◌then◌else◌, Labels, All,
}
use kmc.Errors.{ErrorValue, plain_error}
use kmc.Networking.Objects.{ObjectMeta, VpcCr, RouterCr, IpAddressCr}
use kmc.Networking.Routers.{load_vpc_cr, appliance_ssh_public_keys}
use kmc.Networking.Routers.Attachments.{
  AttachRouterVpcRequest, DetachRouterVpcRequest, attach_router_vpc, detach_router_vpc, read_vpc,
  already_attached, used_cidr, attachment,
}
use kmc.Networking.Routers.Creation.{
  CreateRouterRequest, ApplianceRequest, router_to_create, check_name, check_appliance,
  vpc_names_of, check_vpcs, assert_vm_namespace_allowed, router_body,
}
use kmc.Networking.Routers.Machine.{
  Reachable, created, stepped, attached, IsSound, Reachable-IsSound, Step,
}
use kmc.Networking.Routers.Refinement.{step-change, change, links, step_change}
use kmc.Networking.Routers.Failures.{
  Failure, IsChecked, attach_router_vpc-Failure, attach_router_vpc-IsChecked,
}
use kmc.Networking.Routers.Listing.{offered_routers}
use kmc.Networking.Routers.Offers.{IsPlain, IsAccepted, offered_routers-IsAccepted}
use kmc.Networking.Routers.Detachment.{IsUnused, detach_router_vpc-IsUnused}

abbrev meta : Text → ObjectMeta
meta name = record {
  name = some name;
  generate_name = none;
  namespace = some (codes "lab");
  uid = none;
  creation_timestamp = none;
  labels = [];
  annotations = [];
}

abbrev vpc : Text → Text → Option Text → VpcCr
vpc name cidr router = record {
  metadata = meta name;
  spec = record {
    vlan_pool_ref = none;
    cidr = some cidr;
    gateway = none;
    dns = [];
    description = none;
  };
  status = record { vlan = none; bridge = none; router_ref = router; conditions = [] };
}

-- Networks `a` and `b` with addresses, `c` on another router, and `d` with the addresses of `a`.
abbrev get_vpc : Text → Result ErrorValue VpcCr
get_vpc name =
    if text_eq name (codes "a")
    then ok (vpc (codes "a") (codes "10.0.0.0/24") none)
    else if text_eq name (codes "b")
    then ok (vpc (codes "b") (codes "10.0.1.0/24") none)
    else if text_eq name (codes "c")
    then ok (vpc (codes "c") (codes "10.0.2.0/24") (some (codes "edge")))
    else if text_eq name (codes "d")
    then ok (vpc (codes "d") (codes "10.0.0.0/24 ") none)
    else err (plain_error (codes "HTTP-Code: 404"))

abbrev appliance : ApplianceRequest
appliance = record {
  ssh_public_key = codes "ssh-ed25519 AAAA";
  instance_type = some (codes "u1.small");
  cpu_cores = none;
  memory = none;
  disk_size = codes "10Gi";
  storage_class = none;
  image = record { namespace = codes ""; name = codes "router" };
}

abbrev request : CreateRouterRequest
request = record {
  cluster = codes "east";
  namespace = codes "lab";
  name = codes "r1";
  vpc_names = codes "a" ∷ codes " a " ∷ [];
  external_multus_network = none;
  appliance = appliance;
  start = none;
}

abbrev labels : Result ErrorValue Labels
labels = ok ((codes "kmc.ianunruh.com/vm-allowed", codes "true") ∷ [])

abbrev router : RouterCr
router = router_body request (codes "ssh-ed25519 AAAA" ∷ [])

abbrev router_created : Result ErrorValue RouterCr
router_created = router_to_create labels get_vpc none request

request_accepted : router_created ≡ ok router
unfolding router_to_create check_name check_appliance vpc_names_of check_vpcs
    assert_vm_namespace_allowed appliance_ssh_public_keys router_body
request_accepted = refl

router_reached : Reachable router
router_reached = created labels get_vpc none request router request_accepted

abbrev attach : Text → AttachRouterVpcRequest
attach name = record { namespace = codes "lab"; router_name = codes "r1"; vpc_name = name }

abbrev two_vpcs : RouterCr
two_vpcs = record router {
  spec = record router.spec { vpcs = attachment (codes "a") ∷ attachment (codes "b") ∷ [] };
}

b_attached : attach_router_vpc get_vpc (ok router) (attach (codes "b ")) ≡ ok (some two_vpcs)
unfolding attach_router_vpc router_body vpc_names_of
b_attached = refl

add_b : Step router two_vpcs
add_b = attached get_vpc (attach (codes "b ")) two_vpcs b_attached

Reachable-IsSound_example : IsSound two_vpcs
Reachable-IsSound_example =
    Reachable-IsSound two_vpcs (stepped router two_vpcs router_reached add_b)

step-change_example :
    change (step_change router two_vpcs add_b) (links router) ≡ some (links two_vpcs)
step-change_example = step-change router two_vpcs add_b (Reachable-IsSound router router_reached)

c_refused :
    attach_router_vpc get_vpc (ok router) (attach (codes "c"))
    ≡ err (already_attached (codes "c") (codes "edge"))
unfolding attach_router_vpc router_body vpc_names_of
c_refused = refl

d_refused :
    attach_router_vpc get_vpc (ok router) (attach (codes "d"))
    ≡ err (used_cidr (codes "10.0.0.0/24") (codes "a"))
unfolding attach_router_vpc router_body vpc_names_of
d_refused = refl

attach_router_vpc-Failure_example :
    Failure get_vpc (ok router) (attach (codes "d")) (used_cidr (codes "10.0.0.0/24") (codes "a"))
attach_router_vpc-Failure_example =
    attach_router_vpc-Failure get_vpc (ok router) (attach (codes "d"))
      (used_cidr (codes "10.0.0.0/24") (codes "a")) d_refused

attach_router_vpc-IsChecked_example :
    (r : RouterCr) × ◌≡◌ {A = Result ErrorValue RouterCr} (ok router) (ok r)
    × IsChecked get_vpc (ok router) (attach (codes "b ")) r
attach_router_vpc-IsChecked_example =
    attach_router_vpc-IsChecked get_vpc (ok router) (attach (codes "b ")) two_vpcs b_attached

abbrev detach : DetachRouterVpcRequest
detach = record {
  namespace = codes "lab";
  router_name = codes "r1";
  vpc_name = codes "b";
  force = false;
}

abbrev lease : Text → Option Text → IpAddressCr
lease vpc_name mac = record {
  address = some (codes "10.0.0.9");
  pool_ref = some (record { kind = codes "VPC"; name = vpc_name });
  claim_ref = record { kind = some (codes "VirtualMachine"); name = some (codes "web") };
  mac = mac;
  hostname = none;
}

-- A machine on `a`, and a claim on `b` that has no MAC.
abbrev leases : List IpAddressCr
leases = lease (codes "a") (some (codes "02:00:00:00:00:01")) ∷ lease (codes "b") none ∷ []

b_detached : detach_router_vpc (ok two_vpcs) (ok leases) (ok []) detach ≡ ok router
unfolding detach_router_vpc router_body vpc_names_of text_eq
b_detached = refl

detach_router_vpc-IsUnused_example : IsUnused (trim detach.vpc_name) (ok leases) (ok [])
detach_router_vpc-IsUnused_example =
    detach_router_vpc-IsUnused (ok two_vpcs) (ok leases) (ok []) detach router refl b_detached

-- Every network can be read: `b` has a block of its own.
abbrev any_vpc : Text → Result ErrorValue VpcCr
any_vpc name =
    ok (
      vpc name (if text_eq name (codes "b") then codes "10.0.1.0/24" else codes "10.0.0.0/24") none)

all_plain : (name : Text) → IsPlain (read_vpc (codes "lab") any_vpc name)
unfolding read_vpc load_vpc_cr
all_plain name = tt

abbrev vpc_b : VpcCr
vpc_b = vpc (codes "b") (codes "10.0.1.0/24") none

b_readable : read_vpc (codes "lab") any_vpc (codes "b") ≡ ok vpc_b
unfolding read_vpc load_vpc_cr text_eq
b_readable = refl

trim_b : trim (codes "b") ≡ codes "b"
unfolding trim
trim_b = refl

free_b : trimmed vpc_b.status.router_ref ≡ none
unfolding trimmed
free_b = refl

cidr_b : trimmed vpc_b.spec.cidr ≡ some (codes "10.0.1.0/24")
unfolding trimmed
cidr_b = refl

offered_routers-IsAccepted_example :
    All
      (IsAccepted
        (codes "lab")
        any_vpc
        (codes "b")
        (codes "10.0.1.0/24")
        vpc_b
        refl
        trim_b
        b_readable
        free_b
        cidr_b
        all_plain
        (router ∷ []))
      (offered_routers (codes "lab") any_vpc (codes "b") vpc_b (router ∷ []))
offered_routers-IsAccepted_example =
    offered_routers-IsAccepted (codes "lab") any_vpc (codes "b") (codes "10.0.1.0/24") vpc_b refl
      trim_b b_readable free_b cidr_b all_plain (router ∷ [])
