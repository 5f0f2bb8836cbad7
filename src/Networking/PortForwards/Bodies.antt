-- ===== src/Networking/PortForwards/Bodies.antt =====
-- The port forwards that `createPortForward` of console/app/vpcs/vpcs.server.ts sends.
use kmc.Common.{
  ℕ, ◌≤◌, ◌≡◌, sym, ap, subst, true, Option, none, some, arith, leb, ◌&&◌, if◌then◌else◌, Result,
  ok, >>=-eq-ok, if-eq-some, ok_injective, Text, Number, nan, whole, other,
}
use kmc.Errors.{ErrorValue}
use kmc.Ipam.Cidr.{ParsedCidr, parse_cidr}
use kmc.Networking.Objects.{RouterCr, PortForwardCr}
use kmc.Networking.Vpcs.{VpcError, of_other}
use kmc.Networking.Vpcs.Addresses.{IsWithin}
use kmc.Networking.Vpcs.Members.{KubeVm}
use kmc.Networking.Associations.{FloatingIpAssociation}
use kmc.Networking.FloatingIps.{
  VpcView, private_cidr, gateway_router, some_router, load_router, resolve_private_on_vpc,
}
use kmc.Networking.FloatingIps.Targets.{
  resolve-IsWithin, private_cidr-some, gateway_router-some, of_other-eq-ok,
}
use kmc.Networking.PortForwards.{
  CreatePortForwardRequest, create_port_forward, forward_address, port_of, both_ports,
  port_forward_body,
}

abbrev pub IsPort : ℕ → Type 0
IsPort n = (1 ≤ n) × (n ≤ 65535)

chosen-IsPort :
    (n p : ℕ)
    → (if leb 1 n && leb n 65535 then some n else none) ≡ some p
    → IsPort p × (whole n ≡ whole p)
chosen-IsPort n p h =
    let (test, same) = if-eq-some (leb 1 n && leb n 65535) n p h in
    (subst IsPort same (ground (arith, test), ground (arith, test)), ap whole same)

port_of-IsPort : (n : Number) (p : ℕ) → port_of n ≡ some p → IsPort p × (n ≡ whole p)
unfolding port_of
port_of-IsPort nan p h = cc
port_of-IsPort other p h = cc
port_of-IsPort (whole n) p h = chosen-IsPort n p h

both_ports-some :
    (a b : Option ℕ) (p q : ℕ) → both_ports a b ≡ ok (p, q) → (a ≡ some p) × (b ≡ some q)
both_ports-some (some p') (some q') p q h =
    (ap (λ t. some t.0) (ok_injective h), ap (λ t. some t.1) (ok_injective h))
both_ports-some (some p') none p q h = cc
both_ports-some none b p q h = cc

-- The port forward of a request, on the VPC that `view` shows.
pub record IsForward (input : CreatePortForwardRequest) (view : VpcView) (cr : PortForwardCr)
    : Type 0 where
  pub external :
      (name : Text) × (view.router ≡ some (name, true)) × (cr.spec.router_ref ≡ some name)
  pub cidr : Text
  pub has_cidr : view.cidr ≡ some cidr
  pub parsed : ParsedCidr
  pub parses : parse_cidr cidr ≡ ok parsed
  pub target : Text
  pub leads_to : cr.spec.private_address ≡ some target
  pub inside : IsWithin parsed target
  pub public_port : ℕ
  pub public :
      (cr.spec.public_port ≡ some public_port)
      × (input.public_port ≡ whole public_port)
      × IsPort public_port
  pub private_port : ℕ
  pub private :
      (cr.spec.private_port ≡ some private_port)
      × (input.private_port ≡ whole private_port)
      × IsPort private_port

-- A port forward that is sent is for a VPC with a block and an external router, leads to an
-- address of that block, and has the requested ports, which are whole numbers from 1 to 65535.
pub create_port_forward-IsForward :
    (view : Result ErrorValue VpcView) (get_router : Text → Result ErrorValue RouterCr)
    (get_vm : Text → Result ErrorValue KubeVm) (reserve : Result VpcError FloatingIpAssociation)
    (input : CreatePortForwardRequest) (cr : PortForwardCr)
    → create_port_forward view get_router get_vm reserve input ≡ ok cr
    → (vpc : VpcView) × (view ≡ ok vpc) × IsForward input vpc cr
unfolding create_port_forward port_forward_body
create_port_forward-IsForward view get_router get_vm reserve input cr h =
    let (vpc, viewed, h1) = >>=-eq-ok (of_other view) _ h in
    let (cidr, has, h2) = >>=-eq-ok (private_cidr vpc) _ h1 in
    let (router_name, external, h3) = >>=-eq-ok (gateway_router vpc) _ h2 in
    let (router, _, h4) =
      >>=-eq-ok (some_router router_name (load_router (get_router router_name))) _ h3 in
    let (target, resolved, h5) =
      >>=-eq-ok (resolve_private_on_vpc cidr input.private_ipv4 input.target_vm get_vm) _ h4 in
    let (address, _, h6) = >>=-eq-ok (forward_address router reserve input) _ h5 in
    let ((p, q), ports, h7) =
      >>=-eq-ok (both_ports (port_of input.public_port) (port_of input.private_port)) _ h6 in
    let (parsed, parses, inside) =
      resolve-IsWithin cidr input.private_ipv4 input.target_vm get_vm target resolved in
    let (public_, private_) = both_ports-some _ _ p q ports in
    let (public_ok, public_whole) = port_of-IsPort input.public_port p public_ in
    let (private_ok, private_whole) = port_of-IsPort input.private_port q private_ in
    let same = sym (ok_injective h7) in
    (
      vpc,
      of_other-eq-ok view viewed,
      record {
        external = (
          router_name,
          gateway_router-some vpc router_name external,
          ap (λ k. k.spec.router_ref) same,
        );
        cidr = cidr;
        has_cidr = private_cidr-some vpc cidr has;
        parsed = parsed;
        parses = parses;
        target = target.private_ipv4;
        leads_to = ap (λ k. k.spec.private_address) same;
        inside = inside;
        public_port = p;
        public = (ap (λ k. k.spec.public_port) same, public_whole, public_ok);
        private_port = q;
        private = (ap (λ k. k.spec.private_port) same, private_whole, private_ok);
      },
    )
