-- ===== src/Networking/Routers/Outcomes.antt =====
-- What is known when an operation on a router sends a resource, for attachRouterVpc,
-- detachRouterVpc, setRouterExternalGateway, recreateRouterVm and createRouter.
use kmc.Common.{
  ◌+◌, ◌≤◌, ◌≡◌, refl, sym, ap, true, false, Bool-cases, inl, inr, Option, none, some, List, [],
  ◌∷◌, ◌++◌, length, leb→le, Result, ok, err, guard-eq-ok, >>=-eq-ok, ok_injective, guard, ◌>>◌,
  leb, Text, trim, codes, truthy, Labels, map, if◌then◌else◌, ◌∙◌,
}
use kmc.Common.Trimming.{trim_twice}
use kmc.Errors.{ErrorValue, plain_error}
use kmc.Networking.Objects.{RouterCr, VpcCr, FloatingIpCr, IpAddressCr}
use kmc.Networking.Routers.{max_multus_attachments, appliance_ssh_public_keys}
use kmc.Networking.Routers.Attachments.{
  AttachRouterVpcRequest, DetachRouterVpcRequest, SetRouterExternalRequest, attach_router_vpc,
  detach_router_vpc, set_router_external_gateway, load_router, is_attached, multus_count, add_vpc,
  with_vpcs, other_vpcs, attachment, check_cidrs, too_many, read_vpc, required_cidr, not_elsewhere,
  check_unused,
}
use kmc.Networking.Routers.Creation.{
  CreateRouterRequest, RecreateRouterVmRequest, recreate_router_vm, recreated, check_appliance,
  router_to_create, router_body, check_name, check_vpcs, vpc_names_of, external_spec,
  external_count, assert_vm_namespace_allowed,
}

pub none-some : {E A : Type 0} {a : A} → ◌≡◌ {A = Result E (Option A)} (ok none) (ok (some a)) → ⊥
none-some h = cc

some_same :
    {E A : Type 0} {a b : A} → ◌≡◌ {A = Result E (Option A)} (ok (some a)) (ok (some b)) → a ≡ b
some_same h = cc

pub load_router-eq-ok :
    (namespace name : Text) (reply : Result ErrorValue RouterCr) (router : RouterCr)
    → load_router namespace name reply ≡ ok router
    → reply ≡ ok router
unfolding load_router
load_router-eq-ok namespace name (ok r) router h = h
load_router-eq-ok namespace name (err e) router h = cc

-- `router` has room for the network `name`, and `next` is `router` with it.
pub record IsAdded (name : Text) (router next : RouterCr) : Type 0 where
  pub fresh : is_attached name router.spec.vpcs ≡ false
  pub room : multus_count router + 1 ≤ max_multus_attachments
  pub added : next ≡ with_vpcs (router.spec.vpcs ++ attachment name ∷ []) router

abbrev added : Text → RouterCr → RouterCr
added name router = with_vpcs (router.spec.vpcs ++ attachment name ∷ []) router

module _ (namespace : Text) (get_vpc : Text → Result ErrorValue VpcCr) (name cidr : Text)
    (router : RouterCr) where
  pub add_known :
      is_attached name router.spec.vpcs ≡ true
      → add_vpc namespace get_vpc name cidr router ≡ ok none
  unfolding add_vpc
  add_known h = rw h refl

  pub add_fresh :
      is_attached name router.spec.vpcs ≡ false
      → add_vpc namespace get_vpc name cidr router ≡ (
          guard
            (leb (multus_count router + 1) max_multus_attachments)
            (too_many (codes "Cannot attach VPC"))
          >> (check_cidrs namespace get_vpc cidr router.spec.vpcs >> ok (some (added name router))))
  unfolding add_vpc
  add_fresh h = rw h refl

  add_vpc-IsAdded :
      (next : RouterCr)
      → add_vpc namespace get_vpc name cidr router ≡ ok (some next)
      → IsAdded name router next
  add_vpc-IsAdded next h = elim (Bool-cases (is_attached name router.spec.vpcs)) [
    | inl known ↦ absurd (none-some (sym (add_known known) ∙ h))
    | inr fresh ↦
        let (room, h1) = guard-eq-ok _ _ _ (sym (add_fresh fresh) ∙ h) in
        let (_, _, h2) = >>=-eq-ok (check_cidrs namespace get_vpc cidr router.spec.vpcs) _ h1 in
        record { fresh = fresh; room = leb→le _ _ room; added = sym (some_same h2) }
  ]

-- What an attachment that is sent has found and sends.
pub attach-IsAdded :
    (get_vpc : Text → Result ErrorValue VpcCr) (get_router : Result ErrorValue RouterCr)
    (input : AttachRouterVpcRequest) (next : RouterCr)
    → attach_router_vpc get_vpc get_router input ≡ ok (some next)
    → (router : RouterCr) × (get_router ≡ ok router) × IsAdded (trim input.vpc_name) router next
unfolding attach_router_vpc
attach-IsAdded get_vpc get_router input next h =
    let (_, h1) = guard-eq-ok _ _ _ h in
    let (vpc, _, h2) = >>=-eq-ok (read_vpc input.namespace get_vpc (trim input.vpc_name)) _ h1 in
    let (cidr, _, h3) = >>=-eq-ok (required_cidr (trim input.vpc_name) vpc) _ h2 in
    let (_, _, h4) = >>=-eq-ok (not_elsewhere input.router_name (trim input.vpc_name) vpc) _ h3 in
    let (router, got, h5) =
      >>=-eq-ok (load_router input.namespace input.router_name get_router) _ h4 in
    (
      router,
      load_router-eq-ok _ _ get_router router got,
      add_vpc-IsAdded input.namespace get_vpc _ cidr router next h5,
    )

-- `router` has the network `name` and another, and `next` is `router` without it.
pub record IsRemoved (name : Text) (router next : RouterCr) : Type 0 where
  pub attached : is_attached name router.spec.vpcs ≡ true
  pub several : 2 ≤ length router.spec.vpcs
  pub removed : next ≡ with_vpcs (other_vpcs name router.spec.vpcs) router

pub detach-IsRemoved :
    (get_router : Result ErrorValue RouterCr)
    (list_addresses : Result ErrorValue (List IpAddressCr))
    (list_floating : Result ErrorValue (List FloatingIpCr)) (input : DetachRouterVpcRequest)
    (next : RouterCr)
    → detach_router_vpc get_router list_addresses list_floating input ≡ ok next
    → (router : RouterCr) × (get_router ≡ ok router) × IsRemoved (trim input.vpc_name) router next
unfolding detach_router_vpc
detach-IsRemoved get_router list_addresses list_floating input next h =
    let (_, h1) = guard-eq-ok _ _ _ h in
    let (router, got, h2) =
      >>=-eq-ok (load_router input.namespace input.router_name get_router) _ h1 in
    let (attached, h3) = guard-eq-ok _ _ _ h2 in
    let (several, h4) = guard-eq-ok _ _ _ h3 in
    let (_, _, h5) =
      >>=-eq-ok
        (if input.force
          then ok tt
          else check_unused (trim input.vpc_name) list_addresses list_floating)
        _ h4 in
    (
      router,
      load_router-eq-ok _ _ get_router router got,
      record { attached = attached; several = leb→le _ _ several; removed = sym (ok_injective h5) },
    )

-- `router` has room for a gateway, and `next` is `router` with the gateway `network`.
pub record IsOpened (network : Text) (router next : RouterCr) : Type 0 where
  pub room : length router.spec.vpcs + 1 ≤ max_multus_attachments
  pub same_vpcs : next.spec.vpcs ≡ router.spec.vpcs
  pub opened :
      next.spec.external
      ≡ some (record { multus_network = network; address = none; snat = some true })
  pub named : truthy network ≡ true
  pub trimmed_name : trim network ≡ network

pub gateway-IsOpened :
    (get_router : Result ErrorValue RouterCr) (input : SetRouterExternalRequest) (next : RouterCr)
    → set_router_external_gateway get_router input ≡ ok next
    → (router : RouterCr) × (get_router ≡ ok router)
      × IsOpened (trim input.public_multus_network) router next
unfolding set_router_external_gateway
gateway-IsOpened get_router input next h =
    let (named, h1) = guard-eq-ok _ _ _ h in
    let (router, got, h2) =
      >>=-eq-ok (load_router input.namespace input.router_name get_router) _ h1 in
    let (room, h3) = guard-eq-ok _ _ _ h2 in
    (
      router,
      load_router-eq-ok _ _ get_router router got,
      record {
        room = leb→le _ _ room;
        same_vpcs = ap (λ r. r.spec.vpcs) (sym (ok_injective h3));
        opened = ap (λ r. r.spec.external) (sym (ok_injective h3));
        named = named;
        trimmed_name = trim_twice input.public_multus_network;
      },
    )

-- `next` has the networks and the gateway of `router`.
pub record IsRebuilt (router next : RouterCr) : Type 0 where
  pub same_vpcs : next.spec.vpcs ≡ router.spec.vpcs
  pub same_external : next.spec.external ≡ router.spec.external

pub recreate-IsRebuilt :
    (now : Text) (platform : Option Text) (get_router : Result ErrorValue RouterCr)
    (input : RecreateRouterVmRequest) (next : RouterCr)
    → recreate_router_vm now platform get_router input ≡ ok next
    → (router : RouterCr) × (get_router ≡ ok router) × IsRebuilt router next
unfolding recreate_router_vm recreated
recreate-IsRebuilt now platform get_router input next h =
    let (_, _, h1) = >>=-eq-ok (check_appliance input.appliance) _ h in
    let (router, got, h2) =
      >>=-eq-ok (load_router (trim input.namespace) (trim input.router_name) get_router) _ h1 in
    let (_, _, h3) =
      >>=-eq-ok (appliance_ssh_public_keys input.appliance.ssh_public_key platform) _ h2 in
    (
      router,
      load_router-eq-ok _ _ get_router router got,
      record {
        same_vpcs = ap (λ r. r.spec.vpcs) (sym (ok_injective h3));
        same_external = ap (λ r. r.spec.external) (sym (ok_injective h3));
      },
    )

-- The networks of a created router: at least one, and no more than fit beside the gateway.
pub record IsCreated (input : CreateRouterRequest) (next : RouterCr) : Type 0 where
  pub some_vpc : 1 ≤ length (vpc_names_of input)
  pub room :
      length (vpc_names_of input) + external_count (external_spec input.external_multus_network)
      ≤ max_multus_attachments
  pub vpcs : next.spec.vpcs ≡ map attachment (vpc_names_of input)
  pub external : next.spec.external ≡ external_spec input.external_multus_network

pub create-IsCreated :
    (namespace_labels : Result ErrorValue Labels) (get_vpc : Text → Result ErrorValue VpcCr)
    (platform : Option Text) (input : CreateRouterRequest) (next : RouterCr)
    → router_to_create namespace_labels get_vpc platform input ≡ ok next
    → IsCreated input next
unfolding router_to_create router_body
create-IsCreated namespace_labels get_vpc platform input next h =
    let (_, h1) =
      guard-eq-ok (truthy (trim input.cluster)) (plain_error (codes "cluster is required")) _ h in
    let (_, h2) =
      guard-eq-ok (truthy (trim input.namespace)) (plain_error (codes "namespace is required")) _
        h1 in
    let (_, _, h3) = >>=-eq-ok (check_name input.name) _ h2 in
    let (_, _, h4) = >>=-eq-ok (check_appliance input.appliance) _ h3 in
    let (some_vpc, h5) = guard-eq-ok _ _ _ h4 in
    let (room, h6) = guard-eq-ok _ _ _ h5 in
    let (_, _, h7) =
      >>=-eq-ok (assert_vm_namespace_allowed input.namespace namespace_labels) _ h6 in
    let (_, _, h8) = >>=-eq-ok (check_vpcs input.namespace get_vpc (vpc_names_of input)) _ h7 in
    let (keys, _, h9) =
      >>=-eq-ok (appliance_ssh_public_keys input.appliance.ssh_public_key platform) _ h8 in
    record {
      some_vpc = leb→le _ _ some_vpc;
      room = leb→le _ _ room;
      vpcs = ap (λ r. r.spec.vpcs) (sym (ok_injective h9));
      external = ap (λ r. r.spec.external) (sym (ok_injective h9));
    }
