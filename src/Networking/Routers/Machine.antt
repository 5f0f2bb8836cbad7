-- ===== src/Networking/Routers/Machine.antt =====
-- The life of a router resource: it is created by `createRouter` and replaced by the operations of
-- console/app/vpcs/routers.server.ts, while its controller reports on it.
use kmc.Common.{
  ◌+◌, ◌≤◌, ◌≡◌, refl, sym, ap, subst, Option, some, List, [], ◌∷◌, map, arith, length,
  length-append, Result, ok, Text, trim, Labels,
}
use kmc.Errors.{ErrorValue}
use kmc.Networking.Objects.{RouterCr, VpcCr, FloatingIpCr, IpAddressCr}
use kmc.Networking.Routers.{max_multus_attachments, spec_external}
use kmc.Networking.Routers.Attachments.{
  AttachRouterVpcRequest, DetachRouterVpcRequest, SetRouterExternalRequest, attach_router_vpc,
  detach_router_vpc, set_router_external_gateway, multus_count, attachment,
}
use kmc.Networking.Routers.Creation.{
  CreateRouterRequest, RecreateRouterVmRequest, recreate_router_vm, router_to_create, vpc_names_of,
  external_count,
}
use kmc.Networking.Routers.Names.{
  Distinct, Distinct-append, Distinct-other, length-other, unique-Distinct,
}
use kmc.Networking.Routers.Outcomes.{
  IsAdded, IsRemoved, IsOpened, IsRebuilt, IsCreated, attach-IsAdded, detach-IsRemoved,
  gateway-IsOpened, recreate-IsRebuilt, create-IsCreated,
}

-- `next` is the resource that an operation sends when the API's answer for the router is `router`.
pub data Step (router : RouterCr) : RouterCr → Type 0 where
  attached :
      (get_vpc : Text → Result ErrorValue VpcCr) (input : AttachRouterVpcRequest) (next : RouterCr)
      → attach_router_vpc get_vpc (ok router) input ≡ ok (some next)
      → Step router next
  detached :
      (list_addresses : Result ErrorValue (List IpAddressCr))
      (list_floating : Result ErrorValue (List FloatingIpCr)) (input : DetachRouterVpcRequest)
      (next : RouterCr)
      → detach_router_vpc (ok router) list_addresses list_floating input ≡ ok next
      → Step router next
  opened :
      (input : SetRouterExternalRequest) (next : RouterCr)
      → set_router_external_gateway (ok router) input ≡ ok next
      → Step router next
  rebuilt :
      (now : Text) (platform : Option Text) (input : RecreateRouterVmRequest) (next : RouterCr)
      → recreate_router_vm now platform (ok router) input ≡ ok next
      → Step router next
  reported : (next : RouterCr) → next.spec ≡ router.spec → Step router next

pub data Reachable : RouterCr → Type 0 where
  created :
      (namespace_labels : Result ErrorValue Labels) (get_vpc : Text → Result ErrorValue VpcCr)
      (platform : Option Text) (input : CreateRouterRequest) (router : RouterCr)
      → router_to_create namespace_labels get_vpc platform input ≡ ok router
      → Reachable router
  stepped : (router next : RouterCr) → Reachable router → Step router next → Reachable next

-- At least one network, no network twice, and no more than a machine can have beside the gateway.
pub record IsSound (router : RouterCr) : Type 0 where
  pub distinct : Distinct router.spec.vpcs
  pub some_vpc : 1 ≤ length router.spec.vpcs
  pub room : multus_count router ≤ max_multus_attachments

pub same_router : {r s : RouterCr} → ◌≡◌ {A = Result ErrorValue RouterCr} (ok r) (ok s) → s ≡ r
same_router h = cc

-- What `IsSound` reads of a resource.
IsSound-read :
    (r s : RouterCr)
    → s.spec.vpcs ≡ r.spec.vpcs
    → s.spec.external ≡ r.spec.external
    → IsSound r
    → IsSound s
unfolding multus_count spec_external
IsSound-read r s v e h = record {
  distinct = rw v h.distinct;
  some_vpc = rw v h.some_vpc;
  room = rw (v, e) h.room;
}

attached-IsSound : (name : Text) (r s : RouterCr) → IsAdded name r s → IsSound r → IsSound s
unfolding multus_count spec_external
attached-IsSound name r s h p = subst IsSound (sym h.added) (record {
  distinct = Distinct-append name r.spec.vpcs h.fresh p.distinct;
  some_vpc = omega (arith, length-append r.spec.vpcs (attachment name ∷ []));
  room = omega (arith, h.room, length-append r.spec.vpcs (attachment name ∷ []));
})

detached-IsSound : (name : Text) (r s : RouterCr) → IsRemoved name r s → IsSound r → IsSound s
unfolding multus_count spec_external
detached-IsSound name r s h p = subst IsSound (sym h.removed) (record {
  distinct = Distinct-other name r.spec.vpcs p.distinct;
  some_vpc = omega (arith, h.several, length-other name r.spec.vpcs p.distinct h.attached);
  room = omega (arith, p.room, length-other name r.spec.vpcs p.distinct h.attached);
})

multus_count-bound : (r : RouterCr) → multus_count r ≤ length r.spec.vpcs + 1
unfolding multus_count
multus_count-bound r = ground arith

multus_count-external :
    (r : RouterCr) → multus_count r ≤ length r.spec.vpcs + external_count r.spec.external
unfolding multus_count spec_external
multus_count-external r = ground arith

opened-IsSound : (network : Text) (r s : RouterCr) → IsOpened network r s → IsSound r → IsSound s
opened-IsSound network r s h p = record {
  distinct = rw h.same_vpcs p.distinct;
  some_vpc = rw h.same_vpcs p.some_vpc;
  room = omega (arith, multus_count-bound s, ap length h.same_vpcs, h.room);
}

length-map : (names : List Text) → length (map attachment names) ≡ length names
length-map [] = refl
length-map (n ∷ ns) = omega (arith, length-map ns)

created-IsSound : (input : CreateRouterRequest) (s : RouterCr) → IsCreated input s → IsSound s
unfolding vpc_names_of
created-IsSound input s h = record {
  distinct = rw h.vpcs (unique-Distinct [] _);
  some_vpc = omega (arith, h.some_vpc, ap length h.vpcs, length-map (vpc_names_of input));
  room = omega (
    arith,
    h.room,
    ap length h.vpcs,
    length-map (vpc_names_of input),
    multus_count-external s,
    ap external_count h.external,
  );
}

-- What a step does to the resource.
pub data Effect (r s : RouterCr) : Type 0 where
  adds : (name : Text) → IsAdded name r s → Effect r s
  removes : (name : Text) → IsRemoved name r s → Effect r s
  opens : (network : Text) → IsOpened network r s → Effect r s
  keeps : IsRebuilt r s → Effect r s

unfoldable pub effect_of : (r s : RouterCr) → Step r s → Effect r s
effect_of r s (attached get_vpc input _ h) =
    let (r', e, q) = attach-IsAdded get_vpc (ok r) input s h in
    adds (trim input.vpc_name) (subst (λ k. IsAdded (trim input.vpc_name) k s) (same_router e) q)
effect_of r s (detached addresses floating input _ h) =
    let (r', e, q) = detach-IsRemoved (ok r) addresses floating input s h in
    removes (trim input.vpc_name)
      (subst (λ k. IsRemoved (trim input.vpc_name) k s) (same_router e) q)
effect_of r s (opened input _ h) =
    let (r', e, q) = gateway-IsOpened (ok r) input s h in
    opens (trim input.public_multus_network)
      (subst (λ k. IsOpened (trim input.public_multus_network) k s) (same_router e) q)
effect_of r s (rebuilt now platform input _ h) =
    let (r', e, q) = recreate-IsRebuilt now platform (ok r) input s h in
    keeps (subst (λ k. IsRebuilt k s) (same_router e) q)
effect_of r s (reported _ e) =
    keeps (record { same_vpcs = ap (λ k. k.vpcs) e; same_external = ap (λ k. k.external) e })

pub effect-IsSound : (r s : RouterCr) → Effect r s → IsSound r → IsSound s
effect-IsSound r s (adds name h) p = attached-IsSound name r s h p
effect-IsSound r s (removes name h) p = detached-IsSound name r s h p
effect-IsSound r s (opens network h) p = opened-IsSound network r s h p
effect-IsSound r s (keeps h) p = IsSound-read r s h.same_vpcs h.same_external p

-- A router that the operations of the console create and change, in any order and number, while
-- its controller leaves its specification alone, has at least one network, no network twice, and
-- no more than eight networks and gateway together.
pub Reachable-IsSound : (router : RouterCr) → Reachable router → IsSound router
Reachable-IsSound router (created labels get_vpc platform input _ h) =
    created-IsSound input router (create-IsCreated labels get_vpc platform input router h)
Reachable-IsSound next (stepped router _ before step) =
    effect-IsSound router next (effect_of router next step) (Reachable-IsSound router before)
