-- ===== src/Networking/FloatingIps/Targets.antt =====
-- The private addresses that floating addresses lead to, in console/app/vpcs/vpcs.server.ts.
use kmc.Common.{
  ◌≡◌, refl, sym, ap, subst, ◌∙◌, Bool, true, false, inl, inr, Option, none, some, Option-cases,
  List, [], ◌∷◌, Result, ok, err, ◌>>=◌, or_else, guard-eq-ok, if-eq-some, >>=-eq-ok, ok_injective,
  Text, codes, ◌++◌, trimmed, text_eq_sound,
}
use kmc.Errors.{ErrorValue}
use kmc.Ipam.Cidr.{ParsedCidr, parse_cidr, parse_ipv4, contains_ipv4}
use kmc.Ipam.Config.{IpPoolConfig}
use kmc.Networking.Objects.{RouterCr, FloatingIpCr}
use kmc.Networking.Vpcs.{of_cidr, of_other, fail_with}
use kmc.Networking.Vpcs.Addresses.{IsWithin, contains_ipv4-IsWithin, of_cidr-eq-ok}
use kmc.Networking.Vpcs.Members.{KubeVm}
use kmc.Networking.FloatingIps.{
  VpcView, PrivateTarget, FloatingIpRequest, FloatingIpWrite, create, replace, private_cidr,
  is_named, some_cidr, external_router, gateway_router, some_router, load_router, candidate,
  some_address, resolve_private_on_vpc, resolve_public_pool_for_router, preferred_floating,
  held_for, find_floating_ip_by_public, association_write, associate_floating_ip, floating_ip_body,
  patch_floating_private,
}

pub of_other-eq-ok : {A : Type 0} (r : Result ErrorValue A) {a : A} → of_other r ≡ ok a → r ≡ ok a
unfolding of_other
of_other-eq-ok (ok x) h = cc
of_other-eq-ok (err e) h = cc

some_cidr-some : (o : Option Text) (cidr : Text) → some_cidr o ≡ ok cidr → o ≡ some cidr
some_cidr-some (some c) cidr h = ap some (ok_injective h)
some_cidr-some none cidr h = cc

external_router-some :
    (o : Option (Text × Bool)) (name : Text) → external_router o ≡ ok name → o ≡ some (name, true)
external_router-some none name h = cc
external_router-some (some (n, false)) name h = cc
external_router-some (some ([], true)) name h = cc
external_router-some (some (c ∷ n, true)) name h = ap (λ t. some (t, true)) (ok_injective h)

pub private_cidr-some :
    (view : VpcView) (cidr : Text) → private_cidr view ≡ ok cidr → view.cidr ≡ some cidr
unfolding private_cidr
private_cidr-some view cidr h = some_cidr-some view.cidr cidr h

pub gateway_router-some :
    (view : VpcView) (name : Text) → gateway_router view ≡ ok name → view.router ≡ some (name, true)
unfolding gateway_router
gateway_router-some view name h = external_router-some view.router name h

pub resolve-IsWithin :
    (vpc_cidr : Text) (private_ipv4 target_vm : Option Text)
    (get_vm : Text → Result ErrorValue KubeVm) (target : PrivateTarget)
    → resolve_private_on_vpc vpc_cidr private_ipv4 target_vm get_vm ≡ ok target
    → (parsed : ParsedCidr) × (parse_cidr vpc_cidr ≡ ok parsed)
      × IsWithin parsed target.private_ipv4
unfolding resolve_private_on_vpc
resolve-IsWithin vpc_cidr private_ipv4 target_vm get_vm target h =
    let (found, _, h1) =
      >>=-eq-ok (candidate vpc_cidr (trimmed private_ipv4) (trimmed target_vm) get_vm) _ h in
    let (address, _, h2) = >>=-eq-ok (some_address found) _ h1 in
    let (number, _, h3) = >>=-eq-ok (of_cidr (parse_ipv4 address)) _ h2 in
    let (parsed, parses, h4) = >>=-eq-ok (of_cidr (parse_cidr vpc_cidr)) _ h3 in
    let (inside, contained, h5) = >>=-eq-ok (of_cidr (contains_ipv4 parsed address)) _ h4 in
    let (yes_inside, h6) =
      guard-eq-ok inside
        (fail_with (codes "private address " ++ (address ++ (codes " is outside " ++ vpc_cidr)))) _
        h5 in
    (
      parsed,
      of_cidr-eq-ok (parse_cidr vpc_cidr) parses,
      subst (IsWithin parsed) (ap (λ t. t.private_ipv4) (ok_injective h6)) (
          contains_ipv4-IsWithin parsed address
            (of_cidr-eq-ok (contains_ipv4 parsed address) contained ∙ ap ok yes_inside)),
    )

-- The resource of a write.
abbrev pub resource : FloatingIpWrite → FloatingIpCr
resource (create f) = f
resource (replace name f) = f

-- The write of an association of the VPC that `view` shows.
pub record IsAssociation (vpc_name : Text) (view : VpcView) (write : FloatingIpWrite) : Type 0 where
  pub router_name : Text
  pub external : view.router ≡ some (router_name, true)
  pub cidr : Text
  pub has_cidr : view.cidr ≡ some cidr
  pub parsed : ParsedCidr
  pub parses : parse_cidr cidr ≡ ok parsed
  pub target : Text
  pub leads_to : (resource write).spec.private_address ≡ some target
  pub inside : IsWithin parsed target
  pub same_vpc : (resource write).spec.vpc_ref ≡ some vpc_name

is_named-same : (t : Text) (o : Option Text) → is_named t o ≡ true → o ≡ some t
unfolding is_named
is_named-same t none h = cc
is_named-same t (some s) h = ap some (text_eq_sound s t h)

-- A found resource is of that VPC.
held_for-same :
    (vpc_name : Text) (found : Option FloatingIpCr) (f : FloatingIpCr)
    → held_for vpc_name found ≡ some f
    → f.spec.vpc_ref ≡ some vpc_name
unfolding held_for
held_for-same vpc_name none f h = cc
held_for-same vpc_name (some g) f h =
    let (named, same) = if-eq-some (is_named vpc_name g.spec.vpc_ref) g f h in
    subst (λ k. k.spec.vpc_ref ≡ some vpc_name) same (is_named-same vpc_name g.spec.vpc_ref named)

ok_none-some : {E A : Type 0} {a : A} → ◌≡◌ {A = Result E (Option A)} (ok none) (ok (some a)) → ⊥
ok_none-some h = cc

module _ (input : FloatingIpRequest) (listing : Result ErrorValue (List FloatingIpCr)) where
  preferred-none : trimmed input.public_ipv4 ≡ none → preferred_floating input listing ≡ ok none
  unfolding preferred_floating
  preferred-none h = rw (h, preferred_floating) refl

  preferred-some :
      (address : Text)
      → trimmed input.public_ipv4 ≡ some address
      → preferred_floating input listing ≡ (
          find_floating_ip_by_public address listing >>= λ found.
          ok (held_for input.vpc_name found))
  unfolding preferred_floating
  preferred-some address h = rw (h, preferred_floating) refl

preferred_floating-same :
    (input : FloatingIpRequest) (listing : Result ErrorValue (List FloatingIpCr)) (f : FloatingIpCr)
    → preferred_floating input listing ≡ ok (some f)
    → f.spec.vpc_ref ≡ some input.vpc_name
preferred_floating-same input listing f h = elim (Option-cases (trimmed input.public_ipv4)) [
  | inl e ↦ absurd (ok_none-some (sym (preferred-none input listing e) ∙ h))
  | inr (address, e) ↦
      let (found, _, h1) =
        >>=-eq-ok (find_floating_ip_by_public address listing) _
          (sym (preferred-some input listing address e) ∙ h) in
      held_for-same input.vpc_name found f (ok_injective h1)
]

association_write-fields :
    (input : FloatingIpRequest) (router_name pool_id : Text) (target : PrivateTarget)
    (found : Option FloatingIpCr)
    → ((f : FloatingIpCr) → found ≡ some f → f.spec.vpc_ref ≡ some input.vpc_name)
    → ((resource (association_write input router_name pool_id target found)).spec.private_address
        ≡ some target.private_ipv4)
      × ((resource (association_write input router_name pool_id target found)).spec.vpc_ref
          ≡ some input.vpc_name)
unfolding association_write floating_ip_body patch_floating_private
association_write-fields input router_name pool_id target none same = (refl, refl)
association_write-fields input router_name pool_id target (some f) same =
    (refl, ap (λ v. some (or_else v [])) (same f refl))

-- An association that is sent is for a VPC with a block and an external router, leads to an
-- address of that block, and is of a floating address of that VPC, a new one or one it holds.
pub associate_floating_ip-IsAssociation :
    (view : Result ErrorValue VpcView) (get_router : Text → Result ErrorValue RouterCr)
    (pools : List IpPoolConfig) (get_vm : Text → Result ErrorValue KubeVm)
    (listing : Result ErrorValue (List FloatingIpCr)) (input : FloatingIpRequest)
    (write : FloatingIpWrite)
    → associate_floating_ip view get_router pools get_vm listing input ≡ ok write
    → (vpc : VpcView) × (view ≡ ok vpc) × IsAssociation input.vpc_name vpc write
unfolding associate_floating_ip
associate_floating_ip-IsAssociation view get_router pools get_vm listing input write h =
    let (vpc, viewed, h1) = >>=-eq-ok (of_other view) _ h in
    let (cidr, has, h2) = >>=-eq-ok (private_cidr vpc) _ h1 in
    let (router_name, external, h3) = >>=-eq-ok (gateway_router vpc) _ h2 in
    let (router, _, h4) =
      >>=-eq-ok (some_router router_name (load_router (get_router router_name))) _ h3 in
    let (pool, _, h5) = >>=-eq-ok (resolve_public_pool_for_router pools router) _ h4 in
    let (target, resolved, h6) =
      >>=-eq-ok (resolve_private_on_vpc cidr input.private_ipv4 input.target_vm get_vm) _ h5 in
    let (found, preferred, h7) = >>=-eq-ok (of_other (preferred_floating input listing)) _ h6 in
    let (parsed, parses, inside) =
      resolve-IsWithin cidr input.private_ipv4 input.target_vm get_vm target resolved in
    let (leads_to, same_vpc) =
      association_write-fields input router_name pool.id target found (λ f e.
        preferred_floating-same input listing f
          (of_other-eq-ok (preferred_floating input listing) preferred ∙ ap ok e)) in
    (
      vpc,
      of_other-eq-ok view viewed,
      record {
        router_name = router_name;
        external = gateway_router-some vpc router_name external;
        cidr = cidr;
        has_cidr = private_cidr-some vpc cidr has;
        parsed = parsed;
        parses = parses;
        target = target.private_ipv4;
        leads_to =
            subst (λ w. (resource w).spec.private_address ≡ some target.private_ipv4)
              (ok_injective h7) leads_to;
        inside = inside;
        same_vpc =
            subst (λ w. (resource w).spec.vpc_ref ≡ some input.vpc_name) (ok_injective h7) same_vpc;
      },
    )
