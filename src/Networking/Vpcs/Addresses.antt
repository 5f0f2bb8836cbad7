-- ===== src/Networking/Vpcs/Addresses.antt =====
-- The addresses of the VPC resources that `createVpc` and `updateVpc` of
-- console/app/vpcs/vpcs.server.ts send.
use kmc.Common.{
  ℕ, ◌≤◌, ◌≡◌, refl, sym, ap, subst, ◌∙◌, true, inl, inr, Option, none, some, Option-cases, List,
  [], ◌∷◌, All, keep, Bool-cases, arith, Result, ok, err, ◌>>=◌, ◌>>◌, guard-ok, guard-eq-ok,
  >>=-eq-ok, ok_injective, Text, codes, truthy, trim, trimmed, trim_all, Labels,
}
use kmc.Errors.{ErrorValue}
use kmc.Ipam.Cidr.{CidrError, ParsedCidr, parse_cidr, parse_ipv4, contains_ipv4}
use kmc.Ipam.VlanPools.{VlanPoolConfig, get_vlan_pool, cluster_has_vlan_pools}
use kmc.Networking.Objects.{VpcCr, VpcSpec}
use kmc.Networking.Routers.Creation.{assert_vm_namespace_allowed, check_name}
use kmc.Networking.Vpcs.{
  of_cidr, of_other, VpcIpamFields, check_gateway, check_dns, validate_vpc_ipam_fields,
  CreateVpcRequest, UpdateVpcRequest, validate_create_vpc_input, ipam_spec, vpc_body, vpc_to_create,
  vpc_to_replace, updated_vpc, existing_vpc, some_pool, fail_with, check_server, no_pools,
}

-- The text is an address between the first and the last of the block.
pub record IsWithin (parsed : ParsedCidr) (address : Text) : Type 0 where
  pub number : ℕ
  pub parses : parse_ipv4 address ≡ ok number
  pub above : parsed.first ≤ number
  pub below : number ≤ parsed.last

-- A block of addresses with its gateway inside, or neither.
pub data Addressed : Option Text → Option Text → Type 0 where
  disabled : Addressed none none
  without_gateway :
      (cidr : Text) (parsed : ParsedCidr) → parse_cidr cidr ≡ ok parsed → Addressed (some cidr) none
  with_gateway :
      (cidr gateway : Text) (parsed : ParsedCidr)
      → parse_cidr cidr ≡ ok parsed
      → IsWithin parsed gateway
      → Addressed (some cidr) (some gateway)

abbrev pub IsAddress : Text → Type 0
IsAddress t = (n : ℕ) × (parse_ipv4 t ≡ ok n)

pub record IsSound (spec : VpcSpec) : Type 0 where
  pub addressed : Addressed spec.cidr spec.gateway
  pub servers : All IsAddress spec.dns

pub of_cidr-eq-ok : {A : Type 0} (r : Result CidrError A) {a : A} → of_cidr r ≡ ok a → r ≡ ok a
unfolding of_cidr
of_cidr-eq-ok (ok x) h = cc
of_cidr-eq-ok (err e) h = cc

pub contains_ipv4-IsWithin :
    (parsed : ParsedCidr) (gateway : Text)
    → contains_ipv4 parsed gateway ≡ ok true
    → IsWithin parsed gateway
unfolding contains_ipv4
contains_ipv4-IsWithin parsed gateway h =
    let (n, parses, inside) = >>=-eq-ok (parse_ipv4 gateway) _ h in
    record {
      number = n;
      parses = parses;
      above = ground (arith, ok_injective inside);
      below = ground (arith, ok_injective inside);
    }

check_gateway-IsWithin :
    (parsed : ParsedCidr) (gateway : Text)
    → check_gateway parsed (some gateway) ≡ ok tt
    → IsWithin parsed gateway
unfolding check_gateway
check_gateway-IsWithin parsed gateway h =
    let (n, _, h1) = >>=-eq-ok (of_cidr (parse_ipv4 gateway)) _ h in
    let (inside, contained, h2) = >>=-eq-ok (of_cidr (contains_ipv4 parsed gateway)) _ h1 in
    contains_ipv4-IsWithin parsed gateway
      (of_cidr-eq-ok (contains_ipv4 parsed gateway) contained ∙ ap ok (guard-ok inside _ h2))

check_server-IsAddress : (t : Text) → truthy t ≡ true → check_server t ≡ ok tt → IsAddress t
unfolding check_server
check_server-IsAddress [] given h = cc
check_server-IsAddress (c ∷ s) given h =
    let (n, parses, _) = >>=-eq-ok (of_cidr (parse_ipv4 (c ∷ s))) _ h in
    (n, of_cidr-eq-ok (parse_ipv4 (c ∷ s)) parses)

check_dns-All : (ds : List Text) → check_dns ds ≡ ok tt → All IsAddress (trim_all ds)
unfolding check_dns trim_all keep
check_dns-All [] h = tt
check_dns-All (d ∷ ds) h =
    let (_, here, rest) = >>=-eq-ok (check_server (trim d)) _ h in
    elim (Bool-cases (truthy (trim d))) [
      | inl given ↦ rw given (check_server-IsAddress (trim d) given here, check_dns-All ds rest)
      | inr empty ↦ rw empty (check_dns-All ds rest)
    ]

module _ (pool description : Option Text) (input : VpcIpamFields) where
  ipam_spec-none :
      trimmed input.cidr ≡ none
      → ipam_spec pool description input ≡ record {
        vlan_pool_ref = pool;
        cidr = none;
        gateway = none;
        dns = [];
        description = trimmed description;
      }
  unfolding ipam_spec
  ipam_spec-none h = rw (h, ipam_spec) refl

  ipam_spec-some :
      (cidr : Text)
      → trimmed input.cidr ≡ some cidr
      → ipam_spec pool description input ≡ record {
        vlan_pool_ref = pool;
        cidr = some cidr;
        gateway = trimmed input.gateway;
        dns = trim_all input.dns;
        description = trimmed description;
      }
  unfolding ipam_spec
  ipam_spec-some cidr h = rw (h, ipam_spec) refl

  validate-some :
      (cidr : Text)
      → trimmed input.cidr ≡ some cidr
      → validate_vpc_ipam_fields input ≡ (
          of_cidr (parse_cidr cidr) >>= λ parsed.
          check_gateway parsed (trimmed input.gateway) >> check_dns input.dns)
  unfolding validate_vpc_ipam_fields
  validate-some cidr h = rw (h, validate_vpc_ipam_fields) refl

  gateway-Addressed :
      (cidr : Text) (parsed : ParsedCidr) (gateway : Option Text)
      → parse_cidr cidr ≡ ok parsed
      → check_gateway parsed gateway ≡ ok tt
      → Addressed (some cidr) gateway
  gateway-Addressed cidr parsed none p h = without_gateway cidr parsed p
  gateway-Addressed cidr parsed (some gateway) p h =
      with_gateway cidr gateway parsed p (check_gateway-IsWithin parsed gateway h)

  validate-IsSound :
      validate_vpc_ipam_fields input ≡ ok tt → IsSound (ipam_spec pool description input)
  validate-IsSound h = elim (Option-cases (trimmed input.cidr)) [
    | inl e ↦ subst IsSound (sym (ipam_spec-none e)) (record { addressed = disabled; servers = tt })
    | inr (cidr, e) ↦
        let (parsed, parses, h1) =
          >>=-eq-ok (of_cidr (parse_cidr cidr)) _ (sym (validate-some cidr e) ∙ h) in
        let (_, gateway, dns) = >>=-eq-ok (check_gateway parsed (trimmed input.gateway)) _ h1 in
        subst IsSound (sym (ipam_spec-some cidr e)) (record {
          addressed =
              gateway-Addressed cidr parsed (trimmed input.gateway)
                (of_cidr-eq-ok (parse_cidr cidr) parses) gateway;
          servers = check_dns-All input.dns dns;
        })
  ]

-- A resource that the console sends.
pub data Written : VpcCr → Type 0 where
  created :
      (namespace_labels : Result ErrorValue Labels) (pools : List VlanPoolConfig)
      (owner : Option Text) (input : CreateVpcRequest) (cr : VpcCr)
      → vpc_to_create namespace_labels pools owner input ≡ ok cr
      → Written cr
  replaced :
      (get : Result ErrorValue VpcCr) (input : UpdateVpcRequest) (cr : VpcCr)
      → vpc_to_replace get input ≡ ok cr
      → Written cr

create-IsSound :
    (namespace_labels : Result ErrorValue Labels) (pools : List VlanPoolConfig)
    (owner : Option Text) (input : CreateVpcRequest) (cr : VpcCr)
    → vpc_to_create namespace_labels pools owner input ≡ ok cr
    → IsSound cr.spec
unfolding vpc_to_create vpc_body validate_create_vpc_input
create-IsSound namespace_labels pools owner input cr h =
    let (_, checked, h1) = >>=-eq-ok (validate_create_vpc_input input) _ h in
    let (_, _, h2) =
      >>=-eq-ok (of_other (assert_vm_namespace_allowed input.namespace namespace_labels)) _ h1 in
    let (_, h3) = guard-eq-ok (cluster_has_vlan_pools pools) (no_pools input.cluster) _ h2 in
    let (pool, _, h4) =
      >>=-eq-ok
        (some_pool input.cluster input.vlan_pool_id (get_vlan_pool pools input.vlan_pool_id)) _
        h3 in
    let (_, c1) =
      guard-eq-ok (truthy (trim input.cluster)) (fail_with (codes "cluster is required")) _
        checked in
    let (_, c2) =
      guard-eq-ok (truthy (trim input.namespace)) (fail_with (codes "namespace is required")) _
        c1 in
    let (_, _, c3) = >>=-eq-ok (of_other (check_name input.name)) _ c2 in
    subst IsSound (ap (λ k. k.spec) (ok_injective h4))
      (validate-IsSound (some pool.id) input.description input.ipam c3)

replace-IsSound :
    (get : Result ErrorValue VpcCr) (input : UpdateVpcRequest) (cr : VpcCr)
    → vpc_to_replace get input ≡ ok cr
    → IsSound cr.spec
unfolding vpc_to_replace updated_vpc
replace-IsSound get input cr h =
    let (_, h1) =
      guard-eq-ok (truthy (trim input.cluster)) (fail_with (codes "cluster is required")) _ h in
    let (_, h2) =
      guard-eq-ok (truthy (trim input.namespace)) (fail_with (codes "namespace is required")) _
        h1 in
    let (_, h3) =
      guard-eq-ok (truthy (trim input.name)) (fail_with (codes "name is required")) _ h2 in
    let (_, checked, h4) = >>=-eq-ok (validate_vpc_ipam_fields input.ipam) _ h3 in
    let (existing, _, h5) = >>=-eq-ok (existing_vpc input.namespace input.name get) _ h4 in
    subst IsSound (ap (λ k. k.spec) (ok_injective h5))
      (validate-IsSound _ input.description input.ipam checked)

-- Every VPC resource that the console creates or replaces has a block of addresses that parses, or
-- neither a block nor a gateway; its gateway, if any, is an address of the block, and its servers
-- are addresses.
pub Written-IsSound : (cr : VpcCr) → Written cr → IsSound cr.spec
Written-IsSound cr (created labels pools owner input _ h) =
    create-IsSound labels pools owner input cr h
Written-IsSound cr (replaced get input _ h) = replace-IsSound get input cr h
