-- ===== src/Networking/Routers/Detachment.antt =====
-- When `detachRouterVpc` of console/app/vpcs/routers.server.ts detaches a network that is not
-- forced off.
use kmc.Common.{
  ◌≡◌, refl, subst, Bool, true, false, some, truthy, codes, text_eq, text_eq_refl, trimmed,
  nonempty, Bool-cases, inl, inr, List, [], ◌∷◌, All, arith, keep, length, ltb, leb, guard-ok,
  guard-eq-ok, >>=-eq-ok, Result, ok, if◌then◌else◌, Text, trim,
}
use kmc.Errors.{ErrorValue}
use kmc.Networking.Objects.{RouterCr, FloatingIpCr, IpAddressCr, PoolRef}
use kmc.Networking.Api.{listed_objects}
use kmc.Networking.Routers.Attachments.{
  DetachRouterVpcRequest, detach_router_vpc, check_unused, is_guest_lease, is_active_floating,
  in_pool, present, load_router, is_attached, not_attached, last_vpc,
}

keep-none :
    {A : Type 0} (p : A → Bool) (xs : List A)
    → ltb 0 (length (keep p xs)) ≡ false
    → All (λ x. p x ≡ false) xs
unfolding keep
keep-none p [] h = tt
keep-none p (x ∷ xs) h = elim (Bool-cases (p x)) [
  | inl kept ↦ absurd (ground (arith, h))
  | inr dropped ↦ (dropped, keep-none p xs (ground (arith, h)))
]

-- A machine has the address of the network, by a claim with the MAC of its interface.
pub record Leases (name : Text) (ip : IpAddressCr) : Type 0 where
  pub pool : PoolRef
  pub mac : Text
  pub pooled : ip.pool_ref ≡ some pool
  pub of_vpc : pool.kind ≡ codes "VPC"
  pub of_name : pool.name ≡ name
  pub of_machine : ip.claim_ref.kind ≡ some (codes "VirtualMachine")
  pub has_mac : ip.mac ≡ some mac
  pub given : truthy mac ≡ true

-- The floating address leads to a private address of the network.
pub record LeadsInto (name : Text) (f : FloatingIpCr) : Type 0 where
  pub private : Text
  pub of_vpc : f.spec.vpc_ref ≡ some name
  pub has_private : f.spec.private_address ≡ some private
  pub given : truthy (trim private) ≡ true

Leases-is_guest_lease :
    (name : Text) (ip : IpAddressCr) → Leases name ip → is_guest_lease name ip ≡ true
unfolding is_guest_lease in_pool text_eq
Leases-is_guest_lease name ip l =
    rw (l.pooled, l.of_vpc, l.of_name, l.of_machine, l.has_mac, l.given, text_eq_refl name) refl

present-nonempty : (t : Text) → truthy t ≡ true → present (nonempty t) ≡ true
present-nonempty [] h = cc
present-nonempty (c ∷ t) h = refl

LeadsInto-is_active_floating :
    (name : Text) (f : FloatingIpCr) → LeadsInto name f → is_active_floating name f ≡ true
unfolding is_active_floating trimmed
LeadsInto-is_active_floating name f l =
    rw (l.of_vpc, l.has_private, text_eq_refl name) (present-nonempty (trim l.private) l.given)

-- Nothing listed still uses the network `name`.
pub record IsUnused (name : Text) (list_addresses : Result ErrorValue (List IpAddressCr))
    (list_floating : Result ErrorValue (List FloatingIpCr)) : Type 0 where
  pub addresses : List IpAddressCr
  pub listed : listed_objects list_addresses ≡ ok addresses
  pub no_lease : All (λ ip. Leases name ip → ⊥) addresses
  pub floating : List FloatingIpCr
  pub listed_floating : listed_objects list_floating ≡ ok floating
  pub no_floating : All (λ f. LeadsInto name f → ⊥) floating

none_of :
    {A : Type 0} (p : A → Bool) (P : A → Type 0) (xs : List A)
    → ((x : A) → P x → p x ≡ true)
    → All (λ x. p x ≡ false) xs
    → All (λ x. P x → ⊥) xs
none_of p P [] f h = tt
none_of p P (x ∷ xs) f (off, h) = ((λ q. cc (f x q, off)), none_of p P xs f h)

check_unused-IsUnused :
    (name : Text) (list_addresses : Result ErrorValue (List IpAddressCr))
    (list_floating : Result ErrorValue (List FloatingIpCr))
    → check_unused name list_addresses list_floating ≡ ok tt
    → IsUnused name list_addresses list_floating
unfolding check_unused
check_unused-IsUnused name list_addresses list_floating h =
    let (addresses, listed, h1) = >>=-eq-ok (listed_objects list_addresses) _ h in
    let (floating, listed_floating, h2) = >>=-eq-ok (listed_objects list_floating) _ h1 in
    let unused = guard-ok _ _ h2 in
    record {
      addresses = addresses;
      listed = listed;
      no_lease =
          none_of (is_guest_lease name) (Leases name) addresses (Leases-is_guest_lease name)
            (keep-none (is_guest_lease name) addresses (ground (arith, unused)));
      floating = floating;
      listed_floating = listed_floating;
      no_floating =
          none_of (is_active_floating name) (LeadsInto name) floating
            (LeadsInto-is_active_floating name)
            (keep-none (is_active_floating name) floating (ground (arith, unused)));
    }

-- A detachment that is not forced and is sent has listed the addresses and the floating addresses:
-- no listed address of the network is claimed by a machine with a MAC, and no listed floating
-- address leads to a private address of the network.
pub detach_router_vpc-IsUnused :
    (get_router : Result ErrorValue RouterCr)
    (list_addresses : Result ErrorValue (List IpAddressCr))
    (list_floating : Result ErrorValue (List FloatingIpCr)) (input : DetachRouterVpcRequest)
    (next : RouterCr)
    → input.force ≡ false
    → detach_router_vpc get_router list_addresses list_floating input ≡ ok next
    → IsUnused (trim input.vpc_name) list_addresses list_floating
unfolding detach_router_vpc
detach_router_vpc-IsUnused get_router list_addresses list_floating input next careful h =
    let (_, h1) = guard-eq-ok _ _ _ h in
    let (router, got, h2) =
      >>=-eq-ok (load_router input.namespace input.router_name get_router) _ h1 in
    let (_, h3) =
      guard-eq-ok (is_attached (trim input.vpc_name) router.spec.vpcs)
        (not_attached (trim input.vpc_name)) _ h2 in
    let (_, h4) = guard-eq-ok (leb 2 (length router.spec.vpcs)) last_vpc _ h3 in
    let (_, checked, _) =
      >>=-eq-ok
        (if input.force
          then ok tt
          else check_unused (trim input.vpc_name) list_addresses list_floating)
        _ h4 in
    check_unused-IsUnused _ list_addresses list_floating (
      subst
        (λ b.
          (if b then ok tt else check_unused (trim input.vpc_name) list_addresses list_floating)
          ≡ ok tt)
        careful checked)
