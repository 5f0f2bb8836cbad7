-- ===== src/Networking/Vpcs/Members.antt =====
-- The machines on a VPC and its deletion: `listAttachedVms` and `deleteVpc` of
-- console/app/vpcs/vpcs.server.ts. The order of the listing (`localeCompare`) is an argument.
use kmc.Common.{
  ◌-◌, Bool, true, false, not, ◌&&◌, ◌||◌, Option, none, some, List, [], ◌∷◌, ◌++◌, map, take,
  if◌then◌else◌, ltb, length, or_else, Result, ok, err, ◌>>=◌, guard, Text, codes, truthy, trimmed,
  trim_all, split, join, text_eq, decimal, lookup, Labels,
}
use kmc.Errors.{ErrorValue, plain_error}
use kmc.Ipam.Cidr.{ParsedCidr, parse_cidr, contains_ipv4, address_from_annotation, CidrError}
use kmc.Networking.Objects.{VpcCr}
use kmc.Networking.Routers.{load_failure}

-- A machine: the names of its Multus networks, `none` for a network of another kind.
pub record KubeVm : Type 0 where
  pub namespace : Option Text
  pub name : Option Text
  pub labels : Labels
  pub annotations : Labels
  pub networks : List (Option Text)

-- `addr && containsIpv4(parsed, addr)` for one part; an address that does not parse throws.
abbrev in_block : ParsedCidr → Option Text → Result CidrError Bool
in_block parsed none = ok false
in_block parsed (some []) = ok false
in_block parsed (some (c ∷ a)) = contains_ipv4 parsed (c ∷ a)

unfoldable pub first_inside : ParsedCidr → List Text → Result CidrError (Option Text)
unfolding address_from_annotation contains_ipv4
first_inside parsed [] = ok none
first_inside parsed (part ∷ parts) =
    let rest = first_inside parsed parts in
    in_block parsed (address_from_annotation part) >>= λ inside.
    if inside then ok (some part) else rest

abbrev first_part : List Text → Option Text
first_part [] = none
first_part (p ∷ ps) = some p

-- What throws falls through to the first part.
abbrev part_or_first : List Text → Result CidrError (Option Text) → Option Text
part_or_first parts (ok part) = part
part_or_first parts (err e) = first_part parts

unfoldable pub allocated_part : List Text → Option Text → Option Text
unfolding trimmed parse_cidr first_inside
allocated_part [] vpc_cidr = none
allocated_part (p ∷ ps) vpc_cidr = elim (trimmed vpc_cidr) [
  | none ↦ some p
  | some cidr ↦ part_or_first (p ∷ ps) (parse_cidr cidr >>= λ parsed. first_inside parsed (p ∷ ps))
]

unfoldable pub allocated_ipv4_for_vpc : Option Text → Option Text → Option Text
unfolding trimmed trim_all split allocated_part
allocated_ipv4_for_vpc none vpc_cidr = none
allocated_ipv4_for_vpc (some annotation) vpc_cidr =
    allocated_part (trim_all (split b',' annotation)) vpc_cidr

unfoldable pub multus_ref_matches : Option Text → Text → Text → Bool
unfolding trimmed text_eq
multus_ref_matches network_name vpc_namespace vpc_name = elim (trimmed network_name) [
  | none ↦ false
  | some n ↦ text_eq n vpc_name || text_eq n (vpc_namespace ++ b'/' ∷ vpc_name)
]

-- The body of the loop over a machine's networks: whether it stops at this one.
unfoldable pub is_on_vpc : Text → Text → Text → Option Text → Bool
unfolding multus_ref_matches trimmed text_eq
is_on_vpc vm_namespace namespace name network =
    multus_ref_matches network namespace name
    && not (text_eq (or_else (trimmed network) []) name && not (text_eq vm_namespace namespace))

unfoldable pub any_on_vpc : Text → Text → Text → List (Option Text) → Bool
unfolding is_on_vpc
any_on_vpc vm_namespace namespace name [] = false
any_on_vpc vm_namespace namespace name (n ∷ ns) =
    is_on_vpc vm_namespace namespace name n || any_on_vpc vm_namespace namespace name ns

pub record VpcAttachedVm : Type 0 where
  pub namespace : Text
  pub name : Text
  pub allocated_ipv4 : Option Text
  pub is_router : Bool

has_text : Text → Option Text → Bool
unfolding text_eq
has_text t none = false
has_text t (some s) = text_eq s t

abbrev present : Option Text → Bool
present none = false
present (some t) = true

unfoldable pub is_router_of : Text → Labels → Bool
unfolding has_text lookup
is_router_of vpc_name labels =
    has_text (codes "router") (lookup (codes "kmc.ianunruh.com/role") labels)
    && (present (lookup (codes "kmc.ianunruh.com/router") labels)
        || has_text vpc_name (lookup (codes "kmc.ianunruh.com/vpc") labels))

attached_vm : Text → Option Text → KubeVm → VpcAttachedVm
unfolding allocated_ipv4_for_vpc is_router_of lookup
attached_vm name cidr vm = record {
  namespace = or_else vm.namespace [];
  name = or_else vm.name [];
  allocated_ipv4 =
      allocated_ipv4_for_vpc (lookup (codes "kmc.ianunruh.com/ipv4") vm.annotations) cidr;
  is_router = is_router_of name vm.labels;
}

unfoldable pub is_member : Text → Text → KubeVm → Bool
unfolding any_on_vpc
is_member namespace name vm =
    truthy (or_else vm.name []) && any_on_vpc (or_else vm.namespace []) namespace name vm.networks

-- Before the sort.
unfoldable pub attached_of : Text → Text → Option Text → List KubeVm → List VpcAttachedVm
unfolding is_member attached_vm
attached_of namespace name cidr [] = []
attached_of namespace name cidr (vm ∷ vms) =
    let rest = attached_of namespace name cidr vms in
    if is_member namespace name vm then attached_vm name cidr vm ∷ rest else rest

unfoldable pub list_attached_vms :
    (List VpcAttachedVm → List VpcAttachedVm)
    → Text
    → Text
    → Option Text
    → Result ErrorValue (List KubeVm)
    → Result ErrorValue (List VpcAttachedVm)
unfolding attached_of
list_attached_vms sorted namespace name cidr (err e) = err e
list_attached_vms sorted namespace name cidr (ok vms) =
    ok (sorted (attached_of namespace name cidr vms))

sample_of : List VpcAttachedVm → Text
unfolding join
sample_of attached =
    join (codes ", ") (map (λ vm. vm.namespace ++ b'/' ∷ vm.name) (take 5 attached))

unfoldable pub still_attached : List VpcAttachedVm → ErrorValue
unfolding sample_of decimal
still_attached attached = plain_error (
    codes "Cannot delete VPC: "
    ++ (decimal (length attached)
        ++ (codes " VM(s) still attached ("
            ++ (sample_of attached
                ++ ((if ltb 5 (length attached)
                      then codes " (+" ++ (decimal (length attached - 5) ++ codes " more)")
                      else [])
                    ++ codes ")")))))

-- `getVpc` is called for its failures: of its read of the VPC and of its listing of machines, which
-- is read with the VPC's block. `ok tt` is that the deletion is sent.
unfoldable pub delete_vpc :
    (List VpcAttachedVm → List VpcAttachedVm)
    → Text
    → Text
    → Result ErrorValue VpcCr
    → Result ErrorValue (List KubeVm)
    → Result ErrorValue (List KubeVm)
    → Result ErrorValue (Unit {0})
unfolding load_failure list_attached_vms still_attached trimmed
delete_vpc sorted namespace name (err e) shown listed = err (load_failure (codes "VPC not found") e)
delete_vpc sorted namespace name (ok vpc) shown listed = do
  details ← list_attached_vms sorted namespace name (trimmed vpc.spec.cidr) shown
  attached ← list_attached_vms sorted namespace name none listed
  guard (not (ltb 0 (length attached))) (still_attached attached)
