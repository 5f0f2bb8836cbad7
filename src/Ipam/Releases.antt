-- ===== src/Ipam/Releases.antt =====
-- The listing and the deletion of claims, in console/app/lib/ipam/ipaddress-cr.server.ts. A delete
-- call's failure changes nothing, so a deletion is the request that is sent.
pub mod Machine
mod Tests
use kmc.Common.{
  Bool, true, false, not, ◌&&◌, ◌||◌, Option, none, some, List, [], ◌∷◌, ◌++◌, if◌then◌else◌,
  or_else, Result, ok, err, Text, truthy, trim, trimmed, nonempty, text_eq, has, replace_all,
}
use kmc.Errors.{ErrorValue}
use kmc.Ipam.Cidr.{address_from_annotation}
use kmc.Ipam.Claims.{ip_address_object_name}

pub record IpAddressListItem : Type 0 where
  pub name : Option Text
  pub address : Option Text
  pub claim_name : Option Text
  pub claim_namespace : Option Text

pub record DeleteRequest : Type 0 where
  pub namespace : Text
  pub name : Text

-- `addressFromIpv4Annotation(a) ?? a.trim()`
unfoldable pub plain_address : Text → Text
unfolding address_from_annotation trim
plain_address a = or_else (address_from_annotation a) (trim a)

unfoldable pub delete_ip_address_claim : Text → Text → List DeleteRequest
unfolding plain_address ip_address_object_name trim
delete_ip_address_claim namespace address =
    let addr = plain_address address in
    let ns = trim namespace in
    if truthy addr && truthy ns
    then record { namespace = ns; name = ip_address_object_name addr } ∷ []
    else []

unfoldable pub release_ip_address_claims : Text → List Text → List DeleteRequest
unfolding delete_ip_address_claim
release_ip_address_claims namespace [] = []
release_ip_address_claims namespace (a ∷ as') =
    delete_ip_address_claim namespace a ++ release_ip_address_claims namespace as'

dotted_name : Option Text → Option Text
unfolding replace_all
dotted_name none = none
dotted_name (some name) = some (replace_all b'-' b'.' name)

-- `item.spec?.address?.trim() || item.metadata?.name?.replaceAll("-", ".")`
unfoldable pub item_address : IpAddressListItem → Option Text
unfolding trimmed dotted_name
item_address item = elim (trimmed item.address) [ some a ↦ some a | none ↦ dotted_name item.name ]

normalized : Option Text → Option Text
unfolding address_from_annotation
normalized none = none
normalized (some a) = nonempty (or_else (address_from_annotation a) a)

unfoldable pub collect : List IpAddressListItem → List Text
unfolding normalized item_address
collect [] = []
collect (item ∷ items) = elim (normalized (item_address item)) [
  | none ↦ collect items
  | some a ↦ a ∷ collect items
]

namespaced_addresses : Text → Result ErrorValue (List IpAddressListItem) → List Text
unfolding collect
namespaced_addresses [] reply = []
namespaced_addresses (c ∷ ns) (ok items) = collect items
namespaced_addresses (c ∷ ns) (err e) = []

-- The two arguments behind `cluster_wide` are the API's answers to the two listings.
unfoldable pub list_ip_address_claim_addresses :
    Text
    → Bool
    → Result ErrorValue (List IpAddressListItem)
    → Result ErrorValue (List IpAddressListItem)
    → List Text
unfolding namespaced_addresses collect trim
list_ip_address_claim_addresses namespace true (ok items) namespaced = collect items
list_ip_address_claim_addresses namespace true (err e) namespaced =
    namespaced_addresses (trim namespace) namespaced
list_ip_address_claim_addresses namespace false everywhere namespaced =
    namespaced_addresses (trim namespace) namespaced

-- One round of the first loop: skip an empty or a known address, or delete its claim.
unfoldable pub is_done : List Text → Text → Bool
unfolding has
is_done seen addr = not (truthy addr) || has seen addr

unfoldable pub release_given : Text → List Text → List Text → List DeleteRequest × List Text
unfolding is_done delete_ip_address_claim plain_address
release_given ns seen [] = ([], seen)
release_given ns seen (a ∷ as') =
    let addr = plain_address a in
    let skip = is_done seen addr in
    let (requests, seen') = release_given ns (if skip then seen else addr ∷ seen) as' in
    ((if skip then [] else delete_ip_address_claim ns addr) ++ requests, seen')

is_text : Text → Option Text → Bool
unfolding text_eq
is_text t none = false
is_text t (some s) = text_eq s t

foreign : Text → Option Text → Bool
unfolding text_eq
foreign ns none = false
foreign ns (some other) = truthy other && not (text_eq other ns)

-- The claim names the machine, and no other namespace.
unfoldable pub is_claimed_by : Text → Text → IpAddressListItem → Bool
unfolding is_text foreign
is_claimed_by ns vm item =
    is_text vm item.claim_name && truthy vm && not (foreign ns item.claim_namespace)

unfoldable pub release_claimed :
    Text → Text → List Text → List IpAddressListItem → List DeleteRequest
unfolding is_claimed_by item_address is_done delete_ip_address_claim
release_claimed ns vm seen [] = []
release_claimed ns vm seen (item ∷ items) =
    let addr = or_else (item_address item) [] in
    let skip = not (is_claimed_by ns vm item) || is_done seen addr in
    let rest = release_claimed ns vm (if skip then seen else addr ∷ seen) items in
    (if skip then [] else delete_ip_address_claim ns addr) ++ rest

unfoldable pub listed_items : Result ErrorValue (List IpAddressListItem) → List IpAddressListItem
listed_items (ok items) = items
listed_items (err e) = []

-- The delete requests of `deleteIpAddressClaimsForVm`; `listing` is the API's answer.
unfoldable pub delete_ip_address_claims_for_vm :
    Text → Text → List Text → Result ErrorValue (List IpAddressListItem) → List DeleteRequest
unfolding release_given release_claimed listed_items trim
delete_ip_address_claims_for_vm namespace vm_name addresses listing =
    let ns = trim namespace in
    let name = trim vm_name in
    let (given, seen) = release_given ns [] addresses in
    if truthy ns && truthy name
    then given ++ release_claimed ns name seen (listed_items listing)
    else []
