-- ===== src/Ipam/Releases/Tests.antt =====
-- Runs of the deletion of claims, and an instance of its theorem.
use kmc.Common.{
  ◌≡◌, refl, inl, inr, true, none, some, List, [], ◌∷◌, ok, Text, codes, text_eq, trim, trimmed,
  truthy, In,
}
use kmc.Ipam.Releases.{
  IpAddressListItem, DeleteRequest, delete_ip_address_claims_for_vm, plain_address,
}
use kmc.Ipam.Releases.Machine.{deletion, IsOwn, HasAddress, delete_ip_address_claims_for_vm-IsSent}

abbrev item_of : Text → Text → IpAddressListItem
item_of address machine = record {
  name = none;
  address = some address;
  claim_name = some machine;
  claim_namespace = none;
}

abbrev three_items : List IpAddressListItem
three_items =
    item_of (codes "10.0.0.5") (codes "web")
    ∷ item_of (codes "10.0.0.6") (codes "db")
    ∷ item_of (codes "10.0.0.7") (codes "web")
    ∷ []

abbrev request : Text → DeleteRequest
request name = record { namespace = codes "default"; name = name }

-- An address that is given and listed is deleted once, and another machine's is left.
machine_run :
    delete_ip_address_claims_for_vm
      (codes "default")
      (codes " web ")
      (codes "10.0.0.5/24" ∷ [])
      (ok three_items)
    ≡ request (codes "10-0-0-5") ∷ request (codes "10-0-0-7") ∷ []
unfolding delete_ip_address_claims_for_vm text_eq
machine_run = refl

default_given : truthy (trim (codes "default")) ≡ true
unfolding trim
default_given = refl

web_given : truthy (trim (codes " web ")) ≡ true
unfolding trim
web_given = refl

address_given : truthy (plain_address (codes "10.0.0.7")) ≡ true
unfolding plain_address
address_given = refl

web-IsOwn :
    IsOwn (trim (codes "default")) (trim (codes " web ")) (item_of (codes "10.0.0.7") (codes "web"))
unfolding trim
web-IsOwn = (refl, inl refl)

web_address : HasAddress (item_of (codes "10.0.0.7") (codes "web")) (codes "10.0.0.7")
unfolding trimmed
web_address = inl refl

delete_ip_address_claims_for_vm-IsSent_example :
    In (deletion (trim (codes "default")) (plain_address (codes "10.0.0.7"))) (
      delete_ip_address_claims_for_vm
        (codes "default")
        (codes " web ")
        (codes "10.0.0.5/24" ∷ [])
        (ok three_items))
delete_ip_address_claims_for_vm-IsSent_example =
    delete_ip_address_claims_for_vm-IsSent (codes "default") (codes " web ")
      (codes "10.0.0.5/24" ∷ []) three_items (item_of (codes "10.0.0.7") (codes "web"))
      (codes "10.0.0.7") default_given web_given (inr (inr (inl refl))) web-IsOwn web_address refl
      address_given
