-- ===== src/Networking/Vpcs/Deletion.antt =====
-- When `deleteVpc` of console/app/vpcs/vpcs.server.ts sends the deletion.
use kmc.Common.{
  ◌≡◌, refl, false, Bool-cases, inl, inr, Option, none, List, [], ◌∷◌, All, arith, length, Result,
  ok, err, guard-ok, Text,
}
use kmc.Errors.{ErrorValue}
use kmc.Networking.Objects.{VpcCr}
use kmc.Networking.Vpcs.Members.{
  KubeVm, VpcAttachedVm, is_member, attached_of, list_attached_vms, delete_vpc,
}

attached_of-none :
    (namespace name : Text) (cidr : Option Text) (vms : List KubeVm)
    → length (attached_of namespace name cidr vms) ≡ 0
    → All (λ vm. is_member namespace name vm ≡ false) vms
unfolding attached_of
attached_of-none namespace name cidr [] h = tt
attached_of-none namespace name cidr (vm ∷ vms) h =
    elim (Bool-cases (is_member namespace name vm)) [
      | inl member ↦ absurd (ground (arith, h))
      | inr other ↦ (other, attached_of-none namespace name cidr vms (ground (arith, h)))
    ]

-- The deletion of a VPC is sent only when the machines could be listed and none of them is on it.
pub delete_vpc-none :
    (sorted : List VpcAttachedVm → List VpcAttachedVm)
    (same_length : (vms : List VpcAttachedVm) → length (sorted vms) ≡ length vms)
    (namespace name : Text) (get : Result ErrorValue VpcCr)
    (shown listed : Result ErrorValue (List KubeVm))
    → delete_vpc sorted namespace name get shown listed ≡ ok tt
    → (vms : List KubeVm) × (listed ≡ ok vms) × All (λ vm. is_member namespace name vm ≡ false) vms
unfolding delete_vpc list_attached_vms
delete_vpc-none sorted same_length namespace name (err e) shown listed h = cc
delete_vpc-none sorted same_length namespace name (ok vpc) (err e) listed h = cc
delete_vpc-none sorted same_length namespace name (ok vpc) (ok shown) (err e) h = cc
delete_vpc-none sorted same_length namespace name (ok vpc) (ok shown) (ok vms) h = (
  vms,
  refl,
  attached_of-none namespace name none vms
      (ground (arith, guard-ok _ _ h, same_length (attached_of namespace name none vms))),
)
