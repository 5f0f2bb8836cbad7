-- ===== src/Backends/Services/Changes.antt =====
-- `createBackend` of console/app/backends/backends.server.ts, and what the other changes share with
-- it. The cluster is a state `S` behind its calls, for one namespace.
pub mod Endings
use kmc.Common.{
  ℕ, Bool, false, Option, none, some, List, [], ◌∷◌, ◌++◌, if◌then◌else◌, or_else, Result, ok, err,
  ◌>>◌, guard, Text, codes, truthy, trim, trim_all, trimmed, includes, text_eq, leb, length, Labels,
  lookup,
}
use kmc.Errors.{ErrorValue, format_error, plain_error, caused}
use kmc.Backends.Membership.{BackendMembership, single_vm, labels, group, sorted_set}
use kmc.Backends.Stamp.{VmApi, is_not_found, stamp_backend_group, unstamp_backend_group}
use kmc.Backends.Services.{
  KubeService, BackendSummary, CreateBackendRequest, map_summary, build_service_manifest, full,
}

-- `members` is `listVmsWithBackendGroup`.
pub record BackendApi (S : Type 0) : Type 0 where
  pub vms : VmApi S
  pub read_service : Text → S → Result ErrorValue KubeService
  pub create_service : KubeService → S → Result ErrorValue KubeService × S
  pub replace_service : Text → KubeService → S → Result ErrorValue (Unit {0}) × S
  pub delete_service : Text → S → Result ErrorValue (Unit {0}) × S
  pub members : Text → S → Result ErrorValue (List Text)

-- `KMC_MAX_BACKEND_GROUP_VMS`
abbrev pub max_group_vms : ℕ
max_group_vms = 32

abbrev required : Text → Text → Result ErrorValue (Unit {0})
required message value = guard (truthy (trim value)) (plain_error message)

unfoldable pub validate_membership : BackendMembership → Result ErrorValue (Unit {0})
unfolding trim
validate_membership (single_vm vm) = required (codes "target VM is required") vm
validate_membership (labels ls) =
    guard (full ls) (plain_error (codes "at least one match label is required"))
validate_membership (group id names) = do
  required (codes "group id is required") id
  guard (full names) (plain_error (codes "select at least one VM for the group"))
  guard (leb (length names) max_group_vms) (plain_error (codes "at most 32 VMs per backend group"))

unfoldable pub normalized : Text → BackendMembership → BackendMembership
unfolding trimmed sorted_set trim_all
normalized name (single_vm vm) = single_vm vm
normalized name (labels ls) = labels ls
normalized name (group id names) =
    group (or_else (trimmed (some id)) name) (sorted_set (trim_all names))

unfoldable pub check_request : CreateBackendRequest → Result ErrorValue (Unit {0})
unfolding trim validate_membership
check_request input = do
  required (codes "cluster is required") input.cluster
  required (codes "namespace is required") input.namespace
  required (codes "name is required") input.name
  guard (full input.ports) (plain_error (codes "at least one port is required"))
  validate_membership input.membership

abbrev is_value : Text → Option Text → Bool
is_value v none = false
is_value v (some w) = text_eq w v

unfoldable pub is_backend : KubeService → Bool
unfolding lookup text_eq
is_backend svc =
    is_value (codes "backend") (lookup (codes "kmc.ianunruh.com/resource") (or_else svc.labels []))

-- `readServiceOptional`
unfoldable pub optional : Result ErrorValue KubeService → Result ErrorValue (Option KubeService)
unfolding is_not_found
optional (ok svc) = ok (some svc)
optional (err e) = if is_not_found e then ok none else err e

message_of : ErrorValue → Text
message_of e = elim e.messages [ [] ↦ [] | m ∷ ms ↦ m ]

abbrev quoted : Text → Text → Text
quoted namespace name = b'"' ∷ (namespace ++ b'/' ∷ (name ++ codes "\""))

vm_failure : Text → Text → ErrorValue → ErrorValue
unfolding is_not_found format_error
vm_failure namespace vm e =
    if is_not_found e
    then plain_error (codes "VirtualMachine " ++ (quoted namespace vm ++ codes " not found"))
    else caused (format_error e) e

abbrev exists : Text → Text → ErrorValue
exists namespace name =
    plain_error (codes "Service " ++ (quoted namespace name ++ codes " already exists"))

abbrev pub not_managed : Text → Text → Text → ErrorValue
not_managed what namespace name =
    plain_error
      (codes "Service " ++ (quoted namespace name ++ (codes " is not a kmc backend; not " ++ what)))

abbrev pub Done : Type 0 → Type 0
Done S = Result ErrorValue (Unit {0}) × S

module _ {S : Type 0} (api : BackendApi S) where
  -- `ensureSingleVmExists`, for a single machine
  unfoldable pub ensured : Text → BackendMembership → S → Result ErrorValue (Unit {0})
  unfolding vm_failure
  ensured namespace (single_vm vm) s = elim (api.vms.fetch_vm vm s) [
    | ok _ ↦ ok tt
    | err e ↦ err (vm_failure namespace vm e)
  ]
  ensured namespace (labels ls) s = ok tt
  ensured namespace (group id names) s = ok tt

  unfoldable pub stamped : Text → BackendMembership → S → Done S
  unfolding stamp_backend_group
  stamped namespace (single_vm vm) s = (ok tt, s)
  stamped namespace (labels ls) s = (ok tt, s)
  stamped namespace (group id names) s = stamp_backend_group api.vms namespace id names s

  -- The clearing of the stamps, whose error is ignored.
  unfoldable pub cleared : BackendMembership → S → S
  unfolding unstamp_backend_group
  cleared (single_vm vm) s = s
  cleared (labels ls) s = s
  cleared (group id names) s = (unstamp_backend_group api.vms names s).1

module _ {S : Type 0} (api : BackendApi S) (stringify : Labels → Text)
    (parse_object : Text → Option Labels) where
  unfoldable pub created :
      Text
      → BackendMembership
      → Result ErrorValue KubeService × S
      → Result ErrorValue BackendSummary × S
  unfolding map_summary cleared format_error
  created cluster m (ok svc, s) = (ok (map_summary stringify parse_object cluster svc none), s)
  created cluster m (err e, s) =
      (err (caused (codes "Failed to create Service: " ++ format_error e) e), cleared api m s)

  create_absent :
      CreateBackendRequest → BackendMembership → S → Result ErrorValue BackendSummary × S
  unfolding build_service_manifest created
  create_absent input m s =
      elim (build_service_manifest stringify parse_object (record input { membership = m })) [
        | err e ↦ (err e, s)
        | ok body ↦ created input.cluster m (api.create_service body s)
      ]

  unfoldable pub create_stamped :
      CreateBackendRequest
      → BackendMembership
      → Result ErrorValue KubeService
      → S
      → Result ErrorValue BackendSummary × S
  unfolding cleared create_absent message_of includes is_not_found format_error
  create_stamped input m (ok svc) s = (err (exists input.namespace input.name), cleared api m s)
  create_stamped input m (err e) s =
      if includes (codes "already exists") (message_of e)
      then (err e, s)
      else if is_not_found e
      then create_absent input m s
      else (err (caused (format_error e) e), cleared api m s)

  after_stamp :
      CreateBackendRequest → BackendMembership → Done S → Result ErrorValue BackendSummary × S
  unfolding create_stamped
  after_stamp input m (err e, s) = (err e, s)
  after_stamp input m (ok _, s) = create_stamped input m (api.read_service input.name s) s

  unfoldable pub create_backend : CreateBackendRequest → S → Result ErrorValue BackendSummary × S
  unfolding check_request normalized ensured stamped after_stamp
  create_backend input s =
      let m = normalized input.name input.membership in
      elim (check_request input >> ensured api input.namespace m s) [
        | err e ↦ (err e, s)
        | ok _ ↦ after_stamp input m (stamped api input.namespace m s)
      ]
