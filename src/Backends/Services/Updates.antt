-- ===== src/Backends/Services/Updates.antt =====
-- `updateBackend` of console/app/backends/backends.server.ts, up to the reading of the page that it
-- returns. A thrown Response is an error with its text.
use kmc.Common.{
  Bool, true, false, not, ◌&&◌, ◌||◌, Option, none, some, List, [], ◌∷◌, ◌++◌, keep, has,
  if◌then◌else◌, or_else, Result, ok, err, ◌>>=◌, ◌>>◌, guard, Text, codes, truthy, trim, text_eq,
  decimal, leb, Labels, erase, spread,
}
use kmc.Errors.{ErrorValue, format_error, plain_error, caused}
use kmc.Backends.Membership.{
  BackendMembership, ReadMembership, single_vm, labels, group, known, unknown, membership_labels,
  membership_annotations, resolve_service_selector, label_target_kind, label_vm,
  label_backend_group, ann_match_labels, ann_member_vms,
}
use kmc.Backends.Stamp.{stamp_backend_group, unstamp_backend_group}
use kmc.Backends.Services.{KubeService, BackendPort, manifest_ports, full, some_full}
use kmc.Backends.Services.Changes.{
  BackendApi, Done, optional, is_backend, not_managed, validate_membership, normalized, ensured,
}
use kmc.Backends.Services.Deletion.{next_step, read_membership, unstamp_some}

pub record UpdateBackendRequest : Type 0 where
  pub cluster : Text
  pub namespace : Text
  pub name : Text
  pub membership : Option BackendMembership
  pub ports : Option (List BackendPort)

check_port : BackendPort → Result ErrorValue (Unit {0})
unfolding decimal
check_port p = do
  guard (leb 1 p.port && leb p.port 65535)
      (plain_error (codes "invalid service port: " ++ decimal p.port))
  guard (leb 1 p.target_port && leb p.target_port 65535)
      (plain_error (codes "invalid target port: " ++ decimal p.target_port))

unfoldable pub check_ports : List BackendPort → Result ErrorValue (Unit {0})
unfolding check_port
check_ports [] = ok tt
check_ports (p ∷ ps) = check_port p >> check_ports ps

-- The names of `a` that `b` has not, and those that it has.
abbrev minus : List Text → List Text → List Text
minus a b = keep (λ n. not (has b n)) a

abbrev common : List Text → List Text → List Text
common a b = keep (λ n. has b n) a

-- The group and the members of a group membership.
abbrev old_group : ReadMembership → Option (Text × List Text)
old_group unknown = none
old_group (known (single_vm vm)) = none
old_group (known (labels ls)) = none
old_group (known (group id names)) = some (id, names)

module _ {S : Type 0} (api : BackendApi S) where
  stamp_some : Text → Text → List Text → S → Done S
  unfolding stamp_backend_group
  stamp_some namespace id [] s = (ok tt, s)
  stamp_some namespace id (n ∷ names) s = stamp_backend_group api.vms namespace id (n ∷ names) s

  -- The stamps of a change to a group: the new members first, then those that leave, then those
  -- that stay where the group is another.
  unfoldable pub regroup : Text → Option (Text × List Text) → Text → List Text → S → Done S
  unfolding stamp_some unstamp_some has text_eq keep
  regroup namespace none id names s = stamp_some namespace id names s
  regroup namespace (some (old, before)) id names s =
      next_step (stamp_some namespace id (minus names before) s) (λ s.
        next_step (unstamp_some api (minus before names) s) (λ s.
          if text_eq old id then (ok tt, s) else stamp_some namespace id (common names before) s))

  left_group : Option (Text × List Text) → S → Done S
  unfolding unstamp_backend_group
  left_group none s = (ok tt, s)
  left_group (some (old, before)) s = unstamp_backend_group api.vms before s

  unfoldable pub restamp : Text → ReadMembership → Option BackendMembership → S → Done S
  unfolding regroup left_group
  restamp namespace before none s = (ok tt, s)
  restamp namespace before (some (group id names)) s =
      regroup namespace (old_group before) id names s
  restamp namespace before (some (single_vm vm)) s = left_group (old_group before) s
  restamp namespace before (some (labels ls)) s = left_group (old_group before) s

  -- The membership that is written; a single machine must be there.
  unfoldable pub next_membership :
      Text → Text → Option BackendMembership → S → Result ErrorValue (Option BackendMembership)
  unfolding validate_membership normalized ensured
  next_membership namespace name none s = ok none
  next_membership namespace name (some m) s = do
    validate_membership m
    ensured api namespace (normalized name m) s
    ok (some (normalized name m))

-- The Service to update, from the answer to its reading.
unfoldable pub existing_backend :
    UpdateBackendRequest → Result ErrorValue (Option KubeService) → Result ErrorValue KubeService
unfolding is_backend
existing_backend input (err e) = err e
existing_backend input (ok none) = err (plain_error (codes "Backend Service not found"))
existing_backend input (ok (some svc)) =
    guard (is_backend svc) (not_managed (codes "updating") input.namespace input.name) >> ok svc

abbrev is_given {ℓ} : {A : Type ℓ} → Option A → Bool
is_given none = false
is_given (some a) = true

unfoldable pub check_update : UpdateBackendRequest → Result ErrorValue (Unit {0})
unfolding trim
check_update input = do
  guard (truthy (trim input.cluster) && truthy (trim input.namespace) && truthy (trim input.name))
      (plain_error (codes "cluster, namespace, and name are required"))
  guard (is_given input.membership || is_given input.ports)
      (plain_error (codes "nothing to update"))

module _ (stringify : Labels → Text) (parse_object : Text → Option Labels) where
  -- The labels and annotations of the membership before are cleared.
  unfoldable pub with_membership : Option BackendMembership → KubeService → KubeService
  unfolding membership_labels membership_annotations resolve_service_selector spread erase
  with_membership none svc = svc
  with_membership (some m) svc = record svc {
    labels = some (
        spread
          (erase label_backend_group
            (erase label_vm (erase label_target_kind (or_else svc.labels []))))
          (membership_labels m));
    annotations = some (
        spread (erase ann_member_vms (erase ann_match_labels (or_else svc.annotations [])))
          (membership_annotations stringify parse_object m));
    selector = resolve_service_selector m;
  }

  unfoldable pub with_ports :
      Option (List BackendPort) → KubeService → Result ErrorValue KubeService
  unfolding check_ports manifest_ports
  with_ports none svc = ok svc
  with_ports (some ports) svc = do
    guard (full ports) (plain_error (codes "at least one port is required"))
    check_ports ports
    ok (record svc { ports = manifest_ports 0 ports })

  unfoldable pub updated_service :
      UpdateBackendRequest → Option BackendMembership → KubeService → Result ErrorValue KubeService
  unfolding with_membership with_ports
  updated_service input next svc = do
    body ← with_ports input.ports (with_membership next svc)
    ok (record body {
      labels = some (or_else body.labels []);
      annotations = some_full (or_else body.annotations []);
      ingress = [];
    })

update_failure : ErrorValue → ErrorValue
unfolding format_error
update_failure e = caused (codes "Failed to update Service: " ++ format_error e) e

module _ {S : Type 0} (api : BackendApi S) (stringify : Labels → Text)
    (parse_object : Text → Option Labels) where
  replaced : Done S → Done S
  unfolding update_failure
  replaced (ok _, s) = (ok tt, s)
  replaced (err e, s) = (err (update_failure e), s)

  write_service : UpdateBackendRequest → Option BackendMembership → KubeService → S → Done S
  unfolding updated_service replaced
  write_service input next svc s = elim (updated_service stringify parse_object input next svc) [
    | err e ↦ (err e, s)
    | ok body ↦ replaced (api.replace_service input.name body s)
  ]

  update_existing : UpdateBackendRequest → KubeService → S → Done S
  unfolding next_membership restamp read_membership write_service
  update_existing input svc s =
      elim (next_membership api input.namespace input.name input.membership s) [
        | err e ↦ (err e, s)
        | ok next ↦
            next_step
              (restamp api input.namespace (read_membership stringify parse_object svc) next s)
              (write_service input next svc)
      ]

  unfoldable pub update_backend : UpdateBackendRequest → S → Done S
  unfolding check_update existing_backend optional update_existing
  update_backend input s =
      elim (check_update input
        >> existing_backend input (optional (api.read_service input.name s))) [
          | err e ↦ (err e, s)
          | ok svc ↦ update_existing input svc s
        ]
