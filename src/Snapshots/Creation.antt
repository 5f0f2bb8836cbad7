-- ===== src/Snapshots/Creation.antt =====
-- The request that creates a snapshot, in console/app/snapshots/snapshots.server.ts.
use kmc.Common.{
  ◌&&◌, Option, none, some, [], ◌∷◌, if◌then◌else◌, Result, ok, err, ◌>>=◌, ◌>>◌, guard, Text,
  codes, truthy, trim, trimmed, length, leb, Labels, String,
}
use kmc.Errors.{ErrorValue, plain_error}
use kmc.Snapshots.Names.{default_snapshot_name, dns_label, snap}
use kmc.Snapshots.Summaries.{
  label_schedule, label_snapshot_kind, label_vm, label_resource, label_managed_by, kind_scheduled,
  kind_manual,
}

pub record SnapshotBody : Type 0 where
  pub name : Text
  pub namespace : Text
  pub labels : Labels
  pub source_name : Text
  pub failure_deadline : Option Text

pub record CreateInput : Type 0 where
  pub cluster : Text
  pub namespace : Text
  pub vm_name : Text
  pub name : Option Text
  pub failure_deadline : Option Text
  pub schedule_name : Option Text

-- `suffix` is the time of the call, printed by `timeSuffix`.
unfoldable pub snapshot_name_for : Text → CreateInput → Text
unfolding trimmed dns_label default_snapshot_name
snapshot_name_for suffix input = elim (trimmed input.name) [
  | some name ↦ dns_label snap name
  | none ↦ default_snapshot_name suffix input.vm_name
]

schedule_labels : Option Text → Labels
schedule_labels none = (label_snapshot_kind, kind_manual) ∷ []
schedule_labels (some name) = (label_snapshot_kind, kind_scheduled) ∷ (label_schedule, name) ∷ []

body_for : Text → CreateInput → Option Text → SnapshotBody
unfolding schedule_labels trimmed
body_for name input schedule_name = record {
  name = name;
  namespace = input.namespace;
  labels =
      (label_managed_by, codes "kmc")
      ∷ (label_vm, input.vm_name)
      ∷ (label_resource, codes "vm-snapshot")
      ∷ schedule_labels schedule_name;
  source_name = input.vm_name;
  failure_deadline = trimmed input.failure_deadline;
}

required : Text → String → Result ErrorValue (Unit {0})
unfolding trim
required value what = guard (truthy (trim value)) (plain_error (codes what))

named : Text → Result ErrorValue Text
named name =
    if truthy name && leb (length name) 63
    then ok name
    else err (plain_error (codes "snapshot name must be a DNS label (≤63 characters)"))

unfoldable pub create_vm_snapshot_body : Text → CreateInput → Result ErrorValue SnapshotBody
unfolding required named snapshot_name_for body_for trimmed
create_vm_snapshot_body suffix input =
    required input.cluster "cluster is required"
    >> required input.namespace "namespace is required"
    >> required input.vm_name "vmName is required"
    >> (named (snapshot_name_for suffix input) >>= λ name.
        ok (body_for name input (trimmed input.schedule_name)))

-- The schedule's name goes into the label as it is given.
unfoldable pub create_vm_snapshot_with_client_body :
    Text → CreateInput → Text → Result ErrorValue SnapshotBody
unfolding required named snapshot_name_for body_for
create_vm_snapshot_with_client_body suffix input schedule_name =
    required input.namespace "namespace is required"
    >> required input.vm_name "vmName is required"
    >> required schedule_name "scheduleName is required"
    >> (named (snapshot_name_for suffix input) >>= λ name.
        ok (body_for name input (some schedule_name)))
