-- ===== src/Snapshots/Summaries.antt =====
-- The projection and the listing of snapshots, in
-- console/app/snapshots/snapshots.server.ts. `locale_compare a b` is `a.localeCompare(b)`.
use kmc.Common.{
  Bool, true, false, ◌&&◌, Option, none, some, List, [], ◌∷◌, map, if◌then◌else◌, or_else, keep,
  find, Result, ok, err, Text, codes, truthy, trim, trimmed, text_eq, Labels, lookup,
}
use Prim.Native.Nat.{Ordering}
use kmc.Errors.{ErrorValue, format_error, plain_error, caused}

pub record Condition : Type 0 where
  pub type : Option Text
  pub status : Option Text
  pub message : Option Text

pub record KubeVmSnapshot : Type 0 where
  pub name : Option Text
  pub namespace : Option Text
  pub creation_timestamp : Option Text
  pub labels : Option Labels
  pub source_name : Option Text
  pub phase : Option Text
  pub ready_to_use : Option Bool
  pub indications : Option (List Text)
  pub error_message : Option Text
  pub content_name : Option Text
  pub conditions : List Condition

pub record VmSnapshotSummary : Type 0 where
  pub cluster : Text
  pub namespace : Text
  pub name : Text
  pub vm_name : Text
  pub phase : Text
  pub ready_to_use : Bool
  pub indications : List Text
  pub age : Text
  pub error : Option Text
  pub content_name : Option Text
  pub schedule_name : Option Text
  pub snapshot_kind : Option Text

abbrev pub label_schedule : Text
label_schedule = codes "kmc.ianunruh.com/schedule"

abbrev pub label_snapshot_kind : Text
label_snapshot_kind = codes "kmc.ianunruh.com/snapshot-kind"

abbrev pub label_vm : Text
label_vm = codes "kmc.ianunruh.com/vm"

abbrev pub label_resource : Text
label_resource = codes "kmc.ianunruh.com/resource"

abbrev pub label_managed_by : Text
label_managed_by = codes "app.kubernetes.io/managed-by"

abbrev pub kind_scheduled : Text
kind_scheduled = codes "scheduled"

abbrev pub kind_manual : Text
kind_manual = codes "manual"

-- `a || b`
abbrev pub or_text : Option Text → Option Text → Option Text
or_text none b = b
or_text (some []) b = b
or_text (some (c ∷ s)) b = some (c ∷ s)

is_text : Text → Option Text → Bool
unfolding text_eq
is_text t none = false
is_text t (some s) = text_eq s t

message_of : Option Condition → Option Text
message_of none = none
message_of (some c) = c.message

stalled : Condition → Bool
unfolding is_text
stalled c = is_text (codes "Progressing") c.type && is_text (codes "False") c.status

is_failure : Condition → Bool
unfolding is_text
is_failure c = is_text (codes "Failure") c.type

error_text : KubeVmSnapshot → Option Text
unfolding stalled is_failure message_of find trimmed
error_text k =
    or_text (trimmed k.error_message)
      (or_text (message_of (find stalled k.conditions)) (message_of (find is_failure k.conditions)))

scheduled_kind : Option Text → Option Text
scheduled_kind none = none
scheduled_kind (some s) = some kind_scheduled

is_true : Option Bool → Bool
is_true none = false
is_true (some b) = b

unfoldable pub map_summary : Text → KubeVmSnapshot → VmSnapshotSummary
unfolding error_text trimmed lookup scheduled_kind is_true
map_summary cluster k =
    let labels = or_else k.labels [] in
    let schedule_name = trimmed (lookup label_schedule labels) in
    record {
      cluster = cluster;
      namespace = or_else k.namespace (codes "default");
      name = or_else k.name (codes "unknown");
      vm_name = or_else (or_text (trimmed k.source_name) (trimmed (lookup label_vm labels))) [];
      phase = or_else k.phase (codes "Unknown");
      ready_to_use = is_true k.ready_to_use;
      indications = or_else k.indications [];
      age = or_else k.creation_timestamp [];
      error = trimmed (error_text k);
      content_name = k.content_name;
      schedule_name = schedule_name;
      snapshot_kind =
          or_text (trimmed (lookup label_snapshot_kind labels)) (scheduled_kind schedule_name);
    }

is_not_after : Ordering → Bool
is_not_after Ordering.gt = false
is_not_after Ordering.lt = true
is_not_after Ordering.eq = true

unfoldable pub of_vm : Option Text → List VmSnapshotSummary → List VmSnapshotSummary
unfolding trimmed text_eq keep
of_vm vm_name items = elim (trimmed vm_name) [
  | none ↦ items
  | some want ↦ keep (λ s. text_eq s.vm_name want) items
]

module _ (locale_compare : Text → Text → Ordering) where
  -- The comparator of both listings is at most 0: newest first, then by name.
  unfoldable pub newer_first : VmSnapshotSummary → VmSnapshotSummary → Bool
  unfolding text_eq is_not_after
  newer_first a b =
      if text_eq a.age b.age
      then is_not_after (locale_compare a.name b.name)
      else is_not_after (locale_compare b.age a.age)

  unfoldable pub insert_newest : VmSnapshotSummary → List VmSnapshotSummary → List VmSnapshotSummary
  unfolding newer_first
  insert_newest a [] = a ∷ []
  insert_newest a (b ∷ bs) =
      let rest = insert_newest a bs in if newer_first a b then a ∷ b ∷ bs else b ∷ rest

  -- `.sort(…)`, which is stable.
  unfoldable pub sort_newest : List VmSnapshotSummary → List VmSnapshotSummary
  unfolding insert_newest
  sort_newest [] = []
  sort_newest (a ∷ as') = insert_newest a (sort_newest as')

  listed :
      Text
      → Option Text
      → Result ErrorValue (List KubeVmSnapshot)
      → Result ErrorValue (List VmSnapshotSummary)
  unfolding map_summary of_vm sort_newest format_error
  listed cluster vm_name (ok items) =
      ok (sort_newest (of_vm vm_name (map (map_summary cluster) items)))
  listed cluster vm_name (err e) = err (caused (format_error e) e)

  -- The last argument is the API's answer.
  unfoldable pub list_vm_snapshots_with_client :
      Text
      → Text
      → Option Text
      → Result ErrorValue (List KubeVmSnapshot)
      → Result ErrorValue (List VmSnapshotSummary)
  unfolding listed trim
  list_vm_snapshots_with_client cluster namespace vm_name reply =
      if truthy (trim namespace)
      then listed cluster vm_name reply
      else err (plain_error (codes "namespace is required"))

  unfoldable pub list_vm_snapshots :
      Text
      → Text
      → Option Text
      → Result ErrorValue (List KubeVmSnapshot)
      → Result ErrorValue (List VmSnapshotSummary)
  unfolding list_vm_snapshots_with_client trim
  list_vm_snapshots cluster namespace vm_name reply =
      if truthy (trim cluster)
      then list_vm_snapshots_with_client cluster namespace vm_name reply
      else err (plain_error (codes "cluster is required"))
