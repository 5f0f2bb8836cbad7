-- ===== src/Snapshots/Run/Tests.antt =====
-- A small cluster, ticks on it, and instances of the theorems on schedules.
use kmc.Common.{
  ◌≡◌, ◌∙◌, sym, ap, map, or_else, Result, lookup, ok_injective, refl, inr, Bool, true, false, not,
  Option, none, some, List, [], ◌∷◌, keep, find, ok, Text, codes, text_eq, Labels, trim,
}
use Prim.Native.Nat.{Ordering, compare}
use kmc.Snapshots.Names.{dns_label, sched, snapshot_schedule_object_names}
use kmc.Snapshots.Names.Labels.{
  IsDnsLabel, AreObjectNames, sched-IsDnsLabel, dns_label-IsDnsLabel,
  snapshot_schedule_object_names-AreObjectNames,
}
use kmc.Snapshots.Summaries.{KubeVmSnapshot, VmSnapshotSummary, map_summary, label_schedule}
use kmc.Snapshots.Schedules.{
  pos, RawDoc, SnapshotScheduleDoc, data_key, validate_cron_expression, not_five_fields,
  cron_required, ConfigMap,
}
use kmc.Snapshots.Status.{RunResult, is_in_flight, created_result, is_in_progress_phase}
use kmc.Errors.{ErrorValue}
use kmc.Snapshots.Status.Keys.{IsOtherKey, IsStatusChange}
use kmc.Snapshots.Run.{Api, read_doc, or_cluster, listing, with_doc, run_scheduled_snapshot_once}
use kmc.Snapshots.Run.Outcomes.{TickOutcome}
use kmc.Snapshots.Run.Ticks.{run_scheduled_snapshot_once-TickOutcome}
use kmc.Snapshots.Run.Idle.{with_doc-survives}

-- Comparison by code units.
unfoldable text_compare : Text → Text → Ordering
text_compare [] [] = Ordering.eq
text_compare [] (c ∷ s) = Ordering.lt
text_compare (c ∷ s) [] = Ordering.gt
text_compare (c ∷ s) (d ∷ t) = elim (compare c d) [
  | Ordering.lt ↦ Ordering.lt
  | Ordering.gt ↦ Ordering.gt
  | Ordering.eq ↦ text_compare s t
]

record Cluster : Type 0 where
  snapshots : List KubeVmSnapshot
  annotations : Option Labels

abbrev snapshot : Text → Text → Text → Labels → KubeVmSnapshot
snapshot name time phase labels = record {
  name = some name;
  namespace = some (codes "default");
  creation_timestamp = some time;
  labels = some labels;
  source_name = some (codes "vm");
  phase = some phase;
  ready_to_use = none;
  indications = none;
  error_message = none;
  content_name = none;
  conditions = [];
}

abbrev has_name : Text → KubeVmSnapshot → Bool
unfolding text_eq
has_name name k = elim k.name [ none ↦ false | some n ↦ text_eq n name ]

unfoldable store : Api Cluster
unfolding has_name keep
store = record {
  read_config_map = λ s. ok (record {
    name = some (codes "sch");
    labels = none;
    annotations = s.annotations;
    data_entries = some ((data_key, codes "{}") ∷ []);
    resource_version = none;
  });
  replace_config_map = λ cm s. (ok tt, record s { annotations = cm.annotations });
  list_snapshots = λ s. ok s.snapshots;
  create_snapshot = λ body s.
      let k = snapshot body.name (codes "9") (codes "Succeeded") body.labels in
      (ok k, record s { snapshots = k ∷ s.snapshots });
  delete_snapshot =
      λ name s. (ok tt, record s { snapshots = keep (λ k. not (has_name name k)) s.snapshots });
}

abbrev parse_doc : Text → Option RawDoc
parse_doc t = some (record {
  vm_name = some (codes "vm");
  enabled = none;
  cron = some (codes "0 3 * * *");
  retain = some (pos 1);
  failure_deadline = none;
  cron_job_name = none;
})

abbrev scheduled : Labels
scheduled = (label_schedule, codes "sch") ∷ []

abbrev two_old : Cluster
two_old = record {
  snapshots =
      snapshot (codes "a") (codes "1") (codes "Succeeded") scheduled
      ∷ snapshot (codes "b") (codes "2") (codes "Failed") scheduled
      ∷ snapshot (codes "c") (codes "0") (codes "Succeeded") []
      ∷ [];
  annotations = none;
}

abbrev new_name : Text
new_name = codes "vm-20260101-030000"

unfoldable pruned_result : RunResult
unfolding created_result
pruned_result = created_result new_name (codes "b" ∷ codes "a" ∷ [])

abbrev tick : Result ErrorValue RunResult × Cluster
tick =
    run_scheduled_snapshot_once store text_compare parse_doc (codes "now") (codes "20260101-030000")
      (codes "default") (codes " sch ") [] two_old

-- The new snapshot is retained, the two older ones of the schedule are pruned, newest first, and
-- the manual one stays.
tick_run : tick ≡ (ok pruned_result, tick.1)
unfolding run_scheduled_snapshot_once store text_compare pruned_result text_eq
tick_run = refl

tick_left : map (λ k. k.name) tick.1.snapshots ≡ some new_name ∷ some (codes "c") ∷ []
unfolding run_scheduled_snapshot_once store text_compare text_eq
tick_left = refl

phases :
    (is_in_progress_phase (codes "InProgress") ≡ true)
    × (is_in_progress_phase (codes "Succeeded") ≡ false)
    × (is_in_progress_phase (codes "Restarting") ≡ true)
unfolding is_in_progress_phase text_eq
phases = (refl, refl, refl)

crons :
    (validate_cron_expression (codes "0 3 * * *") ≡ none)
    × (validate_cron_expression (codes "0 3 * *") ≡ some not_five_fields)
    × (validate_cron_expression (codes "  ") ≡ some cron_required)
unfolding validate_cron_expression
crons = (refl, refl, refl)

-- Two machines whose names share their first 40 characters share the objects of their schedules.
shared_names :
    snapshot_schedule_object_names (codes "abcdefghijabcdefghijabcdefghijabcdefghij-one")
    ≡ snapshot_schedule_object_names (codes "abcdefghijabcdefghijabcdefghijabcdefghij-two")
unfolding snapshot_schedule_object_names
shared_names = refl

dns_label-IsDnsLabel_example : IsDnsLabel (dns_label sched (codes "My VM!"))
dns_label-IsDnsLabel_example = dns_label-IsDnsLabel sched (codes "My VM!") sched-IsDnsLabel

snapshot_schedule_object_names-AreObjectNames_example :
    AreObjectNames (snapshot_schedule_object_names (codes "web"))
snapshot_schedule_object_names-AreObjectNames_example =
    snapshot_schedule_object_names-AreObjectNames (codes "web")

run_scheduled_snapshot_once-TickOutcome_example :
    (doc : SnapshotScheduleDoc) × (read_doc parse_doc (store.read_config_map two_old) ≡ ok doc)
    × TickOutcome store text_compare
        (codes "now")
        (or_cluster (trim []))
        (trim (codes "default"))
        (trim (codes " sch "))
        (codes "20260101-030000")
        doc
        two_old
        pruned_result
        tick.1
run_scheduled_snapshot_once-TickOutcome_example =
    run_scheduled_snapshot_once-TickOutcome store text_compare parse_doc (codes "now")
      (codes "20260101-030000") (codes "default") (codes " sch ") [] two_old tick.1 pruned_result
      tick_run

abbrev one_busy : Cluster
one_busy = record {
  snapshots = snapshot (codes "a") (codes "1") (codes "InProgress") [] ∷ [];
  annotations = some ((codes "team", codes "lab") ∷ []);
}

abbrev vm_doc : SnapshotScheduleDoc
vm_doc = record {
  vm_name = codes "vm";
  enabled = true;
  cron = codes "0 3 * * *";
  retain = pos 1;
  failure_deadline = none;
  cron_job_name = [];
}

unfoldable busy_snapshot : VmSnapshotSummary
unfolding map_summary
busy_snapshot =
    map_summary (codes "cluster") (snapshot (codes "a") (codes "1") (codes "InProgress") [])

busy_listed :
    listing store text_compare
      (codes "now")
      (codes "cluster")
      (codes "default")
      (codes "sch")
      []
      vm_doc
      one_busy
    ≡ ok (busy_snapshot ∷ [])
unfolding listing store busy_snapshot text_eq
busy_listed = refl

busy_found : find is_in_flight (busy_snapshot ∷ []) ≡ some busy_snapshot
unfolding find is_in_flight busy_snapshot text_eq
busy_found = refl

team_other : IsOtherKey (codes "team")
team_other = record {
  not_run = λ e. cc e;
  not_success = λ e. cc e;
  not_snapshot = λ e. cc e;
  not_error = λ e. cc e;
  not_pruned = λ e. cc e;
}

-- The snapshots are as they were, and an annotation that is not of the status.
abbrev Same : Cluster → Type 0
Same s =
    (s.snapshots ≡ one_busy.snapshots)
    × (lookup (codes "team") (or_else s.annotations []) ≡ some (codes "lab"))

store_keeps :
    (before after : ConfigMap) (s : Cluster)
    → store.read_config_map s ≡ ok before
    → IsStatusChange before after
    → Same s
    → Same (store.replace_config_map after s).1
unfolding store
store_keeps before after s read change (snapshots, team) = (
  snapshots,
  change.same_annotations (codes "team") team_other
      ∙ ap (λ cm. lookup (codes "team") (or_else cm.annotations [])) (sym (ok_injective read))
      ∙ team,
)

one_busy-Same : Same one_busy
unfolding lookup text_eq
one_busy-Same = (refl, refl)

with_doc-survives_example :
    Same
      (with_doc store text_compare
        (codes "now")
        (codes "cluster")
        (codes "default")
        (codes "sch")
        []
        vm_doc
        one_busy).1
with_doc-survives_example =
    with_doc-survives store Same store_keeps text_compare (codes "now") (codes "cluster")
      (codes "default") (codes "sch") [] vm_doc one_busy (busy_snapshot ∷ []) busy_snapshot
      (inr (busy_listed, busy_found)) one_busy-Same
