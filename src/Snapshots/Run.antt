-- ===== src/Snapshots/Run.antt =====
-- One tick of a schedule, in console/app/snapshots/scheduled-run.server.ts. The cluster is a state
-- `S`; the calls of its API are the fields of `Api`, for the namespace and the ConfigMap of the run.
pub mod Pruning
pub mod Excess
pub mod Outcomes
pub mod Endings
pub mod Ticks
pub mod Idle
mod Tests
use kmc.Common.{
  ℕ, Bool, true, false, not, ◌&&◌, ◌||◌, Option, none, some, List, [], ◌∷◌, ◌++◌, if◌then◌else◌,
  or_else, keep, find, Result, ok, err, drop, take, Text, codes, truthy, trim, text_eq, has,
  includes, to_lower, join, Labels, lookup, insert, erase,
}
use Prim.Native.Nat.{Ordering}
use kmc.Errors.{ErrorValue, format_error, plain_error, caused}
use kmc.Snapshots.Summaries.{
  KubeVmSnapshot, VmSnapshotSummary, map_summary, sort_newest, list_vm_snapshots_with_client,
}
use kmc.Snapshots.Creation.{SnapshotBody, CreateInput, create_vm_snapshot_with_client_body}
use kmc.Snapshots.Schedules.{
  RawDoc, SnapshotScheduleDoc, ConfigMap, parse_snapshot_schedule_doc, data_key, max_one,
  ann_last_run_at, ann_last_success_at, ann_last_snapshot, ann_last_error, ann_last_pruned,
}
use kmc.Snapshots.Status.{
  Change, unchanged, cleared, set, StatusPatch, patched, is_in_progress_phase, is_in_flight,
  RunResult, failed_patch, disabled_patch, pruned_change, success_patch, skipped_result,
  created_result, disabled_reason, busy_error, busy_reason,
}

pub record Api (S : Type 0) : Type 0 where
  pub read_config_map : S → Result ErrorValue ConfigMap
  pub replace_config_map : ConfigMap → S → Result ErrorValue (Unit {0}) × S
  pub list_snapshots : S → Result ErrorValue (List KubeVmSnapshot)
  pub create_snapshot : SnapshotBody → S → Result ErrorValue KubeVmSnapshot × S
  pub delete_snapshot : Text → S → Result ErrorValue (Unit {0}) × S

pub is_scheduled_by : Text → VmSnapshotSummary → Bool
unfolding text_eq
is_scheduled_by name s = elim s.schedule_name [ none ↦ false | some n ↦ text_eq n name ]

module _ {S : Type 0} (api : Api S) where
  -- `patchScheduleStatus`
  unfoldable pub patch_schedule_status : Text → StatusPatch → S → Result ErrorValue (Unit {0}) × S
  unfolding patched
  patch_schedule_status config_map_name patch s = elim (api.read_config_map s) [
    | err e ↦ (err e, s)
    | ok cm ↦
        api.replace_config_map
          (record cm {
            name = some config_map_name;
            annotations = some (patched patch (or_else cm.annotations []));
          })
          s
  ]

  -- `await patchScheduleStatus(…)` before the run ends with `r`.
  unfoldable pub ending :
      Text → StatusPatch → Result ErrorValue RunResult → S → Result ErrorValue RunResult × S
  unfolding patch_schedule_status
  ending config_map_name patch r s =
      let (done, s') = patch_schedule_status config_map_name patch s in
      elim done [ ok _ ↦ (r, s') | err e ↦ (err e, s') ]

  -- `deleteVmSnapshotWithClient`; the runner only prints its error.
  unfoldable pub prune_one : Text → S → List Text × S
  prune_one name s =
      let (done, s') = api.delete_snapshot name s in
      elim done [ ok _ ↦ (name ∷ [], s') | err e ↦ ([], s') ]

  -- The loop over the excess.
  unfoldable pub prune : List VmSnapshotSummary → S → List Text × S
  unfolding is_in_flight prune_one
  prune [] s = ([], s)
  prune (snap ∷ rest) s = elim (is_in_flight snap) [
    | true ↦ prune rest s
    | false ↦
        let (here, s') = prune_one snap.name s in
        let (names, s'') = prune rest s' in (here ++ names, s'')
  ]

  module _ (locale_compare : Text → Text → Ordering) (now : Text) where
    -- What is pruned, of a listing made after the creation.
    unfoldable pub excess_of :
        Text → SnapshotScheduleDoc → List VmSnapshotSummary → List VmSnapshotSummary
    unfolding sort_newest keep is_scheduled_by
    excess_of config_map_name doc after =
        drop (max_one doc.retain)
          (sort_newest locale_compare (keep (is_scheduled_by config_map_name) after))

    unfoldable pub prune_and_end :
        Text
        → SnapshotScheduleDoc
        → Text
        → Result ErrorValue (List VmSnapshotSummary)
        → S
        → Result ErrorValue RunResult × S
    unfolding prune excess_of ending created_result format_error
    prune_and_end config_map_name doc name (err e) s =
        ending config_map_name
          (success_patch now name (set (codes "prune failed: " ++ format_error e)) [])
          (ok (created_result name [])) s
    prune_and_end config_map_name doc name (ok after) s =
        let (pruned, s') = prune (excess_of config_map_name doc after) s in
        ending config_map_name (success_patch now name cleared pruned)
          (ok (created_result name pruned)) s'

    -- A failure that is recorded and thrown again.
    unfoldable pub fail_run : Text → ErrorValue → S → Result ErrorValue RunResult × S
    unfolding ending format_error
    fail_run config_map_name e s =
        ending config_map_name (failed_patch now (format_error e)) (err (caused (format_error e) e))
          s

    module _ (cluster_id namespace config_map_name : Text) (suffix : Text) where
      pub listing : SnapshotScheduleDoc → S → Result ErrorValue (List VmSnapshotSummary)
      unfolding list_vm_snapshots_with_client
      listing doc s =
          list_vm_snapshots_with_client locale_compare cluster_id namespace (some doc.vm_name)
            (api.list_snapshots s)

      posted : Result ErrorValue SnapshotBody → S → Result ErrorValue VmSnapshotSummary × S
      unfolding map_summary format_error
      posted (err e) s = (err e, s)
      posted (ok body) s =
          let (created, s') = api.create_snapshot body s in
          elim created [
            | err e ↦ (err (caused (format_error e) e), s')
            | ok k ↦ (ok (map_summary cluster_id k), s')
          ]

      -- `createVmSnapshotWithClient`
      unfoldable pub create : SnapshotScheduleDoc → S → Result ErrorValue VmSnapshotSummary × S
      unfolding posted create_vm_snapshot_with_client_body
      create doc s =
          posted
            (create_vm_snapshot_with_client_body suffix
              (record {
                cluster = cluster_id;
                namespace = namespace;
                vm_name = doc.vm_name;
                name = none;
                failure_deadline = doc.failure_deadline;
                schedule_name = some config_map_name;
              })
              config_map_name)
            s

      unfoldable pub after_create :
          SnapshotScheduleDoc
          → Result ErrorValue VmSnapshotSummary
          → S
          → Result ErrorValue RunResult × S
      unfolding listing prune_and_end fail_run
      after_create doc (err e) s = fail_run config_map_name e s
      after_create doc (ok created) s =
          prune_and_end config_map_name doc created.name (listing doc s) s

      unfoldable pub create_and_prune : SnapshotScheduleDoc → S → Result ErrorValue RunResult × S
      unfolding create after_create
      create_and_prune doc s = let (created, s') = create doc s in after_create doc created s'

      unfoldable pub with_existing :
          SnapshotScheduleDoc
          → Result ErrorValue (List VmSnapshotSummary)
          → S
          → Result ErrorValue RunResult × S
      unfolding create_and_prune fail_run ending is_in_flight find skipped_result
      with_existing doc (err e) s = fail_run config_map_name e s
      with_existing doc (ok existing) s = elim (find is_in_flight existing) [
        | none ↦ create_and_prune doc s
        | some inflight ↦
            ending config_map_name (failed_patch now (busy_error inflight))
              (ok (skipped_result (busy_reason inflight))) s
      ]

      unfoldable pub with_doc : SnapshotScheduleDoc → S → Result ErrorValue RunResult × S
      unfolding with_existing listing ending skipped_result
      with_doc doc s = elim doc.enabled [
        | false ↦
            ending config_map_name (disabled_patch now) (ok (skipped_result disabled_reason)) s
        | true ↦ with_existing doc (listing doc s) s
      ]

load_failure : Text → Text → ErrorValue → ErrorValue
unfolding format_error
load_failure namespace config_map_name e =
    caused
      (codes "Failed to load schedule "
        ++ (namespace ++ b'/' ∷ (config_map_name ++ (codes ": " ++ format_error e))))
      e

module _ (parse : Text → Option RawDoc) where
  pub read_doc : Result ErrorValue ConfigMap → Result ErrorValue SnapshotScheduleDoc
  unfolding parse_snapshot_schedule_doc lookup
  read_doc (err e) = err e
  read_doc (ok cm) =
      elim (parse_snapshot_schedule_doc parse (lookup data_key (or_else cm.data_entries []))) [
        | none ↦ err (plain_error (codes "schedule.json missing or invalid"))
        | some doc ↦ ok doc
      ]

pub or_cluster : Text → Text
or_cluster [] = codes "cluster"
or_cluster (c ∷ s) = c ∷ s

-- `now` and `suffix` are the time of the call, and `cluster_id` is empty when it is not given.
module _ {S : Type 0} (api : Api S) (locale_compare : Text → Text → Ordering)
    (parse : Text → Option RawDoc) (now suffix : Text) where
  unfoldable pub with_loaded :
      Text
      → Text
      → Text
      → Result ErrorValue SnapshotScheduleDoc
      → S
      → Result ErrorValue RunResult × S
  unfolding with_doc load_failure
  with_loaded ns name cluster (err e) s = (err (load_failure ns name e), s)
  with_loaded ns name cluster (ok doc) s =
      with_doc api locale_compare now cluster ns name suffix doc s

  unfoldable pub run_scheduled_snapshot_once :
      Text → Text → Text → S → Result ErrorValue RunResult × S
  unfolding with_loaded read_doc or_cluster trim
  run_scheduled_snapshot_once namespace config_map_name cluster_id s =
      let ns = trim namespace in
      let name = trim config_map_name in
      if not (truthy ns)
      then (err (plain_error (codes "namespace is required")), s)
      else (if not (truthy name)
          then (err (plain_error (codes "configMapName is required")), s)
          else with_loaded ns name (or_cluster (trim cluster_id))
              (read_doc parse (api.read_config_map s)) s)
