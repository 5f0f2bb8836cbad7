-- ===== src/Snapshots/Run/Outcomes.antt =====
-- The outcomes of a tick, in scheduled-run.server.ts.
use kmc.Common.{◌≡◌, ◌⊎◌, true, false, none, some, List, [], find, ok, err, Text, codes, ◌++◌}
use Prim.Native.Nat.{Ordering}
use kmc.Snapshots.Summaries.{VmSnapshotSummary}
use kmc.Snapshots.Schedules.{SnapshotScheduleDoc}
use kmc.Snapshots.Status.{
  RunResult, is_in_flight, StatusPatch, disabled_patch, failed_patch, success_patch, busy_error,
  cleared, set,
}
use kmc.Errors.{ErrorValue, format_error}
use kmc.Snapshots.Run.{Api, patch_schedule_status, listing, prune, create}
use kmc.Snapshots.Run.Pruning.{IsSafePruning}
use kmc.Snapshots.Run.Excess.{IsExcess}

module _ {S : Type 0} (api : Api S) (compare : Text → Text → Ordering)
    (now cluster_id namespace name suffix : Text) (doc : SnapshotScheduleDoc) (s : S)
    (r : RunResult) (end : S) where
  -- No snapshot of the machine was in progress, one was created, and the tick names it.
  pub record Created : Type 0 where
    pub existing : List VmSnapshotSummary
    pub listed_before : listing api compare now cluster_id namespace name suffix doc s ≡ ok existing
    pub idle : find is_in_flight existing ≡ none
    pub created : VmSnapshotSummary
    pub made : (create api compare now cluster_id namespace name suffix doc s).0 ≡ ok created
    pub not_skipped : r.skipped ≡ false
    pub named : r.snapshot_name ≡ some created.name

  -- The excess of the listing that follows the creation was pruned, and then the status written.
  pub record Pruned (snapshot_name : Text) : Type 1 where
    pub after : List VmSnapshotSummary
    pub listed_after :
        listing api compare now cluster_id namespace name suffix doc
          (create api compare now cluster_id namespace name suffix doc s).1
        ≡ ok after
    pub excess : List VmSnapshotSummary
    pub is_excess : IsExcess compare name doc after excess
    pub end_state : S
    pub deleted :
        prune api excess (create api compare now cluster_id namespace name suffix doc s).1
        ≡ (r.pruned, end_state)
    pub is_safe :
        IsSafePruning api excess
          (create api compare now cluster_id namespace name suffix doc s).1
          r.pruned
          end_state
    pub written :
        end
        ≡ (patch_schedule_status api name
            (success_patch now snapshot_name cleared r.pruned)
            end_state).1

  -- The listing that follows the creation failed, which the status records.
  pub record Unlisted (snapshot_name : Text) : Type 0 where
    pub error : ErrorValue
    pub failed :
        listing api compare now cluster_id namespace name suffix doc
          (create api compare now cluster_id namespace name suffix doc s).1
        ≡ err error
    pub none_pruned : r.pruned ≡ []
    pub written :
        end
        ≡ (patch_schedule_status api name
            (success_patch now snapshot_name
              (set (codes "prune failed: " ++ format_error error))
              [])
            (create api compare now cluster_id namespace name suffix doc s).1).1

  -- A snapshot of the machine is in progress.
  pub record IsBusy : Type 0 where
    pub existing : List VmSnapshotSummary
    pub busy : VmSnapshotSummary
    pub listed : listing api compare now cluster_id namespace name suffix doc s ≡ ok existing
    pub found : find is_in_flight existing ≡ some busy

  -- Why the tick skipped, and the status that it wrote.
  abbrev pub IsHeld : StatusPatch → Type 0
  IsHeld patch =
      ((doc.enabled ≡ false) × (patch ≡ disabled_patch now))
      ⊎ ((b : IsBusy) × (patch ≡ failed_patch now (busy_error b.busy)))

  pub data TickOutcome : Type 1 where
    was_held :
        (patch : StatusPatch)
        → IsHeld patch
        → r.skipped ≡ true
        → r.snapshot_name ≡ none
        → r.pruned ≡ []
        → end ≡ (patch_schedule_status api name patch s).1
        → TickOutcome
    was_pruned : doc.enabled ≡ true → (c : Created) → Pruned c.created.name → TickOutcome
    was_unlisted : doc.enabled ≡ true → (c : Created) → Unlisted c.created.name → TickOutcome
