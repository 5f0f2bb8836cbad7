-- ===== src/Snapshots/Status.antt =====
-- The status of a schedule, the phases of its snapshots and the result of a run, in
-- console/app/snapshots/scheduled-run.server.ts.
pub mod Keys
use kmc.Common.{
  ℕ, Bool, true, false, not, ◌&&◌, ◌||◌, Option, none, some, List, [], ◌∷◌, ◌++◌, take, Text, codes,
  truthy, trim, text_eq, has, includes, to_lower, join, Labels, insert, erase,
}
use kmc.Snapshots.Summaries.{VmSnapshotSummary}
use kmc.Snapshots.Schedules.{
  ann_last_run_at, ann_last_success_at, ann_last_snapshot, ann_last_error, ann_last_pruned,
}

-- A field of a patch: undefined, null or a string.
pub data Change : Type 0 where
  unchanged : Change
  cleared : Change
  set : Text → Change

pub record StatusPatch : Type 0 where
  pub last_run_at : Option Text
  pub last_success_at : Option Text
  pub last_snapshot : Change
  pub last_error : Change
  pub last_pruned : Change

put_truthy : Text → Option Text → Labels → Labels
unfolding insert
put_truthy key none ann = ann
put_truthy key (some []) ann = ann
put_truthy key (some (c ∷ s)) ann = insert key (c ∷ s) ann

change_snapshot : Change → Labels → Labels
unfolding insert erase
change_snapshot unchanged ann = ann
change_snapshot cleared ann = erase ann_last_snapshot ann
change_snapshot (set []) ann = ann
change_snapshot (set (c ∷ s)) ann = insert ann_last_snapshot (c ∷ s) ann

change_text : Text → ℕ → Change → Labels → Labels
unfolding insert erase
change_text key limit unchanged ann = ann
change_text key limit cleared ann = erase key ann
change_text key limit (set t) ann = insert key (take limit t) ann

unfoldable pub patched : StatusPatch → Labels → Labels
unfolding put_truthy change_snapshot change_text
patched p ann = change_text ann_last_pruned 512 p.last_pruned (
    change_text ann_last_error 1024 p.last_error (
      change_snapshot p.last_snapshot (
        put_truthy ann_last_success_at p.last_success_at
          (put_truthy ann_last_run_at p.last_run_at ann))))

-- The white space is trimmed first; a terminal phase is never in progress.
unfoldable pub is_in_progress_phase : Text → Bool
unfolding text_eq to_lower trim includes has
is_in_progress_phase phase =
    let p = trim phase in
    let low = to_lower p in
    truthy p
    && not (
        text_eq p (codes "Succeeded")
        || text_eq p (codes "Failed")
        || text_eq p (codes "Ready")
        || text_eq low (codes "succeeded"))
    && (has (codes "InProgress" ∷ codes "Creating" ∷ codes "Pending" ∷ []) p
        || includes (codes "progress") low
        || includes (codes "creat") low
        || includes (codes "pend") low
        || includes (codes "start") low)

unfoldable pub is_in_flight : VmSnapshotSummary → Bool
unfolding is_in_progress_phase
is_in_flight s = not s.ready_to_use && is_in_progress_phase s.phase

pub record RunResult : Type 0 where
  pub skipped : Bool
  pub reason : Option Text
  pub snapshot_name : Option Text
  pub pruned : List Text

-- The patches of the run's branches.
abbrev pub failed_patch : Text → Text → StatusPatch
failed_patch now message = record {
  last_run_at = some now;
  last_success_at = none;
  last_snapshot = unchanged;
  last_error = set message;
  last_pruned = unchanged;
}

abbrev pub disabled_patch : Text → StatusPatch
disabled_patch now = record {
  last_run_at = some now;
  last_success_at = none;
  last_snapshot = unchanged;
  last_error = cleared;
  last_pruned = unchanged;
}

-- `pruned.length ? pruned.join(",") : null`
abbrev pub pruned_change : List Text → Change
unfolding join
pruned_change [] = cleared
pruned_change (p ∷ ps) = set (join (b',' ∷ []) (p ∷ ps))

abbrev pub success_patch : Text → Text → Change → List Text → StatusPatch
success_patch now name error pruned = record {
  last_run_at = some now;
  last_success_at = some now;
  last_snapshot = set name;
  last_error = error;
  last_pruned = pruned_change pruned;
}

unfoldable pub skipped_result : Text → RunResult
skipped_result reason = record {
  skipped = true;
  reason = some reason;
  snapshot_name = none;
  pruned = [];
}

abbrev pub disabled_reason : Text
disabled_reason = codes "schedule disabled"

abbrev pub busy_error : VmSnapshotSummary → Text
busy_error inflight =
    codes "skipped: snapshot "
    ++ (inflight.name ++ (codes " still in progress (phase=" ++ (inflight.phase ++ codes ")")))

abbrev pub busy_reason : VmSnapshotSummary → Text
busy_reason inflight = codes "in-progress snapshot " ++ inflight.name

unfoldable pub created_result : Text → List Text → RunResult
created_result name pruned = record {
  skipped = false;
  reason = none;
  snapshot_name = some name;
  pruned = pruned;
}
