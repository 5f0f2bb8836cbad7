-- ===== src/Snapshots/Schedules.antt =====
-- The policy document of a schedule and its checks, in
-- console/app/snapshots/schedules.server.ts and console/app/snapshots/schedule-constants.ts.
use kmc.Common.{
  ℕ, suc, Bool, true, false, not, ◌||◌, Option, none, some, [], ◌∷◌, if◌then◌else◌, or_else, Text,
  codes, truthy, trim, trimmed, is_space, length, ltb, ◌==◌, max, Labels, lookup,
}
use kmc.Snapshots.Names.{ObjectNames, snapshot_schedule_object_names}

-- Integers, as of `Math.trunc`.
pub data ℤ : Type 0 where
  pos : ℕ → ℤ
  negsuc : ℕ → ℤ

abbrev pub retain_min : ℕ
retain_min = 1

abbrev pub retain_max : ℕ
retain_max = 30

-- `Math.max(1, n)`
abbrev pub max_one : ℤ → ℕ
max_one (pos n) = max 1 n
max_one (negsuc n) = 1

-- The number of maximal runs without white space; the flag says that the character before is in one.
unfoldable pub fields_from : Bool → Text → ℕ
unfolding is_space
fields_from inside [] = 0
fields_from inside (c ∷ s) =
    let new = fields_from true s in
    let gap = fields_from false s in if is_space c then gap else (if inside then new else suc new)

pub data CronError : Type 0 where
  cron_required : CronError
  not_five_fields : CronError
  cron_too_long : CronError

-- Trimmed text matches `CRON_5_FIELD` exactly when it has five runs.
unfoldable pub validate_cron_expression : Text → Option CronError
unfolding trim fields_from
validate_cron_expression cron =
    let c = trim cron in
    if not (truthy c)
    then some cron_required
    else (if not (fields_from false c == 5)
        then some not_five_fields
        else (if ltb 128 (length c) then some cron_too_long else none))

pub data RetainError : Type 0 where
  not_an_integer : RetainError
  out_of_bounds : RetainError

-- `none` stands for a number that is no integer.
unfoldable pub validate_retain : Option ℤ → Option RetainError
validate_retain none = some not_an_integer
validate_retain (some (negsuc n)) = some out_of_bounds
validate_retain (some (pos n)) =
    if ltb n retain_min || ltb retain_max n then some out_of_bounds else none

-- The fields of the document in JSON; `retain` is `Math.trunc(Number(doc.retain))`, none when that
-- is not finite.
pub record RawDoc : Type 0 where
  pub vm_name : Option Text
  pub enabled : Option Bool
  pub cron : Option Text
  pub retain : Option ℤ
  pub failure_deadline : Option Text
  pub cron_job_name : Option Text

pub record SnapshotScheduleDoc : Type 0 where
  pub vm_name : Text
  pub enabled : Bool
  pub cron : Text
  pub retain : ℤ
  pub failure_deadline : Option Text
  pub cron_job_name : Text

schedule_doc : RawDoc → Option Text → Option Text → Option ℤ → Option SnapshotScheduleDoc
unfolding trimmed
schedule_doc d none cron retain = none
schedule_doc d (some vm_name) none retain = none
schedule_doc d (some vm_name) (some cron) none = none
schedule_doc d (some vm_name) (some cron) (some retain) = some (record {
  vm_name = vm_name;
  enabled = or_else d.enabled true;
  cron = cron;
  retain = retain;
  failure_deadline = trimmed d.failure_deadline;
  cron_job_name = or_else (trimmed d.cron_job_name) [];
})

doc_of : Option RawDoc → Option SnapshotScheduleDoc
unfolding schedule_doc trimmed
doc_of none = none
doc_of (some d) = schedule_doc d (trimmed d.vm_name) (trimmed d.cron) d.retain

pub record ConfigMap : Type 0 where
  pub name : Option Text
  pub labels : Option Labels
  pub annotations : Option Labels
  pub data_entries : Option Labels
  pub resource_version : Option Text

abbrev pub data_key : Text
data_key = codes "schedule.json"

abbrev pub ann_last_run_at : Text
ann_last_run_at = codes "kmc.ianunruh.com/last-run-at"

abbrev pub ann_last_success_at : Text
ann_last_success_at = codes "kmc.ianunruh.com/last-success-at"

abbrev pub ann_last_snapshot : Text
ann_last_snapshot = codes "kmc.ianunruh.com/last-snapshot"

abbrev pub ann_last_error : Text
ann_last_error = codes "kmc.ianunruh.com/last-error"

abbrev pub ann_last_pruned : Text
ann_last_pruned = codes "kmc.ianunruh.com/last-pruned"

pub record VmSnapshotScheduleSummary : Type 0 where
  pub cluster : Text
  pub namespace : Text
  pub name : Text
  pub vm_name : Text
  pub enabled : Bool
  pub cron : Text
  pub retain : ℤ
  pub failure_deadline : Option Text
  pub cron_job_name : Text
  pub last_run_at : Option Text
  pub last_success_at : Option Text
  pub last_snapshot : Option Text
  pub last_error : Option Text
  pub last_pruned : Option Text

job_name : Text → ObjectNames → Text
job_name [] names = names.cron_job
job_name (c ∷ s) names = c ∷ s

schedule_summary : Text → Text → Text → SnapshotScheduleDoc → Labels → VmSnapshotScheduleSummary
unfolding job_name snapshot_schedule_object_names lookup trimmed
schedule_summary cluster namespace name doc ann = record {
  cluster = cluster;
  namespace = namespace;
  name = name;
  vm_name = doc.vm_name;
  enabled = doc.enabled;
  cron = doc.cron;
  retain = doc.retain;
  failure_deadline = doc.failure_deadline;
  cron_job_name = job_name doc.cron_job_name (snapshot_schedule_object_names doc.vm_name);
  last_run_at = trimmed (lookup ann_last_run_at ann);
  last_success_at = trimmed (lookup ann_last_success_at ann);
  last_snapshot = trimmed (lookup ann_last_snapshot ann);
  last_error = trimmed (lookup ann_last_error ann);
  last_pruned = trimmed (lookup ann_last_pruned ann);
}

-- `parse` is `JSON.parse` into the fields, `none` when it throws or a field that is trimmed is no
-- string.
module _ (parse : Text → Option RawDoc) where
  unfoldable pub parse_snapshot_schedule_doc : Option Text → Option SnapshotScheduleDoc
  unfolding doc_of trimmed trim
  parse_snapshot_schedule_doc none = none
  parse_snapshot_schedule_doc (some raw) = if truthy (trim raw) then doc_of (parse raw) else none

  -- `mapSummary` of a ConfigMap.
  unfoldable pub map_schedule_summary : Text → Text → ConfigMap → Option VmSnapshotScheduleSummary
  unfolding parse_snapshot_schedule_doc schedule_summary trimmed lookup
  map_schedule_summary cluster namespace cm = elim (trimmed cm.name) [
    | none ↦ none
    | some name ↦
        elim (parse_snapshot_schedule_doc (lookup data_key (or_else cm.data_entries []))) [
          | none ↦ none
          | some doc ↦
              some (schedule_summary cluster namespace name doc (or_else cm.annotations []))
        ]
  ]
