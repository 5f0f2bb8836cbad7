-- ===== src/Bulk/Running.antt =====
-- The run of a bulk action, in console/app/lib/bulk-action.ts.
use kmc.Common.{
  ℕ, suc, ◌+◌, ◌≡◌, ◌↔◌, refl, sym, ap, subst, ◌∙◌, ==_iff, Bool, true, Option, none, some, List,
  [], ◌∷◌, map, arith, ◌==◌, Result, ok, err, length, Text,
}
use kmc.Errors.{ErrorValue, format_error}

pub data ItemStatus : Type 0 where
  succeeded skipped failed : ItemStatus

pub record ItemResult : Type 0 where
  pub key : Text
  pub status : ItemStatus
  pub error : Option Text
  pub retained_disks : List Text

pub record Summary : Type 0 where
  pub total : ℕ
  pub succeeded : ℕ
  pub skipped : ℕ
  pub failed : ℕ

tally : ItemStatus → Summary → Summary
tally succeeded s = record s { succeeded = s.succeeded + 1 }
tally skipped s = record s { skipped = s.skipped + 1 }
tally failed s = record s { failed = s.failed + 1 }

-- The loop of `summarizeBulkResults`.
unfoldable pub summarize_from : Summary → List ItemResult → Summary
unfolding tally
summarize_from s [] = s
summarize_from s (r ∷ rs) = summarize_from (tally r.status s) rs

unfoldable pub summarize_bulk_results : List ItemResult → Summary
unfolding summarize_from
summarize_bulk_results results =
    summarize_from (record { total = length results; succeeded = 0; skipped = 0; failed = 0 })
      results

pub record BulkActionResult : Type 0 where
  pub ok : Bool
  pub intent : Text
  pub summary : Summary
  pub results : List ItemResult

unfoldable pub item_result : Text → Result ErrorValue (List Text) → ItemResult
unfolding format_error
item_result key (Result.ok disks) = record {
  key = key;
  status = succeeded;
  error = none;
  retained_disks = disks;
}
item_result key (Result.err e) = record {
  key = key;
  status = failed;
  error = some (format_error e);
  retained_disks = [];
}

-- `run` is the action on one target, over the state `S` of the world that it changes; its disks are
-- empty where the source has undefined.
module _ {T S : Type 0} (key_of : T → Text) (run : T → S → Result ErrorValue (List Text) × S) where
  unfoldable pub run_all : List T → S → List ItemResult × S
  unfolding item_result
  run_all [] s = ([], s)
  run_all (t ∷ ts) s =
      let (outcome, s') = run t s in
      let (rest, s'') = run_all ts s' in (item_result (key_of t) outcome ∷ rest, s'')

  unfoldable pub run_bulk_action : Text → List T → S → BulkActionResult × S
  unfolding run_all summarize_bulk_results
  run_bulk_action intent targets s =
      let (results, s') = run_all targets s in
      let summary = summarize_bulk_results results in
      (
        record { ok = summary.failed == 0; intent = intent; summary = summary; results = results },
        s',
      )

-- The count of results with a status, as an independent description.
is_status : ItemStatus → ItemStatus → ℕ
is_status succeeded succeeded = 1
is_status skipped skipped = 1
is_status failed failed = 1
is_status _ _ = 0

pub count_of : ItemStatus → List ItemResult → ℕ
unfolding is_status
count_of st [] = 0
count_of st (r ∷ rs) = is_status st r.status + count_of st rs

-- A summary that counts the results, each under one status.
pub record IsSummary (rs : List ItemResult) (s : Summary) : Type 0 where
  pub total : s.total ≡ length rs
  pub sum : s.succeeded + s.skipped + s.failed ≡ length rs
  pub succeeded_count : s.succeeded ≡ count_of succeeded rs
  pub skipped_count : s.skipped ≡ count_of skipped rs
  pub failed_count : s.failed ≡ count_of failed rs

pub record Grows (s s' : Summary) (rs : List ItemResult) : Type 0 where
  pub same_total : s'.total ≡ s.total
  pub all : s'.succeeded + s'.skipped + s'.failed ≡ s.succeeded + s.skipped + s.failed + length rs
  pub succeeded_more : s'.succeeded ≡ s.succeeded + count_of succeeded rs
  pub skipped_more : s'.skipped ≡ s.skipped + count_of skipped rs
  pub failed_more : s'.failed ≡ s.failed + count_of failed rs

-- One result counted.
tally-Grows :
    (st : ItemStatus) (r : ItemResult) (rs : List ItemResult) (s s' : Summary)
    → r.status ≡ st
    → Grows (tally st s) s' rs
    → Grows s s' (r ∷ rs)
unfolding tally count_of is_status
tally-Grows st r rs s s' e g = ground arith

summarize_from-Grows : (s : Summary) (rs : List ItemResult) → Grows s (summarize_from s rs) rs
unfolding summarize_from count_of
summarize_from-Grows s [] = omega arith
summarize_from-Grows s (r ∷ rs) =
    tally-Grows r.status r rs s _ refl (summarize_from-Grows (tally r.status s) rs)

-- The summary counts each result under its status, and the counts add up to the total.
summarize_bulk_results-IsSummary : (rs : List ItemResult) → IsSummary rs (summarize_bulk_results rs)
unfolding summarize_bulk_results
summarize_bulk_results-IsSummary rs =
    let g =
      summarize_from-Grows (record { total = length rs; succeeded = 0; skipped = 0; failed = 0 })
        rs in
    record {
      total = g.same_total;
      sum = omega (arith, g.all);
      succeeded_count = omega (arith, g.succeeded_more);
      skipped_count = omega (arith, g.skipped_more);
      failed_count = omega (arith, g.failed_more);
    }

-- The state after the action on every target in order.
module _ {T S : Type 0} (run : T → S → Result ErrorValue (List Text) × S) where
  unfoldable pub state_after : List T → S → S
  state_after [] s = s
  state_after (t ∷ ts) s = state_after ts (run t s).1

-- Whether the action on a target, run in a given state, failed.
abbrev is_failure : Result ErrorValue (List Text) → ℕ
is_failure (ok disks) = 0
is_failure (err e) = 1

module _ {T S : Type 0} (run : T → S → Result ErrorValue (List Text) × S) where
  unfoldable pub failures : List T → S → ℕ
  failures [] s = 0
  failures (t ∷ ts) s = is_failure (run t s).0 + failures ts (run t s).1

-- What the run of an action on targets promises.
pub record IsRun {T S : Type 0} (key_of : T → Text)
    (run : T → S → Result ErrorValue (List Text) × S) (targets : List T) (s : S)
    (r : BulkActionResult) (s' : S) : Type 0 where
  pub keys : map (λ i. i.key) r.results ≡ map key_of targets
  pub state : s' ≡ state_after run targets s
  pub summarized : IsSummary r.results r.summary
  pub failed_runs : r.summary.failed ≡ failures run targets s
  pub none_skipped : r.summary.skipped ≡ 0
  pub all_counted : r.summary.succeeded + r.summary.failed ≡ length targets
  pub ok_iff : r.ok ≡ true ↔ failures run targets s ≡ 0

item_result-key : (k : Text) (o : Result ErrorValue (List Text)) → (item_result k o).key ≡ k
unfolding item_result
item_result-key k (Result.ok disks) = refl
item_result-key k (Result.err e) = refl

item_result-failed :
    (k : Text) (o : Result ErrorValue (List Text))
    → is_status failed (item_result k o).status ≡ is_failure o
unfolding item_result is_status
item_result-failed k (Result.ok disks) = refl
item_result-failed k (Result.err e) = refl

item_result-skipped :
    (k : Text) (o : Result ErrorValue (List Text)) → is_status skipped (item_result k o).status ≡ 0
unfolding item_result is_status
item_result-skipped k (Result.ok disks) = refl
item_result-skipped k (Result.err e) = refl

module _ {T S : Type 0} (key_of : T → Text) (run : T → S → Result ErrorValue (List Text) × S) where
  run_all-keys :
      (ts : List T) (s : S) → map (λ i. i.key) (run_all key_of run ts s).0 ≡ map key_of ts
  unfolding run_all
  run_all-keys [] s = refl
  run_all-keys (t ∷ ts) s = cc (item_result-key (key_of t) (run t s).0, run_all-keys ts (run t s).1)

  run_all-state : (ts : List T) (s : S) → (run_all key_of run ts s).1 ≡ state_after run ts s
  unfolding run_all state_after
  run_all-state [] s = refl
  run_all-state (t ∷ ts) s = run_all-state ts (run t s).1

  run_all-length : (ts : List T) (s : S) → length (run_all key_of run ts s).0 ≡ length ts
  unfolding run_all
  run_all-length [] s = refl
  run_all-length (t ∷ ts) s = ap suc (run_all-length ts (run t s).1)

  run_all-failed :
      (ts : List T) (s : S) → count_of failed (run_all key_of run ts s).0 ≡ failures run ts s
  unfolding run_all count_of failures
  run_all-failed [] s = refl
  run_all-failed (t ∷ ts) s =
      omega (arith, item_result-failed (key_of t) (run t s).0, run_all-failed ts (run t s).1)

  run_all-skipped : (ts : List T) (s : S) → count_of skipped (run_all key_of run ts s).0 ≡ 0
  unfolding run_all count_of
  run_all-skipped [] s = refl
  run_all-skipped (t ∷ ts) s =
      omega (arith, item_result-skipped (key_of t) (run t s).0, run_all-skipped ts (run t s).1)

  -- A bulk action acts on every target in order, each in the state that the ones before it left,
  -- failed ones included; it has one result per target, in order, none of them skipped, and is ok
  -- exactly when the action failed on no target.
  pub run_bulk_action-IsRun :
      (intent : Text) (ts : List T) (s : S)
      → IsRun key_of run ts s
          (run_bulk_action key_of run intent ts s).0
          (run_bulk_action key_of run intent ts s).1
  unfolding run_bulk_action
  run_bulk_action-IsRun intent ts s =
      let rs = (run_all key_of run ts s).0 in
      let sum = summarize_bulk_results-IsSummary rs in
      let f = sum.failed_count ∙ run_all-failed ts s in
      record {
        keys = run_all-keys ts s;
        state = run_all-state ts s;
        summarized = sum;
        failed_runs = f;
        none_skipped = sum.skipped_count ∙ run_all-skipped ts s;
        all_counted =
            omega (arith, sum.sum, run_all-length ts s, sum.skipped_count, run_all-skipped ts s);
        ok_iff =
            subst (λ n. ((n == 0) ≡ true) ↔ (failures run ts s ≡ 0)) (sym f)
              (==_iff (failures run ts s) 0);
      }
