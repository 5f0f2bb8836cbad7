-- ===== src/Snapshots/Run/Endings.antt =====
-- The last part of a tick, in scheduled-run.server.ts.
use kmc.Common.{
  ◌≡◌, refl, sym, ap, subst, false, some, List, [], arith, Result, ok, err, ok_injective, Text,
  codes, ◌++◌,
}
use Prim.Native.Nat.{Ordering}
use kmc.Errors.{ErrorValue, format_error, caused}
use kmc.Snapshots.Summaries.{VmSnapshotSummary}
use kmc.Snapshots.Schedules.{SnapshotScheduleDoc}
use kmc.Snapshots.Status.{
  StatusPatch, failed_patch, success_patch, cleared, set, RunResult, created_result,
}
use kmc.Snapshots.Run.{
  Api, patch_schedule_status, ending, prune, excess_of, prune_and_end, fail_run,
}
use kmc.Snapshots.Run.Pruning.{IsSafePruning, prune-IsSafePruning}
use kmc.Snapshots.Run.Excess.{IsExcess, excess_of-IsExcess}

pub err≢ok :
    (e : ErrorValue) (r : RunResult) → ◌≡◌ {A = Result ErrorValue RunResult} (err e) (ok r) → ⊥
err≢ok e r h = ground arith

module _ {S : Type 0} (api : Api S) where
  after_patch :
      (done : Result ErrorValue (Unit {0})) (q : Result ErrorValue RunResult) (u t : S)
      (r : RunResult)
      → (elim done as (λ _. Result ErrorValue RunResult × S) [ ok _ ↦ (q, u) | err e ↦ (err e, u) ])
        ≡ (ok r, t)
      → (q ≡ ok r) × (t ≡ u)
  after_patch (ok _) q u t r h = (ap (λ p. p.0) h, sym (ap (λ p. p.1) h))
  after_patch (err e) q u t r h = absurd (err≢ok e r (ap (λ p. p.0) h))

  pub ending-ok :
      (name : Text) (patch : StatusPatch) (q : Result ErrorValue RunResult) (s t : S)
      (r : RunResult)
      → ending api name patch q s ≡ (ok r, t)
      → (q ≡ ok r) × (t ≡ (patch_schedule_status api name patch s).1)
  unfolding ending
  ending-ok name patch q s t r h =
      after_patch (patch_schedule_status api name patch s).0 q
        (patch_schedule_status api name patch s).1 t r h

module _ {S : Type 0} (api : Api S) (compare : Text → Text → Ordering) (now : Text) where
  pub fail_run-not_ok :
      (name : Text) (e : ErrorValue) (s t : S) (r : RunResult)
      → fail_run api compare now name e s ≡ (ok r, t)
      → ⊥
  unfolding fail_run
  fail_run-not_ok name e s t r h =
      err≢ok (caused (format_error e) e) r
        (ending-ok api name (failed_patch now (format_error e)) (err (caused (format_error e) e)) s
          t r h).0

  -- What follows a creation: the excess of the listing is pruned, or there is no listing, and the
  -- status is written.
  pub data Ending (name : Text) (doc : SnapshotScheduleDoc) (snapshot_name : Text)
      (listing : Result ErrorValue (List VmSnapshotSummary)) (s : S) (r : RunResult) (end : S)
      : Type 1 where
    with_excess :
        (after excess : List VmSnapshotSummary) (end_state : S)
        → listing ≡ ok after
        → r.skipped ≡ false
        → r.snapshot_name ≡ some snapshot_name
        → IsExcess compare name doc after excess
        → prune api excess s ≡ (r.pruned, end_state)
        → IsSafePruning api excess s r.pruned end_state
        → end
          ≡ (patch_schedule_status api name
              (success_patch now snapshot_name cleared r.pruned)
              end_state).1
        → Ending name doc snapshot_name listing s r end
    with_none :
        (e : ErrorValue)
        → listing ≡ err e
        → r.skipped ≡ false
        → r.snapshot_name ≡ some snapshot_name
        → r.pruned ≡ []
        → end
          ≡ (patch_schedule_status api name
              (success_patch now snapshot_name (set (codes "prune failed: " ++ format_error e)) [])
              s).1
        → Ending name doc snapshot_name listing s r end

  pub prune_and_end-Ending :
      (name : Text) (doc : SnapshotScheduleDoc) (snapshot_name : Text)
      (listing : Result ErrorValue (List VmSnapshotSummary)) (s t : S) (r : RunResult)
      → prune_and_end api compare now name doc snapshot_name listing s ≡ (ok r, t)
      → Ending name doc snapshot_name listing s r t
  unfolding prune_and_end created_result
  prune_and_end-Ending name doc snapshot_name (err e) s t r h =
      let patch =
        success_patch now snapshot_name (set (codes "prune failed: " ++ format_error e)) [] in
      let q = created_result snapshot_name [] in
      let (same, written) = ending-ok api name patch (ok q) s t r h in
      subst (λ r. Ending name doc snapshot_name (err e) s r t) {x = q} {y = r} (ok_injective same)
        (with_none e refl refl refl refl written)
  prune_and_end-Ending name doc snapshot_name (ok after) s t r h =
      let excess = excess_of api compare now name doc after in
      let pruned = (prune api excess s).0 in
      let q = created_result snapshot_name pruned in
      let (same, written) =
        ending-ok api name (success_patch now snapshot_name cleared pruned) (ok q)
          (prune api excess s).1 t r h in
      subst (λ r. Ending name doc snapshot_name (ok after) s r t) {x = q} {y = r}
        (ok_injective same)
        (with_excess after excess (prune api excess s).1 refl refl refl
          (excess_of-IsExcess compare api now name doc after) refl
          (prune-IsSafePruning api excess s) written)
