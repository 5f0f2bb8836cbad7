-- ===== src/Snapshots/Run/Ticks.antt =====
-- A whole tick of a schedule, in scheduled-run.server.ts.
use kmc.Common.{
  ◌≡◌, refl, sym, ap, subst, inl, inr, true, false, Bool-cases, Option, none, some, Option-cases,
  List, find, Result, ok, err, ok_injective, Text, truthy, trim,
}
use Prim.Native.Nat.{Ordering}
use kmc.Errors.{ErrorValue}
use kmc.Snapshots.Summaries.{VmSnapshotSummary}
use kmc.Snapshots.Schedules.{RawDoc, SnapshotScheduleDoc}
use kmc.Snapshots.Status.{
  StatusPatch, disabled_patch, disabled_reason, busy_error, busy_reason, failed_patch, RunResult,
  is_in_flight, skipped_result,
}
use kmc.Snapshots.Run.{
  Api, listing, ending, after_create, create_and_prune, with_existing, with_doc,
  run_scheduled_snapshot_once, read_doc, or_cluster, with_loaded, create,
}
use kmc.Snapshots.Run.Outcomes.{IsHeld, TickOutcome, was_held, was_pruned, was_unlisted}
use kmc.Snapshots.Run.Endings.{
  err≢ok, ending-ok, fail_run-not_ok, Ending, with_excess, with_none, prune_and_end-Ending,
}

module _ {S : Type 0} (api : Api S) (compare : Text → Text → Ordering) (now : Text) where
  module _ (cluster_id namespace name suffix : Text) (doc : SnapshotScheduleDoc) where
    -- The first two facts are of the tick, the others of what follows the creation.
    Ending-TickOutcome :
        (s t : S) (r : RunResult) (existing : List VmSnapshotSummary) (k : VmSnapshotSummary)
        → doc.enabled ≡ true
        → listing api compare now cluster_id namespace name suffix doc s ≡ ok existing
        → find is_in_flight existing ≡ none
        → (create api compare now cluster_id namespace name suffix doc s).0 ≡ ok k
        → Ending api compare now name doc k.name
            (listing api compare now cluster_id namespace name suffix doc
              (create api compare now cluster_id namespace name suffix doc s).1)
            (create api compare now cluster_id namespace name suffix doc s).1
            r
            t
        → TickOutcome api compare now cluster_id namespace name suffix doc s r t
    Ending-TickOutcome s t r existing k on before idle made
          (with_excess after excess u listed skip named e deleted safe written) =
        was_pruned on
          (record {
            existing = existing;
            listed_before = before;
            idle = idle;
            created = k;
            made = made;
            not_skipped = skip;
            named = named;
          })
          (record {
            after = after;
            listed_after = listed;
            excess = excess;
            is_excess = e;
            end_state = u;
            deleted = deleted;
            is_safe = safe;
            written = written;
          })
    Ending-TickOutcome s t r existing k on before idle made
          (with_none e failed skip named none_pruned written) =
        was_unlisted on
          (record {
            existing = existing;
            listed_before = before;
            idle = idle;
            created = k;
            made = made;
            not_skipped = skip;
            named = named;
          })
          (record { error = e; failed = failed; none_pruned = none_pruned; written = written })

    after_create-Ending :
        (created : Result ErrorValue VmSnapshotSummary) (s t : S) (r : RunResult)
        → after_create api compare now cluster_id namespace name suffix doc created s ≡ (ok r, t)
        → (k : VmSnapshotSummary) × (created ≡ ok k)
          × Ending api compare now name doc k.name
              (listing api compare now cluster_id namespace name suffix doc s)
              s
              r
              t
    unfolding after_create
    after_create-Ending (err e) s t r h = absurd (fail_run-not_ok api compare now name e s t r h)
    after_create-Ending (ok k) s t r h = (
      k,
      refl,
      prune_and_end-Ending api compare now name doc k.name
          (listing api compare now cluster_id namespace name suffix doc s) s t r h,
    )

    create_and_prune-TickOutcome :
        (s t : S) (r : RunResult) (existing : List VmSnapshotSummary)
        → doc.enabled ≡ true
        → listing api compare now cluster_id namespace name suffix doc s ≡ ok existing
        → find is_in_flight existing ≡ none
        → create_and_prune api compare now cluster_id namespace name suffix doc s ≡ (ok r, t)
        → TickOutcome api compare now cluster_id namespace name suffix doc s r t
    unfolding create_and_prune
    create_and_prune-TickOutcome s t r existing on before idle h =
        let (k, made, e) =
          after_create-Ending (create api compare now cluster_id namespace name suffix doc s).0
            (create api compare now cluster_id namespace name suffix doc s).1 t r h in
        Ending-TickOutcome s t r existing k on before idle made e

    held-TickOutcome :
        (patch : StatusPatch) (reason : Text) (s t : S) (r : RunResult)
        → IsHeld api compare now cluster_id namespace name suffix doc s r t patch
        → ending api name patch (ok (skipped_result reason)) s ≡ (ok r, t)
        → TickOutcome api compare now cluster_id namespace name suffix doc s r t
    unfolding skipped_result
    held-TickOutcome patch reason s t r held h =
        let (same, written) = ending-ok api name patch (ok (skipped_result reason)) s t r h in
        let e = ok_injective same in
        was_held patch held (sym (ap (λ q. q.skipped) e)) (sym (ap (λ q. q.snapshot_name) e))
          (sym (ap (λ q. q.pruned) e)) written

    with_existing-idle :
        (existing : List VmSnapshotSummary) (s : S)
        → find is_in_flight existing ≡ none
        → with_existing api compare now cluster_id namespace name suffix doc (ok existing) s
          ≡ create_and_prune api compare now cluster_id namespace name suffix doc s
    unfolding with_existing
    with_existing-idle existing s h = rw (h, with_existing) refl

    pub with_existing-busy :
        (existing : List VmSnapshotSummary) (s : S) (i : VmSnapshotSummary)
        → find is_in_flight existing ≡ some i
        → with_existing api compare now cluster_id namespace name suffix doc (ok existing) s
          ≡ ending api name
              (failed_patch now (busy_error i))
              (ok (skipped_result (busy_reason i)))
              s
    unfolding with_existing
    with_existing-busy existing s i h = rw (h, with_existing) refl

    pub with_doc-on :
        (s : S)
        → doc.enabled ≡ true
        → with_doc api compare now cluster_id namespace name suffix doc s
          ≡ with_existing api compare now cluster_id namespace name suffix doc
              (listing api compare now cluster_id namespace name suffix doc s)
              s
    unfolding with_doc
    with_doc-on s h = rw (h, with_doc) refl

    pub with_doc-off :
        (s : S)
        → doc.enabled ≡ false
        → with_doc api compare now cluster_id namespace name suffix doc s
          ≡ ending api name (disabled_patch now) (ok (skipped_result disabled_reason)) s
    unfolding with_doc
    with_doc-off s h = rw (h, with_doc) refl

    with_existing-TickOutcome :
        (before : Result ErrorValue (List VmSnapshotSummary)) (s t : S) (r : RunResult)
        → doc.enabled ≡ true
        → listing api compare now cluster_id namespace name suffix doc s ≡ before
        → with_existing api compare now cluster_id namespace name suffix doc before s ≡ (ok r, t)
        → TickOutcome api compare now cluster_id namespace name suffix doc s r t
    unfolding with_existing
    with_existing-TickOutcome (err e) s t r on l h =
        absurd (fail_run-not_ok api compare now name e s t r h)
    with_existing-TickOutcome (ok existing) s t r on l h =
        elim (Option-cases (find is_in_flight existing)) [
          | inl idle ↦
              create_and_prune-TickOutcome s t r existing on l idle
                (subst (λ q. q ≡ (ok r, t)) (with_existing-idle existing s idle) h)
          | inr (i, busy) ↦
              held-TickOutcome (failed_patch now (busy_error i)) (busy_reason i) s t r
                (inr (record { existing = existing; busy = i; listed = l; found = busy }, refl))
                (subst (λ q. q ≡ (ok r, t)) (with_existing-busy existing s i busy) h)
        ]

    with_doc-TickOutcome :
        (s t : S) (r : RunResult)
        → with_doc api compare now cluster_id namespace name suffix doc s ≡ (ok r, t)
        → TickOutcome api compare now cluster_id namespace name suffix doc s r t
    with_doc-TickOutcome s t r h = elim (Bool-cases doc.enabled) [
      | inl on ↦
          with_existing-TickOutcome (listing api compare now cluster_id namespace name suffix doc s)
            s t r on refl (subst (λ q. q ≡ (ok r, t)) (with_doc-on s on) h)
      | inr off ↦
          held-TickOutcome (disabled_patch now) disabled_reason s t r (inl (off, refl))
            (subst (λ q. q ≡ (ok r, t)) (with_doc-off s off) h)
    ]

module _ {S : Type 0} (api : Api S) (compare : Text → Text → Ordering)
    (parse : Text → Option RawDoc) (now suffix : Text) where
  with_loaded-TickOutcome :
      (ns name cluster : Text) (loaded : Result ErrorValue SnapshotScheduleDoc) (s t : S)
      (r : RunResult)
      → with_loaded api compare parse now suffix ns name cluster loaded s ≡ (ok r, t)
      → (doc : SnapshotScheduleDoc) × (loaded ≡ ok doc)
        × TickOutcome api compare now cluster ns name suffix doc s r t
  unfolding with_loaded
  with_loaded-TickOutcome ns name cluster (err e) s t r h = absurd (err≢ok _ r (ap (λ q. q.0) h))
  with_loaded-TickOutcome ns name cluster (ok doc) s t r h =
      (doc, refl, with_doc-TickOutcome api compare now cluster ns name suffix doc s t r h)

  -- What a tick that returns has done, with the document that the ConfigMap holds, and the state
  -- that it ends in. Either the schedule is disabled or a snapshot of the machine is in progress,
  -- and it skipped and wrote the status. Or it created a snapshot, which it names, then of the
  -- listing that follows it pruned only snapshots of this schedule, idle ones that stand, newest
  -- first, behind as many as are retained, at least one, and then wrote the status; or that listing
  -- failed and it pruned none and wrote the status with that failure.
  pub run_scheduled_snapshot_once-TickOutcome :
      (namespace config_map_name cluster_id : Text) (s t : S) (r : RunResult)
      → run_scheduled_snapshot_once api compare parse now suffix namespace config_map_name
          cluster_id s
        ≡ (ok r, t)
      → (doc : SnapshotScheduleDoc) × (read_doc parse (api.read_config_map s) ≡ ok doc)
        × TickOutcome api compare now
            (or_cluster (trim cluster_id))
            (trim namespace)
            (trim config_map_name)
            suffix
            doc
            s
            r
            t
  unfolding run_scheduled_snapshot_once
  run_scheduled_snapshot_once-TickOutcome namespace config_map_name cluster_id s t r h =
      elim (Bool-cases (truthy (trim namespace))) [
        | inl given ↦ elim (Bool-cases (truthy (trim config_map_name))) [
          | inl named ↦
              with_loaded-TickOutcome (trim namespace) (trim config_map_name)
                (or_cluster (trim cluster_id)) (read_doc parse (api.read_config_map s)) s t r
                (rw (given, named) at h)
          | inr blank ↦ absurd (err≢ok _ r (ap (λ q. q.0) (rw (given, blank) at h)))
        ]
        | inr blank ↦ absurd (err≢ok _ r (ap (λ q. q.0) (rw blank at h)))
      ]
