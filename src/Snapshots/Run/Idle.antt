-- ===== src/Snapshots/Run/Idle.antt =====
-- The ticks of a schedule that make no snapshot, in scheduled-run.server.ts.
use kmc.Common.{
  ◌≡◌, refl, [], or_else, sym, ap, subst, ◌∙◌, ◌⊎◌, inl, inr, false, Bool-cases, some, List, find,
  Result, ok, err, Text,
}
use Prim.Native.Nat.{Ordering}
use kmc.Errors.{ErrorValue}
use kmc.Snapshots.Summaries.{VmSnapshotSummary}
use kmc.Snapshots.Schedules.{SnapshotScheduleDoc, ConfigMap}
use kmc.Snapshots.Status.{
  StatusPatch, disabled_patch, disabled_reason, busy_error, busy_reason, failed_patch, RunResult,
  is_in_flight, skipped_result,
}
use kmc.Snapshots.Status.Keys.{IsStatusChange, patched-other}
use kmc.Snapshots.Run.{Api, listing, patch_schedule_status, ending, with_existing, with_doc}
use kmc.Snapshots.Run.Ticks.{with_existing-busy, with_doc-on, with_doc-off}

module _ {S : Type 0} (api : Api S) (P : S → Type 0)
    (keeps : (before after : ConfigMap) (t : S)
      → api.read_config_map t ≡ ok before
      → IsStatusChange before after
      → P t
      → P (api.replace_config_map after t).1) where
  written :
      (m : Result ErrorValue ConfigMap) (f : ConfigMap → ConfigMap) (s : S)
      → api.read_config_map s ≡ m
      → ((cm : ConfigMap) → IsStatusChange cm (f cm))
      → P s
      → P
          (elim m as (λ _. Result ErrorValue (Unit {0}) × S) [
            | err e ↦ (err e, s)
            | ok cm ↦ api.replace_config_map (f cm) s
          ]).1
  written (err e) f s read change p = p
  written (ok cm) f s read change p = keeps cm (f cm) s read (change cm) p

  patch_schedule_status-survives :
      (name : Text) (patch : StatusPatch) (s : S)
      → P s
      → P (patch_schedule_status api name patch s).1
  unfolding patch_schedule_status
  patch_schedule_status-survives name patch s p =
      written (api.read_config_map s) _ s refl
        (λ cm. record {
          same_data = refl;
          same_labels = refl;
          same_version = refl;
          same_annotations = λ k other. patched-other patch k (or_else cm.annotations []) other;
        })
        p

  finished :
      (done : Result ErrorValue (Unit {0})) (q : Result ErrorValue RunResult) (t : S)
      → P t
      → P
          (elim done as (λ _. Result ErrorValue RunResult × S) [
            | ok _ ↦ (q, t)
            | err e ↦ (err e, t)
          ]).1
  finished (ok u) q t p = p
  finished (err e) q t p = p

  ending-survives :
      (name : Text) (patch : StatusPatch) (q : Result ErrorValue RunResult) (s : S)
      → P s
      → P (ending api name patch q s).1
  unfolding ending
  ending-survives name patch q s p =
      finished (patch_schedule_status api name patch s).0 q
        (patch_schedule_status api name patch s).1 (patch_schedule_status-survives name patch s p)

  -- A tick that finds its schedule disabled, or a snapshot of the machine in progress, touches
  -- nothing but the status. What survives the replacement of the ConfigMap by one that differs from
  -- it in the annotations of the status, and in the name, at most, survives the tick.
  pub with_doc-survives :
      (compare : Text → Text → Ordering) (now cluster_id namespace name suffix : Text)
      (doc : SnapshotScheduleDoc) (s : S) (existing : List VmSnapshotSummary)
      (busy : VmSnapshotSummary)
      → (doc.enabled ≡ false)
        ⊎ ((listing api compare now cluster_id namespace name suffix doc s ≡ ok existing)
            × (find is_in_flight existing ≡ some busy))
      → P s
      → P (with_doc api compare now cluster_id namespace name suffix doc s).1
  with_doc-survives compare now cluster_id namespace name suffix doc s existing busy why p =
      let off = λ (e : doc.enabled ≡ false).
        subst (λ q. P q.1)
          (sym (with_doc-off api compare now cluster_id namespace name suffix doc s e))
          (ending-survives name (disabled_patch now) (ok (skipped_result disabled_reason)) s p) in
      elim why [
        | inl e ↦ off e
        | inr (l, b) ↦ elim (Bool-cases doc.enabled) [
          | inr e ↦ off e
          | inl on ↦
              subst (λ q. P q.1)
                (sym (
                  with_doc-on api compare now cluster_id namespace name suffix doc s on
                  ∙ ap (λ x. with_existing api compare now cluster_id namespace name suffix doc x s)
                      l
                  ∙ with_existing-busy api compare now cluster_id namespace name suffix doc existing
                      s busy b))
                (ending-survives name (failed_patch now (busy_error busy))
                  (ok (skipped_result (busy_reason busy))) s p)
        ]
      ]
