-- ===== src/Snapshots/Status/Keys.antt =====
-- What a patch of a schedule's status leaves alone, in console/app/snapshots/scheduled-run.server.ts.
use kmc.Common.{
  ℕ, ◌≡◌, ◌≢◌, refl, ◌∙◌, false, Bool-cases, inl, inr, Option, none, some, [], ◌∷◌, or_else, Text,
  text_eq, text_eq_sound, Labels, insert, erase, lookup, lookup-insert, lookup-erase,
}
use kmc.Snapshots.Schedules.{
  ConfigMap, ann_last_run_at, ann_last_success_at, ann_last_snapshot, ann_last_error,
  ann_last_pruned,
}
use kmc.Snapshots.Status.{
  Change, unchanged, cleared, set, StatusPatch, patched, put_truthy, change_snapshot, change_text,
}

-- No annotation of the status has the key.
pub record IsOtherKey (k : Text) : Type 0 where
  pub not_run : ann_last_run_at ≢ k
  pub not_success : ann_last_success_at ≢ k
  pub not_snapshot : ann_last_snapshot ≢ k
  pub not_error : ann_last_error ≢ k
  pub not_pruned : ann_last_pruned ≢ k

-- The ConfigMaps differ in the annotations of the status at most, and in the name.
pub record IsStatusChange (before after : ConfigMap) : Type 0 where
  pub same_data : after.data_entries ≡ before.data_entries
  pub same_labels : after.labels ≡ before.labels
  pub same_version : after.resource_version ≡ before.resource_version
  pub same_annotations :
      (k : Text)
      → IsOtherKey k
      → lookup k (or_else after.annotations []) ≡ lookup k (or_else before.annotations [])

text_eq-other : (a b : Text) → a ≢ b → text_eq a b ≡ false
text_eq-other a b h = elim (Bool-cases (text_eq a b)) [
  | inl same ↦ absurd (h (text_eq_sound a b same))
  | inr other ↦ other
]

insert-other : (j k v : Text) (m : Labels) → j ≢ k → lookup k (insert j v m) ≡ lookup k m
insert-other j k v m h = lookup-insert j k v m ∙ rw (text_eq-other j k h) refl

erase-other : (j k : Text) (m : Labels) → j ≢ k → lookup k (erase j m) ≡ lookup k m
erase-other j k m h = lookup-erase j k m ∙ rw (text_eq-other j k h) refl

put_truthy-other :
    (j k : Text) (v : Option Text) (m : Labels) → j ≢ k → lookup k (put_truthy j v m) ≡ lookup k m
unfolding put_truthy
put_truthy-other j k none m h = refl
put_truthy-other j k (some []) m h = refl
put_truthy-other j k (some (c ∷ s)) m h = insert-other j k (c ∷ s) m h

change_text-other :
    (j k : Text) (limit : ℕ) (c : Change) (m : Labels)
    → j ≢ k
    → lookup k (change_text j limit c m) ≡ lookup k m
unfolding change_text
change_text-other j k limit unchanged m h = refl
change_text-other j k limit cleared m h = erase-other j k m h
change_text-other j k limit (set t) m h = insert-other j k _ m h

change_snapshot-other :
    (k : Text) (c : Change) (m : Labels)
    → ann_last_snapshot ≢ k
    → lookup k (change_snapshot c m) ≡ lookup k m
unfolding change_snapshot
change_snapshot-other k unchanged m h = refl
change_snapshot-other k cleared m h = erase-other ann_last_snapshot k m h
change_snapshot-other k (set []) m h = refl
change_snapshot-other k (set (c ∷ s)) m h = insert-other ann_last_snapshot k (c ∷ s) m h

pub patched-other :
    (p : StatusPatch) (k : Text) (m : Labels) → IsOtherKey k → lookup k (patched p m) ≡ lookup k m
unfolding patched
patched-other p k m other =
    change_text-other ann_last_pruned k 512 p.last_pruned _ other.not_pruned
    ∙ change_text-other ann_last_error k 1024 p.last_error _ other.not_error
    ∙ change_snapshot-other k p.last_snapshot _ other.not_snapshot
    ∙ put_truthy-other ann_last_success_at k p.last_success_at _ other.not_success
    ∙ put_truthy-other ann_last_run_at k p.last_run_at m other.not_run
