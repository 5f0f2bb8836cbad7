-- ===== src/Snapshots/Run/Pruning.antt =====
-- The loop over the excess, in scheduled-run.server.ts.
use kmc.Common.{
  ◌≤◌, ◌≡◌, refl, sym, ap, subst, ◌⊎◌, inl, inr, true, false, Bool-cases, List, [], ◌∷◌, ◌++◌,
  arith, length, All, In, Result, ok, err, Text,
}
use kmc.Errors.{ErrorValue}
use kmc.Snapshots.Summaries.{VmSnapshotSummary}
use kmc.Snapshots.Status.{is_in_flight}
use kmc.Snapshots.Run.{Api, prune_one, prune}

-- The name of a listed snapshot that is not in progress.
abbrev pub NamesIdle : List VmSnapshotSummary → Text → Type 0
NamesIdle snaps name =
    (snap : VmSnapshotSummary) × In snap snaps × (snap.name ≡ name) × (is_in_flight snap ≡ false)

weaken :
    (snap : VmSnapshotSummary) (snaps : List VmSnapshotSummary) (names : List Text)
    → All (NamesIdle snaps) names
    → All (NamesIdle (snap ∷ snaps)) names
weaken snap snaps [] h = tt
weaken snap snaps (n ∷ ns) ((k, i, e, idle), h) = ((k, inr i, e, idle), weaken snap snaps ns h)

-- Safety of a loop over snapshots: only idle ones among them are named, each at most once, and any
-- property of the cluster survives that survives the deletion of an idle one among them.
pub record IsSafePruning {S : Type 0} (api : Api S) (snaps : List VmSnapshotSummary) (s : S)
    (names : List Text) (s' : S) : Type 1 where
  pub only_idle : All (NamesIdle snaps) names
  pub at_most : length names ≤ length snaps
  pub survives :
      (P : S → Type 0)
      → ((snap : VmSnapshotSummary) (t : S)
          → In snap snaps
          → is_in_flight snap ≡ false
          → P t
          → P (api.delete_snapshot snap.name t).1)
      → P s
      → P s'

module _ {S : Type 0} (api : Api S) where
  prune-skip :
      (snap : VmSnapshotSummary) (rest : List VmSnapshotSummary) (s : S)
      → is_in_flight snap ≡ true
      → prune api (snap ∷ rest) s ≡ prune api rest s
  unfolding prune
  prune-skip snap rest s h = rw (h, prune) refl

  prune-delete :
      (snap : VmSnapshotSummary) (rest : List VmSnapshotSummary) (s : S)
      → is_in_flight snap ≡ false
      → prune api (snap ∷ rest) s ≡ (
        (prune_one api snap.name s).0 ++ (prune api rest (prune_one api snap.name s).1).0,
        (prune api rest (prune_one api snap.name s).1).1,
      )
  unfolding prune
  prune-delete snap rest s h = rw (h, prune) refl

  -- The two outcomes of a deletion.
  ended :
      (name : Text) (done : Result ErrorValue (Unit {0})) (t : S) (e : List Text × S)
      → e ≡ elim done [ ok _ ↦ (name ∷ [], t) | err x ↦ ([], t) ]
      → (e.1 ≡ t) × ((e.0 ≡ []) ⊎ (e.0 ≡ name ∷ []))
  ended name (ok u) t e h = (ap (λ p. p.1) h, inr (ap (λ p. p.0) h))
  ended name (err x) t e h = (ap (λ p. p.1) h, inl (ap (λ p. p.0) h))

  prune_one-ended :
      (name : Text) (s : S)
      → ((prune_one api name s).1 ≡ (api.delete_snapshot name s).1)
        × (((prune_one api name s).0 ≡ []) ⊎ ((prune_one api name s).0 ≡ name ∷ []))
  unfolding prune_one
  prune_one-ended name s =
      ended name (api.delete_snapshot name s).0 (api.delete_snapshot name s).1 _ refl

  skip-IsSafePruning :
      (snap : VmSnapshotSummary) (rest : List VmSnapshotSummary) (s s' : S) (names : List Text)
      → IsSafePruning api rest s names s'
      → IsSafePruning api (snap ∷ rest) s names s'
  skip-IsSafePruning snap rest s s' names safe = record {
    only_idle = weaken snap rest names safe.only_idle;
    at_most = omega (arith, safe.at_most);
    survives = λ P keeps p. safe.survives P (λ k t i. keeps k t (inr i)) p;
  }

  delete-IsSafePruning :
      (snap : VmSnapshotSummary) (rest : List VmSnapshotSummary) (s t s' : S)
      (here names : List Text)
      → is_in_flight snap ≡ false
      → t ≡ (api.delete_snapshot snap.name s).1
      → (here ≡ []) ⊎ (here ≡ snap.name ∷ [])
      → IsSafePruning api rest t names s'
      → IsSafePruning api (snap ∷ rest) s (here ++ names) s'
  delete-IsSafePruning snap rest s t s' here names idle st one safe = record {
    only_idle = elim one [
      | inl e ↦ rw e (weaken snap rest names safe.only_idle)
      | inr e ↦ rw e ((snap, inl refl, refl, idle), weaken snap rest names safe.only_idle)
    ];
    at_most = elim one [
      | inl e ↦ rw e (omega (arith, safe.at_most))
      | inr e ↦ rw e (omega (arith, safe.at_most))
    ];
    survives = λ P keeps p.
        safe.survives P (λ k u i. keeps k u (inr i))
          (subst P (sym st) (keeps snap s (inl refl) idle p));
  }

  prune-nil : (s : S) → prune api [] s ≡ ([], s)
  unfolding prune
  prune-nil s = refl

  pub prune-IsSafePruning :
      (snaps : List VmSnapshotSummary) (s : S)
      → IsSafePruning api snaps s (prune api snaps s).0 (prune api snaps s).1
  prune-IsSafePruning [] s =
      rw (prune-nil s) (record { only_idle = tt; at_most = omega arith; survives = λ P keeps p. p })
  prune-IsSafePruning (snap ∷ rest) s = elim (Bool-cases (is_in_flight snap)) [
    | inl busy ↦
        rw (prune-skip snap rest s busy)
          (skip-IsSafePruning snap rest s _ _ (prune-IsSafePruning rest s))
    | inr idle ↦
        let (st, one) = prune_one-ended snap.name s in
        let t = (prune_one api snap.name s).1 in
        rw (prune-delete snap rest s idle)
          (delete-IsSafePruning snap rest s t _ _ _ idle st one (prune-IsSafePruning rest t))
  ]
