-- ===== src/Snapshots/Run/Excess.antt =====
-- The excess of a schedule, in scheduled-run.server.ts.
use kmc.Common.{
  ℕ, zero, suc, ◌+◌, ◌≡◌, refl, ap, subst, ◌∙◌, inl, inr, Bool, true, Bool-cases, some,
  Option-cases, List, [], ◌∷◌, ◌++◌, arith, keep, take, drop, length, min, In, Text, text_eq_sound,
}
use Prim.Native.Nat.{Ordering}
use kmc.Snapshots.Summaries.{VmSnapshotSummary, newer_first, insert_newest, sort_newest}
use kmc.Snapshots.Schedules.{SnapshotScheduleDoc, max_one}
use kmc.Snapshots.Run.{Api, is_scheduled_by, excess_of}

insert_newest-length :
    (compare : Text → Text → Ordering) (a : VmSnapshotSummary) (bs : List VmSnapshotSummary)
    → length (insert_newest compare a bs) ≡ suc (length bs)
unfolding insert_newest
insert_newest-length compare a [] = refl
insert_newest-length compare a (b ∷ bs) = elim (Bool-cases (newer_first compare a b)) [
  | inl first ↦ rw first refl
  | inr later ↦ rw later (ap suc (insert_newest-length compare a bs))
]

sort_newest-length :
    (compare : Text → Text → Ordering) (as' : List VmSnapshotSummary)
    → length (sort_newest compare as') ≡ length as'
unfolding sort_newest
sort_newest-length compare [] = refl
sort_newest-length compare (a ∷ as') =
    insert_newest-length compare a (sort_newest compare as')
    ∙ ap suc (sort_newest-length compare as')

insert_newest-In :
    (compare : Text → Text → Ordering) (a k : VmSnapshotSummary) (bs : List VmSnapshotSummary)
    → In k (insert_newest compare a bs)
    → In k (a ∷ bs)
unfolding insert_newest
insert_newest-In compare a k [] i = i
insert_newest-In compare a k (b ∷ bs) i = elim (Bool-cases (newer_first compare a b)) [
  | inl first ↦ rw first at i
  | inr later ↦ elim (rw later at i) [
    | inl e ↦ inr (inl e)
    | inr j ↦ elim (insert_newest-In compare a k bs j) [ inl e ↦ inl e | inr j' ↦ inr (inr j') ]
  ]
]

sort_newest-In :
    (compare : Text → Text → Ordering) (k : VmSnapshotSummary) (as' : List VmSnapshotSummary)
    → In k (sort_newest compare as')
    → In k as'
unfolding sort_newest
sort_newest-In compare k [] i = i
sort_newest-In compare k (a ∷ as') i =
    elim (insert_newest-In compare a k (sort_newest compare as') i) [
      | inl e ↦ inl e
      | inr j ↦ inr (sort_newest-In compare k as' j)
    ]

module _ {A : Type 0} where
  drop-In : (n : ℕ) (k : A) (xs : List A) → In k (drop n xs) → In k xs
  drop-In zero k xs i = i
  drop-In (suc n) k [] i = i
  drop-In (suc n) k (x ∷ xs) i = inr (drop-In n k xs i)

  take-drop_eq : (n : ℕ) (xs : List A) → take n xs ++ drop n xs ≡ xs
  take-drop_eq zero xs = refl
  take-drop_eq (suc n) [] = refl
  take-drop_eq (suc n) (x ∷ xs) = ap (λ r. x ∷ r) (take-drop_eq n xs)

  drop-length : (n : ℕ) (xs : List A) → length (drop n xs) + min n (length xs) ≡ length xs
  drop-length zero xs = omega arith
  drop-length (suc n) [] = omega arith
  drop-length (suc n) (x ∷ xs) = omega (arith, drop-length n xs)

  keep-In : (p : A → Bool) (k : A) (xs : List A) → In k (keep p xs) → In k xs × (p k ≡ true)
  unfolding keep
  keep-In p k [] i = absurd i
  keep-In p k (x ∷ xs) i = elim (Bool-cases (p x)) [
    | inl kept ↦ elim (rw kept at i) [
      | inl e ↦ (inl e, ap p e ∙ kept)
      | inr j ↦ let (j', pk) = keep-In p k xs j in (inr j', pk)
    ]
    | inr left ↦ let (j, pk) = keep-In p k xs (rw left at i) in (inr j, pk)
  ]

is_scheduled_by-eq :
    (name : Text) (s : VmSnapshotSummary)
    → is_scheduled_by name s ≡ true
    → s.schedule_name ≡ some name
unfolding is_scheduled_by
is_scheduled_by-eq name s h = elim (Option-cases s.schedule_name) [
  | inl e ↦ absurd (ground arith)
  | inr (n, e) ↦ e ∙ ap some (text_eq_sound n name (rw e at h))
]

-- What a schedule may prune of a listing: the snapshots of its own that stand, newest first, behind
-- as many as it retains, at least one.
pub record IsExcess (compare : Text → Text → Ordering) (config_map_name : Text)
    (doc : SnapshotScheduleDoc) (after excess : List VmSnapshotSummary) : Type 0 where
  pub own :
      (snap : VmSnapshotSummary)
      → In snap excess
      → In snap after × (snap.schedule_name ≡ some config_map_name)
  pub behind :
      take (max_one doc.retain) (sort_newest compare (keep (is_scheduled_by config_map_name) after))
        ++ excess
      ≡ sort_newest compare (keep (is_scheduled_by config_map_name) after)
  pub retained :
      length excess
        + min (max_one doc.retain) (length (keep (is_scheduled_by config_map_name) after))
      ≡ length (keep (is_scheduled_by config_map_name) after)

pub excess_of-IsExcess :
    (compare : Text → Text → Ordering) {S : Type 0} (api : Api S) (now config_map_name : Text)
    (doc : SnapshotScheduleDoc) (after : List VmSnapshotSummary)
    → IsExcess compare config_map_name doc after
        (excess_of api compare now config_map_name doc after)
unfolding excess_of
excess_of-IsExcess compare api now name doc after =
    let own = keep (is_scheduled_by name) after in
    let sorted = sort_newest compare own in
    record {
      own = λ snap i.
          let (j, p) =
            keep-In (is_scheduled_by name) snap after
              (sort_newest-In compare snap own (drop-In (max_one doc.retain) snap sorted i)) in
          (j, is_scheduled_by-eq name snap p);
      behind = take-drop_eq (max_one doc.retain) sorted;
      retained =
          subst (λ n. length (drop (max_one doc.retain) sorted) + min (max_one doc.retain) n ≡ n)
            (sort_newest-length compare own) (drop-length (max_one doc.retain) sorted);
    }
