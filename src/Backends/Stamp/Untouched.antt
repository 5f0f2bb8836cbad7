-- ===== src/Backends/Stamp/Untouched.antt =====
-- What the stamps of console/app/backends/stamp.server.ts leave alone.
use kmc.Common.{Bool-cases, inl, inr, Option, none, some, List, [], ◌∷◌, ◌++◌, Result-cases, Text}
use kmc.Backends.Stamp.{
  KubeVm, VmApi, is_not_found, attempt, set_backend_group_label, unstamp_backend_group, roll_back,
  stamp_one, stamp_each, stamp_backend_group, checked,
}
use kmc.Backends.Stamp.Members.{set_backend_group_label-keeps}

-- A predicate that holds after every write of a machine.
abbrev pub Survives : {S : Type 0} → VmApi S → (S → Type 0) → Type 0
Survives {S} api Q = (n : Text) (vm : KubeVm) (s : S) → Q s → Q (api.replace_vm n vm s).1

module _ {S : Type 0} (api : VmApi S) (Q : S → Type 0) (survives : Survives api Q) where
  attempt-Survives : (group : Option Text) (n : Text) (s : S) → Q s → Q (attempt api group n s).1
  unfolding attempt
  attempt-Survives group n s h = elim (Result-cases (api.fetch_vm n s)) [
    | inl (vm, q) ↦ rw (q, attempt) (survives n _ s h)
    | inr (e, q) ↦ rw (q, attempt) h
  ]

  set_backend_group_label-Survives :
      (group : Option Text) (n : Text) (s : S) → Q s → Q (set_backend_group_label api group n s).1
  set_backend_group_label-Survives group n s h =
      set_backend_group_label-keeps api group n Q s h (attempt-Survives group n)

  pub unstamp_backend_group-Survives :
      (names : List Text) (s : S) → Q s → Q (unstamp_backend_group api names s).1
  unfolding unstamp_backend_group
  unstamp_backend_group-Survives [] s h = h
  unstamp_backend_group-Survives (n ∷ names) s h =
      let here = set_backend_group_label-Survives none n s h in
      let more =
        unstamp_backend_group-Survives names (set_backend_group_label api none n s).1 here in
      elim (Result-cases (set_backend_group_label api none n s).0) [
        | inl (_, q) ↦ rw (q, unstamp_backend_group) more
        | inr (e, q) ↦ elim (Bool-cases (is_not_found e)) [
          | inl missing ↦ rw (q, missing, unstamp_backend_group) more
          | inr other ↦ rw (q, other, unstamp_backend_group) here
        ]
      ]

  roll_back-Survives : (names : List Text) (s : S) → Q s → Q (roll_back api names s)
  unfolding roll_back
  roll_back-Survives [] s h = h
  roll_back-Survives (n ∷ names) s h =
      roll_back-Survives names (set_backend_group_label api none n s).1
        (set_backend_group_label-Survives none n s h)

  module _ (namespace group : Text) where
    stamp_one-Survives : (n : Text) (s : S) → Q s → Q (stamp_one api namespace group n s).1
    unfolding stamp_one
    stamp_one-Survives n s h = elim (Result-cases (checked api namespace n (api.fetch_vm n s))) [
      | inl (_, q) ↦ rw (q, stamp_one) (set_backend_group_label-Survives (some group) n s h)
      | inr (e, q) ↦ rw (q, stamp_one) h
    ]

    stamp_each-Survives :
        (done names : List Text) (s : S) → Q s → Q (stamp_each api namespace group done names s).1
    unfolding stamp_each
    stamp_each-Survives done [] s h = h
    stamp_each-Survives done (n ∷ names) s h =
        let here = stamp_one-Survives n s h in
        let t = (stamp_one api namespace group n s).1 in
        elim (Result-cases (stamp_one api namespace group n s).0) [
          | inl (_, q) ↦ rw (q, stamp_each) (stamp_each-Survives (done ++ n ∷ []) names t here)
          | inr (e, q) ↦ rw (q, stamp_each) (roll_back-Survives done t here)
        ]

    pub stamp_backend_group-Survives :
        (names : List Text) (s : S) → Q s → Q (stamp_backend_group api namespace group names s).1
    unfolding stamp_backend_group
    stamp_backend_group-Survives names s h = stamp_each-Survives [] names s h
