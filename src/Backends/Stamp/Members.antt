-- ===== src/Backends/Stamp/Members.antt =====
-- The stamp of one member, in stamp.server.ts.
use kmc.Common.{
  ◌≡◌, ◌≢◌, refl, sym, ap, subst, ◌∙◌, ◌⊎◌, inl, inr, true, false, Bool-cases, Option, some, List,
  [], ◌∷◌, ◌++◌, arith, or_else, Result, ok, err, Text, truthy, text_eq, text_eq_iff, text_eq_refl,
  Labels, lookup, lookup-insert,
}
use kmc.Errors.{ErrorValue}
use kmc.Backends.Membership.{label_backend_group}
use kmc.Backends.Stamp.{
  KubeVm, VmApi, is_conflict, relabelled, stamped_vm, attempt, retried, tried,
  set_backend_group_label, roll_back, checked, stamp_one, stamp_each,
}

-- What the API promises: a machine that is written is read back with its labels, and a write,
-- accepted or refused, changes no other machine.
pub record IsStore {S : Type 0} (api : VmApi S) : Type 0 where
  pub read_back :
      (n : Text) (v : KubeVm) (s : S)
      → (api.replace_vm n v s).0 ≡ ok tt
      → (w : KubeVm) × (api.fetch_vm n (api.replace_vm n v s).1 ≡ ok w)
        × (w.labels ≡ v.labels)
        × (w.template_labels ≡ v.template_labels)
  pub others :
      (n m : Text) (v : KubeVm) (s : S)
      → m ≢ n
      → api.fetch_vm m (api.replace_vm n v s).1 ≡ api.fetch_vm m s

-- A machine with a group's label on itself and on its pods.
abbrev pub Carries : {S : Type 0} → VmApi S → Text → S → Text → Type 0
Carries api group s name =
    (vm : KubeVm) × (api.fetch_vm name s ≡ ok vm)
    × (lookup label_backend_group (or_else vm.labels []) ≡ some group)
    × (lookup label_backend_group (or_else vm.template_labels []) ≡ some group)

lookup-relabelled :
    (group : Text) (ls : Labels)
    → truthy group ≡ true
    → lookup label_backend_group (relabelled (some group) ls) ≡ some group
unfolding relabelled
lookup-relabelled [] ls h = cc
lookup-relabelled (c ∷ g) ls h =
    rw
      (
        lookup-insert label_backend_group label_backend_group (c ∷ g) ls,
        text_eq_refl label_backend_group,
      )
      refl

text_ne : (m n : Text) → text_eq m n ≡ false → m ≢ n
text_ne m n h e = ground (arith, text_eq_iff m n)

pub Result-cases :
    {A : Type 0} (r : Result ErrorValue A)
    → ((e : ErrorValue) × (r ≡ err e)) ⊎ ((a : A) × (r ≡ ok a))
Result-cases (err e) = inl (e, refl)
Result-cases (ok a) = inr (a, refl)

pub err≢ok : {e : ErrorValue} → ◌≡◌ {A = Result ErrorValue (Unit {0})} (err e) (ok tt) → ⊥
err≢ok h = ground arith

module _ {S : Type 0} (api : VmApi S) where
  attempt-missing :
      (group : Option Text) (n : Text) (s : S) (e : ErrorValue)
      → api.fetch_vm n s ≡ err e
      → attempt api group n s ≡ (err e, s)
  unfolding attempt
  attempt-missing group n s e h = rw (h, attempt) refl

  attempt-found :
      (group : Option Text) (n : Text) (s : S) (vm : KubeVm)
      → api.fetch_vm n s ≡ ok vm
      → attempt api group n s ≡ api.replace_vm n (stamped_vm group vm) s
  unfolding attempt
  attempt-found group n s vm h = rw (h, attempt) refl

  module _ (store : IsStore api) where
    replace-Carries :
        (group n : Text) (vm : KubeVm) (s : S)
        → truthy group ≡ true
        → (api.replace_vm n (stamped_vm (some group) vm) s).0 ≡ ok tt
        → Carries api group (api.replace_vm n (stamped_vm (some group) vm) s).1 n
    unfolding stamped_vm
    replace-Carries group n vm s g h =
        let (w, read, ls, ts) = store.read_back n (stamped_vm (some group) vm) s h in
        (
          w,
          read,
          rw ls (lookup-relabelled group (or_else vm.labels []) g),
          rw ts (lookup-relabelled group (or_else vm.template_labels []) g),
        )

    attempt-Carries :
        (group n : Text) (s : S)
        → truthy group ≡ true
        → (attempt api (some group) n s).0 ≡ ok tt
        → Carries api group (attempt api (some group) n s).1 n
    attempt-Carries group n s g h = elim (Result-cases (api.fetch_vm n s)) [
      | inl (e, missing) ↦
          absurd (err≢ok (sym (ap (λ p. p.0) (attempt-missing (some group) n s e missing)) ∙ h))
      | inr (vm, found) ↦
          let q = attempt-found (some group) n s vm found in
          subst (λ p. Carries api group p.1 n) (sym q)
            (replace-Carries group n vm s g (sym (ap (λ p. p.0) q) ∙ h))
    ]

    attempt-others :
        (group : Option Text) (n m : Text) (s : S)
        → m ≢ n
        → api.fetch_vm m (attempt api group n s).1 ≡ api.fetch_vm m s
    attempt-others group n m s ne = elim (Result-cases (api.fetch_vm n s)) [
      | inl (e, missing) ↦ rw (attempt-missing group n s e missing) refl
      | inr (vm, found) ↦
          rw (attempt-found group n s vm found) (store.others n m (stamped_vm group vm) s ne)
    ]

module _ {S : Type 0} (api : VmApi S) (group : Option Text) (n : Text) where
  retried-state : (q : Result ErrorValue (Unit {0}) × S) → (retried api n q).1 ≡ q.1
  unfolding retried
  retried-state (ok u, s) = refl
  retried-state (err e, s) = refl

  retried-ok : (q : Result ErrorValue (Unit {0}) × S) → (retried api n q).0 ≡ ok tt → q.0 ≡ ok tt
  unfolding retried
  retried-ok (ok u, s) h = refl
  retried-ok (err e, s) h = absurd (err≢ok h)

  -- A success of the two attempts is one of an attempt.
  tried-ok :
      (P : S → Type 0) (q : Result ErrorValue (Unit {0}) × S)
      → (q.0 ≡ ok tt → P q.1)
      → ((t : S) → (attempt api group n t).0 ≡ ok tt → P (attempt api group n t).1)
      → (tried api group n q).0 ≡ ok tt
      → P (tried api group n q).1
  unfolding tried
  tried-ok P (ok u, s) first second h = first refl
  tried-ok P (err e, s) first second h = elim (Bool-cases (is_conflict e)) [
    | inl conflict ↦
        let q = attempt api group n s in
        rw conflict (subst P (sym (retried-state q)) (second s (retried-ok q (rw conflict at h))))
    | inr other ↦ absurd (err≢ok (rw other at h))
  ]

  -- What every attempt keeps is kept.
  tried-keeps :
      (Q : S → Type 0) (q : Result ErrorValue (Unit {0}) × S)
      → Q q.1
      → ((t : S) → Q t → Q (attempt api group n t).1)
      → Q (tried api group n q).1
  unfolding tried
  tried-keeps Q (ok u, s) start keeps = start
  tried-keeps Q (err e, s) start keeps = elim (Bool-cases (is_conflict e)) [
    | inl conflict ↦
        rw conflict (subst Q (sym (retried-state (attempt api group n s))) (keeps s start))
    | inr other ↦ rw other start
  ]

  pub set_backend_group_label-keeps :
      (Q : S → Type 0) (s : S)
      → Q s
      → ((t : S) → Q t → Q (attempt api group n t).1)
      → Q (set_backend_group_label api group n s).1
  unfolding set_backend_group_label
  set_backend_group_label-keeps Q s start keeps =
      tried-keeps Q (attempt api group n s) (keeps s start) keeps

module _ {S : Type 0} (api : VmApi S) (store : IsStore api) where
  set_backend_group_label-Carries :
      (group n : Text) (s : S)
      → truthy group ≡ true
      → (set_backend_group_label api (some group) n s).0 ≡ ok tt
      → Carries api group (set_backend_group_label api (some group) n s).1 n
  unfolding set_backend_group_label
  set_backend_group_label-Carries group n s g h =
      tried-ok api (some group) n (λ t. Carries api group t n) (attempt api (some group) n s)
        (attempt-Carries api store group n s g) (λ t. attempt-Carries api store group n t g) h

  pub set_backend_group_label-others :
      (group : Option Text) (n m : Text) (s : S)
      → m ≢ n
      → api.fetch_vm m (set_backend_group_label api group n s).1 ≡ api.fetch_vm m s
  unfolding set_backend_group_label
  set_backend_group_label-others group n m s ne =
      tried-keeps api group n (λ t. api.fetch_vm m t ≡ api.fetch_vm m s) (attempt api group n s)
        (attempt-others api store group n m s ne)
        (λ t e. attempt-others api store group n m t ne ∙ e)

  module _ (namespace group : Text) where
    stamp_one-absent :
        (n : Text) (s : S) (e : ErrorValue)
        → checked api namespace n (api.fetch_vm n s) ≡ err e
        → stamp_one api namespace group n s ≡ (err e, s)
    unfolding stamp_one
    stamp_one-absent n s e h = rw (h, stamp_one) refl

    stamp_one-present :
        (n : Text) (s : S) (u : Unit {0})
        → checked api namespace n (api.fetch_vm n s) ≡ ok u
        → stamp_one api namespace group n s ≡ set_backend_group_label api (some group) n s
    unfolding stamp_one
    stamp_one-present n s u h = rw (h, stamp_one) refl

    pub stamp_one-Carries :
        (n : Text) (s : S)
        → truthy group ≡ true
        → (stamp_one api namespace group n s).0 ≡ ok tt
        → Carries api group (stamp_one api namespace group n s).1 n
    stamp_one-Carries n s g h = elim (Result-cases (checked api namespace n (api.fetch_vm n s))) [
      | inl (e, absent) ↦ absurd (err≢ok (sym (ap (λ p. p.0) (stamp_one-absent n s e absent)) ∙ h))
      | inr (u, present) ↦
          let q = stamp_one-present n s u present in
          subst (λ p. Carries api group p.1 n) (sym q)
            (set_backend_group_label-Carries group n s g (sym (ap (λ p. p.0) q) ∙ h))
    ]

    pub stamp_one-others :
        (n m : Text) (s : S)
        → m ≢ n
        → api.fetch_vm m (stamp_one api namespace group n s).1 ≡ api.fetch_vm m s
    stamp_one-others n m s ne = elim (Result-cases (checked api namespace n (api.fetch_vm n s))) [
      | inl (e, absent) ↦ rw (stamp_one-absent n s e absent) refl
      | inr (u, present) ↦
          rw (stamp_one-present n s u present)
            (set_backend_group_label-others (some group) n m s ne)
    ]

    -- A label that is there stays when another member, or the same, is stamped.
    pub stamp_one-keeps :
        (n m : Text) (s : S)
        → truthy group ≡ true
        → (stamp_one api namespace group n s).0 ≡ ok tt
        → Carries api group s m
        → Carries api group (stamp_one api namespace group n s).1 m
    stamp_one-keeps n m s g h (vm, read, ls, ts) = elim (Bool-cases (text_eq m n)) [
      | inl same ↦
          subst (Carries api group (stamp_one api namespace group n s).1)
            (sym ((text_eq_iff m n).0 same)) (stamp_one-Carries n s g h)
      | inr other ↦ (vm, stamp_one-others n m s (text_ne m n other) ∙ read, ls, ts)
    ]

    pub stamp_each-step :
        (stamped rest : List Text) (n : Text) (s : S)
        → (stamp_one api namespace group n s).0 ≡ ok tt
        → stamp_each api namespace group stamped (n ∷ rest) s
          ≡ stamp_each api namespace group
              (stamped ++ n ∷ [])
              rest
              (stamp_one api namespace group n s).1
    unfolding stamp_each
    stamp_each-step stamped rest n s h = rw (h, stamp_each) refl

    pub stamp_each-stop :
        (stamped rest : List Text) (n : Text) (s : S) (e : ErrorValue)
        → (stamp_one api namespace group n s).0 ≡ err e
        → stamp_each api namespace group stamped (n ∷ rest) s
          ≡ (err e, roll_back api stamped (stamp_one api namespace group n s).1)
    unfolding stamp_each
    stamp_each-stop stamped rest n s e h = rw (h, stamp_each) refl
