-- ===== src/Backends/Stamp/Groups.antt =====
-- The stamp of a whole group, in stamp.server.ts.
use kmc.Common.{
  ◌≡◌, ◌≢◌, refl, sym, ap, subst, ◌∙◌, inl, inr, true, none, List, [], ◌∷◌, ◌++◌, ok, All,
  All-append, Text, truthy,
}
use kmc.Backends.Stamp.{
  VmApi, set_backend_group_label, roll_back, stamp_one, stamp_each, stamp_backend_group,
}
use kmc.Backends.Stamp.Members.{
  IsStore, Carries, err≢ok, Result-cases, set_backend_group_label-others, stamp_one-Carries,
  stamp_one-others, stamp_one-keeps, stamp_each-step, stamp_each-stop,
}

-- The name is none of the names.
abbrev pub IsOutside : Text → List Text → Type 0
IsOutside m = All (λ n. m ≢ n)

module _ {S : Type 0} (api : VmApi S) (store : IsStore api) where
  roll_back-others :
      (m : Text) (names : List Text) (s : S)
      → IsOutside m names
      → api.fetch_vm m (roll_back api names s) ≡ api.fetch_vm m s
  unfolding roll_back
  roll_back-others m [] s h = refl
  roll_back-others m (n ∷ names) s (ne, h) =
      roll_back-others m names (set_backend_group_label api none n s).1 h
      ∙ set_backend_group_label-others api store none n m s ne

  -- Labels of before are kept, and the given members have one.
  abbrev Reaches : Text → S → List Text → S → Type 0
  Reaches group s names t =
      ((m : Text) → Carries api group s m → Carries api group t m) × All (Carries api group t) names

  module _ (namespace group : Text) where
    stamp_each-Carries :
        (stamped rest : List Text) (s : S)
        → truthy group ≡ true
        → (stamp_each api namespace group stamped rest s).0 ≡ ok tt
        → Reaches group s rest (stamp_each api namespace group stamped rest s).1
    unfolding stamp_each
    stamp_each-Carries stamped [] s g h = (λ m c. c, tt)
    stamp_each-Carries stamped (n ∷ rest) s g h =
        elim (Result-cases (stamp_one api namespace group n s).0) [
          | inl (e, bad) ↦ absurd (
              err≢ok (
                sym
                  (ap (λ p. p.0) (stamp_each-stop api store namespace group stamped rest n s e bad))
                ∙ h))
          | inr (u, good) ↦
              let step = stamp_each-step api store namespace group stamped rest n s good in
              let (kept, all) =
                stamp_each-Carries (stamped ++ n ∷ []) rest (stamp_one api namespace group n s).1 g
                  (sym (ap (λ p. p.0) step) ∙ h) in
              subst (λ p. Reaches group s (n ∷ rest) p.1) (sym step)
                (
                  λ m c. kept m (stamp_one-keeps api store namespace group n m s g good c),
                  (kept n (stamp_one-Carries api store namespace group n s g good), all),
                )
        ]

    stamp_each-others :
        (m : Text) (stamped rest : List Text) (s : S)
        → IsOutside m stamped
        → IsOutside m rest
        → api.fetch_vm m (stamp_each api namespace group stamped rest s).1 ≡ api.fetch_vm m s
    unfolding stamp_each
    stamp_each-others m stamped [] s out all = refl
    stamp_each-others m stamped (n ∷ rest) s out (ne, all) =
        let moved = stamp_one-others api store namespace group n m s ne in
        elim (Result-cases (stamp_one api namespace group n s).0) [
          | inl (e, bad) ↦
              rw (stamp_each-stop api store namespace group stamped rest n s e bad)
                (roll_back-others m stamped (stamp_one api namespace group n s).1 out ∙ moved)
          | inr (u, good) ↦ rw (stamp_each-step api store namespace group stamped rest n s good) (
              stamp_each-others m (stamped ++ n ∷ []) rest (stamp_one api namespace group n s).1
                (All-append (λ k. m ≢ k) stamped (n ∷ []) out (ne, tt)) all
              ∙ moved)
        ]

    -- When the stamp of a group succeeds, every member carries the group's label, on itself and on
    -- its pods, also when a name is given twice. The group is not empty, and the API is a store.
    pub stamp_backend_group-Carries :
        (names : List Text) (s : S)
        → truthy group ≡ true
        → (stamp_backend_group api namespace group names s).0 ≡ ok tt
        → All (Carries api group (stamp_backend_group api namespace group names s).1) names
    unfolding stamp_backend_group
    stamp_backend_group-Carries names s g h = (stamp_each-Carries [] names s g h).1

    -- Whether the stamp succeeds or fails and rolls back, a machine that is no member is as before.
    -- The API is a store.
    pub stamp_backend_group-others :
        (m : Text) (names : List Text) (s : S)
        → IsOutside m names
        → api.fetch_vm m (stamp_backend_group api namespace group names s).1 ≡ api.fetch_vm m s
    unfolding stamp_backend_group
    stamp_backend_group-others m names s out = stamp_each-others m [] names s tt out
