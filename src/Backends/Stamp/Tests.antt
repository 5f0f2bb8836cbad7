-- ===== src/Backends/Stamp/Tests.antt =====
-- A small store of machines, runs on it, and instances of the theorems on stamps.
use kmc.Common.{
  ◌≡◌, ◌≢◌, refl, false, Bool-cases, inl, inr, arith, if◌then◌else◌, Option, none, some, List, [],
  ◌∷◌, Result, ok, err, All, Text, codes, text_eq, text_eq_iff, text_eq_refl,
}
use kmc.Errors.{ErrorValue}
use kmc.Backends.Stamp.{KubeVm, VmApi, stamp_backend_group, unstamp_backend_group}
use kmc.Backends.Stamp.Members.{IsStore, Carries}
use kmc.Backends.Stamp.Groups.{IsOutside, stamp_backend_group-Carries, stamp_backend_group-others}

abbrev World : Type 0
World = Text → Option KubeVm

abbrev failing : Text → ErrorValue
failing message = record {
  messages = message ∷ [];
  status_code = none;
  response_status_code = none;
  response_status = none;
  code = none;
}

found : Option KubeVm → Result ErrorValue KubeVm
found none = err (failing (codes "HTTP-Code: 404"))
found (some vm) = ok vm

unfoldable store : VmApi World
unfolding found
store = record {
  fetch_vm = λ n s. found (s n);
  replace_vm = λ n v s. (ok tt, λ m. if text_eq m n then some v else s m);
}

other_name : (m n : Text) → m ≢ n → text_eq m n ≡ false
other_name m n ne = elim (Bool-cases (text_eq m n)) [
  | inl same ↦ absurd (ne ((text_eq_iff m n).0 same))
  | inr other ↦ other
]

store-IsStore : IsStore store
unfolding store found
store-IsStore = record {
  read_back = λ n v s h. (v, rw (text_eq_refl n) refl, refl, refl);
  others = λ n m v s ne. rw (other_name m n ne) refl;
}

abbrev bare : KubeVm
bare = record { name = none; labels = none; template_labels = none; resource_version = none }

abbrev all_bare : World
all_bare n = some bare

abbrev two_names : List Text
two_names = codes "a" ∷ codes "b" ∷ []

two_stamped :
    (stamp_backend_group store (codes "default") (codes "web") two_names all_bare).0 ≡ ok tt
unfolding stamp_backend_group store text_eq
two_stamped = refl

stamp_backend_group-Carries_example :
    All
      (Carries store
        (codes "web")
        (stamp_backend_group store (codes "default") (codes "web") two_names all_bare).1)
      two_names
stamp_backend_group-Carries_example =
    stamp_backend_group-Carries store store-IsStore (codes "default") (codes "web") two_names
      all_bare refl two_stamped

c-IsOutside : IsOutside (codes "c") two_names
c-IsOutside = (λ e. ground arith, (λ e. ground arith, tt))

stamp_backend_group-others_example :
    store.fetch_vm
      (codes "c")
      (stamp_backend_group store (codes "default") (codes "web") two_names all_bare).1
    ≡ store.fetch_vm (codes "c") all_bare
stamp_backend_group-others_example =
    stamp_backend_group-others store store-IsStore (codes "default") (codes "web") (codes "c")
      two_names all_bare c-IsOutside

-- An API that answers every call with a failure of its own.
unfoldable broken : VmApi World
broken = record {
  fetch_vm = λ n s. err (failing (codes "forbidden"));
  replace_vm = λ n v s. (err (failing (codes "forbidden")), s);
}

-- The failure is thrown, but not for a machine whose name has 404 in it.
unstamp_runs :
    (unstamp_backend_group broken (codes "web-404" ∷ []) all_bare ≡ (ok tt, all_bare))
    × ((unstamp_backend_group broken (codes "web" ∷ []) all_bare).0 ≢ ok tt)
unfolding unstamp_backend_group broken text_eq
unstamp_runs = (refl, λ e. ground arith)
