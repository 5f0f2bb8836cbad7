-- ===== src/Backends/Stamp.antt =====
-- console/app/backends/stamp.server.ts: the group label on the members of a backend. The cluster is
-- a state `S` behind the two calls of its API that are used, for one namespace.
pub mod Members
pub mod Groups
pub mod Untouched
mod Tests
use kmc.Common.{
  Bool, true, false, ◌||◌, Option, none, some, List, [], ◌∷◌, ◌++◌, if◌then◌else◌, or_else, Result,
  ok, err, Text, codes, truthy, includes, to_lower, Labels, insert, erase,
}
use kmc.Errors.{ErrorValue, format_error, caused, plain_error}
use kmc.Backends.Membership.{label_backend_group}

-- A machine; what else its manifest holds is written back as it was read.
pub record KubeVm : Type 0 where
  pub name : Option Text
  pub labels : Option Labels
  pub template_labels : Option Labels
  pub resource_version : Option Text

pub record VmApi (S : Type 0) : Type 0 where
  pub fetch_vm : Text → S → Result ErrorValue KubeVm
  pub replace_vm : Text → KubeVm → S → Result ErrorValue (Unit {0}) × S

unfoldable pub is_not_found : ErrorValue → Bool
unfolding format_error to_lower includes
is_not_found e =
    let message = to_lower (format_error e) in
    includes (codes "404") message || includes (codes "not found") message

unfoldable pub is_conflict : ErrorValue → Bool
unfolding format_error to_lower includes
is_conflict e =
    let message = to_lower (format_error e) in
    includes (codes "409") message || includes (codes "conflict") message

-- The label set to a group, or cleared when there is none or an empty one.
unfoldable pub relabelled : Option Text → Labels → Labels
unfolding insert erase
relabelled none labels = erase label_backend_group labels
relabelled (some []) labels = erase label_backend_group labels
relabelled (some (c ∷ g)) labels = insert label_backend_group (c ∷ g) labels

unfoldable pub stamped_vm : Option Text → KubeVm → KubeVm
unfolding relabelled
stamped_vm group vm = record vm {
  labels = some (relabelled group (or_else vm.labels []));
  template_labels = some (relabelled group (or_else vm.template_labels []));
}

unfoldable pub update_failure : Text → ErrorValue → ErrorValue
unfolding format_error
update_failure vm_name e =
    caused
      (codes "Failed to update backend group on VM \""
        ++ (vm_name ++ (codes "\": " ++ format_error e)))
      e

missing_failure : Text → Text → ErrorValue
missing_failure namespace vm_name =
    plain_error
      (codes "VirtualMachine \"" ++ (namespace ++ b'/' ∷ (vm_name ++ codes "\" not found")))

module _ {S : Type 0} (api : VmApi S) where
  -- One read and one write.
  unfoldable pub attempt : Option Text → Text → S → Result ErrorValue (Unit {0}) × S
  unfolding stamped_vm
  attempt group vm_name s = elim (api.fetch_vm vm_name s) [
    | err e ↦ (err e, s)
    | ok vm ↦ api.replace_vm vm_name (stamped_vm group vm) s
  ]

  retried : Text → Result ErrorValue (Unit {0}) × S → Result ErrorValue (Unit {0}) × S
  unfolding update_failure
  retried vm_name (ok u, s) = (ok u, s)
  retried vm_name (err e, s) = (err (update_failure vm_name e), s)

  tried : Option Text → Text → Result ErrorValue (Unit {0}) × S → Result ErrorValue (Unit {0}) × S
  unfolding attempt retried update_failure is_conflict
  tried group vm_name (ok u, s) = (ok u, s)
  tried group vm_name (err e, s) =
      let again = retried vm_name (attempt group vm_name s) in
      if is_conflict e then again else (err (update_failure vm_name e), s)

  -- The label is set with one more attempt on a conflict.
  unfoldable pub set_backend_group_label : Option Text → Text → S → Result ErrorValue (Unit {0}) × S
  unfolding attempt tried
  set_backend_group_label group vm_name s = tried group vm_name (attempt group vm_name s)

  -- The clearing of a member in the rollback, whose error is ignored.
  unfoldable pub roll_back : List Text → S → S
  unfolding set_backend_group_label
  roll_back [] s = s
  roll_back (vm_name ∷ rest) s = roll_back rest (set_backend_group_label none vm_name s).1

  absent_failure : Text → Text → ErrorValue → ErrorValue
  unfolding is_not_found format_error missing_failure
  absent_failure namespace vm_name e =
      if is_not_found e then missing_failure namespace vm_name else caused (format_error e) e

  checked : Text → Text → Result ErrorValue KubeVm → Result ErrorValue (Unit {0})
  unfolding absent_failure
  checked namespace vm_name (ok vm) = ok tt
  checked namespace vm_name (err e) = err (absent_failure namespace vm_name e)

  module _ (namespace group : Text) where
    -- One round of the loop: the member exists, and takes the label.
    unfoldable pub stamp_one : Text → S → Result ErrorValue (Unit {0}) × S
    unfolding checked set_backend_group_label
    stamp_one vm_name s = elim (checked namespace vm_name (api.fetch_vm vm_name s)) [
      | err e ↦ (err e, s)
      | ok _ ↦ set_backend_group_label (some group) vm_name s
    ]

    -- `stamped` holds the members that have the label, in order.
    unfoldable pub stamp_each : List Text → List Text → S → Result ErrorValue (Unit {0}) × S
    unfolding stamp_one roll_back
    stamp_each stamped [] s = (ok tt, s)
    stamp_each stamped (vm_name ∷ rest) s =
        let (done, s') = stamp_one vm_name s in
        elim done [
          | err e ↦ (err e, roll_back stamped s')
          | ok _ ↦ stamp_each (stamped ++ vm_name ∷ []) rest s'
        ]

    unfoldable pub stamp_backend_group : List Text → S → Result ErrorValue (Unit {0}) × S
    unfolding stamp_each
    stamp_backend_group vm_names s = stamp_each [] vm_names s

  unfoldable pub unstamp_backend_group : List Text → S → Result ErrorValue (Unit {0}) × S
  unfolding set_backend_group_label is_not_found
  unstamp_backend_group [] s = (ok tt, s)
  unstamp_backend_group (vm_name ∷ rest) s =
      let (done, s') = set_backend_group_label none vm_name s in
      let more = unstamp_backend_group rest s' in
      elim done [ ok _ ↦ more | err e ↦ if is_not_found e then more else (err e, s') ]
