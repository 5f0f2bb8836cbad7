-- ===== src/Bulk/Tests.antt =====
-- Runs of bulk-action.ts, and instances of its theorems.
use kmc.Common.{
  ℕ, suc, ◌≤◌, ◌≡◌, ◌↔◌, refl, Option, none, some, List, [], ◌∷◌, Result, ok, err, length, All,
  Text, codes, text_eq,
}
use kmc.Errors.{ErrorValue}
use kmc.Bulk.{
  Json, str, num, obj, arr, cons, nil, field, end, missing_targets, not_an_array, none_selected,
  missing_fields, ResourceTarget, resource_target, parse_namespaced_bulk_targets, parse_targets,
  parse_id_bulk_targets, parse_floating_ip_bulk_targets,
}
use kmc.Bulk.Running.{run_bulk_action, IsRun, run_bulk_action-IsRun}
use kmc.Bulk.Targets.{IsRequest, IsNamed, parse_targets_iff, parse_namespaced_bulk_targets-IsNamed}

abbrev vm_item : Json
vm_item = obj (
    field (codes "cluster") (str (codes "c1")) (
      field (codes "namespace") (str (codes " default "))
        (field (codes "name") (num (codes "7")) end)))

-- Stands for `JSON.parse` on the texts of these runs.
unfoldable parse_json : Text → Option Json
parse_json [] = none
parse_json (c ∷ []) = some (arr nil)
parse_json (c ∷ d ∷ []) = some vm_item
parse_json (c ∷ d ∷ e ∷ s) = some (arr (cons vm_item (cons vm_item nil)))

abbrev vm_target : ResourceTarget
vm_target = record { cluster = codes "c1"; namespace = codes "default"; name = codes "7" }

abbrev two_targets : List ResourceTarget
two_targets = vm_target ∷ vm_target ∷ []

two_accepted : parse_namespaced_bulk_targets parse_json (some (codes "[.,.]")) ≡ ok two_targets
unfolding parse_namespaced_bulk_targets parse_json text_eq
two_accepted = refl

two_parsed : parse_targets parse_json resource_target (some (codes "[.,.]")) ≡ ok two_targets
unfolding parse_targets resource_target parse_json text_eq
two_parsed = refl

refusals :
    (parse_namespaced_bulk_targets parse_json none ≡ err missing_targets)
    × (parse_namespaced_bulk_targets parse_json (some (codes " ")) ≡ err missing_targets)
    × (parse_namespaced_bulk_targets parse_json (some (codes "[]")) ≡ err not_an_array)
    × (parse_namespaced_bulk_targets parse_json (some (codes "x")) ≡ err none_selected)
    × (parse_id_bulk_targets parse_json (some (codes "[.,.]")) ≡ err missing_fields)
    × (parse_floating_ip_bulk_targets parse_json (some (codes "[.,.]")) ≡ err missing_fields)
unfolding parse_namespaced_bulk_targets parse_id_bulk_targets parse_floating_ip_bulk_targets
    parse_json text_eq
refusals = (refl, refl, refl, refl, refl, refl)

parse_targets_iff_example :
    (parse_targets parse_json resource_target (some (codes "[.,.]")) ≡ ok two_targets)
    ↔ IsRequest parse_json resource_target (some (codes "[.,.]")) two_targets
parse_targets_iff_example =
    parse_targets_iff parse_json resource_target (some (codes "[.,.]")) two_targets

parse_namespaced_bulk_targets-IsNamed_example :
    (1 ≤ length two_targets) × (length two_targets ≤ 100) × All IsNamed two_targets
parse_namespaced_bulk_targets-IsNamed_example =
    parse_namespaced_bulk_targets-IsNamed parse_json (some (codes "[.,.]")) two_targets two_accepted

abbrev gone : ErrorValue
gone = record {
  messages = codes "gone" ∷ [];
  status_code = none;
  response_status_code = none;
  response_status = none;
  code = none;
}

-- An action that counts its calls and fails on the empty target.
abbrev count_call : Text → ℕ → Result ErrorValue (List Text) × ℕ
count_call [] n = (err gone, suc n)
count_call (c ∷ t) n = (ok [], suc n)

run_bulk_action-IsRun_example :
    IsRun
      (λ t. t)
      count_call
      (codes "a" ∷ [] ∷ codes "b" ∷ [])
      0
      (run_bulk_action
        (λ t. t)
        count_call
        (codes "bulk-delete")
        (codes "a" ∷ [] ∷ codes "b" ∷ [])
        0).0
      (run_bulk_action
        (λ t. t)
        count_call
        (codes "bulk-delete")
        (codes "a" ∷ [] ∷ codes "b" ∷ [])
        0).1
run_bulk_action-IsRun_example =
    run_bulk_action-IsRun (λ t. t) count_call (codes "bulk-delete")
      (codes "a" ∷ [] ∷ codes "b" ∷ []) 0
