-- ===== src/Backends/Membership.antt =====
-- console/app/backends/membership.ts: which machines a backend service selects.
pub mod RoundTrip
pub mod Selection
mod Tests
use kmc.Common.{
  ℕ, Bool, true, false, not, ◌&&◌, ◌||◌, ◌==◌, ltb, Option, none, some, List, [], ◌∷◌, ◌++◌,
  if◌then◌else◌, or_else, Result, ok, err, keep, Text, codes, truthy, is_space, trim, trim_all,
  text_eq, has, join, split, split_step, cut, Labels, lookup, insert, spread,
}

pub data BackendMembership : Type 0 where
  single_vm : Text → BackendMembership
  labels : Labels → BackendMembership
  group : Text → List Text → BackendMembership

-- A membership that was read, or `{ mode: "unknown" }`.
pub data ReadMembership : Type 0 where
  known : BackendMembership → ReadMembership
  unknown : ReadMembership

abbrev pub label_backend_group : Text
label_backend_group = codes "kmc.ianunruh.com/backend-group"

abbrev pub label_target_kind : Text
label_target_kind = codes "kmc.ianunruh.com/target-kind"

abbrev pub label_vm : Text
label_vm = codes "kmc.ianunruh.com/vm"

abbrev pub target_kind_vm : Text
target_kind_vm = codes "VirtualMachine"

abbrev pub target_kind_labels : Text
target_kind_labels = codes "LabelSelector"

abbrev pub target_kind_group : Text
target_kind_group = codes "Group"

abbrev pub ann_match_labels : Text
ann_match_labels = codes "kmc.ianunruh.com/match-labels"

abbrev pub ann_member_vms : Text
ann_member_vms = codes "kmc.ianunruh.com/member-vms"

unfoldable pub resolve_service_selector : BackendMembership → Labels
resolve_service_selector (single_vm vm_name) = (codes "kubevirt.io/vm", vm_name) ∷ []
resolve_service_selector (labels match_labels) = match_labels
resolve_service_selector (group group_id vm_names) = (label_backend_group, group_id) ∷ []

unfoldable pub membership_labels : BackendMembership → Labels
membership_labels (single_vm vm_name) =
    (label_target_kind, target_kind_vm) ∷ (label_vm, vm_name) ∷ []
membership_labels (labels match_labels) = (label_target_kind, target_kind_labels) ∷ []
membership_labels (group group_id vm_names) =
    (label_target_kind, target_kind_group) ∷ (label_backend_group, group_id) ∷ []

unfoldable pub given : Option Text → Option Text
given none = none
given (some []) = none
given (some (c ∷ s)) = some (c ∷ s)

-- `stringify` is `JSON.stringify` on an object of strings, and `parse_object` the string entries of
-- `JSON.parse`, `none` when it throws or yields no object.
module _ (stringify : Labels → Text) (parse_object : Text → Option Labels) where
  unfoldable pub membership_annotations : BackendMembership → Labels
  unfolding join
  membership_annotations (single_vm vm_name) = []
  membership_annotations (labels match_labels) = (ann_match_labels, stringify match_labels) ∷ []
  membership_annotations (group group_id vm_names) =
      (ann_member_vms, join (b',' ∷ []) vm_names) ∷ []

  labels_of : Labels → ReadMembership
  labels_of [] = unknown
  labels_of (e ∷ m) = known (labels (e ∷ m))

  parsed_labels : Option Labels → ReadMembership
  unfolding labels_of spread
  parsed_labels none = unknown
  parsed_labels (some entries) = labels_of (spread [] entries)

  unfoldable pub vm_membership : Option Text → ReadMembership
  vm_membership none = unknown
  vm_membership (some name) = known (single_vm name)

  unfoldable pub labels_membership_from : Option Text → ReadMembership
  unfolding parsed_labels
  labels_membership_from none = unknown
  labels_membership_from (some raw) = parsed_labels (parse_object raw)

  unfoldable pub group_membership_from : Option Text → Option Text → ReadMembership
  unfolding trim_all split
  group_membership_from none raw = unknown
  group_membership_from (some id) raw = known (group id (trim_all (split b',' (or_else raw []))))

  -- `labels[KMC_LABEL_TARGET_KIND]` decides.
  unfoldable pub of_kind : Text → Labels → Labels → ReadMembership
  unfolding text_eq given vm_membership labels_membership_from group_membership_from lookup
  of_kind kind ls annotations =
      if text_eq kind target_kind_vm
      then vm_membership (given (lookup label_vm ls))
      else if text_eq kind target_kind_labels
      then labels_membership_from (given (lookup ann_match_labels annotations))
      else if text_eq kind target_kind_group
      then group_membership_from (given (lookup label_backend_group ls))
          (lookup ann_member_vms annotations)
      else unknown

  unfoldable pub membership_from_service_meta : Option Labels → Option Labels → ReadMembership
  unfolding of_kind lookup
  membership_from_service_meta none annotations = unknown
  membership_from_service_meta (some ls) annotations =
      of_kind (or_else (lookup label_target_kind ls) []) ls (or_else annotations [])

holds : Option Text → Text → Bool
unfolding text_eq
holds none v = false
holds (some w) v = text_eq w v

unfoldable pub all_match : Labels → Labels → Bool
unfolding holds lookup
all_match ls [] = true
all_match ls ((k, v) ∷ selector) = holds (lookup k ls) v && all_match ls selector

unfoldable pub labels_match_selector : Option Labels → Labels → Bool
unfolding all_match
labels_match_selector ls [] = false
labels_match_selector ls (e ∷ selector) = all_match (or_else ls []) (e ∷ selector)

unfoldable pub format_entries : Labels → List Text
format_entries [] = []
format_entries ((k, v) ∷ m) = (k ++ b'=' ∷ v) ∷ format_entries m

unfoldable pub format_label_selector : Option Labels → Text
unfolding format_entries join
format_label_selector none = []
format_label_selector (some m) = join (codes ", ") (format_entries m)

-- The order of `Array.prototype.sort` on strings: by code units.
unfoldable pub text_lt : Text → Text → Bool
text_lt s [] = false
text_lt [] (d ∷ t) = true
text_lt (c ∷ s) (d ∷ t) = ltb c d || (c == d && text_lt s t)

unfoldable pub insert_sorted : Text → List Text → List Text
unfolding text_lt
insert_sorted s [] = s ∷ []
insert_sorted s (t ∷ ts) =
    let rest = insert_sorted s ts in if text_lt t s then t ∷ rest else s ∷ t ∷ ts

-- `[...new Set(names)].sort()`: a name that is already there is dropped.
unfoldable pub sorted_set : List Text → List Text
unfolding insert_sorted has
sorted_set [] = []
sorted_set (s ∷ ss) = let rest = sorted_set ss in if has rest s then rest else insert_sorted s rest

unfoldable pub group_membership : Text → List Text → BackendMembership
unfolding sorted_set trim_all
group_membership group_id vm_names = group group_id (sorted_set (trim_all vm_names))

pub data LabelError : Type 0 where
  not_key_value : Text → LabelError
  empty_key_or_value : Text → LabelError
  spaces_in_key : Text → LabelError
  no_labels : LabelError

-- `text.split(/[\n,]/)`
unfoldable pub split_lines : Text → List Text
split_lines [] = [] ∷ []
split_lines (c ∷ s) =
    let rest = split_lines s in if c == b'\n' then [] ∷ rest else split_step b',' c rest

-- `/\s/.test(s)`
unfoldable pub has_space : Text → Bool
unfolding is_space
has_space [] = false
has_space (c ∷ s) = is_space c || has_space s

checked_label : Text → Text → Text → Result LabelError (Text × Text)
unfolding has_space
checked_label part [] value = err (empty_key_or_value part)
checked_label part (c ∷ k) [] = err (empty_key_or_value part)
checked_label part (c ∷ k) (d ∷ v) =
    if has_space (c ∷ k) then err (spaces_in_key (c ∷ k)) else ok (c ∷ k, d ∷ v)

label_parts : Text → Option (Text × Text) → Result LabelError (Text × Text)
unfolding checked_label trim
label_parts part none = err (not_key_value part)
label_parts part (some ([], value)) = err (not_key_value part)
label_parts part (some (c ∷ k, value)) = checked_label part (trim (c ∷ k)) (trim value)

-- One `key=value` part.
unfoldable pub parse_label : Text → Result LabelError (Text × Text)
unfolding label_parts cut
parse_label part = label_parts part (cut b'=' part)

unfoldable pub parse_labels : Labels → List Text → Result LabelError Labels
unfolding parse_label insert
parse_labels m [] = ok m
parse_labels m (part ∷ parts) = elim (parse_label part) [
  | err e ↦ err e
  | ok (k, v) ↦ parse_labels (insert k v m) parts
]

some_labels : Labels → Result LabelError Labels
some_labels [] = err no_labels
some_labels (e ∷ m) = ok (e ∷ m)

unfoldable pub parse_match_labels_text : Text → Result LabelError Labels
unfolding parse_labels some_labels trim_all split_lines
parse_match_labels_text text = elim (parse_labels [] (trim_all (split_lines text))) [
  | err e ↦ err e
  | ok m ↦ some_labels m
]
