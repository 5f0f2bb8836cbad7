-- ===== src/Format/Names.antt =====
-- `validateDns1123Label` and `expandVmLaunchNames` of console/app/lib/format.ts.
use kmc.Common.{
  ℕ, zero, suc, Bool, true, false, ◌&&◌, ◌||◌, List, [], ◌∷◌, ◌++◌, length, if◌then◌else◌, leb, ltb,
  ◌==◌, Result, ok, err, ◌>>=◌, ◌>>◌, guard, Text, truthy, trim, is_digit, decimal,
}

-- `[a-z0-9]`
unfoldable pub is_alphanumeric : ℕ → Bool
is_alphanumeric c = (leb b'a' c && leb c b'z') || is_digit c

-- `([-a-z0-9]*[a-z0-9])?$`
unfoldable pub ends_alphanumeric : Text → Bool
unfolding is_alphanumeric
ends_alphanumeric [] = true
ends_alphanumeric (c ∷ []) = is_alphanumeric c
ends_alphanumeric (c ∷ d ∷ s) = (is_alphanumeric c || c == b'-') && ends_alphanumeric (d ∷ s)

-- `DNS1123_LABEL.test(s)`
unfoldable pub is_dns1123_label : Text → Bool
unfolding is_alphanumeric ends_alphanumeric
is_dns1123_label [] = false
is_dns1123_label (c ∷ s) = is_alphanumeric c && ends_alphanumeric s

pub data LabelError : Type 0 where
  required : LabelError
  max_63_characters : LabelError
  label_required : LabelError

unfoldable pub validate_dns1123_label : Text → Result LabelError (Unit {0})
unfolding is_dns1123_label
validate_dns1123_label value = do
  guard (truthy value) required
  guard (leb (length value) 63) max_63_characters
  guard (is_dns1123_label value) label_required

-- `MAX_VM_LAUNCH_COUNT`
abbrev pub max_vm_launch_count : ℕ
max_vm_launch_count = 50

pub data LaunchError : Type 0 where
  name_is_required : LaunchError
  count_not_positive : LaunchError
  count_exceeds : LaunchError
  invalid_name : LabelError → LaunchError
  generated_too_long : Text → LaunchError
  generated_invalid : Text → LaunchError

unfoldable pub launch_name : Text → ℕ → Text
unfolding decimal
launch_name base i = base ++ b'-' ∷ decimal i

-- The one name of a single launch.
single_name : Text → Result LabelError (Unit {0}) → Result LaunchError (List Text)
single_name base (ok _) = ok (base ∷ [])
single_name base (err required) = err name_is_required
single_name base (err e) = err (invalid_name e)

-- One round of the loop.
unfoldable pub checked_name : Text → Result LaunchError Text
unfolding validate_dns1123_label
checked_name name = elim (validate_dns1123_label name) [
  | ok _ ↦ ok name
  | err e ↦
      if ltb 63 (length name) then err (generated_too_long name) else err (generated_invalid name)
]

-- The names from `i` on, `n` of them.
unfoldable pub launch_names : Text → ℕ → ℕ → Result LaunchError (List Text)
unfolding launch_name checked_name
launch_names base i zero = ok []
launch_names base i (suc n) = do
  name ← checked_name (launch_name base i)
  names ← launch_names base (suc i) n
  ok (name ∷ names)

unfoldable pub expand_vm_launch_names : Text → ℕ → Result LaunchError (List Text)
unfolding trim single_name launch_names validate_dns1123_label
expand_vm_launch_names base_name count =
    let base = trim base_name in
    let single = single_name base (validate_dns1123_label base) in
    let several = launch_names base 1 count in
    do
      guard (truthy base) name_is_required
      guard (leb 1 count) count_not_positive
      guard (leb count max_vm_launch_count) count_exceeds
      if count == 1 then single else several
