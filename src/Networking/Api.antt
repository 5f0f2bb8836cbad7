-- ===== src/Networking/Api.antt =====
-- How console/app/lib/k8s/networking-cr.server.ts reads the answers of the API server, and the
-- labels and names of the objects it creates.
use kmc.Common.{
  ℕ, zero, suc, Bool, false, ◌||◌, Option, none, some, List, [], ◌∷◌, ◌++◌, map, if◌then◌else◌,
  ◌==◌, take, or_else, Result, ok, err, Text, codes, includes, to_lower, trim, trimmed, text_eq,
  replace_all, decimal, Labels, spread,
}
use kmc.Errors.{ErrorValue, format_error}
use kmc.Ipam.Status.{http_code}
use kmc.Networking.Objects.{Condition}

-- `a ?? b` where the fallback may be undefined too
abbrev either : Option ℕ → Option ℕ → Option ℕ
either (some n) other = some n
either none other = other

-- `typeof n === "number" && n > 0`
positive : Option ℕ → Option ℕ
positive (some (suc n)) = some (suc n)
positive (some zero) = none
positive none = none

unfoldable pub api_status_code : ErrorValue → Option ℕ
unfolding positive http_code format_error to_lower
api_status_code e =
    either
      (positive
        (either e.status_code (either e.response_status_code (either e.response_status e.code))))
      (http_code (to_lower (format_error e)))

is_code : ℕ → Option ℕ → Bool
is_code n none = false
is_code n (some m) = m == n

unfoldable pub is_not_found_error : ErrorValue → Bool
unfolding is_code api_status_code includes to_lower format_error
is_not_found_error e =
    let message = to_lower (format_error e) in
    includes (codes "404") message
    || includes (codes "not found") message
    || is_code 404 (api_status_code e)

unfoldable pub is_already_exists_error : ErrorValue → Bool
unfolding is_code api_status_code includes to_lower format_error
is_already_exists_error e =
    let message = to_lower (format_error e) in
    includes (codes "already exists") message
    || includes (codes "alreadyexists") message
    || is_code 409 (api_status_code e)

unfoldable pub is_forbidden_error : ErrorValue → Bool
unfolding is_code api_status_code includes to_lower format_error
is_forbidden_error e =
    is_code 403 (api_status_code e) || includes (codes "forbidden") (to_lower (format_error e))

-- A listing, from the API's answer.
unfoldable pub listed_objects {ℓ} :
    {A : Type ℓ} → Result ErrorValue (List A) → Result ErrorValue (List A)
unfolding is_not_found_error
listed_objects (ok items) = ok items
listed_objects (err e) = if is_not_found_error e then ok [] else err e

-- A deletion, from the API's answer.
unfoldable pub deleted_object : Result ErrorValue (Unit {0}) → Result ErrorValue (Unit {0})
unfolding is_not_found_error
deleted_object (ok _) = ok tt
deleted_object (err e) = if is_not_found_error e then ok tt else err e

pub record ConditionInfo : Type 0 where
  pub type : Text
  pub status : Text
  pub reason : Option Text
  pub message : Option Text
  pub last_transition_time : Option Text

condition_info : Condition → ConditionInfo
condition_info c = record {
  type = or_else c.type (codes "Unknown");
  status = or_else c.status (codes "Unknown");
  reason = c.reason;
  message = c.message;
  last_transition_time = c.last_transition_time;
}

unfoldable pub map_cr_conditions : List Condition → List ConditionInfo
unfolding condition_info
map_cr_conditions conditions = map condition_info conditions

unfoldable pub kmc_managed_labels : Labels → Labels
unfolding spread
kmc_managed_labels extra = spread ((codes "app.kubernetes.io/managed-by", codes "kmc") ∷ []) extra

unfoldable pub owner_annotation : Option Text → Labels
unfolding trimmed
owner_annotation login = elim (trimmed login) [
  | none ↦ []
  | some owner ↦ (codes "kmc.ianunruh.com/owner", owner) ∷ []
]

unfoldable pub ipv4_object_name : Text → Text
unfolding trim replace_all
ipv4_object_name address = replace_all b'.' b'-' (trim address)

unfoldable pub floating_ip_object_name : Text → Text
unfolding ipv4_object_name
floating_ip_object_name public_address = ipv4_object_name public_address

unfoldable pub port_forward_object_name : Text → Text → ℕ → Text
unfolding ipv4_object_name to_lower text_eq decimal
port_forward_object_name public_address protocol public_port =
    let proto = if text_eq (to_lower protocol) (codes "udp") then codes "udp" else codes "tcp" in
    take 63 (
      codes "pf-"
      ++ (ipv4_object_name public_address ++ b'-' ∷ (proto ++ b'-' ∷ decimal public_port)))
