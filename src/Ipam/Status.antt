-- ===== src/Ipam/Status.antt =====
-- How console/app/lib/ipam/ipaddress-cr.server.ts reads the status of a failed call.
use kmc.Common.{
  ℕ, zero, suc, Bool, false, ◌&&◌, ◌||◌, Option, none, some, [], ◌∷◌, if◌then◌else◌, Text, codes,
  to_lower, includes, strip_prefix, ◌==◌, is_digit, value, is_space, take, length, all_digits,
}
use kmc.Errors.{ErrorValue, format_error}

digit_run : Text → Text
digit_run [] = []
digit_run (c ∷ s) = let rest = digit_run s in if is_digit c then c ∷ rest else []

skip_spaces : Text → Text
unfolding is_space
skip_spaces [] = []
skip_spaces (c ∷ s) = if is_space c then skip_spaces s else c ∷ s

some_digits : Text → Option ℕ
unfolding value
some_digits [] = none
some_digits (c ∷ s) = some (value (c ∷ s))

-- `/^HTTP-Code:\s*(\d+)/i` on lowered text
http_code_here : Text → Option ℕ
unfolding strip_prefix digit_run skip_spaces some_digits
http_code_here s = elim (strip_prefix (codes "http-code:") s) [
  | none ↦ none
  | some rest ↦ some_digits (digit_run (skip_spaces rest))
]

first_some : Option ℕ → Option ℕ → Option ℕ
first_some (some n) other = some n
first_some none other = other

-- The first place where it matches.
unfoldable pub http_code : Text → Option ℕ
unfolding http_code_here first_some
http_code [] = none
http_code (c ∷ s) = first_some (http_code_here (c ∷ s)) (http_code s)

three_digits : Text → Option ℕ
unfolding all_digits value
three_digits s =
    if length (take 3 s) == 3 && all_digits (take 3 s) then some (value (take 3 s)) else none

-- `/^"code"\s*:\s*(\d{3})/`
json_code_here : Text → Option ℕ
unfolding strip_prefix skip_spaces three_digits
json_code_here s = elim (strip_prefix (codes "\"code\"") s) [
  | none ↦ none
  | some rest ↦ elim (strip_prefix (b':' ∷ []) (skip_spaces rest)) [
    | none ↦ none
    | some rest' ↦ three_digits (skip_spaces rest')
  ]
]

unfoldable pub json_code : Text → Option ℕ
unfolding json_code_here first_some
json_code [] = none
json_code (c ∷ s) = first_some (json_code_here (c ∷ s)) (json_code s)

-- `typeof n === "number" && n > 0`
positive : Option ℕ → Option ℕ
positive (some (suc n)) = some (suc n)
positive (some zero) = none
positive none = none

unfoldable pub api_status_code : ErrorValue → Option ℕ
unfolding positive http_code json_code format_error to_lower first_some
api_status_code e =
    let field =
      first_some e.status_code
        (first_some e.response_status_code (first_some e.response_status e.code)) in
    first_some (positive field)
      (first_some (http_code (to_lower (format_error e))) (json_code (format_error e)))

is_code : ℕ → Option ℕ → Bool
is_code n none = false
is_code n (some m) = m == n

unfoldable pub is_ip_address_already_exists : ErrorValue → Bool
unfolding is_code api_status_code includes to_lower format_error
is_ip_address_already_exists e =
    let message = to_lower (format_error e) in
    includes (codes "already exists") message
    || includes (codes "alreadyexists") message
    || is_code 409 (api_status_code e)

unfoldable pub is_ip_address_not_found : ErrorValue → Bool
unfolding is_code api_status_code includes to_lower format_error
is_ip_address_not_found e =
    is_code 404 (api_status_code e) || includes (codes "not found") (to_lower (format_error e))

unfoldable pub is_ip_address_forbidden : ErrorValue → Bool
unfolding is_code api_status_code includes to_lower format_error
is_ip_address_forbidden e =
    is_code 403 (api_status_code e) || includes (codes "forbidden") (to_lower (format_error e))
