-- ===== src/HttpRoutes/Updates.antt =====
-- `updateHttpRoute` of console/app/httproutes/httproutes.server.ts up to the reading of the page that
-- it returns. A thrown Response is an error with its text.
use kmc.Common.{
  ℕ, Bool, true, false, ◌&&◌, ◌||◌, Option, none, some, List, [], ◌∷◌, ◌++◌, if◌then◌else◌, or_else,
  Result, ok, err, ◌>>=◌, ◌>>◌, guard, Text, codes, truthy, trim, trimmed, text_eq, lookup, spread,
}
use kmc.Errors.{ErrorValue, format_error, plain_error, caused}
use kmc.Backends.Membership.{BackendMembership, given}
use kmc.HttpRoutes.Objects.{KubeHttpRoute, KubeParentRef, RouteMatch, RouteRule, BackendRef}
use kmc.HttpRoutes.Mappings.{map_hosts, is_text}
use kmc.HttpRoutes.Manifests.{ownership_labels}
use kmc.HttpRoutes.Lifecycle.{Service, RouteApi, is_not_found}
use kmc.HttpRoutes.Deletion.{has_route_label, service_optional}

-- The inner `none` of the two optional names is null.
pub record UpdateHttpRouteRequest : Type 0 where
  pub cluster : Text
  pub namespace : Text
  pub name : Text
  pub host : Option Text
  pub path : Option Text
  pub path_type : Option Text
  pub service_port : Option ℕ
  pub target_port : Option ℕ
  pub gateway_name : Option Text
  pub gateway_namespace : Option (Option Text)
  pub section_name : Option (Option Text)
  pub membership : Option BackendMembership

abbrev first {ℓ} : {A : Type ℓ} → List A → Option A
first [] = none
first (a ∷ as') = some a

abbrev and_then {ℓ κ} : {A : Type ℓ} {B : Type κ} → Option A → (A → Option B) → Option B
and_then none f = none
and_then (some a) f = f a

-- `x !== undefined ? x.trim() : current`
trim_or : Option Text → Text → Text
unfolding trim
trim_or none current = current
trim_or (some s) current = trim s

path_or : Option Text → Option Text → Text
unfolding trimmed
path_or none current = or_else current (codes "/")
path_or (some s) current = or_else (trimmed (some s)) (codes "/")

-- `x !== undefined ? x?.trim() || undefined : current`
name_or : Option (Option Text) → Option Text → Option Text
unfolding trimmed
name_or none current = current
name_or (some s) current = trimmed s

current_rule : KubeHttpRoute → Option RouteRule
current_rule route = first route.rules

current_match : KubeHttpRoute → Option RouteMatch
unfolding current_rule
current_match route = and_then (current_rule route) (λ r. first r.matches)

current_backend : KubeHttpRoute → Option BackendRef
unfolding current_rule
current_backend route = and_then (current_rule route) (λ r. first r.backend_refs)

unfoldable pub current_service : Text → KubeHttpRoute → Text
unfolding current_backend given
current_service name route = or_else (given (and_then (current_backend route) (λ b. b.name))) name

unfoldable pub updated_port : UpdateHttpRouteRequest → KubeHttpRoute → ℕ
unfolding current_backend
updated_port input route =
    or_else input.service_port (or_else (and_then (current_backend route) (λ b. b.port)) 80)

updated_rule : UpdateHttpRouteRequest → KubeHttpRoute → RouteRule
unfolding path_or current_match current_service updated_port given
updated_rule input route =
    let current = current_match route in
    record {
      matches =
          record {
            path_type = some (
                or_else input.path_type
                  (or_else (given (and_then current (λ m. m.path_type))) (codes "PathPrefix")));
            path_value = some (path_or input.path (and_then current (λ m. m.path_value)));
          }
          ∷ [];
      backend_refs =
          record {
            name = some (current_service input.name route);
            port = some (updated_port input route);
          }
          ∷ [];
    }

updated_parent : UpdateHttpRouteRequest → Text → Option KubeParentRef → KubeParentRef
unfolding name_or given
updated_parent input gateway current = record {
  name = some gateway;
  namespace = given (name_or input.gateway_namespace (and_then current (λ p. p.namespace)));
  section_name = given (name_or input.section_name (and_then current (λ p. p.section_name)));
  kind = some (codes "Gateway");
}

-- The body that replaces the route.
unfoldable pub updated_route :
    UpdateHttpRouteRequest → KubeHttpRoute → Result ErrorValue KubeHttpRoute
unfolding trim_or map_hosts updated_rule updated_parent ownership_labels spread
updated_route input route =
    let host = trim_or input.host (or_else (first (map_hosts route)) []) in
    let parent = first route.parent_refs in
    let gateway = trim_or input.gateway_name (or_else (and_then parent (λ p. p.name)) []) in
    do
      guard (truthy host) (plain_error (codes "host is required"))
      guard (truthy gateway) (plain_error (codes "parent Gateway is required"))
      ok (record route {
        labels = elim input.membership [
          | none ↦ route.labels
          | some m ↦ spread route.labels (ownership_labels input.name (some m))
        ];
        parent_refs = updated_parent input gateway parent ∷ [];
        hostnames = host ∷ [];
        rules = updated_rule input route ∷ [];
        parents = [];
      })

read_failure : ErrorValue → ErrorValue
unfolding is_not_found format_error
read_failure e =
    if is_not_found e then plain_error (codes "HTTPRoute not found") else caused (format_error e) e

unfoldable pub route_to_replace :
    UpdateHttpRouteRequest
    → Result ErrorValue KubeHttpRoute
    → Result ErrorValue (KubeHttpRoute × KubeHttpRoute)
unfolding trim read_failure updated_route
route_to_replace input (err e) =
    guard (truthy (trim input.cluster) && truthy (trim input.namespace) && truthy (trim input.name))
      (plain_error (codes "cluster, namespace, and name are required"))
    >> err (read_failure e)
route_to_replace input (ok route) = do
  guard (truthy (trim input.cluster) && truthy (trim input.namespace) && truthy (trim input.name))
      (plain_error (codes "cluster, namespace, and name are required"))
  body ← updated_route input route
  ok (route, body)

replace_failure : ErrorValue → ErrorValue
unfolding format_error
replace_failure e = caused (codes "Failed to update HTTPRoute: " ++ format_error e) e

abbrev is_given {ℓ} : {A : Type ℓ} → Option A → Bool
is_given none = false
is_given (some a) = true

-- Whether anything of the companion is to change.
unfoldable pub changes_companion : UpdateHttpRouteRequest → Bool
changes_companion input =
    is_given input.membership || is_given input.target_port || is_given input.service_port

-- The one port of the companion, with its target.
updated_ports : UpdateHttpRouteRequest → ℕ → Service → Option (ℕ × ℕ)
updated_ports input port svc =
    if is_given input.target_port || is_given input.service_port
    then some (port, or_else input.target_port (or_else svc.target_port port))
    else none

is_backend : Service → Bool
unfolding is_text lookup
is_backend svc = is_text (codes "backend") (lookup (codes "kmc.ianunruh.com/resource") svc.labels)

is_labelled : Text → Option Service → Bool
unfolding has_route_label
is_labelled name none = false
is_labelled name (some svc) = has_route_label name svc

module _ {S : Type 0} (api : RouteApi S) (input : UpdateHttpRouteRequest) where
  read_optional : Text → S → Result ErrorValue (Option Service)
  unfolding service_optional
  read_optional service s = service_optional (api.read_service service s)

  -- `ownsCompanion`
  owns_companion : Text → S → Result ErrorValue Bool
  unfolding text_eq read_optional is_labelled
  owns_companion service s =
      if text_eq service input.name
      then ok true
      else (do svc ← read_optional service s; ok (is_labelled input.name svc))

  update_found :
      Text → ℕ → Result ErrorValue (Option Service) → S → Result ErrorValue (Unit {0}) × S
  unfolding is_backend updated_ports
  update_found service port (err e) s = (err e, s)
  update_found service port (ok none) s = (ok tt, s)
  update_found service port (ok (some svc)) s =
      if is_backend svc
      then api.update_backend
          (record {
            name = service;
            membership = input.membership;
            ports = updated_ports input port svc;
          })
          s
      else (ok tt, s)

  unfoldable pub update_companion :
      Text → ℕ → Result ErrorValue Bool → S → Result ErrorValue (Unit {0}) × S
  unfolding changes_companion update_found read_optional
  update_companion service port (err e) s = (err e, s)
  update_companion service port (ok owns) s =
      if owns && changes_companion input
      then update_found service port (read_optional service s) s
      else (ok tt, s)

  unfoldable pub after_replace :
      Text → ℕ → Result ErrorValue (Unit {0}) × S → Result ErrorValue (Unit {0}) × S
  unfolding replace_failure owns_companion update_companion
  after_replace service port (err e, s) = (err (replace_failure e), s)
  after_replace service port (ok _, s) = update_companion service port (owns_companion service s) s

  unfoldable pub update_http_route : S → Result ErrorValue (Unit {0}) × S
  unfolding route_to_replace after_replace current_service updated_port
  update_http_route s = elim (route_to_replace input (api.read_route input.name s)) [
    | err e ↦ (err e, s)
    | ok (route, body) ↦
        after_replace (current_service input.name route) (updated_port input route)
          (api.replace_route input.name body s)
  ]
