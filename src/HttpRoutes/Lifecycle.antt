-- ===== src/HttpRoutes/Lifecycle.antt =====
-- `createHttpRoute` of console/app/httproutes/httproutes.server.ts, with the
-- companion Service that a route has. The cluster is a state `S` behind the calls that are used, of
-- its API and of console/app/backends/backends.server.ts, for one namespace.
use kmc.Common.{
  ℕ, Bool, true, false, ◌||◌, Option, none, some, List, [], ◌∷◌, ◌++◌, if◌then◌else◌, or_else,
  Result, ok, err, ◌>>◌, guard, Text, codes, truthy, trim, trimmed, includes, to_lower, Labels,
  spread,
}
use kmc.Errors.{ErrorValue, format_error, plain_error, caused}
use kmc.Backends.Membership.{BackendMembership, single_vm, labels, group}
use kmc.HttpRoutes.Objects.{KubeHttpRoute, KubeGateway}
use kmc.HttpRoutes.Summaries.{HttpRouteSummary, map_summary}
use kmc.HttpRoutes.Manifests.{CreateHttpRouteRequest, build_http_route_manifest}

-- What the operations read of a Service; `target_port` is the one of its first port, as a number.
pub record Service : Type 0 where
  pub labels : Labels
  pub type : Option Text
  pub target_port : Option ℕ

-- The companion's one port has the name `http` and the protocol TCP, and its type is ClusterIP.
pub record CompanionRequest : Type 0 where
  pub name : Text
  pub membership : BackendMembership
  pub port : ℕ
  pub target_port : ℕ
  pub extra_labels : Labels

-- The ports are one port and its target.
pub record CompanionUpdate : Type 0 where
  pub name : Text
  pub membership : Option BackendMembership
  pub ports : Option (ℕ × ℕ)

pub record RouteApi (S : Type 0) : Type 0 where
  pub read_route : Text → S → Result ErrorValue KubeHttpRoute
  pub create_route : KubeHttpRoute → S → Result ErrorValue KubeHttpRoute × S
  pub replace_route : Text → KubeHttpRoute → S → Result ErrorValue (Unit {0}) × S
  pub delete_route : Text → S → Result ErrorValue (Unit {0}) × S
  pub list_gateways : S → Result ErrorValue (List KubeGateway)
  pub read_service : Text → S → Result ErrorValue Service
  pub create_backend : CompanionRequest → S → Result ErrorValue (Unit {0}) × S
  pub update_backend : CompanionUpdate → S → Result ErrorValue (Unit {0}) × S
  pub delete_backend : Text → S → Result ErrorValue (Unit {0}) × S

unfoldable pub is_not_found : ErrorValue → Bool
unfolding format_error to_lower includes
is_not_found e =
    let message = to_lower (format_error e) in
    includes (codes "404") message || includes (codes "not found") message

abbrev required : Text → Text → Result ErrorValue (Unit {0})
required message value = guard (truthy (trim value)) (plain_error message)

abbrev is_some {ℓ} : {A : Type ℓ} → Option A → Bool
is_some none = false
is_some (some a) = true

unfoldable pub check_request : CreateHttpRouteRequest → Result ErrorValue (Unit {0})
unfolding trim trimmed
check_request input = do
  required (codes "cluster is required") input.cluster
  required (codes "namespace is required") input.namespace
  required (codes "name is required") input.name
  required (codes "host is required") input.host
  required (codes "parent Gateway is required") input.gateway_name
  guard (is_some (trimmed input.existing_service_name) || is_some input.membership)
      (plain_error (codes "backend membership is required (or pick an existing Service)"))

unfoldable pub named_group : Text → Option BackendMembership → Option BackendMembership
unfolding trimmed
named_group name none = none
named_group name (some (single_vm vm)) = some (single_vm vm)
named_group name (some (labels ls)) = some (labels ls)
named_group name (some (group id vms)) = some (group (or_else (trimmed (some id)) name) vms)

message_of : ErrorValue → Text
message_of e = elim e.messages [ [] ↦ [] | m ∷ ms ↦ m ]

exists_already : CreateHttpRouteRequest → ErrorValue
exists_already input =
    plain_error (
      codes "HTTPRoute \"" ++ (input.namespace ++ b'/' ∷ (input.name ++ codes "\" already exists")))

-- The route must not be there; the argument is the API's answer to its reading.
unfoldable pub check_absent :
    CreateHttpRouteRequest → Result ErrorValue KubeHttpRoute → Result ErrorValue (Unit {0})
unfolding exists_already message_of includes is_not_found format_error
check_absent input (ok route) = err (exists_already input)
check_absent input (err e) =
    if includes (codes "already exists") (message_of e)
    then err e
    else if is_not_found e
    then ok tt
    else err (caused (format_error e) e)

service_failure : Text → Text → ErrorValue → ErrorValue
unfolding is_not_found format_error
service_failure namespace name e =
    if is_not_found e
    then plain_error (codes "Service \"" ++ (namespace ++ b'/' ∷ (name ++ codes "\" not found")))
    else caused (format_error e) e

unfoldable pub check_service :
    Text → Text → Result ErrorValue Service → Result ErrorValue (Unit {0})
unfolding service_failure
check_service namespace name (ok service) = ok tt
check_service namespace name (err e) = err (service_failure namespace name e)

unfoldable pub companion_of : CreateHttpRouteRequest → BackendMembership → CompanionRequest
unfolding spread
companion_of input membership =
    let port = or_else input.service_port 80 in
    record {
      name = input.name;
      membership = membership;
      port = port;
      target_port = or_else input.target_port port;
      extra_labels =
          spread ((codes "kmc.ianunruh.com/httproute", input.name) ∷ []) input.extra_labels;
    }

create_failure : ErrorValue → ErrorValue
unfolding format_error
create_failure e = caused (codes "Failed to create HTTPRoute: " ++ format_error e) e

abbrev gateways_or_none : Result ErrorValue (List KubeGateway) → List KubeGateway
gateways_or_none (ok gateways) = gateways
gateways_or_none (err e) = []

module _ {S : Type 0} (api : RouteApi S) where
  -- The creation of the route; `undo` is what is done when it fails.
  unfoldable pub finish :
      CreateHttpRouteRequest
      → KubeHttpRoute
      → (S → S)
      → Result ErrorValue KubeHttpRoute × S
      → Result ErrorValue HttpRouteSummary × S
  unfolding map_summary create_failure
  finish input body undo (ok created, s) =
      (ok (map_summary input.cluster created (gateways_or_none (api.list_gateways s))), s)
  finish input body undo (err e, s) = (err (create_failure e), undo s)

  unfoldable pub create_beside :
      CreateHttpRouteRequest → KubeHttpRoute → Text → S → Result ErrorValue HttpRouteSummary × S
  unfolding check_service finish
  create_beside input body service s =
      elim (check_service input.namespace service (api.read_service service s)) [
        | err e ↦ (err e, s)
        | ok _ ↦ finish input body (λ t. t) (api.create_route body s)
      ]

  unfoldable pub with_companion :
      CreateHttpRouteRequest
      → KubeHttpRoute
      → Result ErrorValue (Unit {0}) × S
      → Result ErrorValue HttpRouteSummary × S
  unfolding finish
  with_companion input body (err e, s) = (err e, s)
  with_companion input body (ok _, s) =
      finish input body (λ t. (api.delete_backend input.name t).1) (api.create_route body s)

  -- With the service that is there, or with a companion of the membership.
  unfoldable pub create_checked :
      CreateHttpRouteRequest
      → Option Text
      → Option BackendMembership
      → S
      → Result ErrorValue HttpRouteSummary × S
  unfolding create_beside with_companion build_http_route_manifest companion_of finish
  create_checked input (some service) membership s =
      create_beside input
        (build_http_route_manifest (record input { membership = membership }) (some service))
        service s
  create_checked input none (some m) s =
      with_companion input
        (build_http_route_manifest (record input { membership = some m }) (some input.name))
        (api.create_backend (companion_of input m) s)
  create_checked input none none s =
      finish input
        (build_http_route_manifest (record input { membership = none }) (some input.name)) (λ t. t)
        (api.create_route
          (build_http_route_manifest (record input { membership = none }) (some input.name)) s)

  unfoldable pub create_http_route :
      CreateHttpRouteRequest → S → Result ErrorValue HttpRouteSummary × S
  unfolding check_request check_absent create_checked named_group trimmed
  create_http_route input s =
      elim (check_request input >> check_absent input (api.read_route input.name s)) [
        | err e ↦ (err e, s)
        | ok _ ↦
            create_checked input (trimmed input.existing_service_name)
              (named_group input.name input.membership) s
      ]
