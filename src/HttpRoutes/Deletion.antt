-- ===== src/HttpRoutes/Deletion.antt =====
-- `deleteHttpRoute` of console/app/httproutes/httproutes.server.ts, with `readServiceOptional` of
-- console/app/backends/backends.server.ts. The companion Service goes with its route.
use kmc.Common.{
  Bool, not, ◌&&◌, ◌||◌, Option, none, some, ◌++◌, if◌then◌else◌, or_else, Result, ok, err, Text,
  codes, text_eq, lookup,
}
use kmc.Errors.{ErrorValue, format_error, caused}
use kmc.HttpRoutes.Objects.{KubeHttpRoute}
use kmc.HttpRoutes.Mappings.{is_text, primary_service_name}
use kmc.HttpRoutes.Lifecycle.{Service, RouteApi, is_not_found}

cleanup_failure : ErrorValue → ErrorValue
unfolding format_error
cleanup_failure e =
    caused (codes "HTTPRoute deleted but Service cleanup failed: " ++ format_error e) e

-- The name of the Service behind the route, from the answer to the reading of the route.
unfoldable pub service_to_delete : Text → Result ErrorValue KubeHttpRoute → Text
unfolding primary_service_name
service_to_delete name (err e) = name
service_to_delete name (ok route) = or_else (primary_service_name route) name

unfoldable pub has_route_label : Text → Service → Bool
unfolding is_text lookup
has_route_label name svc = is_text name (lookup (codes "kmc.ianunruh.com/httproute") svc.labels)

-- The Service is a backend and the route's own, by its label or its name; a load balancer needs
-- the label.
unfoldable pub is_companion : Text → Text → Service → Bool
unfolding is_text lookup text_eq has_route_label
is_companion name service_name svc =
    is_text (codes "backend") (lookup (codes "kmc.ianunruh.com/resource") svc.labels)
    && (has_route_label name svc || text_eq service_name name)
    && not (
        not (has_route_label name svc)
        && text_eq (or_else svc.type (codes "ClusterIP")) (codes "LoadBalancer"))

unfoldable pub service_optional : Result ErrorValue Service → Result ErrorValue (Option Service)
unfolding is_not_found
service_optional (ok svc) = ok (some svc)
service_optional (err e) = if is_not_found e then ok none else err e

-- A failed deletion of what is not there counts as one; `wrapped` is the error that is thrown.
unfoldable pub forgiven :
    {S : Type 0}
    → (ErrorValue → ErrorValue)
    → Result ErrorValue (Unit {0}) × S
    → Result ErrorValue (Unit {0}) × S
unfolding is_not_found
forgiven wrapped (ok _, s) = (ok tt, s)
forgiven wrapped (err e, s) = (if is_not_found e then ok tt else err (wrapped e), s)

module _ {S : Type 0} (api : RouteApi S) where
  unfoldable pub delete_companion :
      Text → Text → Result ErrorValue (Option Service) → S → Result ErrorValue (Unit {0}) × S
  unfolding is_companion forgiven cleanup_failure
  delete_companion name service_name (err e) s = (err e, s)
  delete_companion name service_name (ok none) s = (ok tt, s)
  delete_companion name service_name (ok (some svc)) s =
      if is_companion name service_name svc
      then forgiven cleanup_failure (api.delete_backend service_name s)
      else (ok tt, s)

  unfoldable pub after_route :
      Text → Text → Result ErrorValue (Unit {0}) × S → Result ErrorValue (Unit {0}) × S
  unfolding delete_companion service_optional
  after_route name service_name (err e, s) = (err e, s)
  after_route name service_name (ok _, s) =
      delete_companion name service_name (service_optional (api.read_service service_name s)) s

  unfoldable pub delete_http_route : Text → S → Result ErrorValue (Unit {0}) × S
  unfolding after_route service_to_delete forgiven format_error
  delete_http_route name s =
      after_route name (service_to_delete name (api.read_route name s))
        (forgiven (λ e. caused (format_error e) e) (api.delete_route name s))
