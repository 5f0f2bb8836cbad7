-- ===== src/HttpRoutes/Tests.antt =====
-- Runs of the HTTP routes on a small store, the Services of a namespace by name. No route is there,
-- and the creation of one exceeds a quota.
use kmc.Common.{
  ◌≡◌, ◌≢◌, refl, sym, ap, ◌∙◌, Option, Labels, Bool-cases, inl, inr, none, some, List, [], ◌∷◌,
  or_else, if◌then◌else◌, Result, ok, err, Text, codes, lookup, text_eq, text_eq_sound,
}
use kmc.Errors.{ErrorValue, plain_error, caused}
use kmc.Backends.Membership.{single_vm}
use kmc.HttpRoutes.Summaries.{map_summary}
use kmc.HttpRoutes.Manifests.{CreateHttpRouteRequest, build_http_route_manifest}
use kmc.HttpRoutes.Lifecycle.{Service, RouteApi, check_request}
use kmc.HttpRoutes.Deletion.{delete_http_route}
use kmc.HttpRoutes.Backing.Compensation.{IsKubernetes}
use kmc.HttpRoutes.Survival.{delete_http_route-Stays}
use kmc.HttpRoutes.Backing.{
  GatewayApi, IsSeparate, route_api, route_api-KeepsServices, service_view,
}
use kmc.Backends.Stamp.{VmApi, KubeVm}
use kmc.Backends.Services.{KubeService}
use kmc.Backends.Services.Changes.{BackendApi}
use kmc.HttpRoutes.RoundTrip.{IsShown, map_summary-IsShown}

abbrev missing : ErrorValue
missing = plain_error (codes "not found")

abbrev quota : ErrorValue
quota = plain_error (codes "quota")

abbrev request : CreateHttpRouteRequest
request = record {
  cluster = codes "lab";
  namespace = codes "apps";
  name = codes "web";
  membership = some (single_vm (codes "vm-1"));
  host = codes " web.test ";
  path = none;
  path_type = none;
  service_port = none;
  target_port = some 8080;
  gateway_name = codes "edge";
  gateway_namespace = none;
  section_name = none;
  existing_service_name = none;
  extra_labels = (codes "team", codes "a") ∷ [];
}

abbrev failure : ErrorValue
failure = caused (codes "Failed to create HTTPRoute: quota") quota

-- The Services of the cluster, behind the backends' own calls.
abbrev Services : Type 0
Services = List (Text × KubeService)

service_of_name : Text → Services → Result ErrorValue KubeService
unfolding text_eq
service_of_name n [] = err missing
service_of_name n ((m, svc) ∷ s) = if text_eq m n then ok svc else service_of_name n s

without_service : Text → Services → Services
unfolding text_eq
without_service n [] = []
without_service n ((m, svc) ∷ s) =
    let rest = without_service n s in if text_eq m n then rest else (m, svc) ∷ rest

abbrev machine : Text → KubeVm
machine n = record { name = some n; labels = none; template_labels = none; resource_version = none }

-- Every machine is there.
abbrev all_vms : VmApi Services
all_vms = record { fetch_vm = λ n s. ok (machine n); replace_vm = λ n vm s. (ok tt, s) }

abbrev backends : BackendApi Services
backends = record {
  vms = all_vms;
  read_service = λ n s. service_of_name n s;
  create_service = λ svc s. (ok svc, (or_else svc.name [], svc) ∷ s);
  replace_service = λ n svc s. (ok tt, s);
  delete_service = λ n s. (ok tt, without_service n s);
  members = λ id s. ok [];
}

abbrev gateway : GatewayApi Services
gateway = record {
  read_route = λ n s. err missing;
  create_route = λ body s. (err quota, s);
  replace_route = λ n body s. (ok tt, s);
  delete_route = λ n s. (ok tt, s);
  list_gateways = λ s. ok [];
}

service_other :
    (k m : Text) (svc : KubeService) (s : Services)
    → m ≢ k
    → service_of_name m ((k, svc) ∷ s) ≡ service_of_name m s
unfolding service_of_name
service_other k m svc s differ = elim (Bool-cases (text_eq k m)) [
  | inl q ↦ absurd (differ (sym (text_eq_sound k m q)))
  | inr q ↦ rw q refl
]

service_skip :
    (k m : Text) (svc : KubeService) (a b : Services)
    → service_of_name m a ≡ service_of_name m b
    → service_of_name m ((k, svc) ∷ a) ≡ service_of_name m ((k, svc) ∷ b)
unfolding service_of_name
service_skip k m svc a b h = elim (Bool-cases (text_eq k m)) [ inl q ↦ rw q refl | inr q ↦ rw q h ]

service-without :
    (n m : Text) (s : Services)
    → m ≢ n
    → service_of_name m (without_service n s) ≡ service_of_name m s
unfolding without_service
service-without n m [] differ = refl
service-without n m ((k, svc) ∷ s) differ = elim (Bool-cases (text_eq k n)) [
  | inl same ↦ rw same (
      service-without n m s differ
      ∙ sym (service_other k m svc s (λ e. differ (e ∙ text_eq_sound k n same))))
  | inr other ↦
      rw other (service_skip k m svc (without_service n s) s (service-without n m s differ))
]

no_json : Text → Option Labels
no_json s = none

plain_json : Labels → Text
plain_json m = []

abbrev separate : IsSeparate backends plain_json no_json gateway
separate = record {
  by_route = λ name m s. refl;
  by_vm = λ n m vm s. refl;
  by_service = λ n m s differ. service-without n m s differ;
}

without-gone : (n : Text) (s : Services) → service_of_name n (without_service n s) ≡ err missing
unfolding without_service service_of_name
without-gone n [] = refl
without-gone n ((k, svc) ∷ s) = elim (Bool-cases (text_eq k n)) [
  | inl same ↦ rw same (without-gone n s)
  | inr other ↦ rw (other, other) (without-gone n s)
]

created_other :
    (body : KubeService) (n m : Text) (s : Services)
    → body.name ≡ some n
    → m ≢ n
    → service_of_name m ((or_else body.name [], body) ∷ s) ≡ service_of_name m s
created_other body n m s named differ =
    service_other (or_else body.name []) m body s (λ e. differ (e ∙ ap (λ k. or_else k []) named))

created_fails :
    (body : KubeService) (m : Text) (s : Services) (e : ErrorValue)
    → (backends.create_service body s).0 ≡ err e
    → service_of_name m (backends.create_service body s).1 ≡ service_of_name m s
created_fails body m s e h = cc

abbrev kubernetes : IsKubernetes backends plain_json no_json gateway
kubernetes = record {
  separate = separate;
  apart = record {
    by_vm = λ n m vm s. refl;
    by_creation = created_other;
    by_refusal = created_fails;
  };
  by_creation = λ body m s. refl;
  deleted = λ n s h. (missing, without-gone n s);
}

-- A load balancer with the route's name and without its label.
abbrev balancer : KubeService
balancer = record {
  name = some (codes "web");
  namespace = some (codes "apps");
  creation_timestamp = none;
  labels = some ((codes "kmc.ianunruh.com/resource", codes "backend") ∷ []);
  annotations = none;
  type = some (codes "LoadBalancer");
  external_traffic_policy = none;
  ports = [];
  selector = [];
  ingress = [];
}

abbrev services : Services
services = (codes "web", balancer) ∷ []

abbrev seen : Service
seen = record {
  labels = (codes "kmc.ianunruh.com/resource", codes "backend") ∷ [];
  type = some (codes "LoadBalancer");
  target_port = none;
}

abbrev backed : RouteApi Services
backed = route_api backends plain_json no_json gateway (codes "lab") (codes "apps")

delete_http_route-Stays_example :
    backed.read_service (codes "web") (delete_http_route backed (codes "web") services).1 ≡ ok seen
unfolding service_of_name service_view lookup text_eq
delete_http_route-Stays_example =
    delete_http_route-Stays backed
      (route_api-KeepsServices backends plain_json no_json gateway (codes "lab") (codes "apps")
        separate)
      (codes "web") (codes "web") seen (inr ((λ e. cc e), inr refl)) services refl

map_summary-IsShown_example :
    IsShown request none (map_summary (codes "lab") (build_http_route_manifest request none) [])
unfolding check_request lookup text_eq
map_summary-IsShown_example = map_summary-IsShown request none refl refl (codes "lab") [] refl
