-- ===== src/HttpRoutes/RoundTrip.antt =====
-- A route of console/app/httproutes/template.server.ts, as console/app/httproutes/httproutes.server.ts
-- shows it.
use kmc.Common.{
  ℕ, ◌≡◌, refl, ap, ◌∙◌, true, Option, none, some, List, [], ◌∷◌, or_else, Result, ok, err,
  guard-ok, Text, codes, truthy, trim, trimmed, nonempty, text_eq, keep, ◌>>◌, Labels, lookup,
  spread, lookup-spread,
}
use kmc.Backends.Membership.{
  BackendMembership, single_vm, labels, group, membership_labels, label_target_kind, label_vm,
}
use kmc.HttpRoutes.Objects.{RouteMatch, KubeHttpRoute, KubeGateway}
use kmc.HttpRoutes.Mappings.{
  MembershipMode, single_vm_mode, labels_mode, group_mode, map_parent_refs,
  membership_mode_from_kind, primary_service_name,
}
use kmc.HttpRoutes.Summaries.{
  HttpRouteSummary, map_summary, vm_in_mode, vm_name_from_http_route_labels,
}
use kmc.HttpRoutes.Manifests.{
  CreateHttpRouteRequest, ownership_labels, service_of, build_http_route_manifest,
}
use kmc.HttpRoutes.Lifecycle.{check_request}

abbrev pub mode_of : Option BackendMembership → MembershipMode
mode_of none = single_vm_mode
mode_of (some (single_vm vm)) = single_vm_mode
mode_of (some (labels ls)) = labels_mode
mode_of (some (group id vms)) = group_mode

abbrev pub vm_of : Option BackendMembership → Option Text
vm_of none = none
vm_of (some (single_vm vm)) = some vm
vm_of (some (labels ls)) = none
vm_of (some (group id vms)) = none

-- What the page shows of a route that was requested.
pub record IsShown (input : CreateHttpRouteRequest) (service : Option Text)
    (summary : HttpRouteSummary) : Type 0 where
  pub name : summary.name ≡ input.name
  pub namespace : summary.namespace ≡ input.namespace
  pub hosts : summary.hosts ≡ trim input.host ∷ []
  pub parent_refs :
      summary.parent_refs
      ≡ record {
        name = trim input.gateway_name;
        namespace = trimmed input.gateway_namespace;
        section_name = trimmed input.section_name;
        kind = some (codes "Gateway");
      }
        ∷ []
  pub service_name :
      summary.service_name ≡ some (service_of service input.existing_service_name input.name)
  pub mode : summary.membership_mode ≡ mode_of input.membership
  pub vm_name : summary.vm_name ≡ vm_of input.membership

both_ok :
    {E : Type 0} {A : Type 0} (r : Result E (Unit {0})) (next : Result E A) (a : A)
    → (r >> next) ≡ ok a
    → (r ≡ ok tt) × (next ≡ ok a)
both_ok (ok _) next a h = (refl, h)
both_ok (err e) next a h = cc

-- The texts that the creation of a route needs are there.
record IsComplete (input : CreateHttpRouteRequest) : Type 0 where
  name : truthy (trim input.name) ≡ true
  host : truthy (trim input.host) ≡ true
  gateway : truthy (trim input.gateway_name) ≡ true

check_request-IsComplete :
    (input : CreateHttpRouteRequest) → check_request input ≡ ok tt → IsComplete input
unfolding check_request
check_request-IsComplete input h =
    let (_, h1) = both_ok _ _ tt h in
    let (_, h2) = both_ok _ _ tt h1 in
    let (named, h3) = both_ok _ _ tt h2 in
    let (hosted, h4) = both_ok _ _ tt h3 in
    let (routed, _) = both_ok _ _ tt h4 in
    record { name = guard-ok _ _ named; host = guard-ok _ _ hosted; gateway = guard-ok _ _ routed }

truthy-trim : (s : Text) → truthy (trim s) ≡ true → truthy s ≡ true
truthy-trim [] h = unfold trim in h
truthy-trim (c ∷ s) h = refl

truthy-keep : (s : Text) → truthy s ≡ true → keep truthy (s ∷ []) ≡ s ∷ []
unfolding keep
truthy-keep s h = rw (h, keep) refl

named_service-truthy :
    (route : KubeHttpRoute) (s : Text) (m : RouteMatch) (port : ℕ)
    → truthy s ≡ true
    → primary_service_name (record route {
      rules =
          record {
            matches = m ∷ [];
            backend_refs = record { name = some s; port = some port } ∷ [];
          }
          ∷ [];
    })
      ≡ some s
unfolding primary_service_name
named_service-truthy route [] m port h = cc
named_service-truthy route (c ∷ s) m port h = refl

truthy-nonempty : (s : Text) (d : Text) → truthy d ≡ true → truthy (or_else (nonempty s) d) ≡ true
truthy-nonempty [] d h = h
truthy-nonempty (c ∷ s) d h = refl

truthy-trimmed :
    (s : Option Text) (d : Text) → truthy d ≡ true → truthy (or_else (trimmed s) d) ≡ true
unfolding trimmed
truthy-trimmed none d h = h
truthy-trimmed (some s) d h = truthy-nonempty (trim s) d h

named_refs-truthy :
    (g : Text) (ns section kind : Option Text)
    → truthy g ≡ true
    → map_parent_refs
        (record { name = some g; namespace = ns; section_name = section; kind = kind } ∷ [])
      ≡ record { name = g; namespace = ns; section_name = section; kind = kind } ∷ []
unfolding map_parent_refs
named_refs-truthy [] ns section kind h = cc
named_refs-truthy (c ∷ g) ns section kind h = refl

module _ (input : CreateHttpRouteRequest) (service : Option Text)
    (kind_free : lookup label_target_kind input.extra_labels ≡ none)
    (vm_free : lookup label_vm input.extra_labels ≡ none) where
  abbrev route : KubeHttpRoute
  route = build_http_route_manifest input service

  label_of : (m : Option BackendMembership) → Labels
  label_of m = spread (ownership_labels input.name m) input.extra_labels

  kind_of :
      (m : Option BackendMembership)
      → membership_mode_from_kind (lookup label_target_kind (ownership_labels input.name m))
        ≡ mode_of m
  unfolding lookup ownership_labels membership_labels membership_mode_from_kind spread
  kind_of none = refl
  kind_of (some (single_vm vm)) = refl
  kind_of (some (labels ls)) = refl
  kind_of (some (group id vms)) = refl

  kind_shown :
      (m : Option BackendMembership)
      → membership_mode_from_kind (lookup label_target_kind (label_of m)) ≡ mode_of m
  unfolding label_of
  kind_shown m =
      ap membership_mode_from_kind (
        lookup-spread label_target_kind (ownership_labels input.name m) input.extra_labels
          kind_free)
      ∙ kind_of m

  vm_of_mode :
      (m : Option BackendMembership)
      → vm_in_mode (mode_of m) (lookup label_vm (ownership_labels input.name m)) ≡ vm_of m
  unfolding lookup ownership_labels membership_labels spread text_eq
  vm_of_mode none = refl
  vm_of_mode (some (single_vm vm)) = refl
  vm_of_mode (some (labels ls)) = refl
  vm_of_mode (some (group id vms)) = refl

  vm_shown :
      (m : Option BackendMembership)
      → vm_in_mode
          (membership_mode_from_kind (lookup label_target_kind (label_of m)))
          (vm_name_from_http_route_labels (label_of m))
        ≡ vm_of m
  unfolding label_of vm_name_from_http_route_labels
  vm_shown m = rw (kind_shown m) (
      ap (vm_in_mode (mode_of m))
        (lookup-spread label_vm (ownership_labels input.name m) input.extra_labels vm_free)
      ∙ vm_of_mode m)

  -- A request to create a route that passes the checks is shown as it was made: the host, the parent
  -- Gateway and the Service by their trimmed names, and the membership's mode and machine, where the
  -- request's extra labels do not name the membership's.
  pub map_summary-IsShown :
      (cluster : Text) (gateways : List KubeGateway)
      → check_request input ≡ ok tt
      → IsShown input service
          (map_summary cluster (build_http_route_manifest input service) gateways)
  unfolding map_summary build_http_route_manifest label_of
  map_summary-IsShown cluster gateways h = record {
    name = refl;
    namespace = refl;
    hosts = truthy-keep (trim input.host) (check_request-IsComplete input h).host;
    parent_refs =
        named_refs-truthy (trim input.gateway_name) (trimmed input.gateway_namespace)
          (trimmed input.section_name) (some (codes "Gateway"))
          (check_request-IsComplete input h).gateway;
    service_name =
        named_service-truthy (build_http_route_manifest input service)
          (service_of service input.existing_service_name input.name)
          (record {
            path_type = some (or_else input.path_type (codes "PathPrefix"));
            path_value = some (or_else (trimmed input.path) (codes "/"));
          })
          (or_else input.service_port 80)
          (truthy-trimmed service _ (
            truthy-trimmed input.existing_service_name _
              (truthy-trim input.name (check_request-IsComplete input h).name)));
    mode = kind_shown input.membership;
    vm_name = vm_shown input.membership;
  }
