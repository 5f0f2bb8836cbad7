-- ===== src/HttpRoutes/Summaries.antt =====
-- `mapSummary` of console/app/httproutes/httproutes.server.ts, with the label of the machine from
-- console/app/httproutes/template.server.ts.
use kmc.Common.{Bool, Option, none, List, [], or_else, Text, codes, Labels, lookup}
use kmc.Backends.Membership.{label_target_kind, label_vm}
use kmc.HttpRoutes.Objects.{KubeHttpRoute, KubeGateway, HttpRouteParentRef}
use kmc.HttpRoutes.Mappings.{
  map_parent_refs, map_hosts, parent_accepted, primary_service_name, MembershipMode,
  membership_mode_from_kind, single_vm_mode, labels_mode, group_mode, unknown_mode,
}
use kmc.HttpRoutes.Gateways.{https_hosts_for_route, address_for_route}

unfoldable pub vm_name_from_http_route_labels : Labels → Option Text
unfolding lookup
vm_name_from_http_route_labels ls = lookup label_vm ls

pub record HttpRouteSummary : Type 0 where
  pub cluster : Text
  pub namespace : Text
  pub name : Text
  pub hosts : List Text
  pub https_hosts : List Text
  pub parent_refs : List HttpRouteParentRef
  pub accepted : Option Bool
  pub membership_mode : MembershipMode
  pub vm_name : Option Text
  pub service_name : Option Text
  pub age : Text
  pub address : Option Text

abbrev pub vm_in_mode : MembershipMode → Option Text → Option Text
vm_in_mode single_vm_mode vm = vm
vm_in_mode labels_mode vm = none
vm_in_mode group_mode vm = none
vm_in_mode unknown_mode vm = none

unfoldable pub map_summary : Text → KubeHttpRoute → List KubeGateway → HttpRouteSummary
unfolding map_hosts https_hosts_for_route map_parent_refs parent_accepted membership_mode_from_kind
    lookup vm_name_from_http_route_labels primary_service_name address_for_route
map_summary cluster route gateways =
    let mode = membership_mode_from_kind (lookup label_target_kind route.labels) in
    record {
      cluster = cluster;
      namespace = or_else route.namespace (codes "default");
      name = or_else route.name (codes "unknown");
      hosts = map_hosts route;
      https_hosts = https_hosts_for_route route gateways;
      parent_refs = map_parent_refs route.parent_refs;
      accepted = parent_accepted route;
      membership_mode = mode;
      vm_name = vm_in_mode mode (vm_name_from_http_route_labels route.labels);
      service_name = primary_service_name route;
      age = or_else route.creation_timestamp [];
      address = address_for_route route gateways;
    }
