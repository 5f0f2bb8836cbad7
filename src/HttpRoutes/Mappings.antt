-- ===== src/HttpRoutes/Mappings.antt =====
-- What is read of a route alone: `mapParentRefs`, `mapHosts`, `parentAccepted`, `mapRules`,
-- `primaryServiceName` and `membershipModeFromKind` of console/app/httproutes/httproutes.server.ts.
use kmc.Common.{
  ℕ, Bool, false, ◌&&◌, ◌||◌, Option, none, some, List, [], ◌∷◌, ◌++◌, map, keep, if◌then◌else◌,
  or_else, Text, codes, truthy, nonempty, text_eq,
}
use kmc.Backends.Membership.{target_kind_vm, target_kind_labels, target_kind_group}
use kmc.HttpRoutes.Objects.{
  KubeParentRef, RouteMatch, BackendRef, RouteRule, RouteCondition, KubeHttpRoute,
  HttpRouteParentRef,
}

abbrev given_ref : KubeParentRef → Option Text → List HttpRouteParentRef
given_ref p none = []
given_ref p (some []) = []
given_ref p (some (c ∷ n)) =
    record { name = c ∷ n; namespace = p.namespace; section_name = p.section_name; kind = p.kind }
    ∷ []

unfoldable pub map_parent_refs : List KubeParentRef → List HttpRouteParentRef
map_parent_refs [] = []
map_parent_refs (p ∷ ps) = given_ref p p.name ++ map_parent_refs ps

unfoldable pub map_hosts : KubeHttpRoute → List Text
unfolding keep
map_hosts route = keep truthy route.hostnames

unfoldable pub is_text : Text → Option Text → Bool
unfolding text_eq
is_text t none = false
is_text t (some s) = text_eq s t

unfoldable pub any_accepted : List RouteCondition → Bool
unfolding is_text
any_accepted [] = false
any_accepted (c ∷ cs) =
    (is_text (codes "Accepted") c.type && is_text (codes "True") c.status) || any_accepted cs

any_parent : List (List RouteCondition) → Bool
unfolding any_accepted
any_parent [] = false
any_parent (p ∷ ps) = any_accepted p || any_parent ps

unfoldable pub parent_accepted : KubeHttpRoute → Option Bool
unfolding any_parent
parent_accepted route = elim route.parents [ [] ↦ none | p ∷ ps ↦ some (any_parent (p ∷ ps)) ]

pub record HttpRouteRuleMatch : Type 0 where
  pub path : Text
  pub path_type : Text
  pub service_name : Text
  pub service_port : Option ℕ

abbrev first_backend : List BackendRef → Option BackendRef
first_backend [] = none
first_backend (b ∷ bs) = some b

abbrev of_backend {ℓ} : {A : Type ℓ} → (BackendRef → Option A) → Option BackendRef → Option A
of_backend f none = none
of_backend f (some b) = f b

map_match : Option BackendRef → RouteMatch → HttpRouteRuleMatch
map_match backend m = record {
  path = or_else m.path_value (codes "/");
  path_type = or_else m.path_type (codes "PathPrefix");
  service_name = or_else (of_backend (λ b. b.name) backend) [];
  service_port = of_backend (λ b. b.port) backend;
}

abbrev rows_of : List RouteMatch → List RouteMatch
rows_of [] = record { path_type = some (codes "PathPrefix"); path_value = some (codes "/") } ∷ []
rows_of (m ∷ ms) = m ∷ ms

unfoldable pub map_rule : RouteRule → List HttpRouteRuleMatch
unfolding map_match
map_rule rule = map (map_match (first_backend rule.backend_refs)) (rows_of rule.matches)

unfoldable pub map_rules : KubeHttpRoute → List (List HttpRouteRuleMatch)
unfolding map_rule
map_rules route = map map_rule route.rules

first_service : List HttpRouteRuleMatch → Option Text
first_service [] = none
first_service (m ∷ ms) = elim (nonempty m.service_name) [
  | some s ↦ some s
  | none ↦ first_service ms
]

rules_service : List (List HttpRouteRuleMatch) → Option Text
unfolding first_service
rules_service [] = none
rules_service (r ∷ rs) = elim (first_service r) [ some s ↦ some s | none ↦ rules_service rs ]

unfoldable pub primary_service_name : KubeHttpRoute → Option Text
unfolding rules_service map_rules
primary_service_name route = elim (rules_service (map_rules route)) [
  | some s ↦ some s
  | none ↦ route.name
]

pub data MembershipMode : Type 0 where
  single_vm_mode : MembershipMode
  labels_mode : MembershipMode
  group_mode : MembershipMode
  unknown_mode : MembershipMode

unfoldable pub membership_mode_from_kind : Option Text → MembershipMode
unfolding text_eq
membership_mode_from_kind none = single_vm_mode
membership_mode_from_kind (some kind) =
    if text_eq kind target_kind_vm
    then single_vm_mode
    else if text_eq kind target_kind_labels
    then labels_mode
    else if text_eq kind target_kind_group
    then group_mode
    else if truthy kind
    then unknown_mode
    else single_vm_mode
