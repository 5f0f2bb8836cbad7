-- ===== src/Backends/Services.antt =====
-- Services of backends: the mappings of console/app/backends/backends.server.ts and the manifest of
-- console/app/backends/template.server.ts. Absent labels and lists are empty.
pub mod Changes
pub mod Deletion
pub mod Updates
use kmc.Common.{
  ℕ, suc, Bool, true, false, ◌+◌, ◌*◌, ◌-◌, ◌&&◌, ◌||◌, Option, none, some, List, [], ◌∷◌, ◌++◌,
  map, if◌then◌else◌, or_else, Result, ok, err, ◌>>◌, guard, Text, codes, truthy, nonempty, trimmed,
  text_eq, is_digit, decimal, leb, Labels, spread,
}
use kmc.Errors.{ErrorValue, plain_error}
use kmc.Backends.Membership.{
  BackendMembership, ReadMembership, single_vm, labels, group, known, unknown, membership_labels,
  membership_annotations, membership_from_service_meta, resolve_service_selector,
}

-- `number | string`
pub data TargetPort : Type 0 where
  number : ℕ → TargetPort
  port_name : Text → TargetPort

pub record ServicePort : Type 0 where
  pub name : Option Text
  pub port : Option ℕ
  pub target_port : Option TargetPort
  pub protocol : Option Text

pub record Ingress : Type 0 where
  pub ip : Option Text
  pub hostname : Option Text

pub record KubeService : Type 0 where
  pub name : Option Text
  pub namespace : Option Text
  pub creation_timestamp : Option Text
  pub labels : Option Labels
  pub annotations : Option Labels
  pub type : Option Text
  pub external_traffic_policy : Option Text
  pub ports : List ServicePort
  pub selector : Labels
  pub ingress : List Ingress

pub data BackendProtocol : Type 0 where
  tcp : BackendProtocol
  udp : BackendProtocol

pub record BackendPort : Type 0 where
  pub name : Option Text
  pub port : ℕ
  pub target_port : ℕ
  pub protocol : Option BackendProtocol

-- `/^\d+$/.test(s)`
all_digits : Text → Bool
all_digits [] = false
all_digits (c ∷ []) = is_digit c
all_digits (c ∷ d ∷ s) = is_digit c && all_digits (d ∷ s)

-- `Number(s)` of digits, `n` for those before
digits_from : ℕ → Text → ℕ
digits_from n [] = n
digits_from n (c ∷ s) = digits_from (n * 10 + (c - b'0')) s

unfoldable pub target_of : ℕ → Option TargetPort → ℕ
unfolding all_digits digits_from
target_of port none = port
target_of port (some (number n)) = n
target_of port (some (port_name s)) = if all_digits s then digits_from 0 s else port

protocol_of : Option Text → Option BackendProtocol
unfolding text_eq
protocol_of none = none
protocol_of (some p) =
    if text_eq p (codes "UDP") then some udp else if text_eq p (codes "TCP") then some tcp else none

unfoldable pub map_ports : List ServicePort → List BackendPort
unfolding target_of protocol_of
map_ports ports =
    map
      (λ p. record {
        name = p.name;
        port = or_else p.port 0;
        target_port = target_of (or_else p.port 0) p.target_port;
        protocol = protocol_of p.protocol;
      })
      ports

abbrev text_or : Option Text → Option Text → Option Text
text_or none other = other
text_or (some []) other = other
text_or (some (c ∷ s)) other = some (c ∷ s)

unfoldable pub map_external_address : KubeService → Option Text
map_external_address svc = elim svc.ingress [
  | [] ↦ none
  | lb ∷ more ↦ text_or lb.hostname (text_or lb.ip none)
]

pub record BackendSummary : Type 0 where
  pub cluster : Text
  pub namespace : Text
  pub name : Text
  pub service_type : Text
  pub external_traffic_policy : Option Text
  pub membership : ReadMembership
  pub vm_name : Option Text
  pub ports : List BackendPort
  pub selector : Labels
  pub age : Text
  pub external_address : Option Text
  pub endpoints : Option (ℕ × ℕ)

abbrev vm_of_membership : ReadMembership → Option Text
vm_of_membership unknown = none
vm_of_membership (known (single_vm vm)) = some vm
vm_of_membership (known (labels ls)) = none
vm_of_membership (known (group id vms)) = none

pub record CreateBackendRequest : Type 0 where
  pub cluster : Text
  pub namespace : Text
  pub name : Text
  pub membership : BackendMembership
  pub ports : List BackendPort
  pub service_type : Option Text
  pub extra_labels : Labels
  pub extra_annotations : Labels

unfoldable pub backend_ownership_labels : BackendMembership → Labels → Labels
unfolding membership_labels spread
backend_ownership_labels membership extra =
    spread
      (spread
        ((codes "app.kubernetes.io/managed-by", codes "kmc")
          ∷ (codes "kmc.ianunruh.com/resource", codes "backend")
          ∷ [])
        (membership_labels membership))
      extra

abbrev protocol_text : Option BackendProtocol → Text
protocol_text none = codes "TCP"
protocol_text (some tcp) = codes "TCP"
protocol_text (some udp) = codes "UDP"

-- The ports of a manifest, from number `i` on.
unfoldable pub manifest_ports : ℕ → List BackendPort → List ServicePort
unfolding trimmed decimal
manifest_ports i [] = []
manifest_ports i (p ∷ ps) =
    record {
      name = some (or_else (trimmed p.name) (codes "port-" ++ decimal i));
      port = some p.port;
      target_port = some (number p.target_port);
      protocol = some (protocol_text p.protocol);
    }
    ∷ manifest_ports (suc i) ps

abbrev full {ℓ} : {A : Type ℓ} → List A → Bool
full [] = false
full (a ∷ as') = true

abbrev some_full : Labels → Option Labels
some_full [] = none
some_full (e ∷ m) = some (e ∷ m)

module _ (stringify : Labels → Text) (parse_object : Text → Option Labels) where
  unfoldable pub map_summary : Text → KubeService → Option (ℕ × ℕ) → BackendSummary
  unfolding membership_from_service_meta map_ports map_external_address
  map_summary cluster svc endpoints =
      let membership =
        membership_from_service_meta stringify parse_object svc.labels svc.annotations in
      record {
        cluster = cluster;
        namespace = or_else svc.namespace (codes "default");
        name = or_else svc.name (codes "unknown");
        service_type = or_else svc.type (codes "ClusterIP");
        external_traffic_policy = svc.external_traffic_policy;
        membership = membership;
        vm_name = vm_of_membership membership;
        ports = map_ports svc.ports;
        selector = svc.selector;
        age = or_else svc.creation_timestamp [];
        external_address = map_external_address svc;
        endpoints = endpoints;
      }

  unfoldable pub build_service_manifest : CreateBackendRequest → Result ErrorValue KubeService
  unfolding membership_annotations spread backend_ownership_labels resolve_service_selector
      manifest_ports text_eq
  build_service_manifest input =
      let service_type = or_else input.service_type (codes "ClusterIP") in
      let selector = resolve_service_selector input.membership in
      do
        guard (full input.ports) (plain_error (codes "backend requires at least one port"))
        guard (full selector) (plain_error (codes "backend selector cannot be empty"))
        ok (record {
          name = some input.name;
          namespace = some input.namespace;
          creation_timestamp = none;
          labels = some (backend_ownership_labels input.membership input.extra_labels);
          annotations = some_full (
              spread (membership_annotations stringify parse_object input.membership)
                input.extra_annotations);
          type = some service_type;
          external_traffic_policy =
              if text_eq service_type (codes "LoadBalancer") then some (codes "Local") else none;
          ports = manifest_ports 0 input.ports;
          selector = selector;
          ingress = [];
        })
