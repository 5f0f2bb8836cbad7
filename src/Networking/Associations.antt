-- ===== src/Networking/Associations.antt =====
-- Floating addresses and port forwards as the console shows them: the mappings of
-- console/app/vpcs/vpcs.server.ts, and those of console/app/vpcs/routers.server.ts.
use kmc.Common.{
  ℕ, Bool, true, false, ◌||◌, Option, none, some, List, [], ◌∷◌, map, if◌then◌else◌, or_else, Text,
  codes, trim, trimmed, text_eq, ◌==◌,
}
use kmc.Networking.Objects.{RouterCr, FloatingIpCr, PortForwardCr}
use kmc.Networking.Routers.{
  RouterAgentStatus, ready, error, pending, unknown, RouterSummary, interface_vpcs, has_external,
}

unfoldable pub vpc_known_status : Text → RouterAgentStatus
unfolding text_eq
vpc_known_status raw =
    if text_eq raw (codes "Ready")
    then ready
    else if text_eq raw (codes "Error")
    then error
    else if text_eq raw (codes "Pending")
    then pending
    else unknown

-- The `agentStatusFromRouter` of vpcs.server.ts.
unfoldable pub vpc_agent_status : RouterCr → Option RouterAgentStatus
unfolding vpc_known_status trimmed
vpc_agent_status r = elim (trimmed r.status.agent.status) [
  | none ↦ none
  | some raw ↦ some (vpc_known_status raw)
]

-- `.filter((v) => Boolean(v))`
unfoldable pub nonempty_names : List (Option Text) → List Text
nonempty_names [] = []
nonempty_names (none ∷ vs) = nonempty_names vs
nonempty_names (some [] ∷ vs) = nonempty_names vs
nonempty_names (some (c ∷ v) ∷ vs) = (c ∷ v) ∷ nonempty_names vs

shown_age : (Text → Text) → Option Text → Text
shown_age format_age none = codes "—"
shown_age format_age (some []) = codes "—"
shown_age format_age (some (c ∷ s)) = format_age (c ∷ s)

unfoldable pub router_summary_from_cr : (Text → Text) → Text → RouterCr → RouterSummary
unfolding nonempty_names interface_vpcs has_external vpc_agent_status shown_age
router_summary_from_cr format_age cluster cr = record {
  cluster = cluster;
  namespace = or_else cr.metadata.namespace (codes "default");
  name = or_else cr.metadata.name (codes "unknown");
  vpc_names = nonempty_names (interface_vpcs cr);
  has_external = has_external cr;
  agent_status = vpc_agent_status cr;
  agent_heartbeat_at = cr.status.agent.heartbeat_at;
  age = shown_age format_age cr.metadata.creation_timestamp;
}

pub data FloatingIpState : Type 0 where
  associated : FloatingIpState
  held : FloatingIpState

is_phase : Text → Option Text → Bool
unfolding text_eq
is_phase phase none = false
is_phase phase (some p) = text_eq p phase

abbrev is_given : Option Text → Bool
is_given none = false
is_given (some t) = true

unfoldable pub floating_ip_state : FloatingIpCr → FloatingIpState
unfolding is_phase trimmed
floating_ip_state cr =
    if is_given (trimmed cr.spec.private_address) || is_phase (codes "Associated") cr.status.phase
    then associated
    else held

-- `cr.status?.address?.trim() || cr.spec?.address?.trim() || ""`
unfoldable pub public_address : FloatingIpCr → Text
unfolding trimmed
public_address cr = or_else (trimmed cr.status.address) (or_else (trimmed cr.spec.address) [])

pub record FloatingIpAssociation : Type 0 where
  pub id : Text
  pub public_ip : Text
  pub prefix : ℕ
  pub private_ip : Option Text
  pub target_vm : Option Text
  pub state : FloatingIpState

unfoldable pub map_floating_ip_association : FloatingIpCr → FloatingIpAssociation
unfolding public_address floating_ip_state trimmed
map_floating_ip_association cr = record {
  id = or_else cr.metadata.name (public_address cr);
  public_ip = public_address cr;
  prefix = or_else cr.status.prefix_length 32;
  private_ip = trimmed cr.spec.private_address;
  target_vm = cr.spec.target_vm;
  state = floating_ip_state cr;
}

-- `mapFloatingFromCr` of routers.server.ts, which does not read the phase.
unfoldable pub map_floating_from_cr : FloatingIpCr → FloatingIpAssociation
unfolding public_address trimmed
map_floating_from_cr cr = record {
  id = or_else cr.metadata.name (public_address cr);
  public_ip = public_address cr;
  prefix = or_else cr.status.prefix_length 32;
  private_ip = trimmed cr.spec.private_address;
  target_vm = cr.spec.target_vm;
  state = if is_given (trimmed cr.spec.private_address) then associated else held;
}

pub data Protocol : Type 0 where
  tcp : Protocol
  udp : Protocol

pub record PortForwardAssociation : Type 0 where
  pub id : Text
  pub public_ip : Text
  pub public_port : ℕ
  pub private_ip : Text
  pub private_port : ℕ
  pub protocol : Protocol
  pub target_vm : Option Text
  pub vpc : Option Text

-- `toUpperCase` of a text that is `UDP` in any case of its letters
unfoldable pub is_udp : Text → Bool
unfolding text_eq
is_udp s =
    text_eq
      (map
        (λ c. if c == b'u' then b'U' else if c == b'd' then b'D' else if c == b'p' then b'P' else c)
        s)
      (codes "UDP")

protocol_of : Option Text → Protocol
unfolding is_udp
protocol_of none = tcp
protocol_of (some p) = if is_udp p then udp else tcp

abbrev first_given : Option Text → Option Text → Option Text
first_given none b = b
first_given (some t) b = some t

unfoldable pub map_port_forward_association : PortForwardCr → Option Text → PortForwardAssociation
unfolding protocol_of trim
map_port_forward_association cr vpc_name = record {
  id = or_else cr.metadata.name [];
  public_ip = elim cr.spec.public_address [ none ↦ [] | some a ↦ trim a ];
  public_port = or_else cr.spec.public_port 0;
  private_ip = elim cr.spec.private_address [ none ↦ [] | some a ↦ trim a ];
  private_port = or_else cr.spec.private_port 0;
  protocol = protocol_of cr.spec.protocol;
  target_vm = cr.spec.target_vm;
  vpc = first_given cr.spec.vpc_ref vpc_name;
}

pub record FloatingIpSummary : Type 0 where
  pub cluster : Text
  pub namespace : Text
  pub vpc_name : Text
  pub association : FloatingIpAssociation
  pub router_name : Option Text
  pub agent_status : Option RouterAgentStatus
  pub agent_heartbeat_at : Option Text
  pub policy_config_map : Option Text

abbrev both_or : Option Text → Option Text → Option Text
both_or none b = b
both_or (some []) b = b
both_or (some (c ∷ t)) b = some (c ∷ t)

abbrev of_router {ℓ} : {A : Type ℓ} → (RouterCr → Option A) → Option RouterCr → Option A
of_router f none = none
of_router f (some r) = f r

-- `a?.name || b?.name || undefined`
summary_router : Option Text → Option RouterCr → Option Text
summary_router ref router = both_or ref (both_or (of_router (λ r. r.metadata.name) router) none)

-- The association's fields are those of the summary.
unfoldable pub map_floating_ip_summary : Text → FloatingIpCr → Option RouterCr → FloatingIpSummary
unfolding map_floating_ip_association summary_router vpc_agent_status
map_floating_ip_summary cluster cr router = record {
  cluster = cluster;
  namespace = or_else cr.metadata.namespace [];
  vpc_name = or_else cr.spec.vpc_ref [];
  association = map_floating_ip_association cr;
  router_name = summary_router cr.spec.router_ref router;
  agent_status = of_router vpc_agent_status router;
  agent_heartbeat_at = of_router (λ r. r.status.agent.heartbeat_at) router;
  policy_config_map = of_router (λ r. r.status.policy_config_map) router;
}
