-- ===== src/Networking/Routers.antt =====
-- Router resources as the console shows them: the mappings of console/app/vpcs/routers.server.ts.
-- The printing of an age (`formatAge`) reads the clock and is an argument.
pub mod Attachments
pub mod Detachment
pub mod Failures
pub mod Listing
pub mod Machine
pub mod Names
pub mod Refinement
mod Tests
pub mod Offers
pub mod Outcomes
pub mod Creation
use kmc.Common.{
  ℕ, Bool, true, false, ◌||◌, Option, none, some, List, [], ◌∷◌, ◌++◌, map, keep, if◌then◌else◌,
  or_else, Result, ok, err, Text, codes, truthy, trim, trimmed, has, text_eq, to_lower,
}
use kmc.Errors.{ErrorValue, format_error, plain_error, caused}
use kmc.Networking.Objects.{
  ObjectMeta, RouterCr, RouterVpcAttachment, RouterInterface, FloatingIpCr, PortForwardCr, VpcCr,
}
use kmc.Networking.Api.{is_not_found_error}

-- The most Multus networks of one machine, `KMC_MAX_MULTUS_ATTACHMENTS`.
abbrev pub max_multus_attachments : ℕ
max_multus_attachments = 8

platform_keys : List Text → Option Text → List Text
unfolding has
platform_keys keys none = keys
platform_keys keys (some platform) = if has keys platform then keys else keys ++ platform ∷ []

abbrev some_keys : List Text → Result ErrorValue (List Text)
some_keys [] = err (plain_error (codes "At least one SSH public key is required"))
some_keys (k ∷ keys) = ok (k ∷ keys)

-- The user's key and the platform's, which is the second argument.
unfoldable pub appliance_ssh_public_keys : Text → Option Text → Result ErrorValue (List Text)
unfolding platform_keys trim trimmed
appliance_ssh_public_keys user_key platform =
    let user = trim user_key in
    some_keys (platform_keys (if truthy user then user ∷ [] else []) (trimmed platform))

unfoldable pub router_policy_config_map_name : Text → Text
router_policy_config_map_name router_name = codes "kmc-router-" ++ router_name

unfoldable pub default_router_domain : Text → Text
default_router_domain vpc_name = vpc_name ++ codes ".vpc.local"

pub data RouterAgentStatus : Type 0 where
  ready : RouterAgentStatus
  error : RouterAgentStatus
  pending : RouterAgentStatus
  unknown : RouterAgentStatus
  stale : RouterAgentStatus

unfoldable pub known_status : Text → RouterAgentStatus
unfolding text_eq
known_status raw =
    if text_eq raw (codes "Ready")
    then ready
    else if text_eq raw (codes "Error")
    then error
    else if text_eq raw (codes "Pending")
    then pending
    else if text_eq raw (codes "Stale")
    then stale
    else unknown

unfoldable pub agent_status_from_router : RouterCr → Option RouterAgentStatus
unfolding known_status trimmed
agent_status_from_router r = elim (trimmed r.status.agent.status) [
  | none ↦ none
  | some raw ↦ some (known_status raw)
]

pub record RouterSummary : Type 0 where
  pub cluster : Text
  pub namespace : Text
  pub name : Text
  pub vpc_names : List Text
  pub has_external : Bool
  pub agent_status : Option RouterAgentStatus
  pub agent_heartbeat_at : Option Text
  pub age : Text

-- `.filter((v) => Boolean(v?.trim()))`, the values as they are
unfoldable pub given_names : List (Option Text) → List Text
unfolding trim
given_names [] = []
given_names (none ∷ vs) = given_names vs
given_names (some v ∷ vs) = let rest = given_names vs in if truthy (trim v) then v ∷ rest else rest

unfoldable pub interface_vpcs : RouterCr → List (Option Text)
interface_vpcs cr = elim cr.status.interfaces [
  | some ifaces ↦ map (λ i. i.vpc) ifaces
  | none ↦ map (λ v. some v.name) cr.spec.vpcs
]

abbrev is_given : Option Text → Bool
is_given none = false
is_given (some t) = true

-- The router has an external gateway in its specification.
unfoldable pub spec_external : RouterCr → Option Text
unfolding trimmed
spec_external cr = elim cr.spec.external [ none ↦ none | some e ↦ trimmed (some e.multus_network) ]

unfoldable pub has_external : RouterCr → Bool
unfolding spec_external trimmed
has_external cr =
    is_given (trimmed cr.status.external.multus_network) || is_given (spec_external cr)

age_of : (Text → Text) → Option Text → Text
age_of format_age none = codes "—"
age_of format_age (some []) = codes "—"
age_of format_age (some (c ∷ s)) = format_age (c ∷ s)

unfoldable pub map_router_summary : (Text → Text) → Text → RouterCr → RouterSummary
unfolding given_names interface_vpcs has_external agent_status_from_router age_of
map_router_summary format_age cluster cr = record {
  cluster = cluster;
  namespace = or_else cr.metadata.namespace (codes "default");
  name = or_else cr.metadata.name (codes "unknown");
  vpc_names = given_names (interface_vpcs cr);
  has_external = has_external cr;
  agent_status = agent_status_from_router cr;
  agent_heartbeat_at = cr.status.agent.heartbeat_at;
  age = age_of format_age cr.metadata.creation_timestamp;
}

pub record RouterInterfaceInfo : Type 0 where
  pub vpc : Text
  pub cidr : Text
  pub gateway : Text
  pub domain : Text
  pub mac : Option Text

vpc_domain : Option Text → Text
unfolding default_router_domain
vpc_domain none = []
vpc_domain (some []) = []
vpc_domain (some (c ∷ s)) = default_router_domain (c ∷ s)

status_interface : RouterInterface → RouterInterfaceInfo
unfolding vpc_domain
status_interface i = record {
  vpc = or_else i.vpc [];
  cidr = or_else i.cidr [];
  gateway = or_else i.gateway [];
  domain = or_else i.domain (vpc_domain i.vpc);
  mac = i.mac;
}

spec_interface : RouterVpcAttachment → RouterInterfaceInfo
unfolding default_router_domain
spec_interface v = record {
  vpc = v.name;
  cidr = [];
  gateway = or_else v.gateway [];
  domain = default_router_domain v.name;
  mac = none;
}

unfoldable pub map_interfaces : RouterCr → List RouterInterfaceInfo
unfolding status_interface spec_interface
map_interfaces cr = elim (or_else cr.status.interfaces []) [
  | [] ↦ map spec_interface cr.spec.vpcs
  | i ∷ is ↦ map status_interface (i ∷ is)
]

-- `throw new Error(…)` for a resource that is not found, and else the failure with its cause.
unfoldable pub load_failure : Text → ErrorValue → ErrorValue
unfolding is_not_found_error format_error
load_failure missing e =
    if is_not_found_error e then plain_error missing else caused (format_error e) e

unfoldable pub vpc_missing : Text → Text → Text
vpc_missing namespace name = codes "VPC " ++ (namespace ++ b'/' ∷ (name ++ codes " not found"))

-- The last argument is the API's answer.
unfoldable pub load_vpc_cr : Text → Text → Result ErrorValue VpcCr → Result ErrorValue VpcCr
unfolding load_failure vpc_missing
load_vpc_cr namespace name (ok vpc) = ok vpc
load_vpc_cr namespace name (err e) = err (load_failure (vpc_missing namespace name) e)
