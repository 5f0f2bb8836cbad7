-- ===== src/Networking/Routers/Creation.antt =====
-- `createRouter`, `recreateRouterVm` and `deleteRouter` of console/app/vpcs/routers.server.ts, with
-- the test of the namespace in console/app/lib/k8s/catalog.server.ts. The API's answers and the
-- platform's key are arguments.
use kmc.Common.{
  ℕ, zero, suc, ◌+◌, Bool, true, false, ◌&&◌, ◌||◌, Option, none, some, List, [], ◌∷◌, ◌++◌, map,
  length, if◌then◌else◌, leb, or_else, Result, ok, err, ◌>>=◌, ◌>>◌, guard, Text, codes, truthy,
  trim, trimmed, trim_all, has, text_eq, includes, to_lower, Labels, lookup, insert,
}
use kmc.Errors.{ErrorValue, format_error, plain_error, caused}
use kmc.Format.Names.{is_dns1123_label}
use kmc.Networking.Objects.{RouterCr, RouterStatus, RouterExternalSpec, RouterApplianceSpec, VpcCr}
use kmc.Networking.Api.{kmc_managed_labels, deleted_object}
use kmc.Networking.Routers.{
  max_multus_attachments, appliance_ssh_public_keys, map_router_summary, RouterSummary,
}
use kmc.Networking.Routers.Attachments.{required_cidr, read_vpc, attachment, load_router}

pub record ApplianceImage : Type 0 where
  pub namespace : Text
  pub name : Text

-- The fields that both requests have.
pub record ApplianceRequest : Type 0 where
  pub ssh_public_key : Text
  pub instance_type : Option Text
  pub cpu_cores : Option ℕ
  pub memory : Option Text
  pub disk_size : Text
  pub storage_class : Option Text
  pub image : ApplianceImage

pub record CreateRouterRequest : Type 0 where
  pub cluster : Text
  pub namespace : Text
  pub name : Text
  pub vpc_names : List Text
  pub external_multus_network : Option Text
  pub appliance : ApplianceRequest
  pub start : Option Bool

-- `[...new Set(xs)]`: the first of equal values stays.
unfoldable pub unique_from : List Text → List Text → List Text
unfolding has
unique_from seen [] = []
unique_from seen (x ∷ xs) =
    let skip = has seen x in
    let rest = unique_from (if skip then seen else x ∷ seen) xs in if skip then rest else x ∷ rest

abbrev given : Option Text → Bool
given none = false
given (some t) = truthy t

abbrev given_number : Option ℕ → Bool
given_number none = false
given_number (some zero) = false
given_number (some (suc n)) = true

unfoldable pub check_appliance : ApplianceRequest → Result ErrorValue (Unit {0})
unfolding trim
check_appliance a = do
  guard (truthy (trim a.ssh_public_key)) (plain_error (codes "sshPublicKey is required"))
  guard (truthy (trim a.disk_size)) (plain_error (codes "diskSize is required"))
  guard (truthy (trim a.image.name)) (plain_error (codes "image is required"))
  guard (given a.instance_type || (given_number a.cpu_cores && given a.memory))
      (plain_error (codes "Provide instanceType or both cpuCores and memory"))

unfoldable pub check_name : Text → Result ErrorValue (Unit {0})
unfolding trim is_dns1123_label
check_name name = do
  guard (truthy (trim name)) (plain_error (codes "name is required"))
  guard (is_dns1123_label (trim name) && leb (length (trim name)) 63) (
      plain_error
        (codes "name must be a DNS-1123 label (lowercase alphanumeric and hyphens, ≤63 chars)"))

-- The namespace's labels are the API's answer; a failure is an `Error` with its message.
is_allowed : Option Text → Bool
unfolding text_eq
is_allowed none = false
is_allowed (some v) = text_eq v (codes "true")

first_message : ErrorValue → Text
first_message e = elim e.messages [ [] ↦ [] | m ∷ ms ↦ m ]

unfoldable pub assert_vm_namespace_allowed :
    Text → Result ErrorValue Labels → Result ErrorValue (Unit {0})
unfolding is_allowed lookup first_message includes to_lower
assert_vm_namespace_allowed namespace (ok labels) =
    guard (is_allowed (lookup (codes "kmc.ianunruh.com/vm-allowed") labels)) (
      plain_error (
        codes "Namespace \""
        ++ (namespace
            ++ codes
                "\" is not allowed for VM launch (requires label kmc.ianunruh.com/vm-allowed=true)")))
assert_vm_namespace_allowed namespace (err e) =
    if includes (codes "404") (first_message e)
      || includes (codes "not found") (to_lower (first_message e))
    then err (plain_error (codes "Namespace \"" ++ (namespace ++ codes "\" was not found")))
    else err e

taken_by : Text → Text → ErrorValue
taken_by vpc_name router_name =
    plain_error
      (codes "VPC " ++ (vpc_name ++ (codes " is already attached to router " ++ router_name)))

-- The network belongs to no router at all.
unfoldable pub unattached : Text → VpcCr → Result ErrorValue (Unit {0})
unfolding taken_by trimmed
unattached vpc_name vpc = elim (trimmed vpc.status.router_ref) [
  | none ↦ ok tt
  | some other ↦ err (taken_by vpc_name other)
]

unfoldable pub check_vpc :
    Text → (Text → Result ErrorValue VpcCr) → Text → Result ErrorValue (Unit {0})
unfolding read_vpc required_cidr unattached
check_vpc namespace get_vpc vpc_name = do
  vpc ← read_vpc namespace get_vpc vpc_name
  cidr ← required_cidr vpc_name vpc
  unattached vpc_name vpc

unfoldable pub check_vpcs :
    Text → (Text → Result ErrorValue VpcCr) → List Text → Result ErrorValue (Unit {0})
unfolding check_vpc
check_vpcs namespace get_vpc [] = ok tt
check_vpcs namespace get_vpc (n ∷ ns) =
    check_vpc namespace get_vpc n >> check_vpcs namespace get_vpc ns

unfoldable pub external_spec : Option Text → Option RouterExternalSpec
unfolding trimmed
external_spec network = elim (trimmed network) [
  | none ↦ none
  | some n ↦ some (record { multus_network = n; address = none; snat = some true })
]

trim_some : Option Text → Option Text
unfolding trim
trim_some none = none
trim_some (some t) = some (trim t)

unfoldable pub appliance_spec : ApplianceRequest → List Text → Option Text → RouterApplianceSpec
unfolding trim trimmed trim_some
appliance_spec a keys run_strategy =
    let sized = trimmed a.instance_type in
    record {
      image = record {
        kind = some (codes "pvc");
        namespace = or_else (trimmed (some a.image.namespace)) (codes "vm-images");
        name = trim a.image.name;
      };
      instance_type = sized;
      cpu_cores = elim sized [ none ↦ a.cpu_cores | some t ↦ none ];
      memory = elim sized [ none ↦ trim_some a.memory | some t ↦ none ];
      disk_size = trim a.disk_size;
      storage_class = trimmed a.storage_class;
      ssh_public_keys = keys;
      run_strategy = run_strategy;
    }

abbrev no_status : RouterStatus
no_status = record {
  policy_config_map = none;
  interfaces = none;
  external = record { multus_network = none; primary_cidr = none; gateway = none; snat = none };
  vm_name = none;
  agent = record { status = none; heartbeat_at = none };
  conditions = [];
}

abbrev strategy : Option Bool → Text
strategy (some false) = codes "Halted"
strategy (some true) = codes "Always"
strategy none = codes "Always"

unfoldable pub vpc_names_of : CreateRouterRequest → List Text
unfolding unique_from trim_all
vpc_names_of input = unique_from [] (trim_all input.vpc_names)

unfoldable pub router_body : CreateRouterRequest → List Text → RouterCr
unfolding vpc_names_of external_spec appliance_spec kmc_managed_labels trim
router_body input keys = record {
  metadata = record {
    name = some (trim input.name);
    generate_name = none;
    namespace = some (trim input.namespace);
    uid = none;
    creation_timestamp = none;
    labels = kmc_managed_labels [];
    annotations = [];
  };
  spec = record {
    vpcs = map attachment (vpc_names_of input);
    external = external_spec input.external_multus_network;
    appliance = some (appliance_spec input.appliance keys (some (strategy input.start)));
  };
  status = no_status;
}

abbrev pub external_count : Option RouterExternalSpec → ℕ
external_count none = 0
external_count (some e) = 1

-- The resource that is sent to be created.
unfoldable pub router_to_create :
    Result ErrorValue Labels
    → (Text → Result ErrorValue VpcCr)
    → Option Text
    → CreateRouterRequest
    → Result ErrorValue RouterCr
unfolding trim check_name check_appliance vpc_names_of external_spec assert_vm_namespace_allowed
    check_vpcs appliance_ssh_public_keys router_body
router_to_create namespace_labels get_vpc platform input = do
  guard (truthy (trim input.cluster)) (plain_error (codes "cluster is required"))
  guard (truthy (trim input.namespace)) (plain_error (codes "namespace is required"))
  check_name input.name
  check_appliance input.appliance
  guard (leb 1 (length (vpc_names_of input)))
      (plain_error (codes "Select at least one VPC to attach"))
  guard
      (leb
        (length (vpc_names_of input) + external_count (external_spec input.external_multus_network))
        max_multus_attachments)
      (plain_error (codes "At most 8 Multus attachments (VPCs + optional external)"))
  assert_vm_namespace_allowed input.namespace namespace_labels
  check_vpcs input.namespace get_vpc (vpc_names_of input)
  keys ← appliance_ssh_public_keys input.appliance.ssh_public_key platform
  ok (router_body input keys)

created_summary :
    (Text → Text) → Text → Result ErrorValue RouterCr → Result ErrorValue RouterSummary
unfolding map_router_summary format_error
created_summary format_age cluster (ok created) = ok (map_router_summary format_age cluster created)
created_summary format_age cluster (err e) = err (caused (format_error e) e)

-- `create` is the API's answer to the creation.
unfoldable pub create_router :
    (Text → Text)
    → Result ErrorValue Labels
    → (Text → Result ErrorValue VpcCr)
    → Option Text
    → (RouterCr → Result ErrorValue RouterCr)
    → CreateRouterRequest
    → Result ErrorValue RouterSummary
unfolding router_to_create created_summary
create_router format_age namespace_labels get_vpc platform create input = do
  body ← router_to_create namespace_labels get_vpc platform input
  created_summary format_age input.cluster (create body)

unfoldable pub delete_router : Result ErrorValue (Unit {0}) → Result ErrorValue (Unit {0})
unfolding deleted_object
delete_router reply = deleted_object reply

pub record RecreateRouterVmRequest : Type 0 where
  pub namespace : Text
  pub router_name : Text
  pub appliance : ApplianceRequest

abbrev pub recreate_appliance : Text
recreate_appliance = codes "kmc.ianunruh.com/recreate-appliance"

abbrev run_strategy_of : Option RouterApplianceSpec → Text
run_strategy_of none = codes "Always"
run_strategy_of (some a) = or_else a.run_strategy (codes "Always")

-- `now` is the time of the call, as an ISO string.
unfoldable pub recreated : Text → RouterApplianceSpec → RouterCr → RouterCr
unfolding insert
recreated now appliance existing = record existing {
  metadata = record existing.metadata {
    annotations = insert recreate_appliance now existing.metadata.annotations;
  };
  spec = record existing.spec { appliance = some appliance };
}

-- The resource that is sent to replace the router.
unfoldable pub recreate_router_vm :
    Text
    → Option Text
    → Result ErrorValue RouterCr
    → RecreateRouterVmRequest
    → Result ErrorValue RouterCr
unfolding check_appliance load_router appliance_ssh_public_keys appliance_spec recreated trim
recreate_router_vm now platform get_router input = do
  check_appliance input.appliance
  existing ← load_router (trim input.namespace) (trim input.router_name) get_router
  keys ← appliance_ssh_public_keys input.appliance.ssh_public_key platform
  ok (
      recreated now
        (appliance_spec input.appliance keys (some (run_strategy_of existing.spec.appliance)))
        existing)
