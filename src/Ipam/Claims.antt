-- ===== src/Ipam/Claims.antt =====
-- console/app/lib/ipam/ipaddress-cr.server.ts: IPAddress resources as leases.
use kmc.Common.{
  ℕ, Option, none, some, [], ◌∷◌, ◌++◌, if◌then◌else◌, or_else, Result, ok, err, Text, codes,
  truthy, trim, trimmed, to_lower, replace_all, strip_prefix, cut,
}
use kmc.Errors.{ErrorValue, format_error, plain_error, caused}
use kmc.Ipam.Status.{is_ip_address_already_exists, is_ip_address_forbidden}
use kmc.Ipam.Config.{IpPoolConfig}

pub record IpAddressClaimRef : Type 0 where
  pub api_version : Option Text
  pub kind : Option Text
  pub name : Text
  pub namespace : Option Text

pub record IpAddressPoolRef : Type 0 where
  pub kind : Text
  pub name : Text

pub record IpAddressInterface : Type 0 where
  pub mac : Option Text
  pub hostname : Option Text

-- `10.40.1.20` is named `10-40-1-20`.
unfoldable pub ip_address_object_name : Text → Text
unfolding trim replace_all
ip_address_object_name address = replace_all b'.' b'-' (trim address)

vpc_name : Text → Option (Text × Text) → Text
vpc_name rest none = rest
vpc_name rest (some ([], name)) = rest
vpc_name rest (some (c ∷ ns, name)) = name

-- `name || pool.id`
or_id : Text → Text → Text
or_id [] id = id
or_id (c ∷ s) id = c ∷ s

unfoldable pub pool_ref_from_config : IpPoolConfig → IpAddressPoolRef
unfolding vpc_name or_id strip_prefix cut
pool_ref_from_config pool = elim (strip_prefix (codes "vpc:") pool.id) [
  | some rest ↦ record { kind = codes "VPC"; name = or_id (vpc_name rest (cut b'/' rest)) pool.id }
  | none ↦ record { kind = codes "IPPool"; name = pool.id }
]

pub record ClaimRef : Type 0 where
  pub api_version : Text
  pub kind : Text
  pub namespace : Text
  pub name : Text

-- The IPAddress resource that is created; its constant labels and group are left out.
pub record ClaimBody : Type 0 where
  pub name : Text
  pub namespace : Text
  pub address : Text
  pub prefix_length : ℕ
  pub pool_ref : IpAddressPoolRef
  pub claim_ref : Option ClaimRef
  pub interface : Option IpAddressInterface

pub record CreateIpAddressClaimInput : Type 0 where
  pub namespace : Text
  pub address : Text
  pub prefix_length : ℕ
  pub pool : IpPoolConfig
  pub claim : Option IpAddressClaimRef
  pub interface : Option IpAddressInterface

named_ref : Text → IpAddressClaimRef → Option Text → Option ClaimRef
unfolding trimmed
named_ref ns claim none = none
named_ref ns claim (some name) = some (record {
  api_version = or_else (trimmed claim.api_version) (codes "kubevirt.io/v1");
  kind = or_else (trimmed claim.kind) (codes "VirtualMachine");
  namespace = or_else (trimmed claim.namespace) ns;
  name = name;
})

unfoldable pub claim_ref_of : Text → Option IpAddressClaimRef → Option ClaimRef
unfolding named_ref trimmed
claim_ref_of ns none = none
claim_ref_of ns (some claim) = named_ref ns claim (trimmed (some claim.name))

lowered : Option Text → Option Text
unfolding to_lower
lowered none = none
lowered (some s) = some (to_lower s)

either_given : Option Text → Option Text → Option IpAddressInterface
either_given none none = none
either_given none (some host) = some (record { mac = none; hostname = some host })
either_given (some mac) host = some (record { mac = some mac; hostname = host })

unfoldable pub interface_of : Option IpAddressInterface → Option IpAddressInterface
unfolding either_given lowered trimmed
interface_of none = none
interface_of (some i) = either_given (lowered (trimmed i.mac)) (trimmed i.hostname)

unfoldable pub claim_body : CreateIpAddressClaimInput → ClaimBody
unfolding ip_address_object_name pool_ref_from_config claim_ref_of interface_of trim
claim_body input = record {
  name = ip_address_object_name (trim input.address);
  namespace = trim input.namespace;
  address = trim input.address;
  prefix_length = input.prefix_length;
  pool_ref = pool_ref_from_config input.pool;
  claim_ref = claim_ref_of (trim input.namespace) input.claim;
  interface = interface_of input.interface;
}

abbrev failed_text : ClaimBody → ErrorValue → Text
failed_text body e =
    codes "Failed to create IPAddress "
    ++ (body.namespace
        ++ b'/'
          ∷ (body.name
              ++ (codes " for "
                  ++ (body.address
                      ++ (codes ": "
                          ++ (format_error e
                              ++ (if is_ip_address_forbidden e
                                  then codes
                                      " (need create on ipaddresses.kmc.ianunruh.com — see deploy/controller RBAC example)"
                                  else [])))))))

-- What is thrown when the API answers with an error.
unfoldable pub create_failure : ClaimBody → ErrorValue → ErrorValue
unfolding is_ip_address_already_exists is_ip_address_forbidden format_error
create_failure body e = if is_ip_address_already_exists e then e else caused (failed_text body e) e

-- `reply` is the API's answer to the create call: `none` when it succeeds.
unfoldable pub create_ip_address_claim :
    (ClaimBody → Option ErrorValue) → CreateIpAddressClaimInput → Result ErrorValue (Unit {0})
unfolding claim_body create_failure trim
create_ip_address_claim reply input =
    if truthy (trim input.address)
    then (if truthy (trim input.namespace)
        then elim (reply (claim_body input)) [
          | none ↦ ok tt
          | some e ↦ err (create_failure (claim_body input) e)
        ]
        else err (plain_error (codes "namespace is required for IPAddress claim")))
    else err (plain_error (codes "address is required for IPAddress claim"))
