-- ===== src/Ipam/Netplan/Tests.antt =====
-- Runs of the network data and the annotations, and an instance of their theorem.
use kmc.Common.{
  ◌≡◌, refl, arith, false, Option, none, some, [], ◌∷◌, ◌++◌, All, Text, codes, is_space, lookup,
  decimal,
}
use kmc.Ipam.Pools.{AllocatedIp}
use kmc.Ipam.Cidr.{parse_ipv4}
use kmc.Ipam.Netplan.{build_network_data, ipam_annotations, parse_ipv4_annotation_list}
use kmc.Ipam.Netplan.Annotations.{IsPlain, IsRecorded, parse_ipv4_annotation_list-ipam_annotations}

abbrev allocation : Text → Text → Option Text → AllocatedIp
allocation address cidr_host gateway = record {
  pool_id = codes "lan";
  address = address;
  prefix = 24;
  cidr_host = cidr_host;
  gateway = gateway;
  dns = [];
  interface_name = none;
  mac_address = none;
  network_name = none;
  dhcp4 = false;
}

abbrev first : AllocatedIp
first = allocation (codes "10.0.0.5") (codes "10.0.0.5/24") none

abbrev second : AllocatedIp
second = allocation (codes "10.1.0.9") (codes "10.1.0.9/24") (some (codes "10.1.0.1"))

first-IsPlain : All IsPlain first.address
unfolding is_space
first-IsPlain = ground arith

first-IsRecorded : IsRecorded first
unfolding parse_ipv4 decimal
first-IsRecorded = record {
  number = 0x0a000005;
  numeric = refl;
  given = refl;
  plain = first-IsPlain;
  small = omega arith;
  host = refl;
}

second-IsPlain : All IsPlain second.address
unfolding is_space
second-IsPlain = ground arith

second-IsRecorded : IsRecorded second
unfolding parse_ipv4 decimal
second-IsRecorded = record {
  number = 0x0a010009;
  numeric = refl;
  given = refl;
  plain = second-IsPlain;
  small = omega arith;
  host = refl;
}

parse_ipv4_annotation_list-ipam_annotations_example :
    (text : Text) × (lookup (codes "kmc.ianunruh.com/ipv4") (ipam_annotations (first ∷ second ∷ []))
      ≡ some text)
    × (parse_ipv4_annotation_list text ≡ codes "10.0.0.5" ∷ codes "10.1.0.9" ∷ [])
parse_ipv4_annotation_list-ipam_annotations_example =
    parse_ipv4_annotation_list-ipam_annotations first (second ∷ [])
      (first-IsRecorded, (second-IsRecorded, tt))

-- The default route goes to the first network with a gateway.
network_run :
    build_network_data (first ∷ second ∷ []) none
    ≡ some (
        codes "version: 2\nethernets:\n  net0:\n    match:\n      driver: virtio_net\n"
        ++ (codes "    dhcp4: false\n    addresses:\n      - 10.0.0.5/24\n"
            ++ (codes "    nameservers:\n      addresses:\n        - 1.1.1.1\n        - 1.0.0.1\n"
                ++ (codes "  net1:\n    match:\n      driver: virtio_net\n    dhcp4: false\n"
                    ++ (codes
                          "    addresses:\n      - 10.1.0.9/24\n    routes:\n      - to: default\n"
                        ++ (codes "        via: 10.1.0.1\n    nameservers:\n      addresses:\n"
                            ++ codes "        - 1.1.1.1\n        - 1.0.0.1\n"))))))
unfolding build_network_data
network_run = refl
