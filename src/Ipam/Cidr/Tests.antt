-- ===== src/Ipam/Cidr/Tests.antt =====
-- Runs of cidr.ts, and instances of its theorems.
use kmc.Common.{
  ℕ, ◌/◌, ◌^◌, ◌≡◌, ◌↔◌, refl, true, none, some, List, [], ◌∷◌, arith, ok, err, Text, codes,
  text_eq,
}
use kmc.Ipam.Cidr.{
  ParsedCidr, HostRange, invalid_address, invalid_cidr, invalid_prefix, no_usable_hosts,
  start_outside, parse_ipv4, format_ipv4, parse_cidr, contains_number, usable_host_range,
  first_free_ipv4, address_from_annotation, count_usable_hosts,
}
use kmc.Ipam.Cidr.RoundTrip.{parse_ipv4-format_ipv4}
use kmc.Ipam.Cidr.Blocks.{IsBlock, parse_cidr-IsBlock, contains_number_iff}
use kmc.Ipam.Cidr.Window.{IsWindow, usable_host_range-IsWindow}
use kmc.Ipam.Cidr.FirstFree.{Found, first_free_ipv4-Found}

abbrev lan : ParsedCidr
lan = record {
  cidr = codes "10.40.1.0/24";
  network = 170393856;
  prefix = 24;
  mask = 0xffffff00;
  first = 170393856;
  last = 170394111;
}

abbrev lan_hosts : HostRange
lan_hosts = record { start = 170393876; end = 170394110 }

abbrev used : List Text
used = codes "10.40.1.20" ∷ []

parse_tests :
    (parse_ipv4 (codes " 10.40.1.20 ") ≡ ok 170393876)
    × (parse_ipv4 (codes "10.040.1.20") ≡ ok 170393876)
    × (parse_ipv4 (codes "10.40.1") ≡ err (invalid_address (codes "10.40.1")))
    × (parse_ipv4 (codes "10.40.1.256") ≡ err (invalid_address (codes "10.40.1.256")))
    × (format_ipv4 170393876 ≡ codes "10.40.1.20")
unfolding parse_ipv4 format_ipv4
parse_tests = (refl, refl, refl, refl, refl)

read_lan : parse_cidr (codes "10.40.1.77/24") ≡ ok lan
unfolding parse_cidr
read_lan = refl

-- `Number("")` is 0, so an empty prefix is the whole address space.
empty_prefix :
    (b : ParsedCidr) × (parse_cidr (codes "10.0.0.0/") ≡ ok b)
    × (b.prefix ≡ 0)
    × (b.last ≡ 4294967295)
unfolding parse_cidr
empty_prefix = (_, refl, refl, refl)

cidr_errors :
    (parse_cidr (codes "10.40.1.0") ≡ err (invalid_cidr (codes "10.40.1.0")))
    × (parse_cidr (codes "10.40.1.0/33") ≡ err (invalid_prefix (codes "10.40.1.0/33")))
    × (parse_cidr (codes "10.40.1/24") ≡ err (invalid_address (codes "10.40.1")))
unfolding parse_cidr
cidr_errors = (refl, refl, refl)

window : usable_host_range lan (some (codes "10.40.1.20")) none ≡ ok lan_hosts
unfolding usable_host_range
window = refl

window_errors :
    (usable_host_range lan (some (codes "10.40.2.1")) none
      ≡ err (start_outside (codes "10.40.2.1") lan.cidr))
    × (usable_host_range lan (some (codes "10.40.1.9")) (some (codes "10.40.1.5"))
        ≡ err (no_usable_hosts lan.cidr))
unfolding usable_host_range
window_errors = (refl, refl)

next_free : first_free_ipv4 lan_hosts used [] ≡ some (codes "10.40.1.21")
unfolding first_free_ipv4 text_eq
next_free = refl

counted : count_usable_hosts lan_hosts ≡ 235
unfolding count_usable_hosts
counted = refl

annotation :
    (address_from_annotation (codes " 10.40.1.20/24 ") ≡ some (codes "10.40.1.20"))
    × (address_from_annotation (codes "x/24") ≡ none)
unfolding address_from_annotation
annotation = (refl, refl)

parse_ipv4-format_ipv4_example : parse_ipv4 (format_ipv4 170393876) ≡ ok 170393876
parse_ipv4-format_ipv4_example = parse_ipv4-format_ipv4 170393876 (omega arith)

parse_cidr-IsBlock_example : IsBlock lan
parse_cidr-IsBlock_example = parse_cidr-IsBlock (codes "10.40.1.77/24") lan read_lan

contains_number_iff_example :
    (contains_number lan 170393900 ≡ true) ↔ (◌≡◌ {A = ℕ} (170393900 / 2 ^ 8) (170393856 / 2 ^ 8))
contains_number_iff_example =
    contains_number_iff (codes "10.40.1.77/24") lan 170393900 read_lan (omega arith)

usable_host_range-IsWindow_example : IsWindow lan (some (codes "10.40.1.20")) none lan_hosts
usable_host_range-IsWindow_example =
    usable_host_range-IsWindow lan (some (codes "10.40.1.20")) none lan_hosts
      (parse_cidr-IsBlock (codes "10.40.1.77/24") lan read_lan) window

first_free_ipv4-Found_example :
    Found used [] 170393876 170394110 (first_free_ipv4 lan_hosts used [])
first_free_ipv4-Found_example = first_free_ipv4-Found lan_hosts used [] (omega arith)
