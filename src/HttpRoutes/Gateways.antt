-- ===== src/HttpRoutes/Gateways.antt =====
-- What the Gateways of a route say of it: `gatewayMap`, `httpsHostsForRoute` and `addressForRoute`
-- of console/app/httproutes/httproutes.server.ts.
use kmc.Common.{
  ◌-◌, leb, Bool, false, ◌&&◌, ◌||◌, Option, none, some, List, [], ◌∷◌, ◌++◌, map, keep,
  if◌then◌else◌, or_else, Text, codes, truthy, nonempty, text_eq, has,
}
use kmc.HttpRoutes.Objects.{KubeHttpRoute, Listener, KubeGateway, HttpRouteParentRef}
use kmc.HttpRoutes.Mappings.{map_parent_refs, map_hosts, is_text}

unfoldable pub gateway_key : Text → Text → Text
gateway_key namespace name = namespace ++ b'/' ∷ name

unfoldable pub parent_gateway_key : Text → HttpRouteParentRef → Text
unfolding gateway_key
parent_gateway_key route_ns parent =
    gateway_key
      (elim parent.namespace [ none ↦ route_ns | some [] ↦ route_ns | some (c ∷ n) ↦ c ∷ n ])
      parent.name

-- `toUpperCase` on ASCII letters
upper : Text → Text
upper s = map (λ c. if leb b'a' c && leb c b'z' then c - 32 else c) s

unfoldable pub listener_is_https : Option Text → Bool
unfolding upper text_eq
listener_is_https protocol =
    let p = upper (or_else protocol []) in text_eq p (codes "HTTPS") || text_eq p (codes "TLS")

has_key : Text → KubeGateway → Bool
unfolding gateway_key text_eq
has_key key gw =
    truthy (or_else gw.name [])
    && truthy (or_else gw.namespace [])
    && text_eq (gateway_key (or_else gw.namespace []) (or_else gw.name [])) key

-- `gatewayMap(gateways).get(key)`: of two gateways with one key the later stays.
unfoldable pub get_gateway : List KubeGateway → Text → Option KubeGateway
unfolding has_key
get_gateway [] key = none
get_gateway (gw ∷ gws) key = elim (get_gateway gws key) [
  | some later ↦ some later
  | none ↦ if has_key key gw then some gw else none
]

abbrev listeners_of : Option KubeGateway → List Listener
listeners_of none = []
listeners_of (some gw) = gw.listeners

relevant : Option Text → List Listener → List Listener
unfolding keep is_text
relevant none ls = ls
relevant (some []) ls = ls
relevant (some (c ∷ s)) ls = keep (λ l. is_text (c ∷ s) l.name) ls

any_https : List Listener → Bool
unfolding listener_is_https
any_https [] = false
any_https (l ∷ ls) = listener_is_https l.protocol || any_https ls

-- `for (const h of hosts) https.add(h)`
add_hosts : List Text → List Text → List Text
unfolding has
add_hosts set [] = set
add_hosts set (h ∷ hs) = add_hosts (if has set h then set else set ++ h ∷ []) hs

https_from : Text → List Text → List KubeGateway → List Text → List HttpRouteParentRef → List Text
unfolding any_https relevant get_gateway parent_gateway_key add_hosts
https_from route_ns hosts gateways set [] = set
https_from route_ns hosts gateways set (p ∷ ps) =
    https_from route_ns hosts gateways
      (if any_https (
          relevant p.section_name
            (listeners_of (get_gateway gateways (parent_gateway_key route_ns p))))
        then add_hosts set hosts
        else set)
      ps

unfoldable pub https_hosts_for_route : KubeHttpRoute → List KubeGateway → List Text
unfolding map_hosts https_from map_parent_refs
https_hosts_for_route route gateways =
    https_from (or_else route.namespace []) (map_hosts route) gateways []
      (map_parent_refs route.parent_refs)

abbrev first_address : Option KubeGateway → Option Text
first_address none = none
first_address (some gw) = elim gw.addresses [
  | [] ↦ none
  | none ∷ as' ↦ none
  | some a ∷ as' ↦ nonempty a
]

address_from : Text → List KubeGateway → List HttpRouteParentRef → Option Text
unfolding get_gateway parent_gateway_key
address_from route_ns gateways [] = none
address_from route_ns gateways (p ∷ ps) =
    elim (first_address (get_gateway gateways (parent_gateway_key route_ns p))) [
      | some a ↦ some a
      | none ↦ address_from route_ns gateways ps
    ]

unfoldable pub address_for_route : KubeHttpRoute → List KubeGateway → Option Text
unfolding address_from map_parent_refs
address_for_route route gateways =
    address_from (or_else route.namespace []) gateways (map_parent_refs route.parent_refs)
