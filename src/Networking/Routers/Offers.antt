-- ===== src/Networking/Routers/Offers.antt =====
-- What `listRoutersForVpcAttach` of console/app/vpcs/routers.server.ts offers, and what
-- `attachRouterVpc` makes of it.
use kmc.Common.{
  ◌+◌, ◌≡◌, refl, ◌∙◌, Bool, true, false, Bool-cases, inl, inr, In, map, keep, none, some, List, [],
  ◌∷◌, ◌++◌, All, arith, leb, or_else, Result, ok, err, guard, Text, codes, truthy, trim, trimmed,
  includes,
}
use kmc.Errors.{ErrorValue}
use kmc.Networking.Objects.{RouterCr, RouterVpcAttachment, VpcCr}
use kmc.Networking.Routers.{max_multus_attachments}
use kmc.Networking.Routers.Attachments.{
  AttachRouterVpcRequest, attach_router_vpc, multus_count, read_vpc, check_cidr, check_cidrs,
  with_vpcs, attachment, message, add_vpc, load_router, required_cidr, not_elsewhere,
}
use kmc.Networking.Routers.Outcomes.{add_fresh}
use kmc.Networking.Routers.Listing.{
  has_cidr, overlaps, is_offered, offered, offered_routers, RouterForAttach,
}

-- No failure to read a network has these words.
abbrev pub IsPlain : Result ErrorValue VpcCr → Type 0
IsPlain (ok vpc) = Unit
IsPlain (err e) = includes (codes "already used") (message e) ≡ false

guard-true : {E : Type 0} (b : Bool) (e : E) → b ≡ true → guard b e ≡ ok tt
guard-true true e h = refl
guard-true false e h = cc

module _ (namespace : Text) (get_vpc : Text → Result ErrorValue VpcCr) where
  check_cidr-pass :
      (cidr name : Text) (reply : Result ErrorValue VpcCr)
      → IsPlain reply
      → has_cidr cidr reply ≡ false
      → check_cidr cidr name reply ≡ ok tt
  unfolding check_cidr has_cidr
  check_cidr-pass cidr name (ok other) plain h = rw h refl
  check_cidr-pass cidr name (err e) plain h = rw plain refl

  check_cidrs-pass :
      (cidr : Text) (vs : List RouterVpcAttachment)
      → ((name : Text) → IsPlain (read_vpc namespace get_vpc name))
      → overlaps namespace get_vpc cidr vs ≡ false
      → check_cidrs namespace get_vpc cidr vs ≡ ok tt
  unfolding check_cidrs overlaps
  check_cidrs-pass cidr [] plain h = refl
  check_cidrs-pass cidr (v ∷ vs) plain h =
      rw
        (check_cidr-pass cidr v.name (read_vpc namespace get_vpc v.name) (plain v.name)
          (ground (arith, h)))
        (check_cidrs-pass cidr vs plain (ground (arith, h)))

  module _ (vpc_name cidr : Text) (vpc : VpcCr) (named : truthy vpc_name ≡ true)
      (trims : trim vpc_name ≡ vpc_name) (readable : read_vpc namespace get_vpc vpc_name ≡ ok vpc)
      (free : trimmed vpc.status.router_ref ≡ none) (has : trimmed vpc.spec.cidr ≡ some cidr)
      (plain : (name : Text) → IsPlain (read_vpc namespace get_vpc name)) where
    abbrev request : Text → AttachRouterVpcRequest
    request router_name = record {
      namespace = namespace;
      router_name = router_name;
      vpc_name = vpc_name;
    }

    abbrev with_vpc : RouterCr → RouterCr
    with_vpc r = with_vpcs (r.spec.vpcs ++ attachment vpc_name ∷ []) r

    add-offered :
        (r : RouterCr)
        → is_offered namespace get_vpc vpc_name cidr r ≡ true
        → add_vpc namespace get_vpc vpc_name cidr r ≡ ok (some (with_vpc r))
    unfolding is_offered
    add-offered r h =
        add_fresh namespace get_vpc vpc_name cidr r (ground (arith, h))
        ∙ rw (guard-true (leb (multus_count r + 1) max_multus_attachments) _ (ground (arith, h)))
            (rw (check_cidrs-pass cidr r.spec.vpcs plain (ground (arith, h))) refl)

    cidr-read : required_cidr vpc_name vpc ≡ ok cidr
    unfolding required_cidr
    cidr-read = rw (has, required_cidr) refl

    free-read : (router_name : Text) → not_elsewhere router_name vpc_name vpc ≡ ok tt
    unfolding not_elsewhere
    free-read router_name = rw (free, not_elsewhere) refl

    attach-offered :
        (router_name : Text) (r : RouterCr)
        → is_offered namespace get_vpc vpc_name cidr r ≡ true
        → attach_router_vpc get_vpc (ok r) (request router_name) ≡ ok (some (with_vpc r))
    unfolding attach_router_vpc load_router
    attach-offered router_name r h =
        rw (trims, named, readable, cidr-read, free-read router_name) (add-offered r h)

    -- The offer is of one of the routers, and the request to attach the network to it is sent.
    pub record IsAccepted (routers : List RouterCr) (offer : RouterForAttach) : Type 0 where
      pub router : RouterCr
      pub listed : In router routers
      pub same_name : offer.name ≡ or_else router.metadata.name []
      pub accepted :
          attach_router_vpc get_vpc (ok router) (request offer.name) ≡ ok (some (with_vpc router))

    more-IsAccepted :
        (r : RouterCr) (routers : List RouterCr) (offers : List RouterForAttach)
        → All (IsAccepted routers) offers
        → All (IsAccepted (r ∷ routers)) offers
    more-IsAccepted r routers [] h = tt
    more-IsAccepted r routers (o ∷ os) (p, h) = (
      record {
        router = p.router;
        listed = inr p.listed;
        same_name = p.same_name;
        accepted = p.accepted;
      },
      more-IsAccepted r routers os h,
    )

    abbrev offers : List RouterCr → List RouterForAttach
    offers routers =
        map (offered namespace get_vpc) (keep (is_offered namespace get_vpc vpc_name cidr) routers)

    offers-IsAccepted : (routers : List RouterCr) → All (IsAccepted routers) (offers routers)
    unfolding keep offered
    offers-IsAccepted [] = tt
    offers-IsAccepted (r ∷ routers) =
        let rest = more-IsAccepted r routers (offers routers) (offers-IsAccepted routers) in
        elim (Bool-cases (is_offered namespace get_vpc vpc_name cidr r)) [
          | inr refused ↦ rw refused rest
          | inl fits ↦ rw fits (
            record {
              router = r;
              listed = inl refl;
              same_name = refl;
              accepted = attach-offered (or_else r.metadata.name []) r fits;
            },
            rest,
          )
        ]

    -- Each router that is offered for a network which is read, has a trimmed name and addresses and
    -- is on no router, accepts the request to attach the network to it, as long as the resources
    -- stay as they were read and no failure to read one has the words `already used`.
    pub offered_routers-IsAccepted :
        (routers : List RouterCr)
        → All (IsAccepted routers) (offered_routers namespace get_vpc vpc_name vpc routers)
    unfolding offered_routers
    offered_routers-IsAccepted routers = rw (free, has, offered_routers) (offers-IsAccepted routers)
