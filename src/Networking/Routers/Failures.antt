-- ===== src/Networking/Routers/Failures.antt =====
-- What `attachRouterVpc` of console/app/vpcs/routers.server.ts refuses, and why it throws.
use kmc.Common.{
  ◌+◌, ◌≤◌, ◌≡◌, ◌≢◌, refl, sym, ap, subst, ◌∙◌, Bool, true, false, not, Bool-cases, inl, inr, none,
  some, List, [], ◌∷◌, All, In, includes, ◌⊎◌, arith, leb, Result, ok, err, guard, guard-ok,
  guard-err, guard-eq-ok, guard-eq-err, >>=-eq-ok, >>=-eq-err, ok_injective, err_injective, Text,
  codes, trim, trimmed, truthy, text_eq, text_eq_refl, text_eq_sound, Option-cases,
}
use kmc.Errors.{ErrorValue, plain_error}
use kmc.Networking.Objects.{RouterCr, RouterVpcAttachment, VpcCr}
use kmc.Networking.Routers.{max_multus_attachments}
use kmc.Networking.Routers.Attachments.{
  AttachRouterVpcRequest, attach_router_vpc, read_vpc, required_cidr, not_elsewhere, load_router,
  add_vpc, is_attached, multus_count, check_cidr, check_cidrs, is_cidr, too_many, cidr_missing,
  already_attached, used_cidr, message,
}
use kmc.Networking.Routers.Outcomes.{add_known, add_fresh, load_router-eq-ok, none-some}

-- The network of that name could be read and does not have the addresses `cidr`.
abbrev pub Differs : (Text → Result ErrorValue VpcCr) → Text → RouterVpcAttachment → Type 0
Differs read cidr v = (other : VpcCr) → read v.name ≡ ok other → trimmed other.spec.cidr ≢ some cidr

err_ok : {E A : Type 0} {a : A} {e : E} → ◌≡◌ {A = Result E A} (err e) (ok a) → ⊥
err_ok h = cc

not_both : (b : Bool) → b ≡ true → not b ≡ true → ⊥
not_both true h k = cc
not_both false h k = cc

not-false : (b : Bool) → not b ≡ false → b ≡ true
not-false true h = refl
not-false false h = cc

is_cidr_self :
    (cidr : Text) (vpc : VpcCr) → trimmed vpc.spec.cidr ≡ some cidr → is_cidr cidr vpc ≡ true
unfolding is_cidr
is_cidr_self cidr vpc h = rw (h, is_cidr) (text_eq_refl cidr)

check_cidr-Differs :
    (cidr name : Text) (other : VpcCr) (reply : Result ErrorValue VpcCr)
    → check_cidr cidr name reply ≡ ok tt
    → reply ≡ ok other
    → trimmed other.spec.cidr ≢ some cidr
unfolding check_cidr
check_cidr-Differs cidr name other (err e) h r same = cc
check_cidr-Differs cidr name other (ok read) h r same =
    let differs = guard-ok _ _ h in
    let own = subst (λ k. trimmed k.spec.cidr ≡ some cidr) (sym (ok_injective r)) same in
    not_both (is_cidr cidr read) (is_cidr_self cidr read own) differs

check_cidrs-Differ :
    (namespace : Text) (get_vpc : Text → Result ErrorValue VpcCr) (cidr : Text)
    (vs : List RouterVpcAttachment)
    → check_cidrs namespace get_vpc cidr vs ≡ ok tt
    → All (Differs (read_vpc namespace get_vpc) cidr) vs
unfolding check_cidrs
check_cidrs-Differ namespace get_vpc cidr [] h = tt
check_cidrs-Differ namespace get_vpc cidr (v ∷ vs) h =
    let (_, here, rest) =
      >>=-eq-ok (check_cidr cidr v.name (read_vpc namespace get_vpc v.name)) _ h in
    (
      λ other r. check_cidr-Differs cidr v.name other _ here r,
      check_cidrs-Differ namespace get_vpc cidr vs rest,
    )

-- A network of the list that could be read has the addresses `cidr`, and the error says so, or its
-- reading failed with an error that has the words "already used".
abbrev Clashes :
    (Text → Result ErrorValue VpcCr) → Text → List RouterVpcAttachment → ErrorValue → Type 0
Clashes read cidr vs e =
    (v : RouterVpcAttachment) × In v vs
    × (((other : VpcCr) × (read v.name ≡ ok other)
          × (trimmed other.spec.cidr ≡ some cidr)
          × (e ≡ used_cidr cidr v.name))
        ⊎ ((read v.name ≡ err e) × (includes (codes "already used") (message e) ≡ true)))

is_cidr_sound :
    (cidr : Text) (vpc : VpcCr) → not (is_cidr cidr vpc) ≡ false → trimmed vpc.spec.cidr ≡ some cidr
unfolding is_cidr
is_cidr_sound cidr vpc h = elim (Option-cases (trimmed vpc.spec.cidr)) [
  | inl e ↦ absurd (cc (rw (e, is_cidr) at h))
  | inr (other, e) ↦
      e ∙ ap some (text_eq_sound other cidr (not-false (text_eq other cidr) (rw (e, is_cidr) at h)))
]

check_cidr-Clashes :
    (read : Text → Result ErrorValue VpcCr) (cidr : Text) (v : RouterVpcAttachment)
    (vs : List RouterVpcAttachment) (e : ErrorValue) (reply : Result ErrorValue VpcCr)
    → read v.name ≡ reply
    → check_cidr cidr v.name reply ≡ err e
    → Clashes read cidr (v ∷ vs) e
unfolding check_cidr
check_cidr-Clashes read cidr v vs e (ok other) r h =
    let (same, thrown) = guard-err _ _ h in
    (v, inl refl, inl (other, r, is_cidr_sound cidr other same, sym thrown))
check_cidr-Clashes read cidr v vs e (err d) r h =
    let (quoted, thrown) = guard-err _ _ h in
    (
      v,
      inl refl,
      inr (
        r ∙ ap err thrown,
        subst (λ x. includes (codes "already used") (message x) ≡ true) thrown (not-false _ quoted),
      ),
    )

check_cidrs-Clashes :
    (namespace : Text) (get_vpc : Text → Result ErrorValue VpcCr) (cidr : Text)
    (vs : List RouterVpcAttachment) (e : ErrorValue)
    → check_cidrs namespace get_vpc cidr vs ≡ err e
    → Clashes (read_vpc namespace get_vpc) cidr vs e
unfolding check_cidrs
check_cidrs-Clashes namespace get_vpc cidr [] e h = cc
check_cidrs-Clashes namespace get_vpc cidr (v ∷ vs) e h =
    elim (>>=-eq-err (check_cidr cidr v.name (read_vpc namespace get_vpc v.name)) _ h) [
      | inl here ↦
          check_cidr-Clashes (read_vpc namespace get_vpc) cidr v vs e
            (read_vpc namespace get_vpc v.name) refl here
      | inr (_, _, rest) ↦
          let (w, i, why) = check_cidrs-Clashes namespace get_vpc cidr vs e rest in (w, inr i, why)
    ]

module _ (get_vpc : Text → Result ErrorValue VpcCr) (get_router : Result ErrorValue RouterCr)
    (input : AttachRouterVpcRequest) where
  abbrev name : Text
  name = trim input.vpc_name

  -- What a successful attachment has seen of the network and of the others on the router.
  pub record IsChecked (router : RouterCr) : Type 0 where
    pub vpc : VpcCr
    pub cidr : Text
    pub read : read_vpc input.namespace get_vpc name ≡ ok vpc
    pub has_cidr : trimmed vpc.spec.cidr ≡ some cidr
    pub free :
        (other : Text) → trimmed vpc.status.router_ref ≡ some other → other ≡ input.router_name
    pub differs : All (Differs (read_vpc input.namespace get_vpc) cidr) router.spec.vpcs

  required_cidr-none :
      (vpc : VpcCr)
      → trimmed vpc.spec.cidr ≡ none
      → required_cidr name vpc ≡ err (cidr_missing name)
  unfolding required_cidr
  required_cidr-none vpc h = rw (h, required_cidr) refl

  pub required_cidr-some :
      (vpc : VpcCr) (c : Text) → trimmed vpc.spec.cidr ≡ some c → required_cidr name vpc ≡ ok c
  unfolding required_cidr
  required_cidr-some vpc c h = rw (h, required_cidr) refl

  required_cidr-eq-ok :
      (vpc : VpcCr) (cidr : Text)
      → required_cidr name vpc ≡ ok cidr
      → trimmed vpc.spec.cidr ≡ some cidr
  required_cidr-eq-ok vpc cidr h = elim (Option-cases (trimmed vpc.spec.cidr)) [
    | inl e ↦ absurd (err_ok (sym (required_cidr-none vpc e) ∙ h))
    | inr (c, e) ↦ e ∙ ap some (ok_injective (sym (required_cidr-some vpc c e) ∙ h))
  ]

  required_cidr-eq-err :
      (vpc : VpcCr) (e : ErrorValue)
      → required_cidr name vpc ≡ err e
      → (trimmed vpc.spec.cidr ≡ none) × (e ≡ cidr_missing name)
  required_cidr-eq-err vpc e h = elim (Option-cases (trimmed vpc.spec.cidr)) [
    | inl q ↦ (q, err_injective (sym h ∙ required_cidr-none vpc q))
    | inr (c, q) ↦ absurd (err_ok (sym h ∙ required_cidr-some vpc c q))
  ]

  pub not_elsewhere-none :
      (vpc : VpcCr)
      → trimmed vpc.status.router_ref ≡ none
      → not_elsewhere input.router_name name vpc ≡ ok tt
  unfolding not_elsewhere
  not_elsewhere-none vpc h = rw (h, not_elsewhere) refl

  not_elsewhere-some :
      (vpc : VpcCr) (other : Text)
      → trimmed vpc.status.router_ref ≡ some other
      → not_elsewhere input.router_name name vpc
        ≡ guard (text_eq other input.router_name) (already_attached name other)
  unfolding not_elsewhere
  not_elsewhere-some vpc other h = rw (h, not_elsewhere) refl

  not_elsewhere-free :
      (vpc : VpcCr)
      → not_elsewhere input.router_name name vpc ≡ ok tt
      → (other : Text) → trimmed vpc.status.router_ref ≡ some other
      → other ≡ input.router_name
  not_elsewhere-free vpc h other e =
      text_eq_sound other input.router_name
        (guard-ok _ _ (sym (not_elsewhere-some vpc other e) ∙ h))

  not_elsewhere-taken :
      (vpc : VpcCr) (e : ErrorValue)
      → not_elsewhere input.router_name name vpc ≡ err e
      → (other : Text) × (trimmed vpc.status.router_ref ≡ some other)
        × (text_eq other input.router_name ≡ false)
        × (e ≡ already_attached name other)
  not_elsewhere-taken vpc e h = elim (Option-cases (trimmed vpc.status.router_ref)) [
    | inl q ↦ absurd (err_ok (sym h ∙ not_elsewhere-none vpc q))
    | inr (other, q) ↦
        let (differs, thrown) = guard-err _ _ (sym (not_elsewhere-some vpc other q) ∙ h) in
        (other, q, differs, sym thrown)
  ]

  -- Why an attachment throws `e`.
  pub data Failure (e : ErrorValue) : Type 0 where
    unnamed : truthy name ≡ false → e ≡ plain_error (codes "vpcName is required") → Failure e
    unread : read_vpc input.namespace get_vpc name ≡ err e → Failure e
    without_cidr :
        (vpc : VpcCr)
        → read_vpc input.namespace get_vpc name ≡ ok vpc
        → trimmed vpc.spec.cidr ≡ none
        → e ≡ cidr_missing name
        → Failure e
    elsewhere :
        (vpc : VpcCr) (other : Text)
        → read_vpc input.namespace get_vpc name ≡ ok vpc
        → trimmed vpc.status.router_ref ≡ some other
        → text_eq other input.router_name ≡ false
        → e ≡ already_attached name other
        → Failure e
    no_router : load_router input.namespace input.router_name get_router ≡ err e → Failure e
    full :
        (router : RouterCr)
        → get_router ≡ ok router
        → is_attached name router.spec.vpcs ≡ false
        → max_multus_attachments ≤ multus_count router
        → e ≡ too_many (codes "Cannot attach VPC")
        → Failure e
    clash :
        (router : RouterCr) (vpc other : VpcCr) (v : RouterVpcAttachment) (cidr : Text)
        → read_vpc input.namespace get_vpc name ≡ ok vpc
        → trimmed vpc.spec.cidr ≡ some cidr
        → get_router ≡ ok router
        → In v router.spec.vpcs
        → read_vpc input.namespace get_vpc v.name ≡ ok other
        → trimmed other.spec.cidr ≡ some cidr
        → e ≡ used_cidr cidr v.name
        → Failure e
    not_compared :
        (router : RouterCr) (v : RouterVpcAttachment)
        → get_router ≡ ok router
        → In v router.spec.vpcs
        → read_vpc input.namespace get_vpc v.name ≡ err e
        → includes (codes "already used") (message e) ≡ true
        → Failure e

  Clashes-Failure :
      (router : RouterCr) (vpc : VpcCr) (cidr : Text) (e : ErrorValue)
      → read_vpc input.namespace get_vpc name ≡ ok vpc
      → trimmed vpc.spec.cidr ≡ some cidr
      → get_router ≡ ok router
      → Clashes (read_vpc input.namespace get_vpc) cidr router.spec.vpcs e
      → Failure e
  Clashes-Failure router vpc cidr e read has got (v, i, inl (other, r, same, e_)) =
      clash router vpc other v cidr read has got i r same e_
  Clashes-Failure router vpc cidr e read has got (v, i, inr (r, quoted)) =
      not_compared router v got i r quoted

  add_vpc-Failure :
      (vpc : VpcCr) (cidr : Text) (router : RouterCr) (e : ErrorValue)
      → read_vpc input.namespace get_vpc name ≡ ok vpc
      → trimmed vpc.spec.cidr ≡ some cidr
      → get_router ≡ ok router
      → add_vpc input.namespace get_vpc name cidr router ≡ err e
      → Failure e
  add_vpc-Failure vpc cidr router e read has got h =
      elim (Bool-cases (is_attached name router.spec.vpcs)) [
        | inl known ↦
            absurd (err_ok (sym h ∙ add_known input.namespace get_vpc name cidr router known))
        | inr fresh ↦
            elim (guard-eq-err (leb (multus_count router + 1) max_multus_attachments)
              (too_many (codes "Cannot attach VPC")) _
              (sym (add_fresh input.namespace get_vpc name cidr router fresh) ∙ h)) [
                | inl (no_room, e_) ↦ full router got fresh (ground (arith, no_room)) (sym e_)
                | inr (_, h1) ↦
                    elim (>>=-eq-err (check_cidrs input.namespace get_vpc cidr router.spec.vpcs) _
                      h1) [
                        | inl thrown ↦ Clashes-Failure router vpc cidr e read has got (
                            check_cidrs-Clashes input.namespace get_vpc cidr router.spec.vpcs e
                              thrown)
                        | inr (_, _, done) ↦ absurd (err_ok (sym done))
                      ]
              ]
      ]

  -- Whatever an attachment throws is one of these: no name, a network that cannot be read, one
  -- without addresses or on another router, a router that cannot be read, one that is full, or a
  -- network of that router that could be read and has the same addresses as text. A network of the
  -- router that cannot be read is a cause only where its error has the words "already used".
  pub attach_router_vpc-Failure :
      (e : ErrorValue) → attach_router_vpc get_vpc get_router input ≡ err e → Failure e
  unfolding attach_router_vpc
  attach_router_vpc-Failure e h =
      elim (guard-eq-err (truthy name) (plain_error (codes "vpcName is required")) _ h) [
        | inl (no_name, e_) ↦ unnamed no_name (sym e_)
        | inr (_, h1) ↦ elim (>>=-eq-err (read_vpc input.namespace get_vpc name) _ h1) [
          | inl thrown ↦ unread thrown
          | inr (vpc, read, h2) ↦ elim (>>=-eq-err (required_cidr name vpc) _ h2) [
            | inl thrown ↦
                let (none_, e_) = required_cidr-eq-err vpc e thrown in
                without_cidr vpc read none_ e_
            | inr (cidr, has, h3) ↦
                elim (>>=-eq-err (not_elsewhere input.router_name name vpc) _ h3) [
                  | inl thrown ↦
                      let (other, taken, differs, e_) = not_elsewhere-taken vpc e thrown in
                      elsewhere vpc other read taken differs e_
                  | inr (_, _, h4) ↦
                      elim (>>=-eq-err (load_router input.namespace input.router_name get_router) _
                        h4) [
                          | inl thrown ↦ no_router thrown
                          | inr (router, got, h5) ↦
                              add_vpc-Failure vpc cidr router e read
                                (required_cidr-eq-ok vpc cidr has)
                                (load_router-eq-ok _ _ get_router router got) h5
                        ]
                ]
          ]
        ]
      ]

  add_vpc-Differ :
      (cidr : Text) (router next : RouterCr)
      → add_vpc input.namespace get_vpc name cidr router ≡ ok (some next)
      → All (Differs (read_vpc input.namespace get_vpc) cidr) router.spec.vpcs
  add_vpc-Differ cidr router next h = elim (Bool-cases (is_attached name router.spec.vpcs)) [
    | inl known ↦
        absurd (none-some (sym (add_known input.namespace get_vpc name cidr router known) ∙ h))
    | inr fresh ↦
        let (_, h1) =
          guard-eq-ok _ _ _ (sym (add_fresh input.namespace get_vpc name cidr router fresh) ∙ h) in
        let (_, checked, _) =
          >>=-eq-ok (check_cidrs input.namespace get_vpc cidr router.spec.vpcs) _ h1 in
        check_cidrs-Differ input.namespace get_vpc cidr router.spec.vpcs checked
  ]

  -- An attachment that is sent is of a network that could be read, that has addresses and is on no
  -- other router, and whose addresses, as text, no network of the router that could be read has.
  pub attach_router_vpc-IsChecked :
      (next : RouterCr)
      → attach_router_vpc get_vpc get_router input ≡ ok (some next)
      → (router : RouterCr) × (get_router ≡ ok router) × IsChecked router
  unfolding attach_router_vpc
  attach_router_vpc-IsChecked next h =
      let (_, h1) = guard-eq-ok _ _ _ h in
      let (vpc, read, h2) = >>=-eq-ok (read_vpc input.namespace get_vpc name) _ h1 in
      let (cidr, has, h3) = >>=-eq-ok (required_cidr name vpc) _ h2 in
      let (_, free, h4) = >>=-eq-ok (not_elsewhere input.router_name name vpc) _ h3 in
      let (router, got, h5) =
        >>=-eq-ok (load_router input.namespace input.router_name get_router) _ h4 in
      (
        router,
        load_router-eq-ok _ _ get_router router got,
        record {
          vpc = vpc;
          cidr = cidr;
          read = read;
          has_cidr = required_cidr-eq-ok vpc cidr has;
          free = not_elsewhere-free vpc free;
          differs = add_vpc-Differ cidr router next h5;
        },
      )
