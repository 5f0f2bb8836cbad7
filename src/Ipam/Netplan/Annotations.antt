-- ===== src/Ipam/Netplan/Annotations.antt =====
-- The annotations of a machine, in pools.server.ts: what is written and what is read.
use kmc.Common.{
  ℕ, ◌^◌, ◌≤◌, ◌%◌, ◌≡◌, ◌≢◌, refl, ap, ◌∙◌, Bool, true, false, some, List, [], ◌∷◌, ◌++◌, map,
  arith, ok, All, All-append, Text, Lacks, codes, truthy, trim, is_space, is_digit, all_digits,
  text_eq, lookup, keep, split, join, cut, decimal,
}
use kmc.Common.Splitting.{split-join, cut-append}
use kmc.Common.Trimming.{IsSolid, trim-IsSolid}
use kmc.Ipam.Cidr.{base_of, annotated, byte_at, parse_ipv4, format_ipv4, address_from_annotation}
use kmc.Ipam.Cidr.RoundTrip.{decimal-all_digits, byte_digits}
use kmc.Ipam.Pools.{AllocatedIp}
use kmc.Ipam.Netplan.{
  has_address, annotations_of, addresses_of, ipam_annotations, parse_ipv4_annotation_list,
}

-- A character of an address: no separator of the annotations and no white space.
abbrev pub IsPlain : ℕ → Type 0
IsPlain c = (c ≢ b',') × (c ≢ b'/') × (is_space c ≡ false)

-- An allocation with the text of an address, and its network's prefix behind it.
pub record IsRecorded (a : AllocatedIp) : Type 0 where
  pub number : ℕ
  pub numeric : parse_ipv4 a.address ≡ ok number
  pub given : truthy a.address ≡ true
  pub plain : All IsPlain a.address
  pub small : a.prefix ≤ 32
  pub host : a.cidr_host ≡ a.address ++ b'/' ∷ decimal a.prefix

is_digit-IsPlain : (c : ℕ) → is_digit c ≡ true → IsPlain c
unfolding is_space
is_digit-IsPlain c h = (ground arith, ground arith, ground arith)

all_digits-IsPlain : (s : Text) → all_digits s ≡ true → All IsPlain s
unfolding all_digits
all_digits-IsPlain [] h = tt
all_digits-IsPlain (c ∷ s) h =
    (is_digit-IsPlain c (ground arith), all_digits-IsPlain s (ground arith))

dot-IsPlain : IsPlain b'.'
unfolding is_space
dot-IsPlain = (ground arith, ground arith, refl)

-- The text of an address is plain.
pub format_ipv4-IsPlain : (n : ℕ) → All IsPlain (format_ipv4 n)
unfolding format_ipv4 join
format_ipv4-IsPlain n =
    let x = n % 2 ^ 32 in
    let digits : (k : ℕ) → All IsPlain (decimal (byte_at x k)) =
      λ k. all_digits-IsPlain _ (byte_digits x k) in
    All-append IsPlain _ _ (digits 24) (
      dot-IsPlain,
      All-append IsPlain _ _ (digits 16)
          (dot-IsPlain, All-append IsPlain _ _ (digits 8) (dot-IsPlain, digits 0)),
    )

plain-Lacks_comma : (s : Text) → All IsPlain s → Lacks b',' s
plain-Lacks_comma [] h = tt
plain-Lacks_comma (c ∷ s) ((p, _, _), h) = (p, plain-Lacks_comma s h)

plain-Lacks_slash : (s : Text) → All IsPlain s → Lacks b'/' s
plain-Lacks_slash [] h = tt
plain-Lacks_slash (c ∷ s) ((_, p, _), h) = (p, plain-Lacks_slash s h)

plain-IsSolid : (s : Text) → All IsPlain s → IsSolid s
plain-IsSolid [] h = tt
plain-IsSolid (c ∷ s) ((_, _, p), h) = (p, plain-IsSolid s h)

truthy-append : (s t : Text) (c : ℕ) → truthy (s ++ c ∷ t) ≡ true
truthy-append [] t c = refl
truthy-append (d ∷ s) t c = refl

address_from_annotation_lem :
    (t : Text)
    → address_from_annotation t
      ≡ annotated
          (trim t)
          (base_of (trim t) (cut b'/' (trim t)))
          (parse_ipv4 (base_of (trim t) (cut b'/' (trim t))))
unfolding address_from_annotation
address_from_annotation_lem t = refl

module _ (a : AllocatedIp) (r : IsRecorded a) where
  prefix-IsPlain : All IsPlain (decimal a.prefix)
  prefix-IsPlain = all_digits-IsPlain _ (decimal-all_digits a.prefix (omega (arith, r.small)))

  host-Lacks : Lacks b',' a.cidr_host
  host-Lacks = rw r.host (
      All-append (λ d. d ≢ b',') a.address _ (plain-Lacks_comma a.address r.plain)
        (ground arith, plain-Lacks_comma _ prefix-IsPlain))

  host-IsSolid : IsSolid a.cidr_host
  unfolding is_space
  host-IsSolid = rw r.host (
      All-append (λ d. is_space d ≡ false) a.address _ (plain-IsSolid a.address r.plain)
        (refl, plain-IsSolid _ prefix-IsPlain))

  trim-host : trim a.cidr_host ≡ a.cidr_host
  trim-host = trim-IsSolid a.cidr_host host-IsSolid

  cut-host : cut b'/' a.cidr_host ≡ some (a.address, decimal a.prefix)
  cut-host =
      rw r.host (cut-append b'/' a.address (decimal a.prefix) (plain-Lacks_slash a.address r.plain))

  host_given : truthy a.cidr_host ≡ true
  host_given = rw r.host (truthy-append a.address (decimal a.prefix) b'/')

  address_from_annotation-host : address_from_annotation a.cidr_host ≡ some a.address
  address_from_annotation-host =
      address_from_annotation_lem a.cidr_host
      ∙ rw trim-host (rw cut-host (rw r.numeric (rw host_given refl)))

  has_address-recorded : has_address a ≡ true
  unfolding has_address
  has_address-recorded =
      rw (trim-IsSolid a.address (plain-IsSolid a.address r.plain), trim-host, r.given, host_given)
        refl

keep-All : {A : Type 0} (p : A → Bool) (xs : List A) → All (λ x. p x ≡ true) xs → keep p xs ≡ xs
unfolding keep
keep-All p [] h = refl
keep-All p (x ∷ xs) (q, h) = rw q (ap (λ r. x ∷ r) (keep-All p xs h))

All-has_address :
    (as' : List AllocatedIp) → All IsRecorded as' → All (λ a. has_address a ≡ true) as'
All-has_address [] h = tt
All-has_address (a ∷ as') (r, h) = (has_address-recorded a r, All-has_address as' h)

hosts-Lacks :
    (as' : List AllocatedIp) → All IsRecorded as' → All (Lacks b',') (map (λ a. a.cidr_host) as')
hosts-Lacks [] h = tt
hosts-Lacks (a ∷ as') (r, h) = (host-Lacks a r, hosts-Lacks as' h)

addresses_of-step :
    (part address : Text) (parts : List Text)
    → address_from_annotation (trim part) ≡ some address
    → addresses_of (part ∷ parts) ≡ address ∷ addresses_of parts
unfolding addresses_of
addresses_of-step part address parts h = rw (h, addresses_of) refl

addresses_of-nil : addresses_of [] ≡ []
unfolding addresses_of
addresses_of-nil = refl

addresses_of-hosts :
    (as' : List AllocatedIp)
    → All IsRecorded as'
    → addresses_of (map (λ a. a.cidr_host) as') ≡ map (λ a. a.address) as'
addresses_of-hosts [] h = addresses_of-nil
addresses_of-hosts (a ∷ as') (r, h) =
    addresses_of-step a.cidr_host a.address _
      (ap address_from_annotation (trim-host a r) ∙ address_from_annotation-host a r)
    ∙ ap (λ rest. a.address ∷ rest) (addresses_of-hosts as' h)

ipv4_entry :
    (a : AllocatedIp) (as' : List AllocatedIp)
    → lookup (codes "kmc.ianunruh.com/ipv4") (annotations_of (a ∷ as'))
      ≡ some (join (b',' ∷ []) (map (λ x. x.cidr_host) (a ∷ as')))
unfolding annotations_of lookup text_eq
ipv4_entry a as' = refl

ipam_annotations_lem :
    (as' : List AllocatedIp) → ipam_annotations as' ≡ annotations_of (keep has_address as')
unfolding ipam_annotations
ipam_annotations_lem as' = refl

parse_ipv4_annotation_list_lem :
    (text : Text) → parse_ipv4_annotation_list text ≡ addresses_of (split b',' text)
unfolding parse_ipv4_annotation_list
parse_ipv4_annotation_list_lem text = refl

-- The annotations of a machine record the addresses of its allocations: what is written under the
-- IPv4 key is read back as their addresses, in order. There is an allocation, and each has the
-- plain text of an address with its prefix behind it, up to 32.
pub parse_ipv4_annotation_list-ipam_annotations :
    (a : AllocatedIp) (as' : List AllocatedIp)
    → All IsRecorded (a ∷ as')
    → (text : Text) × (lookup (codes "kmc.ianunruh.com/ipv4") (ipam_annotations (a ∷ as'))
        ≡ some text)
      × (parse_ipv4_annotation_list text ≡ map (λ x. x.address) (a ∷ as'))
parse_ipv4_annotation_list-ipam_annotations a as' h =
    let list = a ∷ as' in
    let text = join (b',' ∷ []) (map (λ x. x.cidr_host) list) in
    (
      text,
      ap (lookup (codes "kmc.ianunruh.com/ipv4")) (
            ipam_annotations_lem list
            ∙ ap annotations_of (keep-All has_address list (All-has_address list h)))
          ∙ ipv4_entry a as',
      parse_ipv4_annotation_list_lem text
          ∙ ap addresses_of
              (split-join b',' a.cidr_host (map (λ x. x.cidr_host) as') (hosts-Lacks list h))
          ∙ addresses_of-hosts list h,
    )
