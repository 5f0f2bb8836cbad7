-- ===== src/Ipam/Releases/Machine.antt =====
-- The claims of a deleted machine: `deleteIpAddressClaimsForVm` of ipaddress-cr.server.ts.
use kmc.Common.{
  ◌≡◌, refl, sym, subst, ◌⊎◌, inl, inr, Bool, true, false, not, ◌||◌, Bool-cases, List, [], ◌∷◌,
  ◌++◌, append_assoc, append-nil_eq, arith, or_else, ok, All, In, Text, truthy, has, text_eq_iff,
  text_eq_refl, none, some, ap, ◌&&◌, trimmed, replace_all, trim,
}
use kmc.Common.Trimming.{trim_twice}
use kmc.Ipam.Claims.{ip_address_object_name}
use kmc.Ipam.Releases.{
  dotted_name, foreign, is_text, IpAddressListItem, DeleteRequest, delete_ip_address_claim,
  item_address, is_done, release_given, release_claimed, is_claimed_by, plain_address, listed_items,
  delete_ip_address_claims_for_vm,
}

In-left : {A : Type 0} (q : A) (xs ys : List A) → In q xs → In q (xs ++ ys)
In-left q [] ys i = absurd i
In-left q (x ∷ xs) ys (inl e) = inl e
In-left q (x ∷ xs) ys (inr i) = inr (In-left q xs ys i)

In-right : {A : Type 0} (q : A) (xs ys : List A) → In q ys → In q (xs ++ ys)
In-right q [] ys i = i
In-right q (x ∷ xs) ys i = inr (In-right q xs ys i)

In-self : {A : Type 0} (xs ys : List A) → ((q : A) → In q xs → In q ys) → All (λ q. In q ys) xs
In-self [] ys sub = tt
In-self (x ∷ xs) ys sub = (sub x (inl refl), In-self xs ys (λ q i. sub q (inr i)))

All-map :
    {A : Type 0} {P Q : A → Type 0} (xs : List A) → ((q : A) → P q → Q q) → All P xs → All Q xs
All-map [] f h = tt
All-map (x ∷ xs) f (p, h) = (f x p, All-map xs f h)

-- The requests that delete the claim of an address are among those sent.
abbrev AreSent : Text → List DeleteRequest → Text → Type 0
AreSent ns requests addr = All (λ q. In q requests) (delete_ip_address_claim ns addr)

AreSent-before :
    (ns addr : Text) (xs ys : List DeleteRequest) → AreSent ns xs addr → AreSent ns (xs ++ ys) addr
AreSent-before ns addr xs ys h = All-map _ (λ q. In-left q xs ys) h

AreSent-now :
    (ns addr : Text) (xs ys : List DeleteRequest)
    → AreSent ns (xs ++ (delete_ip_address_claim ns addr ++ ys)) addr
AreSent-now ns addr xs ys =
    In-self (delete_ip_address_claim ns addr) _
      (λ q i. In-right q xs _ (In-left q (delete_ip_address_claim ns addr) ys i))

-- What is known of the addresses that were seen.
abbrev Covers : Text → List DeleteRequest → List Text → Type 0
Covers ns requests seen = (a : Text) → has seen a ≡ true → AreSent ns requests a

has-cons : (x a : Text) (set : List Text) → has (x ∷ set) a ≡ true → (x ≡ a) ⊎ (has set a ≡ true)
unfolding has
has-cons x a set h = ground (arith, text_eq_iff x a)

Covers-more :
    (ns addr : Text) (xs : List DeleteRequest) (seen : List Text)
    → Covers ns xs seen
    → Covers ns (xs ++ delete_ip_address_claim ns addr) (addr ∷ seen)
Covers-more ns addr xs seen c a h = elim (has-cons addr a seen h) [
  | inl e ↦ subst (AreSent ns (xs ++ delete_ip_address_claim ns addr)) e (
      subst (λ ys. AreSent ns (xs ++ ys) addr) (append-nil_eq (delete_ip_address_claim ns addr))
        (AreSent-now ns addr xs []))
  | inr i ↦ AreSent-before ns a xs _ (c a i)
]

module _ (ns vm : Text) where
  -- The address under which an item of the machine is handled.
  abbrev address_of : IpAddressListItem → Text
  address_of item = or_else (item_address item) []

  abbrev is_skipped : List Text → IpAddressListItem → Bool
  is_skipped seen item = not (is_claimed_by ns vm item) || is_done seen (address_of item)

  skipped_seen :
      (seen : List Text) (item : IpAddressListItem)
      → is_skipped seen item ≡ true
      → is_claimed_by ns vm item ≡ true
      → truthy (address_of item) ≡ true
      → has seen (address_of item) ≡ true
  unfolding is_done
  skipped_seen seen item skip own given = ground arith

  claimed-skip :
      (seen : List Text) (item : IpAddressListItem) (items : List IpAddressListItem)
      → is_skipped seen item ≡ true
      → release_claimed ns vm seen (item ∷ items) ≡ release_claimed ns vm seen items
  unfolding release_claimed
  claimed-skip seen item items h = rw h refl

  claimed-send :
      (seen : List Text) (item : IpAddressListItem) (items : List IpAddressListItem)
      → is_skipped seen item ≡ false
      → release_claimed ns vm seen (item ∷ items)
        ≡ delete_ip_address_claim ns (address_of item)
          ++ release_claimed ns vm (address_of item ∷ seen) items
  unfolding release_claimed
  claimed-send seen item items h = rw h refl

  -- An item of the machine with an address, listed behind what was sent, has its claim deleted.
  claimed-AreSent :
      (sent : List DeleteRequest) (seen : List Text) (items : List IpAddressListItem)
      (item : IpAddressListItem)
      → Covers ns sent seen
      → In item items
      → is_claimed_by ns vm item ≡ true
      → truthy (address_of item) ≡ true
      → AreSent ns (sent ++ release_claimed ns vm seen items) (address_of item)
  claimed-AreSent sent seen [] item c i own given = absurd i
  claimed-AreSent sent seen (first ∷ items) item c i own given =
      elim (Bool-cases (is_skipped seen first)) [
        | inl skip ↦ rw (claimed-skip seen first items skip) (elim i [
          | inl e ↦ AreSent-before ns (address_of item) sent _ (
              c (address_of item) (
                skipped_seen seen item (subst (λ k. is_skipped seen k ≡ true) (sym e) skip) own
                  given))
          | inr j ↦ claimed-AreSent sent seen items item c j own given
        ])
        | inr send ↦ rw (claimed-send seen first items send) (elim i [
          | inl e ↦
              subst
                (λ k.
                  AreSent ns
                    (sent
                      ++ (delete_ip_address_claim ns (address_of first)
                          ++ release_claimed ns vm (address_of first ∷ seen) items))
                    (address_of k))
                (sym e) (AreSent-now ns (address_of first) sent _)
          | inr j ↦
              subst (λ r. AreSent ns r (address_of item))
                (append_assoc sent (delete_ip_address_claim ns (address_of first))
                  (release_claimed ns vm (address_of first ∷ seen) items))
                (claimed-AreSent (sent ++ delete_ip_address_claim ns (address_of first))
                  (address_of first ∷ seen) items item
                  (Covers-more ns (address_of first) sent seen c) j own given)
        ])
      ]

  given-nil : (seen : List Text) → release_given ns seen [] ≡ ([], seen)
  unfolding release_given
  given-nil seen = refl

  given-skip :
      (seen : List Text) (a : Text) (as' : List Text)
      → is_done seen (plain_address a) ≡ true
      → release_given ns seen (a ∷ as') ≡ release_given ns seen as'
  unfolding release_given
  given-skip seen a as' h = rw h refl

  given-send :
      (seen : List Text) (a : Text) (as' : List Text)
      → is_done seen (plain_address a) ≡ false
      → release_given ns seen (a ∷ as') ≡ (
        delete_ip_address_claim ns (plain_address a)
            ++ (release_given ns (plain_address a ∷ seen) as').0,
        (release_given ns (plain_address a ∷ seen) as').1,
      )
  unfolding release_given
  given-send seen a as' h = rw h refl

  -- The first loop keeps that every address seen has its claim deleted.
  given-Covers :
      (sent : List DeleteRequest) (seen : List Text) (as' : List Text)
      → Covers ns sent seen
      → Covers ns (sent ++ (release_given ns seen as').0) (release_given ns seen as').1
  given-Covers sent seen [] c =
      subst (λ p. Covers ns (sent ++ p.0) p.1) (sym (given-nil seen))
        (subst (λ r. Covers ns r seen) (sym (append-nil_eq sent)) c)
  given-Covers sent seen (a ∷ as') c = elim (Bool-cases (is_done seen (plain_address a))) [
    | inl skip ↦
        subst (λ p. Covers ns (sent ++ p.0) p.1) (sym (given-skip seen a as' skip))
          (given-Covers sent seen as' c)
    | inr send ↦
        subst (λ p. Covers ns (sent ++ p.0) p.1) (sym (given-send seen a as' send))
          (subst (λ r. Covers ns r (release_given ns (plain_address a ∷ seen) as').1)
            (append_assoc sent (delete_ip_address_claim ns (plain_address a))
              (release_given ns (plain_address a ∷ seen) as').0)
            (given-Covers (sent ++ delete_ip_address_claim ns (plain_address a))
              (plain_address a ∷ seen) as' (Covers-more ns (plain_address a) sent seen c)))
  ]

none_seen : (ns : Text) → Covers ns [] []
unfolding has
none_seen ns a h = absurd (ground arith)

requests_lem :
    (namespace vm_name : Text) (addresses : List Text) (items : List IpAddressListItem)
    → truthy (trim namespace) ≡ true
    → truthy (trim vm_name) ≡ true
    → delete_ip_address_claims_for_vm namespace vm_name addresses (ok items)
      ≡ (release_given (trim namespace) [] addresses).0
        ++ release_claimed
            (trim namespace)
            (trim vm_name)
            (release_given (trim namespace) [] addresses).1
            items
unfolding delete_ip_address_claims_for_vm listed_items
requests_lem namespace vm_name addresses items h k = rw (h, k) refl

-- What the code takes for the address of a listed claim: its field, else its name with dots.
abbrev pub HasAddress : IpAddressListItem → Text → Type 0
HasAddress item a =
    (trimmed item.address ≡ some a)
    ⊎ ((trimmed item.address ≡ none)
        × (n : Text) × (item.name ≡ some n)
        × (a ≡ replace_all b'-' b'.' n))

-- The claim is the machine's: it names the machine, and its namespace, or none.
abbrev pub IsOwn : Text → Text → IpAddressListItem → Type 0
IsOwn ns vm item =
    (item.claim_name ≡ some vm)
    × ((item.claim_namespace ≡ none)
        ⊎ (item.claim_namespace ≡ some [])
        ⊎ (item.claim_namespace ≡ some ns))

HasAddress-item_address :
    (item : IpAddressListItem) (a : Text) → HasAddress item a → item_address item ≡ some a
unfolding item_address dotted_name
HasAddress-item_address item a (inl h) = rw (h, item_address) refl
HasAddress-item_address item a (inr (h, n, named, e)) =
    rw (h, item_address) (rw (named, dotted_name) (ap some (sym e)))

and_false : (b : Bool) → (b && false) ≡ false
and_false true = refl
and_false false = refl

foreign_own : (ns : Text) → foreign ns (some ns) ≡ false
unfolding foreign
foreign_own ns = rw (text_eq_refl ns) (and_false (truthy ns))

foreign-IsOwn :
    (ns vm : Text) (item : IpAddressListItem)
    → IsOwn ns vm item
    → foreign ns item.claim_namespace ≡ false
unfolding foreign
foreign-IsOwn ns vm item (named, inl h) = rw h refl
foreign-IsOwn ns vm item (named, inr (inl h)) = rw h refl
foreign-IsOwn ns vm item (named, inr (inr h)) = rw h (foreign_own ns)

claimed-IsOwn :
    (ns vm : Text) (item : IpAddressListItem)
    → IsOwn ns vm item
    → truthy vm ≡ true
    → is_claimed_by ns vm item ≡ true
unfolding is_claimed_by is_text
claimed-IsOwn ns vm item own given =
    rw (own.0, foreign-IsOwn ns vm item own, given, text_eq_refl vm) refl

-- The request to delete the claim of an address, in the trimmed namespace.
abbrev pub deletion : Text → Text → DeleteRequest
deletion ns addr = record { namespace = ns; name = ip_address_object_name addr }

delete_one :
    (namespace addr : Text)
    → truthy (trim namespace) ≡ true
    → truthy (plain_address addr) ≡ true
    → delete_ip_address_claim (trim namespace) addr
      ≡ deletion (trim (trim namespace)) (plain_address addr) ∷ []
unfolding delete_ip_address_claim
delete_one namespace addr given address = rw (address, ap truthy (trim_twice namespace), given) refl

AreSent-In :
    (namespace addr : Text) (requests : List DeleteRequest)
    → truthy (trim namespace) ≡ true
    → truthy (plain_address addr) ≡ true
    → AreSent (trim namespace) requests addr
    → In (deletion (trim namespace) (plain_address addr)) requests
AreSent-In namespace addr requests given address sent =
    subst (λ ns. In (deletion ns (plain_address addr)) requests) (trim_twice namespace)
      ((rw (delete_one namespace addr given address) at sent).0)

-- When a machine is deleted, the request to delete the claim is sent for every listed address that
-- is claimed for the machine, in its namespace or in none, whichever addresses were given beside.
-- The namespace and the machine have names, and the address is not empty, also without its prefix
-- length.
pub delete_ip_address_claims_for_vm-IsSent :
    (namespace vm_name : Text) (addresses : List Text) (items : List IpAddressListItem)
    (item : IpAddressListItem) (a : Text)
    → truthy (trim namespace) ≡ true
    → truthy (trim vm_name) ≡ true
    → In item items
    → IsOwn (trim namespace) (trim vm_name) item
    → HasAddress item a
    → truthy a ≡ true
    → truthy (plain_address a) ≡ true
    → In
        (deletion (trim namespace) (plain_address a))
        (delete_ip_address_claims_for_vm namespace vm_name addresses (ok items))
delete_ip_address_claims_for_vm-IsSent namespace vm_name addresses items item a h k i own has_a full
      plain =
    let ns = trim namespace in
    let found = ap (λ x. or_else x []) (HasAddress-item_address item a has_a) in
    let (requests, seen) = release_given ns [] addresses in
    AreSent-In namespace a (delete_ip_address_claims_for_vm namespace vm_name addresses (ok items))
      h plain
      (subst (AreSent ns (delete_ip_address_claims_for_vm namespace vm_name addresses (ok items)))
        found
        (subst (λ r. AreSent ns r (or_else (item_address item) []))
          (sym (requests_lem namespace vm_name addresses items h k))
          (claimed-AreSent ns (trim vm_name) requests seen items item
            (given-Covers ns (trim vm_name) [] [] addresses (none_seen ns)) i
            (claimed-IsOwn ns (trim vm_name) item own k)
            (subst (λ x. truthy x ≡ true) (sym found) full))))
