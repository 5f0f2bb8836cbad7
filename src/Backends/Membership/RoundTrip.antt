-- ===== src/Backends/Membership/RoundTrip.antt =====
-- Memberships and the metadata that records them, in membership.ts.
use kmc.Common.{
  ◌≡◌, ◌≢◌, refl, sym, ◌∙◌, ap, true, Option, none, some, List, [], ◌∷◌, ◌++◌, arith, Text, Lacks,
  All, keep, truthy, trim, trim_all, join, split, Labels, lookup, insert, spread, append-nil_eq,
  append_assoc,
}
use kmc.Common.Splitting.{split-join}
use kmc.Common.Trimming.{IsSolid, trim-IsSolid}
use kmc.Backends.Membership.{
  BackendMembership, single_vm, labels, group, known, membership_labels, membership_annotations,
  membership_from_service_meta, given, labels_of, parsed_labels, labels_membership_from,
}

-- Each key is new to the entries before it.
abbrev pub HasNewKeys : Labels → Labels → Type 0
HasNewKeys before [] = Unit
HasNewKeys before ((k, v) ∷ m) = (lookup k before ≡ none) × HasNewKeys (before ++ (k, v) ∷ []) m

insert-new : (k v : Text) (m : Labels) → lookup k m ≡ none → insert k v m ≡ m ++ (k, v) ∷ []
unfolding insert lookup
insert-new k v [] h = refl
insert-new k v ((j, w) ∷ m) h = ground (arith, insert-new k v m)

spread-new : (before m : Labels) → HasNewKeys before m → spread before m ≡ before ++ m
unfolding spread
spread-new before [] h = sym (append-nil_eq before)
spread-new before ((k, v) ∷ m) (new, h) =
    rw (insert-new k v before new)
      (spread-new (before ++ (k, v) ∷ []) m h ∙ append_assoc before ((k, v) ∷ []) m)

-- A machine's name as the console writes it: not empty, without spaces and commas.
abbrev pub IsName : Text → Type 0
IsName s = (truthy s ≡ true) × IsSolid s × Lacks b',' s

trim_all-IsName : (names : List Text) → All IsName names → trim_all names ≡ names
unfolding trim_all keep
trim_all-IsName [] h = refl
trim_all-IsName (s ∷ ss) ((full, solid, _), h) =
    rw (trim-IsSolid s solid) (rw full (ap (λ t. s ∷ t) (trim_all-IsName ss h)))

names-Lacks : (names : List Text) → All IsName names → All (Lacks b',') names
names-Lacks [] h = tt
names-Lacks (s ∷ ss) ((_, _, lacks), h) = (lacks, names-Lacks ss h)

trim_all-split-join :
    (names : List Text) → All IsName names → trim_all (split b',' (join (b',' ∷ []) names)) ≡ names
unfolding join split
trim_all-split-join [] h = unfold trim_all keep trim in refl
trim_all-split-join (s ∷ ss) h =
    ap trim_all (split-join b',' s ss (names-Lacks (s ∷ ss) h)) ∙ trim_all-IsName (s ∷ ss) h

-- What the console writes: names that are not empty, and labels with distinct keys.
abbrev pub IsWritten : BackendMembership → Type 0
IsWritten (single_vm name) = truthy name ≡ true
IsWritten (labels m) = (m ≢ []) × HasNewKeys [] m
IsWritten (group id names) = (truthy id ≡ true) × All IsName names

module _ (stringify : Labels → Text) (parse_object : Text → Option Labels) where
  given-truthy : (s : Text) → truthy s ≡ true → given (some s) ≡ some s
  unfolding given
  given-truthy [] h = cc
  given-truthy (c ∷ s) h = refl

  labels_of-ne : (m : Labels) → m ≢ [] → labels_of stringify parse_object m ≡ known (labels m)
  unfolding labels_of
  labels_of-ne [] h = absurd (h refl)
  labels_of-ne (e ∷ m) h = refl

  -- JSON gives a map of strings back.
  abbrev pub IsStored : BackendMembership → Type 0
  IsStored (single_vm name) = Unit
  IsStored (labels m) = (truthy (stringify m) ≡ true) × (parse_object (stringify m) ≡ some m)
  IsStored (group id names) = Unit

  read_vm :
      (name : Text)
      → truthy name ≡ true
      → membership_from_service_meta stringify parse_object
          (some (membership_labels (single_vm name)))
          (some [])
        ≡ known (single_vm name)
  unfolding membership_from_service_meta membership_labels
  read_vm [] h = cc
  read_vm (c ∷ s) h = refl

  read_labels :
      (m : Labels)
      → truthy (stringify m) ≡ true
      → parse_object (stringify m) ≡ some m
      → HasNewKeys [] m
      → m ≢ []
      → membership_from_service_meta stringify parse_object
          (some (membership_labels (labels m)))
          (some (membership_annotations stringify parse_object (labels m)))
        ≡ known (labels m)
  unfolding membership_from_service_meta membership_labels membership_annotations
  read_labels m full reads fresh ne = rw (given-truthy _ full) (
      unfold labels_membership_from in
      rw reads (unfold parsed_labels in rw (spread-new [] m fresh) (labels_of-ne m ne)))

  read_group :
      (id : Text) (names : List Text)
      → truthy id ≡ true
      → All IsName names
      → membership_from_service_meta stringify parse_object
          (some (membership_labels (group id names)))
          (some (membership_annotations stringify parse_object (group id names)))
        ≡ known (group id names)
  unfolding membership_from_service_meta membership_labels membership_annotations
  read_group [] names h w = cc
  read_group (c ∷ s) names h w = ap (λ ns. known (group (c ∷ s) ns)) (trim_all-split-join names w)

  -- A membership that the console writes is read back from the labels and annotations that record
  -- it, where JSON gives its map of labels back.
  pub membership_from_service_meta-membership :
      (m : BackendMembership)
      → IsWritten m
      → IsStored m
      → membership_from_service_meta stringify parse_object
          (some (membership_labels m))
          (some (membership_annotations stringify parse_object m))
        ≡ known m
  unfolding membership_annotations
  membership_from_service_meta-membership (single_vm name) w st = read_vm name w
  membership_from_service_meta-membership (labels m) (ne, fresh) (full, reads) =
      read_labels m full reads fresh ne
  membership_from_service_meta-membership (group id names) (full, w) st = read_group id names full w
