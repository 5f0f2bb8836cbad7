-- ===== src/Bulk/Targets.antt =====
-- The accepted bulk requests of bulk-action.ts.
use kmc.Common.{
  ◌≤◌, ◌≡◌, ◌↔◌, refl, subst, inl, inr, Bool, true, ◌&&◌, Bool-cases, Option, none, some, List, [],
  ◌∷◌, arith, ltb, Result, ok, >>=-eq-ok, ok_injective, length, All, Text, codes, truthy, trim,
}
use kmc.Bulk.{
  Json, arr, Items, nil, cons, Fields, list_of, BulkError, checked_items, parse_target_array,
  object_fields, each_target, parse_targets, ResourceTarget, resource_target, field_text,
  parse_namespaced_bulk_targets, target_limit,
}

-- Each target is what `read` makes of the fields of the item at its place.
pub data ReadsEach {T : Type 0} (read : Fields → Result BulkError T)
    : List Json → List T → Type 0 where
  done : ReadsEach read [] []
  next :
      {item : Json} {items : List Json} {t : T} {ts : List T} (fs : Fields)
      → object_fields item ≡ ok fs
      → read fs ≡ ok t
      → ReadsEach read items ts
      → ReadsEach read (item ∷ items) (t ∷ ts)

-- The request text is an array in JSON of 1 to 100 objects, and the targets are read from them.
pub record IsRequest {T : Type 0} (parse : Text → Option Json) (read : Fields → Result BulkError T)
    (raw : Option Text) (targets : List T) : Type 0 where
  pub text : Text
  pub items : Items
  pub given : raw ≡ some text
  pub not_blank : truthy (trim text) ≡ true
  pub parsed : parse text ≡ some (arr items)
  pub some_items : 1 ≤ length (list_of items)
  pub few_items : length (list_of items) ≤ 100
  pub reads : ReadsEach read (list_of items) targets

module _ {T : Type 0} (read : Fields → Result BulkError T) where
  each_target-ReadsEach :
      (items : List Json) (ts : List T) → each_target read items ≡ ok ts → ReadsEach read items ts
  unfolding each_target
  each_target-ReadsEach [] ts h = subst (ReadsEach read []) (ok_injective h) done
  each_target-ReadsEach (item ∷ items) ts h =
      let (fs, f, h₁) = >>=-eq-ok (object_fields item) _ h in
      let (t, r, h₂) = >>=-eq-ok (read fs) _ h₁ in
      let (rest, e, h₃) = >>=-eq-ok (each_target read items) _ h₂ in
      subst (ReadsEach read (item ∷ items)) (ok_injective h₃)
        (next fs f r (each_target-ReadsEach items rest e))

  ReadsEach-each_target :
      (items : List Json) (ts : List T) → ReadsEach read items ts → each_target read items ≡ ok ts
  unfolding each_target
  ReadsEach-each_target _ _ done = refl
  ReadsEach-each_target _ _ (next {items = items} {ts = ts} fs f r h) =
      rw (f, r, ReadsEach-each_target items ts h) refl

  ReadsEach-length :
      (items : List Json) (ts : List T) → ReadsEach read items ts → length ts ≡ length items
  ReadsEach-length _ _ done = refl
  ReadsEach-length _ _ (next {items = items} {ts = ts} fs f r h) =
      omega (arith, ReadsEach-length items ts h)

-- What the checks of `parseTargetArray` let pass.
checked_items-inversion :
    (o : Option Json) (items : List Json)
    → checked_items o ≡ ok items
    → (is : Items) × (o ≡ some (arr is))
      × (items ≡ list_of is)
      × (1 ≤ length items)
      × (length items ≤ 100)
unfolding checked_items
checked_items-inversion none items h = cc
checked_items-inversion (some (arr nil)) items h = cc
checked_items-inversion (some (arr (cons v vs))) items h =
    elim (Bool-cases (ltb target_limit (length (list_of (cons v vs))))) [
      | inl many ↦ absurd (ground arith)
      | inr few ↦
          let e = ok_injective {E = BulkError} (rw few at h) in
          subst
            (λ l.
              (is : Items) × (some (arr (cons v vs)) ≡ some (arr is))
              × (l ≡ list_of is)
              × (1 ≤ length l)
              × (length l ≤ 100))
            e (cons v vs, refl, refl, omega arith, ground arith)
    ]
checked_items-inversion (some Json.null) items h = cc
checked_items-inversion (some (Json.bool b)) items h = cc
checked_items-inversion (some (Json.num t)) items h = cc
checked_items-inversion (some (Json.str t)) items h = cc
checked_items-inversion (some (Json.obj fs)) items h = cc

checked_items-ok :
    (is : Items)
    → 1 ≤ length (list_of is)
    → length (list_of is) ≤ 100
    → checked_items (some (arr is)) ≡ ok (list_of is)
unfolding checked_items
checked_items-ok nil lo hi = absurd (omega arith)
checked_items-ok (cons v vs) lo hi = ground arith

module _ {T : Type 0} (parse : Text → Option Json) (read : Fields → Result BulkError T) where
  none-refused : (targets : List T) → parse_targets parse read none ≡ ok targets → ⊥
  unfolding parse_targets parse_target_array
  none-refused targets h = ground arith

  accepted-IsRequest :
      (text : Text) (targets : List T)
      → parse_targets parse read (some text) ≡ ok targets
      → IsRequest parse read (some text) targets
  unfolding parse_targets parse_target_array
  accepted-IsRequest text targets h =
      let (items, checked, each) = >>=-eq-ok (parse_target_array parse (some text)) _ h in
      elim (Bool-cases (truthy (trim text))) [
        | inl full ↦
            let (is, p, e, lo, hi) =
              checked_items-inversion (parse text) items (rw full at checked) in
            record {
              text = text;
              items = is;
              given = refl;
              not_blank = full;
              parsed = p;
              some_items = subst (λ l. 1 ≤ length l) e lo;
              few_items = subst (λ l. length l ≤ 100) e hi;
              reads =
                  subst (λ l. ReadsEach read l targets) e
                    (each_target-ReadsEach read items targets each);
            }
        | inr blank ↦ absurd (ground arith)
      ]

  IsRequest-accepted :
      (raw : Option Text) (targets : List T)
      → IsRequest parse read raw targets
      → parse_targets parse read raw ≡ ok targets
  unfolding parse_targets parse_target_array
  IsRequest-accepted raw targets r =
      rw
        (
          r.given,
          r.not_blank,
          r.parsed,
          checked_items-ok r.items r.some_items r.few_items,
          ReadsEach-each_target read (list_of r.items) targets r.reads,
        )
        refl

  -- A request is accepted, with these targets, exactly when its text is JSON of an array of 1 to
  -- 100 objects from which the targets are read in order.
  pub parse_targets_iff :
      (raw : Option Text) (targets : List T)
      → (parse_targets parse read raw ≡ ok targets) ↔ IsRequest parse read raw targets
  parse_targets_iff none targets =
      (λ h. absurd (none-refused targets h), IsRequest-accepted none targets)
  parse_targets_iff (some text) targets =
      (accepted-IsRequest text targets, IsRequest-accepted (some text) targets)

-- A target that names its cluster, its namespace and its object.
abbrev pub IsNamed : ResourceTarget → Type 0
IsNamed t = (truthy t.cluster ≡ true) × (truthy t.namespace ≡ true) × (truthy t.name ≡ true)

all_three : (a b c : Bool) → (a && b && c) ≡ true → (a ≡ true) × (b ≡ true) × (c ≡ true)
all_three a b c h = ground arith

resource_target-IsNamed : (fs : Fields) (t : ResourceTarget) → resource_target fs ≡ ok t → IsNamed t
unfolding resource_target
resource_target-IsNamed fs t h =
    let cluster = field_text fs (codes "cluster") in
    let namespace = field_text fs (codes "namespace") in
    let name = field_text fs (codes "name") in
    elim (Bool-cases (truthy cluster && truthy namespace && truthy name)) [
      | inl named ↦
          subst IsNamed (ok_injective {E = BulkError} (rw named at h))
            (all_three (truthy cluster) (truthy namespace) (truthy name) named)
      | inr unnamed ↦ absurd (ground arith)
    ]

ReadsEach-IsNamed :
    (items : List Json) (ts : List ResourceTarget)
    → ReadsEach resource_target items ts
    → All IsNamed ts
ReadsEach-IsNamed _ _ done = tt
ReadsEach-IsNamed _ _ (next {items = items} {t = t} {ts = ts} fs f r h) =
    (resource_target-IsNamed fs t r, ReadsEach-IsNamed items ts h)

-- Accepted namespaced targets are between 1 and 100, and each has a cluster, a namespace and a name.
pub parse_namespaced_bulk_targets-IsNamed :
    (parse : Text → Option Json) (raw : Option Text) (ts : List ResourceTarget)
    → parse_namespaced_bulk_targets parse raw ≡ ok ts
    → (1 ≤ length ts) × (length ts ≤ 100) × All IsNamed ts
unfolding parse_namespaced_bulk_targets
parse_namespaced_bulk_targets-IsNamed parse raw ts h =
    let r = (parse_targets_iff parse resource_target raw ts).0 h in
    let same = ReadsEach-length resource_target (list_of r.items) ts r.reads in
    (
      omega (arith, same, r.some_items),
      omega (arith, same, r.few_items),
      ReadsEach-IsNamed (list_of r.items) ts r.reads,
    )
