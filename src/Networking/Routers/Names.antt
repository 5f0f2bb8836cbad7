-- ===== src/Networking/Routers/Names.antt =====
-- The names of a router's networks: lemmas on `is_attached`, `other_vpcs` and `unique_from`.
use kmc.Common.{
  ◌+◌, ◌≡◌, refl, ap, subst, inl, inr, true, false, ◌||◌, Bool-cases, List, [], ◌∷◌, ◌++◌, map,
  arith, length, keep, if◌then◌else◌, Text, has, text_eq, text_eq_iff, text_eq_refl, text_eq_sound,
  ◌∙◌,
}
use kmc.Networking.Objects.{RouterVpcAttachment}
use kmc.Networking.Routers.Attachments.{is_attached, attachment, other_vpcs}
use kmc.Networking.Routers.Creation.{unique_from}

-- No two networks of the list have one name.
abbrev pub Distinct : List RouterVpcAttachment → Type 0
Distinct [] = Unit
Distinct (v ∷ vs) = (is_attached v.name vs ≡ false) × Distinct vs

pub is_attached-append :
    (n m : Text) (vs : List RouterVpcAttachment)
    → is_attached n (vs ++ attachment m ∷ []) ≡ (is_attached n vs || text_eq m n)
unfolding is_attached
is_attached-append n m [] = ground arith
is_attached-append n m (v ∷ vs) = ground (arith, is_attached-append n m vs)

pub Distinct-append :
    (m : Text) (vs : List RouterVpcAttachment)
    → is_attached m vs ≡ false
    → Distinct vs
    → Distinct (vs ++ attachment m ∷ [])
unfolding is_attached
Distinct-append m [] h d = (refl, tt)
Distinct-append m (v ∷ vs) h (here, d) = (
  ground (arith, is_attached-append v.name m vs, text_eq_iff m v.name, text_eq_iff v.name m),
  Distinct-append m vs (ground arith) d,
)

pub is_attached-other :
    (n m : Text) (vs : List RouterVpcAttachment)
    → is_attached n (other_vpcs m vs) ≡ (if text_eq m n then false else is_attached n vs)
unfolding is_attached other_vpcs keep
is_attached-other n m [] = ground arith
is_attached-other n m (v ∷ vs) =
    ground
      (arith, is_attached-other n m vs, text_eq_iff m n, text_eq_iff v.name m, text_eq_iff v.name n)

pub Distinct-other :
    (m : Text) (vs : List RouterVpcAttachment) → Distinct vs → Distinct (other_vpcs m vs)
unfolding other_vpcs keep
Distinct-other m [] d = tt
Distinct-other m (v ∷ vs) (here, d) = elim (Bool-cases (text_eq v.name m)) [
  | inl same ↦ rw same (Distinct-other m vs d)
  | inr different ↦
      rw different (ground (arith, is_attached-other v.name m vs), Distinct-other m vs d)
]

pub other-absent :
    (m : Text) (vs : List RouterVpcAttachment) → is_attached m vs ≡ false → other_vpcs m vs ≡ vs
unfolding is_attached other_vpcs keep
other-absent m [] h = refl
other-absent m (v ∷ vs) h = ground (arith, other-absent m vs)

pub length-other :
    (m : Text) (vs : List RouterVpcAttachment)
    → Distinct vs
    → is_attached m vs ≡ true
    → length (other_vpcs m vs) + 1 ≡ length vs
unfolding is_attached other_vpcs keep
length-other m [] d h = cc
length-other m (v ∷ vs) (here, d) h = elim (Bool-cases (text_eq v.name m)) [
  | inl same ↦ rw same (
      omega (
        arith,
        ap length (
            other-absent m vs
              (subst (λ n. is_attached n vs ≡ false) (text_eq_sound v.name m same) here)),
      ))
  | inr different ↦ rw different (omega (arith, length-other m vs d (ground arith)))
]

pub is_attached-map :
    (n : Text) (names : List Text) → is_attached n (map attachment names) ≡ has names n
unfolding is_attached has
is_attached-map n [] = refl
is_attached-map n (x ∷ xs) = rw (is_attached-map n xs) refl

unique-absent :
    (n : Text) (seen xs : List Text) → has seen n ≡ true → has (unique_from seen xs) n ≡ false
unfolding unique_from has
unique-absent n seen [] h = refl
unique-absent n seen (x ∷ xs) h = elim (Bool-cases (has seen x)) [
  | inl skip ↦ rw skip (unique-absent n seen xs h)
  | inr fresh ↦ rw fresh (ground (arith, text_eq_iff x n, unique-absent n (x ∷ seen) xs))
]

pub unique-Distinct : (seen xs : List Text) → Distinct (map attachment (unique_from seen xs))
unfolding unique_from has
unique-Distinct seen [] = tt
unique-Distinct seen (x ∷ xs) = elim (Bool-cases (has seen x)) [
  | inl skip ↦ rw skip (unique-Distinct seen xs)
  | inr fresh ↦ rw fresh (
    is_attached-map x (unique_from (x ∷ seen) xs)
        ∙ unique-absent x (x ∷ seen) xs (ground (arith, text_eq_refl x)),
    unique-Distinct (x ∷ seen) xs,
  )
]
