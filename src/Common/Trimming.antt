-- ===== src/Common/Trimming.antt =====
-- What `trim` leaves alone.
use mathlib.Core.Path.{◌≡◌, refl}
use Prim.Native.Nat.{ℕ}
use mathlib.Core.Logic.{inl, inr}
use mathlib.Core.Bool.{false}
use mathlib.Core.List.{[], ◌∷◌}
use kmc.Common.Tests.{Bool-cases}
use kmc.Common.Lists.{All}
use kmc.Common.Strings.{Text, is_space, trim_start, trim_end, drop_space, trim}

-- No white space anywhere.
abbrev pub IsSolid : Text → Type 0
IsSolid = All (λ c. is_space c ≡ false)

trim_end-IsSolid : (s : Text) → IsSolid s → trim_end s ≡ s
unfolding trim_end
trim_end-IsSolid [] h = refl
trim_end-IsSolid (c ∷ []) (p, _) = rw p refl
trim_end-IsSolid (c ∷ d ∷ s) (p, h) = rw (trim_end-IsSolid (d ∷ s) h) refl

trim_start-IsSolid : (s : Text) → IsSolid s → trim_start s ≡ s
unfolding trim_start
trim_start-IsSolid [] h = refl
trim_start-IsSolid (c ∷ s) (p, h) = rw p refl

pub trim-IsSolid : (s : Text) → IsSolid s → trim s ≡ s
unfolding trim
trim-IsSolid s h = rw (trim_start-IsSolid s h) (trim_end-IsSolid s h)

-- No white space at the start.
abbrev StartsSolid : Text → Type 0
StartsSolid [] = Unit
StartsSolid (c ∷ s) = is_space c ≡ false

trim_start-StartsSolid : (s : Text) → StartsSolid (trim_start s)
unfolding trim_start
trim_start-StartsSolid [] = tt
trim_start-StartsSolid (c ∷ s) = elim (Bool-cases (is_space c)) [
  | inl space ↦ rw space (trim_start-StartsSolid s)
  | inr solid ↦ rw solid solid
]

trim_start-done : (s : Text) → StartsSolid s → trim_start s ≡ s
unfolding trim_start
trim_start-done [] h = refl
trim_start-done (c ∷ s) h = rw h refl

drop_space-StartsSolid : (c : ℕ) (s : Text) → is_space c ≡ false → StartsSolid (drop_space c s)
drop_space-StartsSolid c [] h = rw h h
drop_space-StartsSolid c (d ∷ s) h = h

trim_end-StartsSolid : (s : Text) → StartsSolid s → StartsSolid (trim_end s)
unfolding trim_end
trim_end-StartsSolid [] h = tt
trim_end-StartsSolid (c ∷ s) h = drop_space-StartsSolid c (trim_end s) h

trim_end-drop_space :
    (c : ℕ) (s : Text) → trim_end s ≡ s → trim_end (drop_space c s) ≡ drop_space c s
unfolding trim_end
trim_end-drop_space c [] h = elim (Bool-cases (is_space c)) [
  | inl space ↦ rw space refl
  | inr solid ↦ rw solid (rw solid refl)
]
trim_end-drop_space c (d ∷ s) h = rw h refl

trim_end_twice : (s : Text) → trim_end (trim_end s) ≡ trim_end s
unfolding trim_end
trim_end_twice [] = refl
trim_end_twice (c ∷ s) = trim_end-drop_space c (trim_end s) (trim_end_twice s)

pub trim_twice : (s : Text) → trim (trim s) ≡ trim s
unfolding trim
trim_twice s =
    rw
      (trim_start-done (trim_end (trim_start s))
        (trim_end-StartsSolid (trim_start s) (trim_start-StartsSolid s)))
      (trim_end_twice (trim_start s))
