-- ===== src/Common/Splitting.antt =====
-- `split` of what `join` makes, and `cut` at a separator.
use mathlib.Core.Path.{◌≡◌, refl}
use mathlib.Core.Logic.{inl, inr}
use mathlib.Core.Option.{some}
use mathlib.Core.List.{List, [], ◌∷◌, ◌++◌}
use Prim.Native.Nat.{ℕ}
use native.Mathlib.Omega.{arith}
use kmc.Common.Tests.{◌==◌, Bool-cases}
use kmc.Common.Lists.{All}
use kmc.Common.Strings.{Text, Lacks, split_step, split, join, cut}

split-Lacks : (c : ℕ) (w : Text) → Lacks c w → split c w ≡ w ∷ []
unfolding split
split-Lacks c [] h = refl
split-Lacks c (d ∷ w) (p, h) = rw (split-Lacks c w h) (ground arith)

split_step-IsCons :
    (c d : ℕ) (ws : List Text) → (v : Text) × (vs : List Text) × (split_step c d ws ≡ v ∷ vs)
split_step-IsCons c d [] = (d ∷ [], [], refl)
split_step-IsCons c d (w ∷ ws) = elim (Bool-cases (d == c)) [
  | inl e ↦ ([], w ∷ ws, rw e)
  | inr e ↦ (d ∷ w, ws, rw e)
]

split-IsCons : (c : ℕ) (s : Text) → (v : Text) × (vs : List Text) × (split c s ≡ v ∷ vs)
unfolding split
split-IsCons c [] = ([], [], refl)
split-IsCons c (d ∷ s) = split_step-IsCons c d (split c s)

split-append : (c : ℕ) (w s : Text) → Lacks c w → split c (w ++ c ∷ s) ≡ w ∷ split c s
unfolding split
split-append c [] s h = let (v, vs, e) = split-IsCons c s in rw e (ground arith)
split-append c (d ∷ w) s (p, h) = rw (split-append c w s h) (ground arith)

pub split-join :
    (c : ℕ) (w : Text) (ws : List Text)
    → All (Lacks c) (w ∷ ws)
    → split c (join (c ∷ []) (w ∷ ws)) ≡ w ∷ ws
unfolding join
split-join c w [] (h, _) = split-Lacks c w h
split-join c w (v ∷ ws) (h, hs) =
    rw (split-append c w (join (c ∷ []) (v ∷ ws)) h) (rw (split-join c v ws hs))

-- Without a separator in front, `cut` gives back both parts.
pub cut-append : (c : ℕ) (w s : Text) → Lacks c w → cut c (w ++ c ∷ s) ≡ some (w, s)
unfolding cut
cut-append c [] s h = ground arith
cut-append c (d ∷ w) s (p, h) = rw (cut-append c w s h) (ground arith)
