-- ===== src/Common/Maps.antt =====
-- Objects of type `Record<string, string>` as association lists, in the order of insertion.
use mathlib.Core.Path.{◌≡◌, refl}
use mathlib.Core.Option.{Option, none, some}
use mathlib.Core.List.{List, [], ◌∷◌}
use native.Mathlib.Omega.{arith}
use kmc.Common.Tests.{if◌then◌else◌}
use kmc.Common.Strings.{Text, text_eq, text_eq_iff}

abbrev pub Labels : Type 0
Labels = List (Text × Text)

-- `m[k]`, with `none` for undefined
unfoldable pub lookup : Text → Labels → Option Text
lookup k [] = none
lookup k ((j, v) ∷ m) = if text_eq j k then some v else lookup k m

-- `m[k] = v`
unfoldable pub insert : Text → Text → Labels → Labels
insert k v [] = (k, v) ∷ []
insert k v ((j, w) ∷ m) = if text_eq j k then (k, v) ∷ m else (j, w) ∷ insert k v m

-- `delete m[k]`
unfoldable pub erase : Text → Labels → Labels
erase k [] = []
erase k ((j, w) ∷ m) = let rest = erase k m in if text_eq j k then rest else (j, w) ∷ rest

-- `{ ...a, ...b }`
unfoldable pub spread : Labels → Labels → Labels
unfolding insert
spread a [] = a
spread a ((k, v) ∷ b) = spread (insert k v a) b

pub lookup-insert :
    (k j v : Text) (m : Labels)
    → lookup j (insert k v m) ≡ (if text_eq k j then some v else lookup j m)
unfolding lookup insert
lookup-insert k j v [] = refl
lookup-insert k j v ((i, w) ∷ m) =
    ground (arith, text_eq_iff k j, text_eq_iff i k, text_eq_iff i j, lookup-insert k j v m)

pub lookup-erase :
    (k j : Text) (m : Labels) → lookup j (erase k m) ≡ (if text_eq k j then none else lookup j m)
unfolding lookup erase
lookup-erase k j [] = ground arith
lookup-erase k j ((i, w) ∷ m) =
    ground (arith, text_eq_iff k j, text_eq_iff i k, text_eq_iff i j, lookup-erase k j m)

-- The second object of a spread leaves alone what it does not name.
pub lookup-spread :
    (k : Text) (a b : Labels) → lookup k b ≡ none → lookup k (spread a b) ≡ lookup k a
unfolding lookup spread
lookup-spread k a [] h = refl
lookup-spread k a ((j, v) ∷ b) h =
    ground (arith, lookup-insert j k v a, lookup-spread k (insert j v a) b)
