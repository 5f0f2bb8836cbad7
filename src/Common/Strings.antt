-- ===== src/Common/Strings.antt =====
-- Strings of JavaScript as lists of UTF-16 code units, and the operations of `String.prototype`
-- that the console uses.
use Prim.Native.Nat.{ℕ, suc, ◌+◌}
use Prim.Native.Char.{code}
use Prim.Native.String.{String}
use mathlib.Core.Path.{◌≡◌, refl}
use mathlib.Core.Logic.{◌↔◌, ◌≢◌}
use mathlib.Core.Bool.{Bool, true, false, ◌&&◌, ◌||◌}
use mathlib.Core.Option.{Option, none, some}
use mathlib.Core.List.{List, [], ◌∷◌, ◌++◌, map}
use native.Mathlib.Omega.{arith}
use kmc.Common.Tests.{leb, ◌==◌, if◌then◌else◌}
use kmc.Common.Lists.{All, keep}

abbrev pub Text : Type 0
Text = List ℕ

-- The code units of a literal (all literals of the source are in the basic plane).
abbrev pub codes : String → Text
codes String.[] = []
codes (String.◌∷◌ c s) = code c ∷ codes s

-- `a === b`
unfoldable pub text_eq : Text → Text → Bool
text_eq [] [] = true
text_eq (x ∷ xs) (y ∷ ys) = x == y && text_eq xs ys
text_eq _ _ = false

pub text_eq_sound : (a b : Text) → text_eq a b ≡ true → a ≡ b
unfolding text_eq
text_eq_sound [] [] h = refl
text_eq_sound (x ∷ xs) (y ∷ ys) h = ground (arith, text_eq_sound xs ys)
text_eq_sound [] (y ∷ ys) h = cc
text_eq_sound (x ∷ xs) [] h = cc

pub text_eq_refl : (a : Text) → text_eq a a ≡ true
unfolding text_eq
text_eq_refl [] = refl
text_eq_refl (x ∷ xs) = ground (arith, text_eq_refl xs)

pub text_eq_iff : (a b : Text) → (text_eq a b ≡ true) ↔ (a ≡ b)
text_eq_iff a b = (text_eq_sound a b, λ e. rw e (text_eq_refl b))

-- A string counts as true unless it is empty.
abbrev pub truthy : Text → Bool
truthy [] = false
truthy (c ∷ s) = true

-- `s || undefined`
abbrev pub nonempty : Text → Option Text
nonempty [] = none
nonempty (c ∷ s) = some (c ∷ s)

-- WhiteSpace and LineTerminator of ECMAScript: what `trim` and `\s` take.
unfoldable pub is_space : ℕ → Bool
is_space c =
    (leb 9 c && leb c 13)
    || c == 32
    || c == 0xa0
    || c == 0x1680
    || (leb 0x2000 c && leb c 0x200a)
    || c == 0x2028
    || c == 0x2029
    || c == 0x202f
    || c == 0x205f
    || c == 0x3000
    || c == 0xfeff

unfoldable pub trim_start : Text → Text
trim_start [] = []
trim_start (c ∷ s) = if is_space c then trim_start s else c ∷ s

-- A space is dropped when nothing is kept behind it.
abbrev pub drop_space : ℕ → Text → Text
drop_space c [] = if is_space c then [] else c ∷ []
drop_space c (d ∷ s) = c ∷ d ∷ s

unfoldable pub trim_end : Text → Text
trim_end [] = []
trim_end (c ∷ s) = drop_space c (trim_end s)

unfoldable pub trim : Text → Text
unfolding trim_start trim_end is_space
trim s = trim_end (trim_start s)

-- `s.split(sep)` for a separator of one code unit: never empty.
abbrev pub split_step : ℕ → ℕ → List Text → List Text
split_step sep c [] = (c ∷ []) ∷ []
split_step sep c (w ∷ ws) = if c == sep then [] ∷ w ∷ ws else (c ∷ w) ∷ ws

unfoldable pub split : ℕ → Text → List Text
split sep [] = [] ∷ []
split sep (c ∷ s) = split_step sep c (split sep s)

-- `ws.join(sep)`
unfoldable pub join : Text → List Text → Text
join sep [] = []
join sep (w ∷ []) = w
join sep (w ∷ v ∷ ws) = w ++ (sep ++ join sep (v ∷ ws))

-- `s.indexOf(c)`, with `none` for -1
unfoldable pub index_of : ℕ → Text → Option ℕ
index_of c [] = none
index_of c (d ∷ s) =
    if d == c then some 0 else elim (index_of c s) [ none ↦ none | some i ↦ some (suc i) ]

-- The parts of a string before and behind the first `c`: `s.slice(0, s.indexOf(c))` and
-- `s.slice(s.indexOf(c) + 1)`. `none` when there is no `c`.
unfoldable pub cut : ℕ → Text → Option (Text × Text)
cut c [] = none
cut c (d ∷ s) =
    if d == c then some ([], s) else elim (cut c s) [ none ↦ none | some (a, b) ↦ some (d ∷ a, b) ]

-- `s.startsWith(prefix)` with the rest, `s.slice(prefix.length)`
unfoldable pub strip_prefix : Text → Text → Option Text
strip_prefix [] s = some s
strip_prefix (p ∷ ps) [] = none
strip_prefix (p ∷ ps) (c ∷ s) = if p == c then strip_prefix ps s else none

-- `toLowerCase` on ASCII letters
unfoldable pub to_lower : Text → Text
to_lower s = map (λ c. if leb 65 c && leb c 90 then c + 32 else c) s

-- `s.replaceAll(from, to)` for one code unit each
unfoldable pub replace_all : ℕ → ℕ → Text → Text
replace_all from to s = map (λ c. if c == from then to else c) s

-- `set.has(s)`, `xs.includes(s)`
unfoldable pub has : List Text → Text → Bool
has [] s = false
has (x ∷ xs) s = text_eq x s || has xs s

abbrev pub Lacks : ℕ → Text → Type 0
Lacks c = All (λ d. d ≢ c)

-- `.map((s) => s.trim()).filter(Boolean)`
unfoldable pub trim_all : List Text → List Text
unfolding trim keep
trim_all xs = keep truthy (map trim xs)

-- `s?.trim() || undefined`
unfoldable pub trimmed : Option Text → Option Text
unfolding trim
trimmed none = none
trimmed (some s) = nonempty (trim s)

abbrev is_some : Option Text → Bool
is_some none = false
is_some (some rest) = true

-- `s.startsWith(prefix)`
unfoldable pub starts_with : Text → Text → Bool
unfolding strip_prefix
starts_with prefix s = is_some (strip_prefix prefix s)

-- `s.includes(part)`
unfoldable pub includes : Text → Text → Bool
unfolding starts_with
includes part [] = starts_with part []
includes part (c ∷ s) = starts_with part (c ∷ s) || includes part s

-- `s.slice(s.lastIndexOf(c) + 1)`, which is `s` when there is no `c`
unfoldable pub after_last : ℕ → Text → Text
unfolding cut
after_last c [] = []
after_last c (d ∷ s) =
    let rest = after_last c s in
    elim (cut c (d ∷ s)) [ none ↦ d ∷ s | some _ ↦ elim (cut c s) [ none ↦ s | some _ ↦ rest ] ]
