-- ===== src/Backends/Membership/Selection.antt =====
-- What a selector matches, and what the form's text parses to.
use kmc.Common.{
  ◌≡◌, ◌≢◌, ◌↔◌, refl, sym, ◌⊎◌, ◌∙◌, subst, inl, inr, true, false, Option, none, some, List, [],
  ◌∷◌, arith, Bool-cases, Result, ok, err, ok_injective, Text, All, truthy, trim, trim_all, text_eq,
  text_eq_iff, cut, Labels, lookup, insert, or_else,
}
use mathlib.Core.Bool.{false≢true}
use kmc.Backends.Membership.{
  holds, all_match, labels_match_selector, LabelError, has_space, parse_label, label_parts,
  checked_label, parse_labels, some_labels, parse_match_labels_text, split_lines,
}

err≢ok : (e : LabelError) (m : Labels) → ◌≡◌ {A = Result LabelError Labels} (err e) (ok m) → ⊥
err≢ok e m h = ground arith

-- Each entry of the selector stands in the labels with its value.
abbrev pub Selects : Labels → Labels → Type 0
Selects selector ls = All (λ e. lookup e.0 ls ≡ some e.1) selector

holds_iff : (o : Option Text) (v : Text) → (holds o v ≡ true) ↔ (o ≡ some v)
unfolding holds
holds_iff none v = ground arith
holds_iff (some w) v = ground (arith, text_eq_iff w v)

all_match_iff : (ls selector : Labels) → (all_match ls selector ≡ true) ↔ Selects selector ls
unfolding all_match
all_match_iff ls [] = (λ _. tt, λ _. refl)
all_match_iff ls ((k, v) ∷ m) = ground (arith, all_match_iff ls m, holds_iff (lookup k ls) v)

-- A selector matches labels exactly when it is not empty and each of its entries is a label.
pub labels_match_selector_iff :
    (ls : Option Labels) (selector : Labels)
    → (labels_match_selector ls selector ≡ true)
      ↔ ((selector ≢ []) × Selects selector (or_else ls []))
unfolding labels_match_selector
labels_match_selector_iff ls [] = (λ h. absurd (false≢true h), λ (ne, _). absurd (ne refl))
labels_match_selector_iff ls (e ∷ m) =
    let both = all_match_iff (or_else ls []) (e ∷ m) in
    (λ h. (λ eq. cc, both.0 h), λ (_, s). both.1 s)

-- An entry that the form accepts.
abbrev pub IsLabel : Text × Text → Type 0
IsLabel e = (truthy e.0 ≡ true) × (has_space e.0 ≡ false) × (truthy e.1 ≡ true)

checked_label-IsLabel :
    (part k v : Text) (e : Text × Text) → checked_label part k v ≡ ok e → IsLabel e
unfolding checked_label
checked_label-IsLabel part [] v e h = cc
checked_label-IsLabel part (c ∷ k) [] e h = cc
checked_label-IsLabel part (c ∷ k) (d ∷ v) e h = elim (Bool-cases (has_space (c ∷ k))) [
  | inl bad ↦ ground arith
  | inr good ↦ subst IsLabel (ok_injective {E = LabelError} (rw good at h)) (refl, good, refl)
]

label_parts-IsLabel :
    (part : Text) (o : Option (Text × Text)) (e : Text × Text)
    → label_parts part o ≡ ok e
    → IsLabel e
unfolding label_parts
label_parts-IsLabel part none e h = cc
label_parts-IsLabel part (some ([], v)) e h = cc
label_parts-IsLabel part (some (c ∷ k, v)) e h =
    checked_label-IsLabel part (trim (c ∷ k)) (trim v) e h

insert-IsLabel :
    (k v : Text) (m : Labels) → IsLabel (k, v) → All IsLabel m → All IsLabel (insert k v m)
unfolding insert
insert-IsLabel k v [] p h = (p, tt)
insert-IsLabel k v ((j, w) ∷ m) p (q, h) = elim (Bool-cases (text_eq j k)) [
  | inl same ↦ rw same (p, h)
  | inr other ↦ rw other (q, insert-IsLabel k v m p h)
]

parse_labels-ok :
    (k v part : Text) (m : Labels) (parts : List Text)
    → parse_label part ≡ ok (k, v)
    → parse_labels m (part ∷ parts) ≡ parse_labels (insert k v m) parts
unfolding parse_labels
parse_labels-ok k v part m parts h = rw (h, parse_labels)

parse_labels-err :
    (part : Text) (m : Labels) (parts : List Text) (e : LabelError)
    → parse_label part ≡ err e
    → parse_labels m (part ∷ parts) ≡ err e
unfolding parse_labels
parse_labels-err part m parts e h = rw (h, parse_labels)

parse_label-IsLabel : (part : Text) (e : Text × Text) → parse_label part ≡ ok e → IsLabel e
unfolding parse_label
parse_label-IsLabel part e h = label_parts-IsLabel part (cut b'=' part) e h

parse_label-cases :
    (r : Result LabelError (Text × Text))
    → ((e : LabelError) × (r ≡ err e)) ⊎ ((k : Text) × (v : Text) × (r ≡ ok (k, v)))
parse_label-cases (err e) = inl (e, refl)
parse_label-cases (ok (k, v)) = inr (k, v, refl)

parse_labels-IsLabel :
    (m : Labels) (parts : List Text) (r : Labels)
    → All IsLabel m
    → parse_labels m parts ≡ ok r
    → All IsLabel r
unfolding parse_labels
parse_labels-IsLabel m [] r h e = subst (All IsLabel) (ok_injective e) h
parse_labels-IsLabel m (part ∷ parts) r h e = elim (parse_label-cases (parse_label part)) [
  | inl (x, bad) ↦ absurd (err≢ok x r (sym (parse_labels-err part m parts x bad) ∙ e))
  | inr (k, v, good) ↦
      parse_labels-IsLabel (insert k v m) parts r
        (insert-IsLabel k v m (parse_label-IsLabel part (k, v) good) h)
        (sym (parse_labels-ok k v part m parts good) ∙ e)
]

checked_labels :
    (r : Result LabelError Labels) (m : Labels)
    → elim r [ err e ↦ err e | ok m' ↦ some_labels m' ] ≡ ok m
    → (r ≡ ok m) × (m ≢ [])
unfolding some_labels
checked_labels (err e) m h = absurd (err≢ok e m h)
checked_labels (ok []) m h = absurd (err≢ok _ m h)
checked_labels (ok (e ∷ r)) m h = (h, λ eq. ground arith)

-- Text that the form accepts gives at least one label, and each has a key without white space and
-- a value, neither empty.
pub parse_match_labels_text-IsLabel :
    (text : Text) (m : Labels) → parse_match_labels_text text ≡ ok m → (m ≢ []) × All IsLabel m
unfolding parse_match_labels_text
parse_match_labels_text-IsLabel text m h =
    let (parsed, ne) = checked_labels (parse_labels [] (trim_all (split_lines text))) m h in
    (ne, parse_labels-IsLabel [] (trim_all (split_lines text)) m tt parsed)
