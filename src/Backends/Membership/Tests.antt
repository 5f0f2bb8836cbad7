-- ===== src/Backends/Membership/Tests.antt =====
-- Runs of membership.ts, and instances of its theorems.
use kmc.Common.{
  ◌≡◌, ◌≢◌, ◌↔◌, refl, true, Option, none, some, [], ◌∷◌, arith, ok, err, All, Text, codes, text_eq,
  Labels, lookup,
}
use kmc.Backends.Membership.{
  labels, group, known, membership_labels, membership_annotations, membership_from_service_meta,
  labels_match_selector, group_membership, parse_match_labels_text, not_key_value, spaces_in_key,
  no_labels,
}
use kmc.Backends.Membership.RoundTrip.{membership_from_service_meta-membership}
use kmc.Backends.Membership.Selection.{
  Selects, IsLabel, labels_match_selector_iff, parse_match_labels_text-IsLabel,
}

abbrev app_labels : Labels
app_labels = (codes "app", codes "web") ∷ (codes "tier", codes "front") ∷ []

text_runs :
    (parse_match_labels_text (codes "app=web,\n tier = front \n") ≡ ok app_labels)
    × (parse_match_labels_text (codes "web") ≡ err (not_key_value (codes "web")))
    × (parse_match_labels_text (codes "a b=c") ≡ err (spaces_in_key (codes "a b")))
    × (parse_match_labels_text (codes " , ") ≡ err no_labels)
unfolding parse_match_labels_text text_eq
text_runs = (refl, refl, refl, refl)

group_run :
    group_membership (codes "g1") (codes "vm-b" ∷ codes " vm-a " ∷ codes "vm-b" ∷ codes "" ∷ [])
    ≡ group (codes "g1") (codes "vm-a" ∷ codes "vm-b" ∷ [])
unfolding group_membership text_eq
group_run = refl

abbrev stringify : Labels → Text
stringify m = codes "{}"

abbrev parse_object : Text → Option Labels
parse_object t = some app_labels

fresh_keys : lookup (codes "tier") ((codes "app", codes "web") ∷ []) ≡ none
unfolding lookup text_eq
fresh_keys = refl

empty_lookup : lookup (codes "app") [] ≡ none
unfolding lookup
empty_lookup = refl

app_labels_ne : app_labels ≢ []
app_labels_ne = λ e. ground arith

membership_from_service_meta-membership_example :
    membership_from_service_meta stringify parse_object
      (some (membership_labels (labels app_labels)))
      (some (membership_annotations stringify parse_object (labels app_labels)))
    ≡ known (labels app_labels)
membership_from_service_meta-membership_example =
    membership_from_service_meta-membership stringify parse_object (labels app_labels)
      (app_labels_ne, (empty_lookup, (fresh_keys, tt))) (refl, refl)

abbrev front_only : Labels
front_only = (codes "tier", codes "front") ∷ []

labels_match_selector_iff_example :
    (labels_match_selector (some app_labels) front_only ≡ true)
    ↔ ((front_only ≢ []) × Selects front_only app_labels)
labels_match_selector_iff_example = labels_match_selector_iff (some app_labels) front_only

parse_match_labels_text-IsLabel_example : (app_labels ≢ []) × All IsLabel app_labels
parse_match_labels_text-IsLabel_example =
    parse_match_labels_text-IsLabel (codes "app=web,\n tier = front \n") app_labels text_runs.0
