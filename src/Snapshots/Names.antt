-- ===== src/Snapshots/Names.antt =====
-- Names of snapshots and of the objects of a schedule: `dnsLabel` of
-- console/app/snapshots/snapshots.server.ts and of console/app/snapshots/schedules.server.ts, which
-- differ in what they put for an empty label, and the names that are built with it.
pub mod Labels
use kmc.Common.{
  ℕ, Bool, true, ◌&&◌, ◌||◌, List, [], ◌∷◌, ◌++◌, map, leb, ◌==◌, if◌then◌else◌, take, Text, codes,
  is_digit, to_lower, trim,
}

-- `[a-z0-9-]`
unfoldable pub is_label_char : ℕ → Bool
is_label_char c = (leb b'a' c && leb c b'z') || is_digit c || c == b'-'

-- `.replace(/[^a-z0-9-]/g, "-")`
unfoldable pub dash_others : Text → Text
unfolding is_label_char
dash_others s = map (λ c. if is_label_char c then c else b'-') s

dash_before : ℕ → Text → Text
dash_before c [] = c ∷ []
dash_before c (d ∷ s) = if c == b'-' && d == b'-' then d ∷ s else c ∷ d ∷ s

-- `.replace(/-+/g, "-")`
unfoldable pub squeeze_dashes : Text → Text
unfolding dash_before
squeeze_dashes [] = []
squeeze_dashes (c ∷ s) = dash_before c (squeeze_dashes s)

-- `.replace(/^-+/, "")`
unfoldable pub drop_dashes : Text → Text
drop_dashes [] = []
drop_dashes (c ∷ s) = if c == b'-' then drop_dashes s else c ∷ s

-- A dash is dropped when nothing is kept behind it.
drop_dash : ℕ → Text → Text
drop_dash c [] = if c == b'-' then [] else c ∷ []
drop_dash c (d ∷ s) = c ∷ d ∷ s

-- `.replace(/-+$/g, "")`
unfoldable pub drop_end_dashes : Text → Text
unfolding drop_dash
drop_end_dashes [] = []
drop_end_dashes (c ∷ s) = drop_dash c (drop_end_dashes s)

-- `s || fallback`
abbrev pub or_fallback : Text → Text → Text
or_fallback [] fallback = fallback
or_fallback (c ∷ s) fallback = c ∷ s

-- `s.slice(0, n).replace(/-+$/g, "")`
unfoldable pub cut_label : ℕ → Text → Text
unfolding drop_end_dashes
cut_label n s = drop_end_dashes (take n s)

unfoldable pub cleaned : Text → Text
unfolding to_lower dash_others squeeze_dashes drop_dashes drop_end_dashes
cleaned raw = drop_end_dashes (drop_dashes (squeeze_dashes (dash_others (to_lower raw))))

unfoldable pub dns_label : Text → Text → Text
unfolding cleaned cut_label
dns_label fallback raw = or_fallback (cut_label 63 (cleaned raw)) fallback

abbrev pub snap : Text
snap = codes "snap"

abbrev pub sched : Text
sched = codes "sched"

-- `suffix` is the time of the call, printed by `timeSuffix`.
unfoldable pub default_snapshot_name : Text → Text → Text
unfolding dns_label cut_label
default_snapshot_name suffix vm_name =
    let base = or_fallback (cut_label 40 (dns_label snap vm_name)) (codes "vm") in
    dns_label snap (base ++ b'-' ∷ suffix)

unfoldable pub default_restore_name : Text → Text → Text
unfolding dns_label cut_label
default_restore_name suffix vm_name =
    let base = or_fallback (cut_label 32 (dns_label snap vm_name)) (codes "vm") in
    dns_label snap (codes "restore-" ++ (base ++ b'-' ∷ suffix))

pub record ObjectNames : Type 0 where
  pub config_map : Text
  pub cron_job : Text
  pub service_account : Text
  pub role : Text

unfoldable pub stem_of : Text → Text
unfolding dns_label cut_label
stem_of vm_name = or_fallback (cut_label 40 (dns_label sched vm_name)) (codes "vm")

unfoldable pub snapshot_schedule_object_names : Text → ObjectNames
unfolding stem_of dns_label cut_label
snapshot_schedule_object_names vm_name =
    let stem = stem_of vm_name in
    let label = dns_label sched (codes "kmc-snap-" ++ stem) in
    let sa = take 63 label in
    record {
      config_map = dns_label sched (codes "kmc-snap-sched-" ++ stem);
      cron_job = cut_label 52 label;
      service_account = sa;
      role = sa;
    }
