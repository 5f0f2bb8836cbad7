-- ===== src/Snapshots/Names/Labels.antt =====
-- The names that `dnsLabel` makes, as DNS labels.
use kmc.Common.{
  ℕ, zero, suc, ◌≤◌, ◌≡◌, ◌≢◌, refl, sym, ap, subst, true, [], ◌∷◌, ◌++◌, arith, length, take, All,
  Text, codes, to_lower,
}
use kmc.Snapshots.Names.{
  is_label_char, dash_others, squeeze_dashes, dash_before, drop_dashes, drop_dash, drop_end_dashes,
  cut_label, cleaned, or_fallback, dns_label, sched, stem_of, snapshot_schedule_object_names,
  ObjectNames,
}

-- Text in the characters of a label.
abbrev pub AllLabelChars : Text → Type 0
AllLabelChars = All (λ c. is_label_char c ≡ true)

-- No dash at the start.
abbrev pub Starts : Text → Type 0
Starts [] = Unit
Starts (c ∷ s) = c ≢ b'-'

-- No dash at the end.
abbrev pub Ends : Text → Type 0
Ends [] = Unit
Ends (c ∷ []) = c ≢ b'-'
Ends (c ∷ d ∷ s) = Ends (d ∷ s)

-- Text of at most `n` characters of a label, without a dash at either end.
pub record IsWithin (n : ℕ) (s : Text) : Type 0 where
  pub chars : AllLabelChars s
  pub starts : Starts s
  pub ends : Ends s
  pub short : length s ≤ n

-- A DNS label: 1 to 63 characters, a letter or a digit at both ends, and dashes in between.
pub record IsDnsLabel (s : Text) : Type 0 where
  pub within : IsWithin 63 s
  pub some_char : 1 ≤ length s

dash_others-AllLabelChars : (s : Text) → AllLabelChars (dash_others s)
unfolding dash_others is_label_char
dash_others-AllLabelChars [] = tt
dash_others-AllLabelChars (c ∷ s) = (ground arith, dash_others-AllLabelChars s)

dash_before-AllLabelChars :
    (c : ℕ) (s : Text) → is_label_char c ≡ true → AllLabelChars s → AllLabelChars (dash_before c s)
unfolding dash_before
dash_before-AllLabelChars c [] p h = (p, tt)
dash_before-AllLabelChars c (d ∷ s) p h = ground arith

squeeze_dashes-AllLabelChars : (s : Text) → AllLabelChars s → AllLabelChars (squeeze_dashes s)
unfolding squeeze_dashes
squeeze_dashes-AllLabelChars [] h = tt
squeeze_dashes-AllLabelChars (c ∷ s) (p, h) =
    dash_before-AllLabelChars c (squeeze_dashes s) p (squeeze_dashes-AllLabelChars s h)

drop_dashes-AllLabelChars : (s : Text) → AllLabelChars s → AllLabelChars (drop_dashes s)
unfolding drop_dashes
drop_dashes-AllLabelChars [] h = tt
drop_dashes-AllLabelChars (c ∷ s) (p, h) = ground (arith, drop_dashes-AllLabelChars s h)

drop_dash-AllLabelChars :
    (c : ℕ) (s : Text) → is_label_char c ≡ true → AllLabelChars s → AllLabelChars (drop_dash c s)
unfolding drop_dash
drop_dash-AllLabelChars c [] p h = ground arith
drop_dash-AllLabelChars c (d ∷ s) p h = (p, h)

drop_end_dashes-AllLabelChars : (s : Text) → AllLabelChars s → AllLabelChars (drop_end_dashes s)
unfolding drop_end_dashes
drop_end_dashes-AllLabelChars [] h = tt
drop_end_dashes-AllLabelChars (c ∷ s) (p, h) =
    drop_dash-AllLabelChars c (drop_end_dashes s) p (drop_end_dashes-AllLabelChars s h)

take-AllLabelChars : (n : ℕ) (s : Text) → AllLabelChars s → AllLabelChars (take n s)
take-AllLabelChars zero s h = tt
take-AllLabelChars (suc n) [] h = tt
take-AllLabelChars (suc n) (c ∷ s) (p, h) = (p, take-AllLabelChars n s h)

drop_dashes-Starts : (s : Text) → Starts (drop_dashes s)
unfolding drop_dashes
drop_dashes-Starts [] = tt
drop_dashes-Starts (c ∷ s) = ground (arith, drop_dashes-Starts s)

take-Starts : (n : ℕ) (s : Text) → Starts s → Starts (take n s)
take-Starts zero s h = tt
take-Starts (suc n) [] h = tt
take-Starts (suc n) (c ∷ s) h = h

drop_dash-Starts : (c : ℕ) (s : Text) → c ≢ b'-' → Starts (drop_dash c s)
unfolding drop_dash
drop_dash-Starts c [] h = ground arith
drop_dash-Starts c (d ∷ s) h = h

drop_end_dashes-Starts : (s : Text) → Starts s → Starts (drop_end_dashes s)
unfolding drop_end_dashes
drop_end_dashes-Starts [] h = tt
drop_end_dashes-Starts (c ∷ s) h = drop_dash-Starts c (drop_end_dashes s) h

drop_dash-Ends : (c : ℕ) (s : Text) → Ends s → Ends (drop_dash c s)
unfolding drop_dash
drop_dash-Ends c [] h = ground arith
drop_dash-Ends c (d ∷ s) h = h

drop_end_dashes-Ends : (s : Text) → Ends (drop_end_dashes s)
unfolding drop_end_dashes
drop_end_dashes-Ends [] = tt
drop_end_dashes-Ends (c ∷ s) = drop_dash-Ends c (drop_end_dashes s) (drop_end_dashes-Ends s)

drop_dash-length : (c : ℕ) (s : Text) → length (drop_dash c s) ≤ suc (length s)
unfolding drop_dash
drop_dash-length c [] = ground arith
drop_dash-length c (d ∷ s) = omega arith

drop_end_dashes-length : (s : Text) → length (drop_end_dashes s) ≤ length s
unfolding drop_end_dashes
drop_end_dashes-length [] = omega arith
drop_end_dashes-length (c ∷ s) =
    omega (arith, drop_dash-length c (drop_end_dashes s), drop_end_dashes-length s)

take-length : (n : ℕ) (s : Text) → length (take n s) ≤ n
take-length zero s = omega arith
take-length (suc n) [] = omega arith
take-length (suc n) (c ∷ s) = omega (arith, take-length n s)

-- What is cut from text in the characters of a label that starts with no dash.
cut_label-IsWithin : (n : ℕ) (s : Text) → AllLabelChars s → Starts s → IsWithin n (cut_label n s)
unfolding cut_label
cut_label-IsWithin n s chars starts = record {
  chars = drop_end_dashes-AllLabelChars (take n s) (take-AllLabelChars n s chars);
  starts = drop_end_dashes-Starts (take n s) (take-Starts n s starts);
  ends = drop_end_dashes-Ends (take n s);
  short = omega (arith, drop_end_dashes-length (take n s), take-length n s);
}

drop_dash-ne : (c : ℕ) (s : Text) → c ≢ b'-' → 1 ≤ length (drop_dash c s)
unfolding drop_dash
drop_dash-ne c [] h = ground arith
drop_dash-ne c (d ∷ s) h = omega arith

cut_label-ne : (n : ℕ) (s : Text) → Starts s → 1 ≤ length s → 1 ≤ length (cut_label (suc n) s)
unfolding cut_label drop_end_dashes
cut_label-ne n [] h some_char = absurd (omega arith)
cut_label-ne n (c ∷ s) h some_char = drop_dash-ne c (drop_end_dashes (take n s)) h

-- A label cut to `n` characters, at least one and at most 63, is a label of as many.
cut_label-IsDnsLabel :
    (n : ℕ) (s : Text)
    → suc n ≤ 63
    → IsDnsLabel s
    → IsDnsLabel (cut_label (suc n) s) × (length (cut_label (suc n) s) ≤ suc n)
cut_label-IsDnsLabel n s le l =
    let w = cut_label-IsWithin (suc n) s l.within.chars l.within.starts in
    (
      record {
        within = record {
          chars = w.chars;
          starts = w.starts;
          ends = w.ends;
          short = omega (arith, w.short);
        };
        some_char = cut_label-ne n s l.within.starts l.some_char;
      },
      w.short,
    )

take-all : (n : ℕ) (s : Text) → length s ≤ n → take n s ≡ s
take-all zero [] h = refl
take-all zero (c ∷ s) h = absurd (omega arith)
take-all (suc n) [] h = refl
take-all (suc n) (c ∷ s) h = ap (λ r. c ∷ r) (take-all n s (omega arith))

cleaned-AllLabelChars : (raw : Text) → AllLabelChars (cleaned raw)
unfolding cleaned
cleaned-AllLabelChars raw =
    let dashed = dash_others (to_lower raw) in
    let squeezed = squeeze_dashes dashed in
    drop_end_dashes-AllLabelChars (drop_dashes squeezed) (
      drop_dashes-AllLabelChars squeezed
        (squeeze_dashes-AllLabelChars dashed (dash_others-AllLabelChars (to_lower raw))))

cleaned-Starts : (raw : Text) → Starts (cleaned raw)
unfolding cleaned
cleaned-Starts raw =
    let squeezed = squeeze_dashes (dash_others (to_lower raw)) in
    drop_end_dashes-Starts (drop_dashes squeezed) (drop_dashes-Starts squeezed)

or_fallback-IsDnsLabel :
    (s fallback : Text) → IsWithin 63 s → IsDnsLabel fallback → IsDnsLabel (or_fallback s fallback)
or_fallback-IsDnsLabel [] fallback w l = l
or_fallback-IsDnsLabel (c ∷ s) fallback w l = record { within = w; some_char = omega arith }

-- `dnsLabel` makes a DNS label of any text, when what stands for an empty label is one.
pub dns_label-IsDnsLabel :
    (fallback raw : Text) → IsDnsLabel fallback → IsDnsLabel (dns_label fallback raw)
unfolding dns_label
dns_label-IsDnsLabel fallback raw l =
    or_fallback-IsDnsLabel (cut_label 63 (cleaned raw)) fallback
      (cut_label-IsWithin 63 (cleaned raw) (cleaned-AllLabelChars raw) (cleaned-Starts raw)) l

pub sched-IsDnsLabel : IsDnsLabel sched
unfolding is_label_char
sched-IsDnsLabel = record {
  within = record {
    chars = (refl, (refl, (refl, (refl, (refl, tt)))));
    starts = ground arith;
    ends = ground arith;
    short = omega arith;
  };
  some_char = omega arith;
}

-- Names for the objects of a schedule: DNS labels, the CronJob's of at most 52 characters.
pub record AreObjectNames (names : ObjectNames) : Type 0 where
  pub config_map : IsDnsLabel names.config_map
  pub cron_job : IsDnsLabel names.cron_job
  pub cron_job_short : length names.cron_job ≤ 52
  pub service_account : IsDnsLabel names.service_account
  pub role : IsDnsLabel names.role

-- The ConfigMap, the CronJob, the ServiceAccount and the Role of a schedule have names that are DNS
-- labels, whatever the machine's name is, and the CronJob's name has at most 52 characters.
pub snapshot_schedule_object_names-AreObjectNames :
    (vm_name : Text) → AreObjectNames (snapshot_schedule_object_names vm_name)
unfolding snapshot_schedule_object_names
snapshot_schedule_object_names-AreObjectNames vm_name =
    let stem = stem_of vm_name in
    let label = dns_label sched (codes "kmc-snap-" ++ stem) in
    let l = dns_label-IsDnsLabel sched (codes "kmc-snap-" ++ stem) sched-IsDnsLabel in
    let (job, short) = cut_label-IsDnsLabel 51 label (omega arith) l in
    let account = subst IsDnsLabel (sym (take-all 63 label l.within.short)) l in
    record {
      config_map = dns_label-IsDnsLabel sched (codes "kmc-snap-sched-" ++ stem) sched-IsDnsLabel;
      cron_job = job;
      cron_job_short = short;
      service_account = account;
      role = account;
    }
