-- ===== src/Ipam/Cidr/FirstFree.antt =====
-- The search for a free address.
use kmc.Common.{
  ℕ, zero, suc, ◌+◌, ◌-◌, ◌≤◌, ◌<◌, ◌≡◌, refl, ◌⊎◌, inl, inr, true, false, ◌||◌, Option, none, some,
  List, arith, Bool-cases, Text, has,
}
use kmc.Ipam.Cidr.{HostRange, format_ipv4, first_free_from, first_free_ipv4}

-- An address that neither set holds.
pub record IsFree (used exclude : List Text) (ip : Text) : Type 0 where
  pub unused : has used ip ≡ false
  pub allowed : has exclude ip ≡ false

abbrev pub IsTaken : List Text → List Text → Text → Type 0
IsTaken used exclude ip = (has used ip || has exclude ip) ≡ true

-- `ip` is the text of the least free number from `start` to `end`.
pub record IsFirstFree (start end : ℕ) (used exclude : List Text) (ip : Text) : Type 0 where
  pub number : ℕ
  pub low : start ≤ number
  pub high : number ≤ end
  pub text : ip ≡ format_ipv4 number
  pub free : IsFree used exclude ip
  pub least : (m : ℕ) → start ≤ m → m < number → IsTaken used exclude (format_ipv4 m)

le-cases : (n m : ℕ) → n ≤ m → (m ≡ n) ⊎ (n + 1 ≤ m)
le-cases n m h = grind arith

module _ (used exclude : List Text) where
  -- What the search returns, for each outcome.
  abbrev pub Found : ℕ → ℕ → Option Text → Type 0
  Found start end none = (m : ℕ) → start ≤ m → m ≤ end → IsTaken used exclude (format_ipv4 m)
  Found start end (some ip) = IsFirstFree start end used exclude ip

  extend :
      (n end : ℕ) (r : Option Text)
      → IsTaken used exclude (format_ipv4 n)
      → Found (n + 1) end r
      → Found n end r
  extend n end none taken f =
      λ m p q. elim (le-cases n m p) [ inl same ↦ ground arith | inr later ↦ f m later q ]
  extend n end (some ip) taken f = record {
    number = f.number;
    low = omega (arith, f.low);
    high = f.high;
    text = f.text;
    free = f.free;
    least =
        λ m p q. elim (le-cases n m p) [ inl same ↦ ground arith | inr later ↦ f.least m later q ];
  }

  first_free_from-Found :
      (rounds n end : ℕ)
      → n + rounds ≡ end + 1
      → Found n end (first_free_from rounds n used exclude)
  unfolding first_free_from
  first_free_from-Found zero n end e = λ m p q. absurd (omega arith)
  first_free_from-Found (suc k) n end e =
      elim (Bool-cases (has used (format_ipv4 n) || has exclude (format_ipv4 n))) [
        | inl taken ↦ rw taken (
            extend n end (first_free_from k (n + 1) used exclude) taken
              (first_free_from-Found k (n + 1) end (omega arith)))
        | inr free ↦ rw free (record {
          number = n;
          low = omega arith;
          high = omega arith;
          text = refl;
          free = record { unused = ground arith; allowed = ground arith };
          least = λ m p q. absurd (omega arith);
        })
      ]

-- The search returns the least address of the window that neither set holds, and fails only when
-- every address of the window is held by one of the sets.
pub first_free_ipv4-Found :
    (r : HostRange) (used exclude : List Text)
    → r.start ≤ r.end
    → Found used exclude r.start r.end (first_free_ipv4 r used exclude)
unfolding first_free_ipv4
first_free_ipv4-Found r used exclude h =
    first_free_from-Found used exclude (r.end + 1 - r.start) r.start r.end (omega arith)
