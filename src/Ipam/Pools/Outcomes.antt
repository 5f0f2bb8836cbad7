-- ===== src/Ipam/Pools/Outcomes.antt =====
-- The outcomes of the allocation loop, in pools.server.ts.
use kmc.Common.{
  ℕ, zero, suc, ◌+◌, ◌≤◌, ◌<◌, ◌≡◌, ◌⊎◌, inl, inr, refl, sym, ap, subst, true, false, Option, none,
  some, Option-cases, Bool-cases, List, ◌∷◌, arith, Result, ok, err, Text, has, text_eq_iff,
}
use kmc.Errors.{ErrorValue}
use kmc.Ipam.Cidr.{format_ipv4, first_free_ipv4}
use kmc.Ipam.Cidr.FirstFree.{IsTaken, IsFirstFree, Found, first_free_ipv4-Found}
use kmc.Ipam.Config.{IpPoolConfig}
use kmc.Ipam.Status.{is_ip_address_already_exists}
use kmc.Ipam.Claims.{ClaimBody}
use kmc.Ipam.Pools.{
  PoolError, namespace_required, bad_cidr, gateway_outside, preferred_outside,
  preferred_not_in_window, preferred_in_use, preferred_reserved, exhausted, too_many_conflicts,
  claim_failed, AllocatedIp, ValidPool, AllocateOpts, build_allocated_ip, claim_address,
  allocate_loop,
}

module _ (reply : ℕ → ClaimBody → Option ErrorValue) (pool : IpPoolConfig) (ns : Text)
    (valid : ValidPool) (opts : AllocateOpts) where
  abbrev attempt : ℕ → Text → Result ErrorValue (Unit {0})
  attempt n address = claim_address reply n ns pool valid.parsed opts address

  -- The n-th create call named `address`, and the API answered that the claim exists.
  pub record IsConflict (n : ℕ) (address : Text) : Type 0 where
    pub error : ErrorValue
    pub answered : attempt n address ≡ err error
    pub already_exists : is_ip_address_already_exists error ≡ true

  -- The allocation holds an address of the window that neither set held, and whose claim the API
  -- created in the attempt `at`.
  pub record IsLeased (from to : ℕ) (used : List Text) (a : AllocatedIp) : Type 0 where
    pub at : ℕ
    pub number : ℕ
    pub not_before : from ≤ at
    pub in_time : at < to
    pub low : valid.range.start ≤ number
    pub high : number ≤ valid.range.end
    pub unused : has used (format_ipv4 number) ≡ false
    pub allowed : has valid.exclude (format_ipv4 number) ≡ false
    pub created : attempt at (format_ipv4 number) ≡ ok tt
    pub result : a ≡ build_allocated_ip pool valid.parsed (format_ipv4 number) opts

  -- Each address of the window is taken, or was found to be claimed.
  abbrev pub IsExhausted : ℕ → ℕ → List Text → Type 0
  IsExhausted from to used =
      (m : ℕ)
      → valid.range.start ≤ m
      → m ≤ valid.range.end
      → IsTaken used valid.exclude (format_ipv4 m)
        ⊎ ((k : ℕ) × (from ≤ k) × (k < to) × IsConflict k (format_ipv4 m))

  -- Every attempt met a conflict.
  abbrev pub IsConflicted : ℕ → ℕ → Type 0
  IsConflicted from to = (k : ℕ) → from ≤ k → k < to → (address : Text) × IsConflict k address

  pub record IsRefused (from to : ℕ) (e : ErrorValue) : Type 0 where
    pub at : ℕ
    pub address : Text
    pub not_before : from ≤ at
    pub in_time : at < to
    pub answered : attempt at address ≡ err e
    pub other_error : is_ip_address_already_exists e ≡ false

  abbrev pub Outcome : ℕ → ℕ → List Text → Result PoolError AllocatedIp → Type 0
  Outcome from to used (ok a) = IsLeased from to used a
  Outcome from to used (err (exhausted id)) = (id ≡ pool.id) × IsExhausted from to used
  Outcome from to used (err (too_many_conflicts id)) = (id ≡ pool.id) × IsConflicted from to
  Outcome from to used (err (claim_failed e)) = IsRefused from to e
  Outcome from to used (err namespace_required) = ⊥
  Outcome from to used (err (bad_cidr e)) = ⊥
  Outcome from to used (err (gateway_outside t)) = ⊥
  Outcome from to used (err (preferred_outside t)) = ⊥
  Outcome from to used (err (preferred_not_in_window t)) = ⊥
  Outcome from to used (err (preferred_in_use t)) = ⊥
  Outcome from to used (err (preferred_reserved t)) = ⊥

  has-cons_false : (x s : Text) (set : List Text) → has (x ∷ set) s ≡ false → has set s ≡ false
  unfolding has
  has-cons_false x s set h = ground arith

  before-IsTaken :
      (address s : Text) (used : List Text)
      → IsTaken (address ∷ used) valid.exclude s
      → IsTaken used valid.exclude s ⊎ (address ≡ s)
  unfolding has
  before-IsTaken address s used h = ground (arith, text_eq_iff address s)

  -- One conflict more at the front.
  module _ (n to : ℕ) (address : Text) (used : List Text) (now : n < to)
      (c : IsConflict n address) where
    conflict_first :
        (r : Result PoolError AllocatedIp)
        → Outcome (suc n) to (address ∷ used) r
        → Outcome n to used r
    conflict_first (ok a) o = record {
      at = o.at;
      number = o.number;
      not_before = omega (arith, o.not_before);
      in_time = o.in_time;
      low = o.low;
      high = o.high;
      unused = has-cons_false address _ used o.unused;
      allowed = o.allowed;
      created = o.created;
      result = o.result;
    }
    conflict_first (err (exhausted id)) (same, o) = (
      same,
      λ m p q. elim (o m p q) [
        | inr (k, f, t, x) ↦ inr (k, omega arith, t, x)
        | inl taken ↦ elim (before-IsTaken address (format_ipv4 m) used taken) [
          | inl before ↦ inl before
          | inr now_taken ↦ inr (n, omega arith, now, rw now_taken at c)
        ]
      ],
    )
    conflict_first (err (too_many_conflicts id)) (same, o) = (
      same,
      λ k p q. elim (from_cases k p) [
        | inl first ↦ (address, rw (sym first) at c)
        | inr later ↦ o k later q
      ],
    )
      where
        from_cases : (k : ℕ) → n ≤ k → (k ≡ n) ⊎ (suc n ≤ k)
        from_cases k p = grind arith
    conflict_first (err (claim_failed e)) o = record {
      at = o.at;
      address = o.address;
      not_before = omega (arith, o.not_before);
      in_time = o.in_time;
      answered = o.answered;
      other_error = o.other_error;
    }
    conflict_first (err namespace_required) o = absurd o
    conflict_first (err (bad_cidr e)) o = absurd o
    conflict_first (err (gateway_outside t)) o = absurd o
    conflict_first (err (preferred_outside t)) o = absurd o
    conflict_first (err (preferred_not_in_window t)) o = absurd o
    conflict_first (err (preferred_in_use t)) o = absurd o
    conflict_first (err (preferred_reserved t)) o = absurd o

  first_free-Found :
      valid.range.start ≤ valid.range.end
      → (used : List Text) (o : Option Text) → first_free_ipv4 valid.range used valid.exclude ≡ o
      → Found used valid.exclude valid.range.start valid.range.end o
  first_free-Found ordered used o e =
      rw (← e) (first_free_ipv4-Found valid.range used valid.exclude ordered)

  -- One round of the loop, by what it meets.
  module _ (rounds n : ℕ) (used : List Text) where
    abbrev loop : Result PoolError AllocatedIp
    loop = allocate_loop reply (suc rounds) n pool ns valid used opts

    abbrev next_free : Option Text
    next_free = first_free_ipv4 valid.range used valid.exclude

    loop-full : next_free ≡ none → loop ≡ err (exhausted pool.id)
    unfolding allocate_loop
    loop-full full = rw (full, allocate_loop)

    loop-created :
        (address : Text)
        → next_free ≡ some address
        → attempt n address ≡ ok tt
        → loop ≡ ok (build_allocated_ip pool valid.parsed address opts)
    unfolding allocate_loop
    loop-created address found created = rw (found, allocate_loop) (rw created)

    loop-conflict :
        (address : Text) (e : ErrorValue)
        → next_free ≡ some address
        → attempt n address ≡ err e
        → is_ip_address_already_exists e ≡ true
        → loop ≡ allocate_loop reply rounds (suc n) pool ns valid (address ∷ used) opts
    unfolding allocate_loop
    loop-conflict address e found answered exists =
        rw (found, allocate_loop) (rw answered (rw exists))

    loop-refused :
        (address : Text) (e : ErrorValue)
        → next_free ≡ some address
        → attempt n address ≡ err e
        → is_ip_address_already_exists e ≡ false
        → loop ≡ err (claim_failed e)
    unfolding allocate_loop
    loop-refused address e found answered other = rw (found, allocate_loop) (rw answered (rw other))

  created_lease :
      (n to : ℕ) (used : List Text) (address : Text)
      → n < to
      → IsFirstFree valid.range.start valid.range.end used valid.exclude address
      → attempt n address ≡ ok tt
      → IsLeased n to used (build_allocated_ip pool valid.parsed address opts)
  created_lease n to used address now f created = record {
    at = n;
    number = f.number;
    not_before = omega arith;
    in_time = now;
    low = f.low;
    high = f.high;
    unused = rw f.text at f.free.unused;
    allowed = rw f.text at f.free.allowed;
    created = rw f.text at created;
    result = ap (λ (t : Text). build_allocated_ip pool valid.parsed t opts) f.text;
  }

  answered-cases :
      (r : Result ErrorValue (Unit {0})) → (r ≡ ok tt) ⊎ ((e : ErrorValue) × (r ≡ err e))
  answered-cases (ok tt) = inl refl
  answered-cases (err e) = inr (e, refl)

  -- In each outcome of the loop: an allocation holds a free address of the window whose claim was
  -- created; exhaustion means that every address of the window is taken or met a conflict; too
  -- many conflicts mean that each attempt met one; and another error is the API's.
  pub allocate_loop-Outcome :
      valid.range.start ≤ valid.range.end
      → (rounds n to : ℕ) (used : List Text) → n + rounds ≡ to
      → Outcome n to used (allocate_loop reply rounds n pool ns valid used opts)
  unfolding allocate_loop
  allocate_loop-Outcome ordered zero n to used e = (refl, λ k p q. absurd (omega arith))
  allocate_loop-Outcome ordered (suc rounds) n to used e =
      let later = λ (address : Text).
        allocate_loop-Outcome ordered rounds (suc n) to (address ∷ used) (omega arith) in
      elim (Option-cases (first_free_ipv4 valid.range used valid.exclude)) [
        | inl full ↦
            subst (Outcome n to used) (sym (loop-full rounds n used full))
              (refl, λ m p q. inl (first_free-Found ordered used none full m p q))
        | inr (address, found) ↦
            let f = first_free-Found ordered used (some address) found in
            elim (answered-cases (attempt n address)) [
              | inl created ↦
                  subst (Outcome n to used) (sym (loop-created rounds n used address found created))
                    (created_lease n to used address (omega arith) f created)
              | inr (e', answered) ↦ elim (Bool-cases (is_ip_address_already_exists e')) [
                | inl exists ↦
                    subst (Outcome n to used)
                      (sym (loop-conflict rounds n used address e' found answered exists))
                      (conflict_first n to address used (omega arith)
                        (record { error = e'; answered = answered; already_exists = exists }) _
                        (later address))
                | inr other ↦
                    subst (Outcome n to used)
                      (sym (loop-refused rounds n used address e' found answered other))
                      (record {
                        at = n;
                        address = address;
                        not_before = omega arith;
                        in_time = omega arith;
                        answered = answered;
                        other_error = other;
                      })
              ]
            ]
      ]
