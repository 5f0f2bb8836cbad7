-- ===== src/Ipam/Pools/Allocation.antt =====
-- `allocateIpv4ForMultus` as a whole, in pools.server.ts.
use kmc.Common.{
  ℕ, ◌≤◌, ◌<◌, ◌≡◌, ◌⊎◌, inl, inr, refl, sym, ◌∙◌, ap, subst, Bool, true, false, not, ◌&&◌, Option,
  none, some, Bool-cases, List, arith, leb, if◌then◌else◌, Result, ok, err, ◌>>=◌, guard, >>=-eq-ok,
  ok_injective, Text, truthy, trim, trimmed, has,
}
use kmc.Errors.{ErrorValue}
use kmc.Ipam.Cidr.{
  CidrError, ParsedCidr, HostRange, parse_ipv4, format_ipv4, parse_cidr, contains_ipv4,
  usable_host_range,
}
use kmc.Ipam.Cidr.RoundTrip.{parse_ipv4-format_ipv4}
use kmc.Ipam.Cidr.Blocks.{IsBlock, parse_cidr-IsBlock}
use kmc.Ipam.Cidr.Window.{IsWindow, usable_host_range-IsWindow}
use kmc.Ipam.Config.{IpPoolConfig}
use kmc.Ipam.Claims.{ClaimBody}
use kmc.Ipam.Pools.{
  PoolError, lift, AllocatedIp, ValidPool, check_gateway, validate_pool, build_exclude_set,
  AllocateOpts, build_allocated_ip, taken_addresses, remove, claim_address, claimed_preferred,
  allocate_preferred, allocate_loop, by_preference, allocate_ipv4, max_attempts,
}
use kmc.Ipam.Pools.Outcomes.{IsLeased, allocate_loop-Outcome}

pub lift-eq-ok {ℓ} : {A : Type ℓ} (r : Result CidrError A) (a : A) → lift r ≡ ok a → r ≡ ok a
lift-eq-ok (ok b) a h = ground arith
lift-eq-ok (err e) a h = ground arith

-- What is known of a pool that passed its validation.
pub record IsValidPool (pool : IpPoolConfig) (valid : ValidPool) : Type 0 where
  pub read : parse_cidr pool.cidr ≡ ok valid.parsed
  pub block : IsBlock valid.parsed
  pub window : IsWindow valid.parsed pool.start pool.end valid.range
  pub exclude : valid.exclude ≡ build_exclude_set pool valid.parsed

module _ (pool : IpPoolConfig) (valid : ValidPool) where
  made_valid :
      (parsed : ParsedCidr) (range : HostRange)
      → parse_cidr pool.cidr ≡ ok parsed
      → usable_host_range parsed pool.start pool.end ≡ ok range
      → record { parsed = parsed; range = range; exclude = build_exclude_set pool parsed } ≡ valid
      → IsValidPool pool valid
  made_valid parsed range read window made =
      let block = parse_cidr-IsBlock pool.cidr parsed read in
      subst (IsValidPool pool) made (record {
        read = read;
        block = block;
        window = usable_host_range-IsWindow parsed pool.start pool.end range block window;
        exclude = refl;
      })

  ranged :
      (parsed : ParsedCidr)
      → parse_cidr pool.cidr ≡ ok parsed
      → (do
        range ← lift (usable_host_range parsed pool.start pool.end)
        ok (record { parsed = parsed; range = range; exclude = build_exclude_set pool parsed }))
        ≡ ok valid
      → IsValidPool pool valid
  ranged parsed read h =
      let (range, window, made) =
        >>=-eq-ok (lift (usable_host_range parsed pool.start pool.end)) _ h in
      made_valid parsed range read (lift-eq-ok _ _ window) (ok_injective made)

  pub validate_pool-IsValidPool : validate_pool pool ≡ ok valid → IsValidPool pool valid
  unfolding validate_pool
  validate_pool-IsValidPool h =
      let (parsed, read, h') = >>=-eq-ok (lift (parse_cidr pool.cidr)) _ h in
      gated parsed (lift-eq-ok _ _ read)
        (>>=-eq-ok (check_gateway (trimmed pool.gateway) parsed) _ h')
    where
      gated :
          (parsed : ParsedCidr)
          → parse_cidr pool.cidr ≡ ok parsed
          → (u : Unit {0}) × (check_gateway (trimmed pool.gateway) parsed ≡ ok u)
            × ((do
              range ← lift (usable_host_range parsed pool.start pool.end)
              ok (record {
                parsed = parsed;
                range = range;
                exclude = build_exclude_set pool parsed;
              }))
                ≡ ok valid)
          → IsValidPool pool valid
      gated parsed read (u, gateway, h) = ranged parsed read h

-- An address that an allocation may return: a host of the pool's block and window that nothing
-- held, whose claim the API created within the attempts.
pub record IsAllocation (reply : ℕ → ClaimBody → Option ErrorValue) (pool : IpPoolConfig)
    (namespace : Text) (claims : List Text) (opts : AllocateOpts) (a : AllocatedIp) : Type 0 where
  pub valid : ValidPool
  pub checked : IsValidPool pool valid
  pub number : ℕ
  pub numeric : parse_ipv4 a.address ≡ ok number
  pub low : valid.range.start ≤ number
  pub high : number ≤ valid.range.end
  pub unused : has (taken_addresses valid.parsed claims opts) a.address ≡ false
  pub allowed : (opts.claim_gateway ≡ true) ⊎ (has valid.exclude a.address ≡ false)
  pub at : ℕ
  pub in_time : at < max_attempts
  pub created : claim_address reply at (trim namespace) pool valid.parsed opts a.address ≡ ok tt
  pub result : a ≡ build_allocated_ip pool valid.parsed a.address opts

address-build_allocated_ip :
    (pool : IpPoolConfig) (parsed : ParsedCidr) (t : Text) (opts : AllocateOpts)
    → (build_allocated_ip pool parsed t opts).address ≡ t
unfolding build_allocated_ip
address-build_allocated_ip pool parsed t opts = refl

not-true : (b : Bool) → not b ≡ true → b ≡ false
not-true b h = ground arith

guard-true : (b : Bool) (e : PoolError) (u : Unit {0}) → guard b e ≡ ok u → b ≡ true
guard-true true e u h = refl
guard-true false e u h = ground arith

window_low : (n : ℕ) (r : HostRange) → (leb r.start n && leb n r.end) ≡ true → r.start ≤ n
window_low n r h = ground arith

window_high : (n : ℕ) (r : HostRange) → (leb r.start n && leb n r.end) ≡ true → n ≤ r.end
window_high n r h = ground arith

not_reserved :
    (b : Bool) (exclude : List Text) (t : Text)
    → not (has (if b then remove t exclude else exclude) t) ≡ true
    → (b ≡ true) ⊎ (has exclude t ≡ false)
not_reserved true exclude t h = inl refl
not_reserved false exclude t h = inr (not-true _ h)

module _ (reply : ℕ → ClaimBody → Option ErrorValue) (pool : IpPoolConfig) (namespace : Text)
    (claims : List Text) (opts : AllocateOpts) where
  leased :
      (valid : ValidPool) (a : AllocatedIp)
      → IsValidPool pool valid
      → IsLeased reply pool
          (trim namespace)
          valid
          opts
          0
          max_attempts
          (taken_addresses valid.parsed claims opts)
          a
      → IsAllocation reply pool namespace claims opts a
  leased valid a v l =
      let address : a.address ≡ format_ipv4 l.number =
        ap (λ (r : AllocatedIp). r.address) l.result
        ∙ address-build_allocated_ip pool valid.parsed (format_ipv4 l.number) opts in
      let host = v.window.hosts l.number l.low l.high in
      record {
        valid = valid;
        checked = v;
        number = l.number;
        numeric =
            rw address (parse_ipv4-format_ipv4 l.number (omega (arith, host.high, v.block.fits)));
        low = l.low;
        high = l.high;
        unused = rw address l.unused;
        allowed = inr (rw address l.allowed);
        at = l.at;
        in_time = l.in_time;
        created = rw address l.created;
        result =
            l.result ∙ ap (λ (t : Text). build_allocated_ip pool valid.parsed t opts) (sym address);
      }

  from_loop :
      (valid : ValidPool) (a : AllocatedIp)
      → IsValidPool pool valid
      → allocate_loop reply max_attempts 0 pool
          (trim namespace)
          valid
          (taken_addresses valid.parsed claims opts)
          opts
        ≡ ok a
      → IsAllocation reply pool namespace claims opts a
  from_loop valid a v h = leased valid a v (
      rw h at (
        allocate_loop-Outcome reply pool (trim namespace) valid opts v.window.ordered max_attempts 0
          max_attempts (taken_addresses valid.parsed claims opts) (omega arith)))

  claimed_cases :
      (t : Text) (made a : AllocatedIp) (r : Result ErrorValue (Unit {0}))
      → claimed_preferred reply t made r ≡ ok a
      → (r ≡ ok tt) × (made ≡ a)
  unfolding claimed_preferred
  claimed_cases t made a (ok tt) h = (refl, ok_injective h)
  claimed_cases t made a (err e) h = ground arith

  -- The facts that the guards of a pinned address leave.
  pinned :
      (valid : ValidPool) (a : AllocatedIp) (preferred : Text) (n : ℕ)
      → IsValidPool pool valid
      → parse_ipv4 preferred ≡ ok n
      → (leb valid.range.start n && leb n valid.range.end) ≡ true
      → not (has (taken_addresses valid.parsed claims opts) preferred) ≡ true
      → not (
          has
            (if opts.claim_gateway then remove preferred valid.exclude else valid.exclude)
            preferred)
        ≡ true
      → claimed_preferred reply preferred
          (build_allocated_ip pool valid.parsed preferred opts)
          (claim_address reply 0 (trim namespace) pool valid.parsed opts preferred)
        ≡ ok a
      → IsAllocation reply pool namespace claims opts a
  pinned valid a preferred n v numeric window unused allowed h =
      let (created, made) =
        claimed_cases preferred _ a
          (claim_address reply 0 (trim namespace) pool valid.parsed opts preferred) h in
      let address : a.address ≡ preferred =
        ap (λ (r : AllocatedIp). r.address) (sym made)
        ∙ address-build_allocated_ip pool valid.parsed preferred opts in
      record {
        valid = valid;
        checked = v;
        number = n;
        numeric = ap parse_ipv4 address ∙ numeric;
        low = window_low n valid.range window;
        high = window_high n valid.range window;
        unused = rw address (not-true _ unused);
        allowed = rw address (not_reserved opts.claim_gateway valid.exclude preferred allowed);
        at = 0;
        in_time = omega arith;
        created = rw address created;
        result =
            sym made ∙ ap (λ (t : Text). build_allocated_ip pool valid.parsed t opts) (sym address);
      }

  guarded :
      (valid : ValidPool) (a : AllocatedIp) (preferred : Text)
      → IsValidPool pool valid
      → allocate_preferred reply pool
          (trim namespace)
          valid
          (taken_addresses valid.parsed claims opts)
          opts
          preferred
        ≡ ok a
      → IsAllocation reply pool namespace claims opts a
  unfolding allocate_preferred
  guarded valid a preferred v h =
      let (inside, contained, h₁) = >>=-eq-ok (lift (contains_ipv4 valid.parsed preferred)) _ h in
      let (_, _, h₂) = >>=-eq-ok (guard inside _) _ h₁ in
      let (n, numeric, h₃) = >>=-eq-ok (lift (parse_ipv4 preferred)) _ h₂ in
      let (u₃, window, h₄) = >>=-eq-ok (guard _ _) _ h₃ in
      let (u₄, unused, h₅) = >>=-eq-ok (guard _ _) _ h₄ in
      let (u₅, allowed, h₆) = >>=-eq-ok (guard _ _) _ h₅ in
      pinned valid a preferred n v (lift-eq-ok _ _ numeric) (guard-true _ _ u₃ window)
        (guard-true _ _ u₄ unused) (guard-true _ _ u₅ allowed) h₆

  preferred-cases :
      (o : Option Text) (valid : ValidPool) (a : AllocatedIp)
      → IsValidPool pool valid
      → by_preference reply o pool
          (trim namespace)
          valid
          (taken_addresses valid.parsed claims opts)
          opts
        ≡ ok a
      → IsAllocation reply pool namespace claims opts a
  unfolding by_preference
  preferred-cases none valid a v h = from_loop valid a v h
  preferred-cases (some p) valid a v h = guarded valid a p v h

  -- A successful allocation, pinned or not, is an address of the pool's window that no listed
  -- claim and no earlier choice holds, that is not excluded unless a pinned one may be, and whose
  -- claim the API created in one of the 64 attempts; the result is built from that address.
  pub allocate_ipv4-IsAllocation :
      (a : AllocatedIp)
      → allocate_ipv4 reply pool namespace claims opts ≡ ok a
      → IsAllocation reply pool namespace claims opts a
  unfolding allocate_ipv4
  allocate_ipv4-IsAllocation a h = elim (Bool-cases (truthy (trim namespace))) [
    | inr empty ↦ absurd (no_namespace empty)
    | inl given ↦ validated (>>=-eq-ok (validate_pool pool) _ (rw given at h))
  ]
    where
      no_namespace : truthy (trim namespace) ≡ false → ⊥
      no_namespace empty = ground arith

      validated :
          (valid : ValidPool) × (validate_pool pool ≡ ok valid)
            × (by_preference reply
                  (trimmed opts.preferred_address)
                  pool
                  (trim namespace)
                  valid
                  (taken_addresses valid.parsed claims opts)
                  opts
                ≡ ok a)
          → IsAllocation reply pool namespace claims opts a
      validated (valid, checked, h') =
          preferred-cases (trimmed opts.preferred_address) valid a
            (validate_pool-IsValidPool pool valid checked) h'
