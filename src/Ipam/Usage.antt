-- ===== src/Ipam/Usage.antt =====
-- `getIpPoolUsageForConfig` of console/app/lib/ipam/pools.server.ts: the figures of a pool.
use kmc.Common.{
  ℕ, zero, suc, ◌+◌, ◌-◌, ◌≤◌, ◌≡◌, ◌↔◌, refl, subst, Bool, ◌||◌, none, List, [], ◌∷◌, arith,
  if◌then◌else◌, Result, ok, ◌>>=◌, >>=-eq-ok, ok_injective, length, Text, has,
}
use kmc.Ipam.Cidr.{
  CidrError, ParsedCidr, format_ipv4, contains_ipv4, count_usable_hosts, first_free_from,
  first_free_ipv4,
}
use kmc.Ipam.Config.{IpPoolConfig}
use kmc.Ipam.Pools.{PoolError, lift, ValidPool, validate_pool, used_of_claims}
use kmc.Ipam.Pools.Allocation.{lift-eq-ok, validate_pool-IsValidPool}

pub record IpPoolUsage : Type 0 where
  pub pool : IpPoolConfig
  pub cidr : Text
  pub total : ℕ
  pub used : ℕ
  pub free : ℕ
  pub used_addresses : List Text

-- `for (const e of exclude) if (containsIpv4(parsed, e)) usedSet.add(e)`: an excluded text that is
-- no address throws.
unfoldable pub add_excluded : ParsedCidr → List Text → List Text → Result CidrError (List Text)
unfolding contains_ipv4
add_excluded parsed [] used = ok used
add_excluded parsed (e ∷ es) used = do
  inside ← contains_ipv4 parsed e
  add_excluded parsed es (if inside then e ∷ used else used)

module _ (used exclude : List Text) where
  -- The test of both loops.
  unfoldable pub is_used : ℕ → Bool
  unfolding has format_ipv4
  is_used n = has used (format_ipv4 n) || has exclude (format_ipv4 n)

  unfoldable pub used_from : ℕ → ℕ → List Text
  unfolding is_used
  used_from zero n = []
  used_from (suc rounds) n =
      let rest = used_from rounds (n + 1) in if is_used n then format_ipv4 n ∷ rest else rest

  unfoldable pub free_from : ℕ → ℕ → ℕ
  unfolding is_used
  free_from zero n = 0
  free_from (suc rounds) n =
      let rest = free_from rounds (n + 1) in if is_used n then rest else suc rest

unfoldable pub usage_of : IpPoolConfig → ValidPool → List Text → IpPoolUsage
unfolding used_from free_from count_usable_hosts
usage_of pool valid used =
    let rounds = valid.range.end + 1 - valid.range.start in
    let free = free_from used valid.exclude rounds valid.range.start in
    let total = count_usable_hosts valid.range in
    record {
      pool = pool;
      cidr = valid.parsed.cidr;
      total = total;
      used = total - free;
      free = free;
      used_addresses = used_from used valid.exclude rounds valid.range.start;
    }

-- `claims` are the listed claims.
unfoldable pub get_ip_pool_usage_for_config :
    IpPoolConfig → List Text → Result PoolError IpPoolUsage
unfolding validate_pool used_of_claims add_excluded usage_of
get_ip_pool_usage_for_config pool claims = do
  valid ← validate_pool pool
  used ← lift (add_excluded valid.parsed valid.exclude (used_of_claims valid.parsed claims))
  ok (usage_of pool valid used)

module _ (used exclude : List Text) where
  balance :
      (rounds n : ℕ)
      → length (used_from used exclude rounds n) + free_from used exclude rounds n ≡ rounds
  unfolding used_from free_from
  balance zero n = omega arith
  balance (suc rounds) n = ground (arith, balance rounds (n + 1))

  free_from-first_free_from :
      (rounds n : ℕ)
      → (free_from used exclude rounds n ≡ 0) ↔ (first_free_from rounds n used exclude ≡ none)
  unfolding free_from first_free_from is_used
  free_from-first_free_from zero n = (λ _. refl, λ _. refl)
  free_from-first_free_from (suc rounds) n =
      ground (arith, free_from-first_free_from rounds (n + 1))

-- The figures of a valid pool.
pub record IsBalanced (valid : ValidPool) (used : List Text) (u : IpPoolUsage) : Type 0 where
  pub sum : u.used + u.free ≡ u.total
  pub total : u.total + valid.range.start ≡ valid.range.end + 1
  pub listed : length u.used_addresses ≡ u.used
  pub full_iff : (u.free ≡ 0) ↔ (first_free_ipv4 valid.range used valid.exclude ≡ none)

usage_of-IsBalanced :
    (pool : IpPoolConfig) (valid : ValidPool) (used : List Text)
    → valid.range.start ≤ valid.range.end
    → IsBalanced valid used (usage_of pool valid used)
unfolding usage_of count_usable_hosts first_free_ipv4
usage_of-IsBalanced pool valid used h =
    let rounds = valid.range.end + 1 - valid.range.start in
    let b = balance used valid.exclude rounds valid.range.start in
    record {
      sum = omega (arith, b);
      total = omega arith;
      listed = omega (arith, b);
      full_iff = free_from-first_free_from used valid.exclude rounds valid.range.start;
    }

abbrev added_of : List Text → ValidPool → Result CidrError (List Text)
added_of claims valid = add_excluded valid.parsed valid.exclude (used_of_claims valid.parsed claims)

-- The figures, with the set that they were counted by.
abbrev pub IsUsage : IpPoolConfig → List Text → IpPoolUsage → ValidPool → Type 0
IsUsage pool claims u valid =
    (used : List Text) × (added_of claims valid ≡ ok used) × IsBalanced valid used u

figures :
    (pool : IpPoolConfig) (claims : List Text) (u : IpPoolUsage) (valid : ValidPool)
    → valid.range.start ≤ valid.range.end
    → (used : List Text) × (lift (added_of claims valid) ≡ ok used)
      × (◌≡◌ {A = Result PoolError IpPoolUsage} (ok (usage_of pool valid used)) (ok u))
    → IsUsage pool claims u valid
figures pool claims u valid ordered (used, added, made) = (
  used,
  lift-eq-ok _ _ added,
  subst (IsBalanced valid used) (ok_injective made) (usage_of-IsBalanced pool valid used ordered),
)

-- The usage of a pool that validates: used and free add up to the size of the window, as many
-- addresses are listed as are used, and none is free exactly when the allocator's search fails
-- on the set of the listed claims and the exclusions.
pub get_ip_pool_usage_for_config-IsBalanced :
    (pool : IpPoolConfig) (claims : List Text) (u : IpPoolUsage)
    → get_ip_pool_usage_for_config pool claims ≡ ok u
    → (valid : ValidPool) × (validate_pool pool ≡ ok valid) × IsUsage pool claims u valid
unfolding get_ip_pool_usage_for_config
get_ip_pool_usage_for_config-IsBalanced pool claims u h =
    let (valid, checked, h') = >>=-eq-ok (validate_pool pool) _ h in
    let v = validate_pool-IsValidPool pool valid checked in
    (
      valid,
      checked,
      figures pool claims u valid v.window.ordered (>>=-eq-ok (lift (added_of claims valid)) _ h'),
    )
