-- ===== src/Networking/FloatingIps/Endings.antt =====
-- How the wait of `reserveFloatingIp` ends: its loop, `waitForFloatingIpAddress` of
-- console/app/vpcs/vpcs.server.ts, between the timer and the answers of the API.
use kmc.Common.{
  ℕ, zero, suc, ◌+◌, ◌*◌, ◌≤◌, ◌≡◌, refl, sym, ap, subst, ◌∙◌, Bool, true, false, Bool-cases, inl,
  inr, Option, none, some, Option-cases, arith, ltb, if◌then◌else◌, Result, ok, err, Result-cases,
  Text, truthy, trimmed,
}
use kmc.Errors.{ErrorValue}
use kmc.Networking.Objects.{FloatingIpCr}
use kmc.Networking.Associations.{FloatingIpAssociation, map_floating_ip_association, public_address}
use kmc.Networking.FloatingIps.Waiting.{
  wait_loop, round_end, timed_out, wait_for_floating_ip_address, timeout_ms, interval_ms,
  allocation_failed, reserved, associated_of, no_name,
}

none-some : {A : Type 0} {a : A} → ◌≡◌ {A = Option A} none (some a) → ⊥
none-some h = cc

some_err_ok :
    {E A : Type 0} {a : A} {e : E} → ◌≡◌ {A = Option (Result E A)} (some (err e)) (some (ok a)) → ⊥
some_err_ok h = cc

-- A computation that is tested by `b`.
chosen-ok :
    (b c : Bool) (g f : FloatingIpCr) (e : ErrorValue)
    → ◌≡◌ {A = Option (Result ErrorValue FloatingIpCr)}
        (if b then some (ok g) else if c then some (err e) else none)
        (some (ok f))
    → (g ≡ f) × (b ≡ true)
chosen-ok true c g f e h = (cc, refl)
chosen-ok false true g f e h = cc
chosen-ok false false g f e h = cc

round_end-ok :
    (g f : FloatingIpCr) → round_end g ≡ some (ok f) → (g ≡ f) × (truthy (public_address g) ≡ true)
unfolding round_end
round_end-ok g f h = chosen-ok (truthy (public_address g)) _ g f (allocation_failed g) h

associated_of-ok :
    (answer : Option (Result ErrorValue FloatingIpCr)) (association : FloatingIpAssociation)
    → associated_of answer ≡ some (ok association)
    → (f : FloatingIpCr) × (answer ≡ some (ok f)) × (association ≡ map_floating_ip_association f)
unfolding associated_of
associated_of-ok none association h = cc
associated_of-ok (some (err e)) association h = cc
associated_of-ok (some (ok f)) association h = (f, refl, cc)

module _ (namespace name : Text) (clock : ℕ → ℕ) (poll : ℕ → Result ErrorValue FloatingIpCr)
    (deadline : ℕ) where
  abbrev loop : ℕ → ℕ → Option FloatingIpCr → Option (Result ErrorValue FloatingIpCr)
  loop = wait_loop namespace name clock poll deadline

  wait-spent : (i : ℕ) (last : Option FloatingIpCr) → loop zero i last ≡ none
  unfolding wait_loop
  wait-spent i last = refl

  wait-late :
      (fuel i : ℕ) (last : Option FloatingIpCr)
      → ltb (clock i) deadline ≡ false
      → loop (suc fuel) i last ≡ some (err (timed_out namespace name last))
  unfolding wait_loop
  wait-late fuel i last h = rw (h, wait_loop) refl

  wait-err :
      (fuel i : ℕ) (last : Option FloatingIpCr) (e : ErrorValue)
      → ltb (clock i) deadline ≡ true
      → poll i ≡ err e
      → loop (suc fuel) i last ≡ some (err e)
  unfolding wait_loop
  wait-err fuel i last e h p = rw (h, p, wait_loop) refl

  wait-end :
      (fuel i : ℕ) (last : Option FloatingIpCr) (f : FloatingIpCr)
      (result : Result ErrorValue FloatingIpCr)
      → ltb (clock i) deadline ≡ true
      → poll i ≡ ok f
      → round_end f ≡ some result
      → loop (suc fuel) i last ≡ some result
  unfolding wait_loop
  wait-end fuel i last f result h p q = rw (h, p, q, wait_loop) refl

  wait-again :
      (fuel i : ℕ) (last : Option FloatingIpCr) (f : FloatingIpCr)
      → ltb (clock i) deadline ≡ true
      → poll i ≡ ok f
      → round_end f ≡ none
      → loop (suc fuel) i last ≡ loop fuel (suc i) (some f)
  unfolding wait_loop
  wait-again fuel i last f h p q = rw (h, p, q, wait_loop) refl

  later :
      (step : ℕ)
      → ((i : ℕ) → clock i + step ≤ clock (suc i))
      → (n i : ℕ) → deadline ≤ clock i + suc n * step
      → deadline ≤ clock (suc i) + n * step
  later step ticks n i near = omega (arith, near, ticks i)

  -- The loop ends within the rounds that the intervals leave before the deadline.
  wait-ends :
      (step : ℕ)
      → ((i : ℕ) → clock i + step ≤ clock (suc i))
      → (n i : ℕ) (last : Option FloatingIpCr) → deadline ≤ clock i + n * step
      → (result : Result ErrorValue FloatingIpCr) × (loop (suc n) i last ≡ some result)
  wait-ends step ticks zero i last late =
      (err (timed_out namespace name last), wait-late zero i last (ground (arith, late)))
  wait-ends step ticks (suc n) i last near = elim (Bool-cases (ltb (clock i) deadline)) [
    | inr late ↦ (err (timed_out namespace name last), wait-late (suc n) i last late)
    | inl early ↦ elim (Result-cases (poll i)) [
      | inr (e, failed) ↦ (err e, wait-err (suc n) i last e early failed)
      | inl (f, answered) ↦ elim (Option-cases (round_end f)) [
        | inr (result, ended) ↦ (result, wait-end (suc n) i last f result early answered ended)
        | inl again ↦
            let (result, h) = wait-ends step ticks n (suc i) (some f) (later step ticks n i near) in
            (result, wait-again (suc n) i last f early answered again ∙ h)
      ]
    ]
  ]

  -- An address that the loop ends with was read, and has a public address.
  pub record IsRead (f : FloatingIpCr) : Type 0 where
    pub round : ℕ
    pub answered : poll round ≡ ok f
    pub address : truthy (public_address f) ≡ true

  wait-IsRead :
      (fuel i : ℕ) (last : Option FloatingIpCr) (f : FloatingIpCr)
      → loop fuel i last ≡ some (ok f)
      → IsRead f
  wait-IsRead zero i last f h = absurd (none-some (sym (wait-spent i last) ∙ h))
  wait-IsRead (suc fuel) i last f h = elim (Bool-cases (ltb (clock i) deadline)) [
    | inr late ↦ absurd (some_err_ok (sym (wait-late fuel i last late) ∙ h))
    | inl early ↦ elim (Result-cases (poll i)) [
      | inr (e, failed) ↦ absurd (some_err_ok (sym (wait-err fuel i last e early failed) ∙ h))
      | inl (g, answered) ↦ elim (Option-cases (round_end g)) [
        | inl again ↦
            wait-IsRead fuel (suc i) (some g) f
              (sym (wait-again fuel i last g early answered again) ∙ h)
        | inr (result, ended) ↦
            let same = sym (wait-end fuel i last g result early answered ended) ∙ h in
            let (e, address) = round_end-ok g f (ended ∙ same) in
            record {
              round = i;
              answered = answered ∙ ap ok e;
              address = subst (λ k. truthy (public_address k) ≡ true) e address;
            }
      ]
    ]
  ]

-- With timers that take at least their 400 ms and a clock that does not go back, the wait returns
-- or throws, after at most 75 rounds.
pub wait_for_floating_ip_address-ends :
    (namespace name : Text) (started : ℕ) (clock : ℕ → ℕ)
    (poll : ℕ → Result ErrorValue FloatingIpCr)
    → started ≤ clock 0
    → ((i : ℕ) → clock i + interval_ms ≤ clock (suc i))
    → (result : Result ErrorValue FloatingIpCr) × (wait_for_floating_ip_address namespace name
          started clock poll
        ≡ some result)
unfolding wait_for_floating_ip_address
wait_for_floating_ip_address-ends namespace name started clock poll from ticks =
    wait-ends namespace name clock poll (started + timeout_ms) interval_ms ticks 75 0 none
      (omega (arith, from))

wait_for-IsRead :
    (namespace name : Text) (started : ℕ) (clock : ℕ → ℕ)
    (poll : ℕ → Result ErrorValue FloatingIpCr) (f : FloatingIpCr)
    → wait_for_floating_ip_address namespace name started clock poll ≡ some (ok f)
    → IsRead namespace name clock poll (started + timeout_ms) f
unfolding wait_for_floating_ip_address
wait_for-IsRead namespace name started clock poll f h =
    wait-IsRead namespace name clock poll (started + timeout_ms) 76 0 none f h

map-address :
    (f : FloatingIpCr)
    → truthy (public_address f) ≡ true
    → truthy (map_floating_ip_association f).public_ip ≡ true
unfolding map_floating_ip_association
map-address f h = h

module _ (namespace : Text) (started : ℕ) (clock : ℕ → ℕ)
    (poll : ℕ → Result ErrorValue FloatingIpCr) (created : FloatingIpCr) where
  reserved-none :
      trimmed created.metadata.name ≡ none
      → reserved namespace started clock poll (ok created) ≡ some (err no_name)
  unfolding reserved
  reserved-none h = rw (h, reserved) refl

  reserved-some :
      (name : Text)
      → trimmed created.metadata.name ≡ some name
      → reserved namespace started clock poll (ok created)
        ≡ associated_of (wait_for_floating_ip_address namespace name started clock poll)
  unfolding reserved
  reserved-some name h = rw (h, reserved) refl

-- A reservation that returns an association returns one with a public address, made of the
-- resource that the API answered in one of the rounds.
pub reserved-IsRead :
    (namespace : Text) (started : ℕ) (clock : ℕ → ℕ) (poll : ℕ → Result ErrorValue FloatingIpCr)
    (create : Result ErrorValue FloatingIpCr) (association : FloatingIpAssociation)
    → reserved namespace started clock poll create ≡ some (ok association)
    → (f : FloatingIpCr) × (association ≡ map_floating_ip_association f)
      × (truthy association.public_ip ≡ true)
      × (round : ℕ) × (poll round ≡ ok f)
unfolding reserved
reserved-IsRead namespace started clock poll (err e) association h = cc
reserved-IsRead namespace started clock poll (ok created) association h =
    elim (Option-cases (trimmed created.metadata.name)) [
      | inl absent ↦
          absurd (some_err_ok (sym (reserved-none namespace started clock poll created absent) ∙ h))
      | inr (name, given) ↦
          let (f, waited, e) =
            associated_of-ok _ association
              (sym (reserved-some namespace started clock poll created name given) ∙ h) in
          let read = wait_for-IsRead namespace name started clock poll f waited in
          (
            f,
            e,
            subst (λ k. truthy k.public_ip ≡ true) (sym e) (map-address f read.address),
            read.round,
            read.answered,
          )
    ]
