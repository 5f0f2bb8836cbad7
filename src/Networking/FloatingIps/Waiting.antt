-- ===== src/Networking/FloatingIps/Waiting.antt =====
-- The wait of `reserveFloatingIp` for a public address: `waitForFloatingIpAddress` of
-- console/app/vpcs/vpcs.server.ts. `clock` is what `Date.now()` answers at the successive tests of
-- the loop and `poll` what the API answers in its rounds.
use kmc.Common.{
  ℕ, zero, suc, ◌+◌, Bool, false, Option, none, some, List, [], ◌∷◌, ◌++◌, ltb, if◌then◌else◌,
  Result, ok, err, Text, codes, truthy, trimmed, text_eq,
}
use kmc.Errors.{ErrorValue, plain_error}
use kmc.Networking.Objects.{FloatingIpCr, Condition}
use kmc.Networking.Associations.{FloatingIpAssociation, map_floating_ip_association, public_address}

is_text : Text → Option Text → Bool
unfolding text_eq
is_text t none = false
is_text t (some s) = text_eq s t

ready_message : List Condition → Option Text
unfolding is_text
ready_message [] = none
ready_message (c ∷ cs) =
    let rest = ready_message cs in if is_text (codes "Ready") c.type then c.message else rest

abbrev given_message : Option Text → Text
given_message none = codes "FloatingIP allocation failed"
given_message (some []) = codes "FloatingIP allocation failed"
given_message (some (c ∷ m)) = c ∷ m

unfoldable pub allocation_failed : FloatingIpCr → ErrorValue
unfolding ready_message
allocation_failed f = plain_error (given_message (ready_message f.status.conditions))

abbrev phase_of : Option FloatingIpCr → Text
phase_of none = []
phase_of (some f) = elim f.status.phase [
  | none ↦ []
  | some [] ↦ []
  | some (c ∷ p) ↦ codes " (phase " ++ ((c ∷ p) ++ codes ")")
]

unfoldable pub timed_out : Text → Text → Option FloatingIpCr → ErrorValue
timed_out namespace name last = plain_error (
    codes "Timed out waiting for public address on FloatingIP "
    ++ (namespace ++ b'/' ∷ (name ++ phase_of last)))

-- What a round ends with, if it ends the wait.
unfoldable pub round_end : FloatingIpCr → Option (Result ErrorValue FloatingIpCr)
unfolding public_address is_text allocation_failed
round_end f =
    if truthy (public_address f)
    then some (ok f)
    else if is_text (codes "Error") f.status.phase
    then some (err (allocation_failed f))
    else none

module _ (namespace name : Text) (clock : ℕ → ℕ) (poll : ℕ → Result ErrorValue FloatingIpCr)
    (deadline : ℕ) where
  -- The loop from its test number `i` on; `none` when the fuel is spent.
  unfoldable pub wait_loop : ℕ → ℕ → Option FloatingIpCr → Option (Result ErrorValue FloatingIpCr)
  unfolding round_end timed_out
  wait_loop zero i last = none
  wait_loop (suc fuel) i last =
      if ltb (clock i) deadline
      then (elim (poll i) [
        | err e ↦ some (err e)
        | ok f ↦ elim (round_end f) [
          | some result ↦ some result
          | none ↦ wait_loop fuel (suc i) (some f)
        ]
      ])
      else some (err (timed_out namespace name last))

-- `timeoutMs` and `intervalMs`
abbrev pub timeout_ms : ℕ
timeout_ms = 30000

abbrev pub interval_ms : ℕ
interval_ms = 400

-- `started` is the time at the call. The loop has at most 75 rounds.
unfoldable pub wait_for_floating_ip_address :
    Text
    → Text
    → ℕ
    → (ℕ → ℕ)
    → (ℕ → Result ErrorValue FloatingIpCr)
    → Option (Result ErrorValue FloatingIpCr)
unfolding wait_loop
wait_for_floating_ip_address namespace name started clock poll =
    wait_loop namespace name clock poll (started + timeout_ms) 76 0 none

abbrev pub no_name : ErrorValue
no_name = plain_error (codes "FloatingIP create returned no object name")

unfoldable pub associated_of :
    Option (Result ErrorValue FloatingIpCr) → Option (Result ErrorValue FloatingIpAssociation)
unfolding map_floating_ip_association
associated_of none = none
associated_of (some (err e)) = some (err e)
associated_of (some (ok f)) = some (ok (map_floating_ip_association f))

-- The end of `reserveFloatingIp`, from the API's answer to the creation on.
unfoldable pub reserved :
    Text
    → ℕ
    → (ℕ → ℕ)
    → (ℕ → Result ErrorValue FloatingIpCr)
    → Result ErrorValue FloatingIpCr
    → Option (Result ErrorValue FloatingIpAssociation)
unfolding wait_for_floating_ip_address associated_of trimmed
reserved namespace started clock poll (err e) = some (err e)
reserved namespace started clock poll (ok created) = elim (trimmed created.metadata.name) [
  | none ↦ some (err no_name)
  | some name ↦ associated_of (wait_for_floating_ip_address namespace name started clock poll)
]
