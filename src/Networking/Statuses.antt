-- ===== src/Networking/Statuses.antt =====
-- The two readings of a router's agent status, in console/app/vpcs/routers.server.ts and in
-- console/app/vpcs/vpcs.server.ts.
use kmc.Common.{
  ◌≡◌, ◌≢◌, ◌∙◌, ap, refl, Option, none, some, Option-cases, inl, inr, arith, trimmed, Text,
}
use kmc.Networking.Objects.{RouterCr}
use kmc.Networking.Routers.{
  RouterAgentStatus, ready, error, pending, unknown, stale, agent_status_from_router, known_status,
}
use kmc.Networking.Associations.{vpc_agent_status, vpc_known_status}

abbrev pub forget_stale : RouterAgentStatus → RouterAgentStatus
forget_stale stale = unknown
forget_stale ready = ready
forget_stale error = error
forget_stale pending = pending
forget_stale unknown = unknown

abbrev pub map_status : Option RouterAgentStatus → Option RouterAgentStatus
map_status none = none
map_status (some s) = some (forget_stale s)

known-forget_stale : (raw : Text) → vpc_known_status raw ≡ forget_stale (known_status raw)
unfolding vpc_known_status known_status
known-forget_stale raw = ground arith

vpc_agent_status-map : (r : RouterCr) → vpc_agent_status r ≡ map_status (agent_status_from_router r)
unfolding vpc_agent_status agent_status_from_router
vpc_agent_status-map r = elim (Option-cases (trimmed r.status.agent.status)) [
  | inl e ↦ rw (e, vpc_agent_status, agent_status_from_router) refl
  | inr (raw, e) ↦ rw (e, vpc_agent_status, agent_status_from_router, known-forget_stale raw) refl
]

map_status-other : (s : Option RouterAgentStatus) → s ≢ some stale → map_status s ≡ s
map_status-other none h = refl
map_status-other (some stale) h = absurd (h refl)
map_status-other (some ready) h = refl
map_status-other (some error) h = refl
map_status-other (some pending) h = refl
map_status-other (some unknown) h = refl

-- The two copies of agentStatusFromRouter agree on every router, but for a defect of the one in
-- vpcs.server.ts: where the agent is not stale, the VPC pages show the status that the router pages
-- show, and where it is stale, which the documentation wants shown as Stale, they show Unknown.
pub vpc_agent_status-forget_stale :
    (r : RouterCr)
    → (agent_status_from_router r ≢ some stale → vpc_agent_status r ≡ agent_status_from_router r)
      × (agent_status_from_router r ≡ some stale → vpc_agent_status r ≡ some unknown)
vpc_agent_status-forget_stale r = (
  (λ h. vpc_agent_status-map r ∙ map_status-other (agent_status_from_router r) h),
  (λ h. vpc_agent_status-map r ∙ ap map_status h),
)
