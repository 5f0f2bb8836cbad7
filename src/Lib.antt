-- ===== src/Lib.antt =====
-- A model of the server side of kmc's web console: the code under console/app that decides
-- addresses, names, labels and what a request does to a cluster, in TypeScript.
--
-- The parts, and how they meet:
--   * IP address management (console/app/lib/ipam). A network's pool is resolved from the cluster's
--     IPPool resources or from the annotations of a VPC's network; an allocation validates the
--     pool, reads what is taken, searches the usable window and creates an IPAddress claim, again
--     on a conflict; the allocations become cloud-init network data and annotations of the machine;
--     the claims are deleted when the machine is. The console's status pages read the pool's usage.
--   * Backends (console/app/backends). A service's members are recorded in its labels and
--     annotations; the members of a group carry a label, which is set machine by machine and rolled
--     back on a failure, when the Service is created or changed.
--   * Bulk actions (console/app/lib/bulk-action.ts). A form's targets are parsed and an action is
--     run on each.
--   * Snapshots (console/app/snapshots). Machines are snapshotted by hand or by a CronJob, whose
--     runner creates a snapshot, prunes the older ones and records its status in a ConfigMap.
--   * Networking (console/app/vpcs, console/app/lib/k8s/networking-cr.server.ts). VPCs, routers
--     that join VPCs to each other and to a public network, floating addresses and port forwards
--     are resources that the console writes and a controller realises. The operations read
--     resources, refuse, or send one resource.
--   * HTTP routes (console/app/httproutes). A route leads from a host at a Gateway to a Service:
--     one that is there, or a companion that is created with the route and goes with it.
--   * Errors (console/app/lib/errors.ts), which the other parts print and classify.
--
-- Which file models which code:
--   * Common and its children: strings as lists of UTF-16 code units with the methods that the code
--     calls (trim, split, slice, includes, ...), objects as association lists in the order of
--     insertion, code that may throw as `Result`, `String(n)` and `Number(s)`, and bit operations.
--   * Errors: formatError.
--   * Ipam.Cidr: cidr.ts (parseIpv4, formatIpv4, parseCidr, containsIpv4, usableHostRange,
--     countUsableHosts, firstFreeIpv4); its children hold the theorems.
--   * Ipam.Config: ipPoolConfigFromCr, listIpPools, resolveIpPoolForMultus, resolveIpPoolById and
--     ipPoolFromVpcNad of pools.server.ts. Ipam.VlanPools: vlan-pools.server.ts.
--   * Ipam.Status, Ipam.Claims and Ipam.Releases: ipaddress-cr.server.ts, the classification of API
--     errors, the creation of a claim, and the listing and deletion of claims.
--   * Ipam.Pools: validatePool, buildExcludeSet, listUsedIpv4FromClaims and allocateIpv4ForMultus.
--     Ipam.Usage: getIpPoolUsageForConfig. Ipam.Netplan: buildNetworkData, buildRouterNetworkData,
--     ipamAnnotations and parseIpv4AnnotationList.
--   * Backends.Membership: membership.ts. Backends.Stamp: stamp.server.ts. Backends.Services and
--     its children: backends.server.ts (createBackend, updateBackend, deleteBackend and what they
--     share) and template.server.ts.
--   * Bulk: the parsers of bulk-action.ts. Bulk.Running: runBulkAction and summarizeBulkResults.
--   * Snapshots.Names: dnsLabel and the names made with it, of snapshots.server.ts and
--     schedules.server.ts. Snapshots.Summaries and Snapshots.Creation: the projection, the listing
--     and the creation of snapshots.server.ts. Snapshots.Schedules: the policy document of
--     schedules.server.ts. Snapshots.Status and Snapshots.Run: scheduled-run.server.ts.
--   * Format.Names: validateDns1123Label and expandVmLaunchNames of console/app/lib/format.ts.
--   * Networking.Objects and Networking.Api: networking-cr.server.ts. Networking.Routers,
--     Routers.Attachments, Routers.Creation and Routers.Listing: routers.server.ts.
--     Networking.Vpcs and Vpcs.Members: the VPCs of vpcs.server.ts; Networking.FloatingIps and
--     FloatingIps.Waiting: its floating addresses; Networking.PortForwards: its port forwards;
--     Networking.Associations: its mappings for the pages. The other children hold the theorems;
--     Routers.Machine has the life of a router as a step relation, and Routers.Refinement the
--     abstract router, a set of names with a number and a gateway.
--   * HttpRoutes.Mappings, HttpRoutes.Gateways, HttpRoutes.Summaries, HttpRoutes.Lifecycle,
--     HttpRoutes.Updates and HttpRoutes.Deletion: the mappings, createHttpRoute, updateHttpRoute
--     and deleteHttpRoute of httproutes.server.ts. HttpRoutes.Backing makes their companion calls
--     of Backends.Services. HttpRoutes.Manifests: template.server.ts.
--
-- State and calls. The API of a cluster is a parameter: an argument for a call that only reads, a
-- function on a state for one that writes (`Api` of Snapshots.Run, `VmApi` of Backends.Stamp,
-- `BackendApi` of Backends.Services.Changes, `RouteApi` of HttpRoutes.Lifecycle, the action of
-- Bulk.Running), and for the creation of claims a function from the number of the call and its body
-- to the API's answer. An operation of Networking that writes once returns the resource that it
-- sends. A theorem that needs more of the API than that has it as a named hypothesis (`IsStore`,
-- `KeepsServices`, `IsSeparate`, `IsKubernetes`), which the tests fulfil with a small store.
-- JSON.parse, JSON.stringify, String.prototype.localeCompare and the clock are parameters. Thrown
-- values are `ErrorValue`; where a caller only tests which error it is, the errors are constructors
-- in place of message texts.
--
-- Bounds and fuel. The allocation loop has the 64 attempts of IPADDRESS_CLAIM_MAX_ATTEMPTS. The
-- search and the usage loop run over the addresses of a window, with as many rounds as it has
-- addresses. `String(n)` has n + 1 rounds, more than n has digits. Addresses are 32-bit numbers,
-- with the wrap-around of `>>>` and `<<` written out. The wait for a public address has 76 tests of
-- the clock, one more than the 75 intervals of 400 ms in its 30 seconds. No other recursion needs
-- fuel.
--
-- Not modelled: withPoolLock, the lock that keeps allocations of one process apart (so a run of
-- allocateIpv4ForMultus is one sequence of steps, with other writers seen as conflicts); the random
-- MAC addresses; `Number` beyond decimal digits, signs, fractions, exponents and the hexadecimal
-- form; toLowerCase beyond ASCII; isBulkActionResult; the single calls getVmSnapshot,
-- deleteVmSnapshot, createVmRestore and listVmsWithBackendGroup; the writing of a schedule
-- (upsertVmSnapshotSchedule and its helpers), which is manifests and calls; the lists and detail
-- pages of VPCs, floating addresses and port forwards; printed ages; the construction of API
-- clients; the lists and pages of HTTP routes and backends; the virtual machines, databases and
-- other resources; sessions, Prometheus and the user interface; and the in-cluster controller,
-- which is written in Go.
pub mod Common
pub mod Errors
pub mod Ipam
pub mod Backends
pub mod Bulk
pub mod Format
pub mod HttpRoutes
pub mod Networking
pub mod Snapshots
