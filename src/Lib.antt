-- ===== src/Lib.antt =====
-- Sindri's sequence service: replicas hand out numbers for keys from ranges that they reserve in a
-- shared database, and the authority over the keys' slots moves between replicas.
--
-- The program's parts and the modules for them:
--
--   In Store: the tables and transactions of internal/sequence/data (ownership_data.go,
--   sequence_data.go, handoff_data.go). A Database holds the rows of sequence_instance_leases,
--   sequence_slot_ownership, sequence_slot_handoffs and sequence_ranges. A transaction runs its body
--   on the rows alone, as its row locks make it do, and then commits, fails, or commits with the
--   answer lost; the storage clock is an argument.
--   In Keys: SlotForKey of pkg/sequence/router.go.
--   In Ranges: ReserveRanges of internal/sequence/data/sequence_data.go. Ranges/Reserve has the
--   transaction, Ranges/Watermarks and Ranges/Adjacent what it does to the reserved ends, and
--   Ranges/History sequences of reservations.
--   In Ownership: RegisterInstance, RenewInstance, InstanceAuthority, RetireInstance and, in
--   Ownership/Claim, ClaimSlots of internal/sequence/data/ownership_data.go. Ownership/Takeover and
--   Ownership/Effects say when a slot is taken and what that leaves.
--   In Handoffs: ApplyHandoffs of internal/sequence/data/handoff_data.go. Handoffs/Apply judges one
--   command, Handoffs/Batch runs the batch, Handoffs/Protocol has the edges of the state machine,
--   and Handoffs/Transaction and Handoffs/Authority carry them through the batch and its writes.
--   Handoffs/Planning and Handoffs/Planned are about PlanHandoffs, and Handoffs/Recovery and
--   Handoffs/Released about RecoverHandoffs.
--   In Fencing: the stores together.
--   In Allocation: how the goroutines of a replica hand out the numbers of one key, from
--   internal/sequence/biz/allocation.go. Allocation steps one goroutine, Allocation/System runs
--   them all with the fetches around them, Allocation/Ideal and Allocation/Small say when the int64
--   cursor does not wrap around, and the other modules there keep the invariant.
--   In Gate: the gate of a slot, allocationSlot of internal/sequence/biz/allocator.go, under
--   goroutines that enter, leave and drain it. Gate/Counts has its counter, Gate/Drained and
--   Gate/Quiesces what a drain waits for.
--   In Serving: an allocator's authority, of internal/sequence/biz/authority.go and allocator.go.
--   Serving applies snapshots and renews the lease, Serving/Operations has the other operations and
--   Serving/Pass the handoff pass. Serving/Installed, Serving/Applied and Serving/Renewal are about
--   the slots that are served, Serving/Stopped about leaving the service, and Serving/Leases puts
--   the local lease, the settings and ClaimSlots together.
--   In Planner: the quotas, the target layout and the migrations of
--   internal/sequence/biz/placement.go. Planner/Quotas is about slotQuotas, Planner/Targets,
--   Planner/Staying, Planner/Surveyed and Planner/Placed about planTargetsFromSegments and what a node
--   claims of it,
--   and Planner/Plans and Planner/Migrations about planMigrations.
--   In Coordinator: the coordinator's tenure, the published route and the nodes' liveness, of
--   internal/sequence/data/placement_data.go. Coordinator/Tenure and Coordinator/Published are about
--   AcquireCoordinator and MaterialiseRoute.
--   In Clock: the storage clock's monitor of internal/sequence/biz/placement.go; Clock/Bounds says
--   what it detects.
--   In Directory: the ownership segments, the stored route and the route cache of
--   internal/sequence/biz/placement.go.
--   In Config: the settings of internal/sequence/biz/config.go.
--   In Client: the tables and the snapshots of the router in pkg/sequence/router.go. Client/Tables
--   compares them with the server's lookup. Client/Retries has its retries, which Client/Attempts
--   and Client/Invocations are about, Client/Requests the limits on a batch and
--   Client/Groups its parts by owner, which Client/Partition is about, of pkg/sequence/client.go.
--   In Scenarios and the modules called Examples: concrete runs.
--
-- The parts meet in the Database: a claim or a handoff moves the ownership revision of the instance
-- that loses a slot, and ReserveRanges and RenewInstance accept only the current revision.
--
-- A signed 64-bit integer is its bit pattern, and 64-bit counters wrap around. A time is a number of
-- nanoseconds, 0 for Go's zero time. Recursion is structural throughout, but for the binary search,
-- whose fuel is the length of its interval, which halves in every round.
--
-- Not modelled: SQL and the ORM; the database's refusal of a number beyond its bigint is the
-- parameter `overflow`, the JSON codec of a route is a pair of functions, new identities of handoffs
-- are a function, and the tests on floating-point settings are parameters. The client's
-- concurrent refresh, the calls of its batches, its interceptors and error classes, prefetching, the release during a shutdown,
-- the eviction of idle keys, telemetry and the wiring are not modelled.
pub mod Prelude
pub mod Store
pub mod Handoffs
pub mod Keys
pub mod Ranges
pub mod Ownership
pub mod Fencing
pub mod Gate
pub mod Serving
pub mod Planner
pub mod Coordinator
pub mod Clock
pub mod Client
pub mod Allocation
pub mod Directory
pub mod Config
pub mod Scenarios
