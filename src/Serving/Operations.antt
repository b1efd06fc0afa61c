-- ===== src/Serving/Operations.antt =====
-- The operations of the allocator around its authority, biz/allocator.go and biz/authority.go: its
-- readiness, the gates on the allocation path, the renewal task, fencing and the shutdown.
use sindri.Prelude.{
  ℕ, ◌+◌, String, Bool, true, false, not, ◌&&◌, ◌||◌, Option, none, some, List, [], ◌∷◌, Result, ok,
  err, ◌>>=◌, ◌>>◌, check, lookup, upsert, ℕ_discrete, ◌==◌, if◌then◌else◌,
}
use sindri.Prelude.Int64.{Int64, sub64, lt64, le64}
use sindri.Store.{Error, map_values}
use sindri.Config.{HaConfig}
use sindri.Ownership.{AuthoritySnapshot}
use sindri.Ownership.Claim.{ClaimOutcome}
use sindri.Serving.{
  LocalSlot, Allocator, Attempt, halted, is_fenced, close, move_withdrawn, apply_authority,
  is_authority_changed, renew_locked,
}

-- `Paused`.
unfoldable pub paused : Allocator → Bool
paused a = not a.ready || is_fenced a || a.stopping

pub data Readiness : Type 0 where
  serving initializing stopping fenced : Readiness

-- `Readiness`, by its reason; only `serving` is ready.
unfoldable pub readiness : Allocator → Readiness
readiness a =
    if is_fenced a
    then Readiness.fenced
    else if a.stopping
    then Readiness.stopping
    else if not a.initialized || not a.route_applied
    then initializing
    else serving

-- `Fence`: the first reason stays.
unfoldable pub fence : String → Allocator → Allocator
fence reason a = record a {
  fenced = elim a.fenced [ none ↦ some reason | some first ↦ some first ];
  ready = false;
}

-- `MarkRouteApplied`.
unfoldable pub mark_route_applied : Allocator → Allocator
mark_route_applied a = record a { route_applied = true }

-- The reasons of xerror that the allocation path answers with.
pub data Reason : Type 0 where
  allocator_paused slot_not_owner owner_recovering local_lease_expired : Reason

unfoldable pub enter_gate : ℕ → Option LocalSlot → Allocator → Allocator × Result Reason LocalSlot
enter_gate k none a = (a, err slot_not_owner)
enter_gate k (some s) a = if s.draining then (a, err slot_not_owner) else (
  record a { slots = upsert ℕ_discrete k (record s { inflight = s.inflight + 1 }) a.slots },
  ok (record s { inflight = s.inflight + 1 }),
)

-- `enterSlot`.
unfoldable pub enter_slot : ℕ → Allocator → Allocator × Result Reason LocalSlot
unfolding enter_gate
enter_slot k a =
    if paused a then (a, err allocator_paused) else enter_gate k (lookup ℕ_discrete k a.slots) a

-- `checkLocalLease`, at the monotonic time `now`.
unfoldable pub check_local_lease : Int64 → Allocator → Result Reason (Unit {0})
check_local_lease now a =
    check (lt64 0 a.local_deadline && lt64 now a.local_deadline) local_lease_expired

-- `checkAllocationSlot`.
unfoldable pub check_allocation_slot :
    Int64 → Option LocalSlot → Allocator → Result Reason (Unit {0})
check_allocation_slot now none a = err owner_recovering
check_allocation_slot now (some s) a = do
  check (not (s.draining || halted a)) owner_recovering
  check_local_lease now a

-- `authorize`.
unfoldable pub authorize : Int64 → List LocalSlot → Allocator → Result Reason (Unit {0})
authorize now [] a = ok tt
authorize now (s ∷ held) a = check_allocation_slot now (some s) a >>= λ u. authorize now held a

-- `fenceSlot`, on the gate of slot `k` if it is still served.
unfoldable pub fence_slot : ℕ → Allocator → Allocator
fence_slot k a = record a { slots = map_values (λ j s. if j == k then close s else s) a.slots }

-- `checkFastPathBound`.
unfoldable pub check_fast_path_bound :
    HaConfig → ℕ → Int64 → Int64 → Allocator → Allocator × Result Reason (Unit {0})
check_fast_path_bound c k started now a =
    if le64 (sub64 now started) c.max_pause
    then (a, ok tt)
    else (fence "process pause exceeded its bound" (fence_slot k a), err owner_recovering)

-- `detachAllLocked`.
unfoldable pub detach_all : Allocator → Allocator
detach_all a = record a {
  slots = [];
  draining_slots = move_withdrawn [] a.slots a.draining_slots;
  pending_active = [];
}

-- `ShutdownContext`, up to the release of the slots it detached.
unfoldable pub begin_shutdown : Allocator → Allocator
begin_shutdown a =
    if a.stopping then a else detach_all (record a { stopping = true; ready = false })

-- `Pause`.
unfoldable pub pause : Allocator → Allocator
pause a = record a { ready = false }

-- What the store answers to a registration and to the read of the authority after it.
pub record Registration : Type 0 where
  pub registered : Result Error (Unit {0})
  pub authority : Result Error AuthoritySnapshot

initialize : Result Error Allocator → Allocator → Allocator × Result Error (Unit {0})
initialize (err e) a = (a, err e)
initialize (ok b) a = (record b { initialized = true }, ok tt)

unfoldable pub register_first : Registration → Allocator → Allocator × Result Error (Unit {0})
unfolding initialize
register_first r a =
    if a.initialized
    then (a, ok tt)
    else initialize (r.registered >>= λ u. r.authority >>= λ s. apply_authority s a) a

then_renew : HaConfig → Attempt → Attempt → Allocator × Result Error (Unit {0}) → Allocator
then_renew c first second (a, err e) = a
then_renew c first second (a, ok u) = (renew_locked c first second a).0

-- `RenewLeases`.
unfoldable pub renew_leases : HaConfig → Registration → Attempt → Attempt → Allocator → Allocator
unfolding then_renew
renew_leases c r first second a =
    if halted a then a else then_renew c first second (register_first r a)

unfoldable pub synced_or : Allocator → Result Error Allocator → Allocator
synced_or a (ok b) = b
synced_or a (err e) = a

-- `SyncAuthority`.
unfoldable pub sync_authority : Result Error AuthoritySnapshot → Allocator → Allocator
unfolding synced_or
sync_authority r a = if a.initialized then synced_or a (r >>= λ s. apply_authority s a) else a

-- What the store answers to one batch of `Claim`.
pub record Claiming : Type 0 where
  pub outcomes : Result Error (List ClaimOutcome)
  pub authority : Result Error AuthoritySnapshot

unfoldable pub renew_claimed :
    HaConfig
    → Attempt
    → Attempt
    → Result Error Allocator
    → Allocator
    → Allocator × Result Error (Unit {0})
renew_claimed c first second (err e) a = (a, err e)
renew_claimed c first second (ok b) a = renew_locked c first second b

-- One batch of `Claim`: what was granted is applied, and opened by a renewal.
unfoldable pub claim_batch :
    HaConfig → Claiming → Attempt → Attempt → Allocator → Allocator × Result Error (Unit {0})
unfolding synced_or renew_claimed
claim_batch c r first second a = elim r.outcomes [
  | ok outcomes ↦ renew_claimed c first second (r.authority >>= λ s. apply_authority s a) a
  | err e ↦
      if is_authority_changed e
      then (synced_or a (r.authority >>= λ s. apply_authority s a), err e)
      else (a, err e)
]
