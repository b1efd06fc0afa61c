-- ===== src/Gate.antt =====
-- The gate of one routing slot, biz/allocator.go's allocationSlot: a counter of the allocations
-- inside and a flag that closes it, under goroutines whose atomic operations interleave in any
-- order. The counter is a ℕ: it counts goroutines, and never nears 2 ^ 63.
pub mod Counts
pub mod Drained
pub mod Quiesces
pub mod Examples
use sindri.Prelude.{
  ℕ, zero, suc, get_elem?, ◌+◌, ◌-◌, Bool, true, false, Option, none, some, List, [], ◌∷◌, ◌==◌,
  if◌then◌else◌,
}

-- Where an allocation stands: before `enter`, after its Add(1), after it saw the gate closed, and
-- between a successful `enter` and `leave`.
pub data Caller : Type 0 where
  outside counted turned_away inside : Caller

-- Where the one call of `drain` stands, with what it reported.
pub data Drain : Type 0 where
  not_started polling quiesced timed_out : Drain

pub record Slot : Type 0 where
  pub inflight : ℕ
  pub draining : Bool
  -- The slot has left Allocator.slots for Allocator.drainingSlots.
  pub detached : Bool
  pub drain : Drain
  pub callers : List Caller

pub data Step : Type 0 where
  arrive : ℕ → Step
  proceed : ℕ → Step
  -- fenceSlot's compare-and-swap.
  fence : Step
  -- renewLocked opens the slots of pendingActive, which are slots of Allocator.slots.
  open_pending : Step
  -- applyAuthorityLocked or detachAllLocked withdraws the slot.
  detach : Step
  start_drain : Step
  -- One turn of drain's loop, and whether its deadline has passed.
  poll : Bool → Step

unfoldable pub set_caller : ℕ → Caller → List Caller → List Caller
set_caller t c [] = []
set_caller zero c (x ∷ xs) = c ∷ xs
set_caller (suc t) c (x ∷ xs) = x ∷ set_caller t c xs

-- s.inflight.Add(1).
unfoldable pub enter_add : ℕ → Slot → Slot
enter_add t s = record s { inflight = s.inflight + 1; callers = set_caller t counted s.callers }

-- `if s.draining.Load()`.
unfoldable pub enter_read : ℕ → Slot → Slot
enter_read t s = record s {
  callers = set_caller t (if s.draining then turned_away else inside) s.callers;
}

-- s.inflight.Add(-1), of `leave` and of an `enter` that is turned away.
unfoldable pub leave_gate : ℕ → Slot → Slot
leave_gate t s = record s { inflight = s.inflight - 1; callers = set_caller t outside s.callers }

unfoldable pub arrive_at : ℕ → Option Caller → Slot → Slot
unfolding enter_add
arrive_at t (some outside) s = enter_add t s
arrive_at t (some c) s = s
arrive_at t none s = s

unfoldable pub proceed_from : ℕ → Option Caller → Slot → Slot
unfolding enter_read leave_gate
proceed_from t (some counted) s = enter_read t s
proceed_from t (some turned_away) s = leave_gate t s
proceed_from t (some inside) s = leave_gate t s
proceed_from t (some outside) s = s
proceed_from t none s = s

unfoldable pub close_for_drain : Drain → Slot → Slot
close_for_drain not_started s = record s { draining = true; drain = polling }
close_for_drain d s = s

-- The source drains only slots that it has withdrawn.
unfoldable pub start_if : Bool → Slot → Slot
unfolding close_for_drain
start_if true s = close_for_drain s.drain s
start_if false s = s

unfoldable pub poll_drain : Drain → Bool → Slot → Slot
poll_drain polling expired s = record s {
  drain = if s.inflight == 0 then quiesced else if expired then timed_out else polling;
}
poll_drain d expired s = s

unfoldable pub step : Step → Slot → Slot
unfolding arrive_at proceed_from start_if poll_drain
step (arrive t) s = arrive_at t (get_elem? s.callers t) s
step (proceed t) s = proceed_from t (get_elem? s.callers t) s
step fence s = record s { draining = true }
step open_pending s = if s.detached then s else record s { draining = false }
step detach s = record s { draining = true; detached = true }
step start_drain s = start_if s.detached s
step (poll expired) s = poll_drain s.drain expired s

unfoldable pub run_steps : List Step → Slot → Slot
run_steps [] s = s
run_steps (e ∷ es) s = run_steps es (step e s)

-- A gate that applyAuthorityLocked has just made, before any of `n` goroutines comes.
abbrev pub outsiders : ℕ → List Caller
outsiders zero = []
outsiders (suc n) = outside ∷ outsiders n

abbrev pub new_slot : ℕ → Slot
new_slot n = record {
  inflight = 0;
  draining = true;
  detached = false;
  drain = not_started;
  callers = outsiders n;
}
