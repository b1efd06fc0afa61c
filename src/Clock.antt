-- ===== src/Clock.antt =====
-- The monitor of the storage clock, StorageClockMonitor of internal/sequence/biz/placement.go, and
-- the renewal of internal/sequence/biz/placement.go's NodeManager, which fences on its word.
--
-- A difference of times is an int64 in two's complement; differences beyond it, which Go clamps, are
-- left out.
pub mod Bounds
pub mod Examples
use sindri.Prelude.{
  ℕ, ◌+◌, ◌-◌, ◌≤◌, ◌<◌, min, String, Bool, true, false, not, ◌&&◌, ◌||◌, Option, none, some, List,
  [], ◌∷◌, Result, ok, err, if◌then◌else◌, if-either, ◌≡◌, ◌≢◌, refl, sym, ◌∙◌, ap, subst, ◌⊎◌, inl,
  inr, Bool-cases, arith,
}
use sindri.Prelude.Int64.{Int64, two63, two64, add64, sub64, lt64}
use sindri.Store.{Time, Duration, Error, invalid}
use sindri.Config.{HaConfig}
use sindri.Serving.{Allocator, Attempt, halted}
use sindri.Serving.Operations.{Registration, fence, renew_leases}

pub record StorageClockMonitor : Type 0 where
  pub drift_bound : Duration
  pub jump_bound : Duration
  pub armed : Bool
  pub last_storage : Time
  pub last_start : Time
  pub last_end : Time
  pub violated : Bool
  pub uncertain : ℕ

-- One reading of the storage clock, between two readings of the local one.
pub record Sample : Type 0 where
  pub start : Time
  pub storage : Time
  pub end_at : Time

abbrev taken : Sample → StorageClockMonitor → StorageClockMonitor
taken s m = record m { last_storage = s.storage; last_start = s.start; last_end = s.end_at }

-- How far the storage clock ran ahead of the local one at least, and at most.
abbrev pub lower : Sample → StorageClockMonitor → Duration
lower s m = sub64 (sub64 s.storage m.last_storage) (sub64 s.end_at m.last_start)

abbrev pub upper : Sample → StorageClockMonitor → Duration
upper s m = sub64 (sub64 s.storage m.last_storage) (sub64 s.start m.last_end)

-- The sample proves that a bound is broken.
unfoldable pub breaks : Sample → StorageClockMonitor → Bool
breaks s m =
    lt64 m.jump_bound (lower s m)
    || lt64 m.drift_bound (lower s m)
    || lt64 (upper s m) (sub64 0 m.drift_bound)

unfoldable pub is_uncertain : Sample → StorageClockMonitor → Bool
is_uncertain s m =
    lt64 (lower s m) (sub64 0 m.drift_bound)
    || lt64 m.drift_bound (upper s m)
    || lt64 m.jump_bound (upper s m)

unfoldable pub observe_first : Sample → StorageClockMonitor → StorageClockMonitor
observe_first s m = record (taken s m) { armed = true }

unfoldable pub observe_next : Sample → StorageClockMonitor → StorageClockMonitor
observe_next s m = record (taken s m) {
  violated = m.violated || breaks s m;
  uncertain = if not (breaks s m) && is_uncertain s m then m.uncertain + 1 else m.uncertain;
}

-- errStorageClockViolation.
abbrev pub clock_violation : Error
clock_violation = invalid "sequence: storage clock exceeded the asserted drift or jump bound"

-- `Observe`, on what the read answers; a failed read leaves the monitor as it is.
unfoldable pub observe :
    Result Error Sample → StorageClockMonitor → StorageClockMonitor × Result Error (Unit {0})
observe (err e) m = (m, err e)
observe (ok s) m =
    let next = observe_next s m in
    if m.armed
    then (next, if next.violated then err clock_violation else ok tt)
    else (observe_first s m, ok tt)

-- `Violated`.
abbrev pub is_violated : StorageClockMonitor → Bool
is_violated m = m.violated

-- What `Renew` of the NodeManager does once the clock is read: the error is errStorageClockViolation
-- exactly when the monitor is armed, was read, and has seen a violation.
unfoldable pub node_renew :
    HaConfig
    → Registration
    → Attempt
    → Attempt
    → Result Error Sample
    → StorageClockMonitor
    → Allocator
    → StorageClockMonitor × Allocator
node_renew c r x y (err e) m a = (m, renew_leases c r x y a)
node_renew c r x y (ok s) m a =
    let seen = (observe (ok s) m).0 in
    (
      seen,
      if m.armed && seen.violated
          then fence "storage clock exceeded its asserted bound" a
          else renew_leases c r x y a,
    )
