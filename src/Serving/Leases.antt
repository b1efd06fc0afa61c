-- ===== src/Serving/Leases.antt =====
-- The local lease against a takeover: the allocator's deadline, the settings and `ClaimSlots`.
use sindri.Prelude.{
  ℕ, ◌+◌, ◌≤◌, ◌<◌, true, some, ok, lookup, ℕ_discrete, String_discrete, ◌≡◌, ◌≢◌, sym, ◌∙◌, ap,
  subst, arith, inl, inr, some_injective,
}
use sindri.Prelude.Int64.{Int64, two63, add64, sub64, lt64}
use sindri.Store.{SlotState, Time, time_add, InstanceRow, OwnershipRow, Database, Commit}
use sindri.Store.Slots.{SlotTable}
use sindri.Config.{HaConfig, lease_deadline}
use sindri.Config.Margins.{Margins}
use sindri.Ownership.Claim.{ClaimRequest, claim_slots}
use sindri.Ownership.Takeover.{MayTake, vacant, ownerless, quiet, released}
use sindri.Ownership.Effects.{claim_slots-Claimed}
use sindri.Serving.{Allocator, Attempt}
use sindri.Serving.Operations.{check_local_lease}
use sindri.Serving.Renewal.{Accepted}

-- From the grant `granted` to `now` the storage clock ran at most the drift and the jump bounds
-- ahead of the instance's monotonic clock, which ran from `anchor`, read before the grant, to `mono`.
abbrev pub ClockBound : HaConfig → Time → Time → ℕ → ℕ → Type 0
ClockBound c granted now anchor mono = now + anchor ≤ granted + mono + c.clock_drift + c.clock_jump

-- The sums of durations and readings of the monotonic clock stay below 2 ^ 63 nanoseconds.
abbrev pub Small : HaConfig → ℕ → Type 0
Small c anchor = (anchor + c.lease_duration < two63) × (c.quiet_window < two63)

deadline_sum :
    (anchor lease safety : ℕ)
    → safety < lease
    → anchor + lease < two63
    → add64 anchor (sub64 lease safety) + safety ≡ anchor + lease
deadline_sum anchor lease safety inside small = omega arith

lt64-lt : (t d : ℕ) → t < two63 → d < two63 → lt64 t d ≡ true → t < d
lt64-lt t d low small h = ground arith

check_local_lease-before :
    (c : HaConfig) (anchor : ℕ) (b : Allocator) (t : Int64)
    → c.safety_margin < c.lease_duration
    → anchor + c.lease_duration < two63
    → t < two63
    → b.local_deadline ≡ add64 anchor (lease_deadline c)
    → check_local_lease t b ≡ ok tt
    → t + c.safety_margin < anchor + c.lease_duration
unfolding check_local_lease lease_deadline
check_local_lease-before c anchor b t inside small low e h =
    let total : b.local_deadline + c.safety_margin ≡ anchor + c.lease_duration =
      ap (λ d. d + c.safety_margin) e
      ∙ deadline_sum anchor c.lease_duration c.safety_margin inside small in
    let passed : lt64 t b.local_deadline ≡ true = ground arith in
    let before : t < b.local_deadline =
      lt64-lt t b.local_deadline low (omega (arith, total, small)) passed in
    omega (arith, before, total)

-- The old row was in service under an owner: the quiet window is the only reason left.
MayTake-quiet :
    (q : ClaimRequest) (now : Time) (db : Database) (o : OwnershipRow) (lease : InstanceRow)
    → o.state ≡ SlotState.owned
    → o.owner_instance_id ≡ some lease.instance_id
    → lookup String_discrete lease.instance_id db.instances ≡ some lease
    → MayTake q now db o
    → time_add lease.granted_at q.quiet_window ≤ now
MayTake-quiet q now db o lease owned owner registered (vacant s) = absurd (cc)
MayTake-quiet q now db o lease owned owner registered (ownerless s n) = absurd (cc)
MayTake-quiet q now db o lease owned owner registered (quiet id i s named found waited) =
    let same_id : id ≡ lease.instance_id = some_injective (sym named ∙ owner) in
    let same : i ≡ lease =
      some_injective
        (sym found ∙ ap (λ j. lookup String_discrete j db.instances) same_id ∙ registered) in
    subst (λ (x : InstanceRow). time_add x.granted_at q.quiet_window ≤ now) same waited
MayTake-quiet q now db o lease owned owner registered (released h s a1 a2 a3 a4 a5 a6) = absurd (cc)

time_add-positive : (t d : ℕ) → d < two63 → time_add t d ≡ t + d
unfolding time_add
time_add-positive t d small = ground arith

-- A claim takes a slot that is in service from an owner whose last lease renewal the allocator
-- anchored before the grant. If the clocks keep within their bounds in between and the settings
-- leave their margins, then an allocation whose check of the local lease passes, and which ends
-- within the pause bound of that check, ends before the takeover, a safety margin to spare.
pub claim_slots-after_local_lease :
    (c : HaConfig) (timeout : Int64) (x : Attempt) (lease : InstanceRow) (a b : Allocator)
    (t : Int64) (commit : Commit) (now : Time) (mono : ℕ) (q : ClaimRequest)
    (before_tx db : Database) (k : ℕ) (old new : OwnershipRow)
    → Margins c timeout
    → Small c x.anchor
    → Accepted c x lease a b
    → t < two63
    → check_local_lease t b ≡ ok tt
    → SlotTable db.slots
    → lookup ℕ_discrete k db.slots ≡ some old
    → old.state ≡ SlotState.owned
    → old.owner_instance_id ≡ some lease.instance_id
    → lookup String_discrete lease.instance_id db.instances ≡ some lease
    → q.quiet_window ≡ c.quiet_window
    → lookup ℕ_discrete k (claim_slots commit now q before_tx db).0.slots ≡ some new
    → old ≢ new
    → ClockBound c lease.granted_at now x.anchor mono
    → t + c.max_pause + c.safety_margin < mono
claim_slots-after_local_lease c timeout x lease a b t commit now mono q before_tx db k old new m
      small accepted low passed table held owned owner registered window left moved clocks =
    elim (claim_slots-Claimed commit now q before_tx db table k new left) [
      | inl same ↦ absurd (moved (some_injective (sym held ∙ same)))
      | inr (candidate, taken) ↦
          let same_old : taken.old ≡ old = some_injective (sym taken.held ∙ held) in
          let waited =
            MayTake-quiet q now db old lease owned owner registered
              (subst (MayTake q now db) same_old taken.reason) in
          let added =
            time_add-positive lease.granted_at q.quiet_window
              (subst (λ w. w < two63) (sym window) small.1) in
          let early =
            check_local_lease-before c x.anchor b t m.inside.1 small.0 low accepted.deadline
              passed in
          omega (arith, m.quiet, waited, added, window, early, clocks)
    ]
