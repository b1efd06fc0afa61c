-- ===== src/Config/Margins.antt =====
-- What accepted settings guarantee about time.
use sindri.Prelude.{ℕ, ◌+◌, ◌≤◌, ◌<◌, true, false, not, ◌||◌, ok, check, >>=-eq-ok, ◌≡◌, arith}
use sindri.Prelude.Int64.{two63, two64, lt64, le64, add64, sub64}
use sindri.Store.{Duration}
use sindri.Config.{
  HaConfig, NodeConfig, AllocatorConfig, FloatTests, MigrationConfig, ControlPlaneConfig,
  quiet_window_floor, lease_deadline, validate_authority, validate_ha, validate_data_plane,
  validate_allocator, validate_node, validate_migration, validate_control_plane, not_positive,
}

-- Every duration is an int64.
abbrev pub Int64s : HaConfig → Type 0
Int64s c =
    (c.lease_duration < two64)
    × (c.quiet_window < two64)
    × (c.max_pause < two64)
    × (c.clock_drift < two64)
    × (c.clock_jump < two64)
    × (c.safety_margin < two64)
    × (c.renew_interval < two64)

-- The time that the settings must leave, in numbers that do not wrap around: the quiet window
-- outlasts the lease with every clock and pause bound.
abbrev pub floor : HaConfig → ℕ
floor c = c.lease_duration + c.clock_drift + c.max_pause + c.clock_jump + c.safety_margin

validate_authority-floor :
    (c : HaConfig)
    → Int64s c
    → floor c < two63
    → validate_authority c ≡ ok tt
    → (floor c ≤ c.quiet_window) × (c.quiet_window < two63)
unfolding validate_authority quiet_window_floor
validate_authority-floor c bounds small h = ground arith

-- What a replica with these settings may rely on, in numbers that do not wrap around: the quiet
-- window outlasts the lease with every bound on pauses and clocks, and a renewal that starts on time
-- and takes its whole timeout ends before the local deadline, which is inside the lease.
pub record Margins (c : HaConfig) (reserve_timeout : Duration) : Type 0 where
  pub quiet : floor c ≤ c.quiet_window
  pub measured : (c.pause_verified ≡ true) × (c.clock_disciplined ≡ true)
  pub inside : (0 < c.safety_margin) × (c.safety_margin < c.lease_duration)
  pub renews : c.renew_interval + reserve_timeout + c.safety_margin < c.lease_duration

validate_ha-margins :
    (c : HaConfig)
    → validate_ha c ≡ ok tt
    → (validate_authority c ≡ ok tt)
      × (c.pause_verified ≡ true)
      × (c.clock_disciplined ≡ true)
      × (not_positive c.renew_interval ≡ false)
      × (le64 c.lease_duration c.renew_interval ≡ false)
unfolding validate_ha
validate_ha-margins c h =
    let (u, authority, rest) = >>=-eq-ok (validate_authority c) _ h in
    (authority, ground arith, ground arith, ground arith, ground arith)

validate_authority-positive :
    (c : HaConfig)
    → validate_authority c ≡ ok tt
    → (not_positive c.lease_duration ≡ false) × (not_positive c.safety_margin ≡ false)
unfolding validate_authority
validate_authority-positive c h = (ground arith, ground arith)

validate_allocator-positive :
    {Float : Type 0} (float : FloatTests Float) (a : AllocatorConfig Float)
    → validate_allocator float a ≡ ok tt
    → not_positive a.reserve_timeout ≡ false
unfolding validate_allocator
validate_allocator-positive float a h = ground arith

deadline-renews :
    (lease safety renew timeout : ℕ)
    → lease < two64
    → safety < two64
    → renew < two64
    → timeout < two64
    → not_positive lease ≡ false
    → not_positive safety ≡ false
    → not_positive renew ≡ false
    → not_positive timeout ≡ false
    → renew + timeout < two63
    → le64 (sub64 lease safety) (add64 renew timeout) ≡ false
    → (0 < safety) × (safety < lease) × (renew + timeout + safety < lease)
deadline-renews lease safety renew timeout b1 b2 b3 b4 p1 p2 p3 p4 small late = ground arith

-- Settings that `DataPlaneConfig.Validate` accepts have these margins, if the sums of durations that
-- it compares stay below 2 ^ 63 nanoseconds.
pub validate_data_plane-Margins :
    {Float : Type 0} (float : FloatTests Float) (a : AllocatorConfig Float) (node : NodeConfig)
    (c : HaConfig)
    → Int64s c
    → a.reserve_timeout < two64
    → floor c < two63
    → c.renew_interval + a.reserve_timeout < two63
    → validate_data_plane float a node c ≡ ok tt
    → Margins c a.reserve_timeout
unfolding validate_data_plane lease_deadline
validate_data_plane-Margins float a node c bounds timeout_bound small small_renewal h =
    let (u, allocator, h1) = >>=-eq-ok (validate_allocator float a) _ h in
    let (v, named, h2) = >>=-eq-ok (validate_node node) _ h1 in
    let (w, ha, h3) = >>=-eq-ok (validate_ha c) _ h2 in
    let (authority, pause, clock, renew, before) = validate_ha-margins c ha in
    let (lease, safety) = validate_authority-positive c authority in
    let (one, two, three) =
      deadline-renews c.lease_duration c.safety_margin c.renew_interval a.reserve_timeout bounds.0
        bounds.5 bounds.6 timeout_bound lease safety renew
        (validate_allocator-positive float a allocator) small_renewal (ground arith) in
    record {
      quiet = (validate_authority-floor c bounds small authority).0;
      measured = (pause, clock);
      inside = (one, two);
      renews = three;
    }

abbrev pub MigrationInt64s : MigrationConfig → Type 0
MigrationInt64s c =
    (c.batch_slots < two64)
    × (c.max_inflight < two64)
    × (c.max_per_source < two64)
    × (c.max_per_target < two64)
    × (c.max_planned < two64)

-- The limits fit together, and the publisher's pass ends within its tenure.
pub record Schedule (c : ControlPlaneConfig) : Type 0 where
  pub batch : (0 < c.migration.batch_slots) × (c.migration.batch_slots ≤ 1000)
  pub fits :
      (c.migration.batch_slots ≤ c.migration.max_inflight)
      × (c.migration.batch_slots ≤ c.migration.max_per_source)
      × (c.migration.batch_slots ≤ c.migration.max_per_target)
  pub planned :
      (c.migration.max_inflight ≤ c.migration.max_planned) × (c.migration.max_planned ≤ 16384)
  pub tenure :
      (0 < c.pass_timeout)
      × (c.pass_timeout < c.coordinator_lease)
      × (0 < c.active_publish_interval)
      × (c.active_publish_interval ≤ c.reconcile_interval)
      × (c.reconcile_interval < c.coordinator_lease)

validate_migration-fits :
    (c : MigrationConfig)
    → MigrationInt64s c
    → validate_migration c ≡ ok tt
    → ((0 < c.batch_slots) × (c.batch_slots ≤ 1000))
      × ((c.batch_slots ≤ c.max_inflight)
          × (c.batch_slots ≤ c.max_per_source)
          × (c.batch_slots ≤ c.max_per_target))
      × (c.max_inflight ≤ c.max_planned)
      × (c.max_planned ≤ 16384)
unfolding validate_migration
validate_migration-fits c bounds h = (
  (ground arith, ground arith),
  (ground arith, ground arith, ground arith),
  ground arith,
  ground arith,
)

abbrev pub ScheduleInt64s : ControlPlaneConfig → Type 0
ScheduleInt64s c =
    (c.active_publish_interval < two64)
    × (c.coordinator_lease < two64)
    × (c.reconcile_interval < two64)
    × (c.pass_timeout < two64)
    × MigrationInt64s c.migration

-- Settings that `ControlPlaneConfig.Validate` accepts are a schedule.
pub validate_control_plane-Schedule :
    (c : ControlPlaneConfig) → ScheduleInt64s c → validate_control_plane c ≡ ok tt → Schedule c
unfolding validate_control_plane
validate_control_plane-Schedule c bounds h =
    let (u, layout, h1) = >>=-eq-ok (check (not (not_positive c.layout_version)) _) _ h in
    let (v, publish, h2) =
      >>=-eq-ok
        (check
          (not (
            not_positive c.active_publish_interval
            || lt64 c.reconcile_interval c.active_publish_interval))
          _)
        _ h1 in
    let (w, migration, h3) = >>=-eq-ok (validate_migration c.migration) _ h2 in
    let (batch, fits, inflight, planned) = validate_migration-fits c.migration bounds.4 migration in
    record {
      batch = batch;
      fits = fits;
      planned = (inflight, planned);
      tenure = (ground arith, ground arith, ground arith, ground arith, ground arith);
    }
