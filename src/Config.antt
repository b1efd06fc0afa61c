-- ===== src/Config.antt =====
-- internal/sequence/biz/config.go: the settings that a replica accepts.
--
-- Durations and counts are signed 64-bit patterns. The comparisons of the three settings in floating
-- point are parameters.
pub mod Margins
pub mod Examples
use sindri.Prelude.{
  ℕ, ◌+◌, String, Bool, true, false, not, ◌&&◌, ◌||◌, Result, ok, err, ◌>>=◌, ◌>>◌, check, ltb,
  length, if◌then◌else◌, str_eq,
}
use sindri.Prelude.Int64.{Int64, add64, sub64, lt64, le64}
use sindri.Store.{Duration, Error, invalid}
use sindri.Keys.{bytes}

pub record HaConfig : Type 0 where
  pub lease_duration : Duration
  pub quiet_window : Duration
  pub max_pause : Duration
  pub clock_drift : Duration
  pub clock_jump : Duration
  pub safety_margin : Duration
  pub renew_interval : Duration
  pub release_drain_timeout : Duration
  pub pause_verified : Bool
  pub clock_disciplined : Bool
  pub node_ttl : Duration

-- A negative int64, and one that is not positive.
abbrev pub negative : Int64 → Bool
negative x = lt64 x 0

abbrev pub not_positive : Int64 → Bool
not_positive x = le64 x 0

-- `QuietWindowFloor`: the sum wraps around.
unfoldable pub quiet_window_floor : HaConfig → Duration
quiet_window_floor c =
    add64 (add64 (add64 (add64 c.lease_duration c.clock_drift) c.max_pause) c.clock_jump)
      c.safety_margin

unfoldable pub lease_deadline : HaConfig → Duration
lease_deadline c = sub64 c.lease_duration c.safety_margin

unfoldable pub validate_authority : HaConfig → Result Error (Unit {0})
validate_authority c = do
  check (not (not_positive c.lease_duration || not_positive c.max_pause || not_positive c.node_ttl))
      (invalid "dataplane.ha lease_duration, max_pause and node_ttl must be positive")
  check (not (negative c.clock_drift || negative c.clock_jump || not_positive c.safety_margin))
      (invalid "dataplane.ha clock bounds must not be negative and safety_margin must be positive")
  check (not (lt64 c.quiet_window (quiet_window_floor c)))
      (invalid "dataplane.ha.quiet_window must be at least its floor")

unfoldable pub validate_ha : HaConfig → Result Error (Unit {0})
validate_ha c = do
  validate_authority c
  check c.pause_verified (invalid "dataplane.ha.pause_verified is required")
  check c.clock_disciplined (invalid "dataplane.ha.clock_disciplined is required")
  check (not (not_positive c.renew_interval || le64 c.lease_duration c.renew_interval))
      (invalid "dataplane.ha.renew_interval must be within (0, lease_duration)")
  check (not (not_positive c.release_drain_timeout))
      (invalid "dataplane.ha.release_drain_timeout must be positive")

pub record NodeConfig : Type 0 where
  pub id : String
  pub heartbeat_interval : Duration
  pub route_refresh_interval : Duration
  pub handoff_interval : Duration
  pub route_query_timeout : Duration

unfoldable pub validate_node : NodeConfig → Result Error (Unit {0})
validate_node c = do
  check (not (str_eq c.id "" || ltb 256 (length (bytes c.id))))
      (invalid "dataplane.node.id must contain 1..256 bytes")
  check (not (not_positive c.route_query_timeout))
      (invalid "dataplane.node.route_query_timeout must be positive")
  check
      (not (
        not_positive c.heartbeat_interval
        || not_positive c.route_refresh_interval
        || not_positive c.handoff_interval))
      (invalid "dataplane.node intervals must be positive")

-- AllocatorConfig, with `Float` for float64.
pub record AllocatorConfig (Float : Type 0) : Type 0 where
  pub default_step : Int64
  pub max_step : Int64
  pub prefetch_ratio : Float
  pub prefetch_latency_multiplier : Float
  pub prefetch_latency_window : Duration
  pub prefetch_latency_min_samples : Int64
  pub prefetch_rate_reset_after : Duration
  pub step_increase_threshold : Duration
  pub step_decrease_threshold : Duration
  pub reserve_timeout : Duration
  pub idle_timeout : Duration
  pub cleanup_interval : Duration
  pub cleanup_slots_per_run : Int64
  pub memory_high_watermark_ratio : Float

-- The three tests on floating-point settings: 0 < x < 1, and 1 < x <= 10.
pub record FloatTests (Float : Type 0) : Type 0 where
  pub within_zero_one : Float → Bool
  pub within_one_ten : Float → Bool

module _ {Float : Type 0} (float : FloatTests Float) where
  unfoldable pub validate_allocator : AllocatorConfig Float → Result Error (Unit {0})
  validate_allocator c = do
    check (not (lt64 c.default_step 10))
        (invalid "dataplane.allocator.default_step must be at least its minimum")
    check (not (lt64 c.max_step c.default_step))
        (invalid "dataplane.allocator.max_step must not be less than default_step")
    check (float.within_zero_one c.prefetch_ratio)
        (invalid "dataplane.allocator.prefetch_ratio must be within (0,1)")
    check (float.within_one_ten c.prefetch_latency_multiplier)
        (invalid "dataplane.allocator.prefetch_latency_multiplier must be within (1,10]")
    check (not (not_positive c.prefetch_latency_window))
        (invalid "dataplane.allocator.prefetch_latency_window must be positive")
    check
        (not
          (not_positive c.prefetch_latency_min_samples || lt64 1024 c.prefetch_latency_min_samples))
        (invalid "dataplane.allocator.prefetch_latency_min_samples is out of range")
    check (not (not_positive c.prefetch_rate_reset_after))
        (invalid "dataplane.allocator.prefetch_rate_reset_after must be positive")
    check (not (not_positive c.step_increase_threshold))
        (invalid "dataplane.allocator.step_increase_threshold must be positive")
    check (not (le64 c.step_decrease_threshold c.step_increase_threshold))
        (invalid "dataplane.allocator.step_decrease_threshold must exceed step_increase_threshold")
    check (not (not_positive c.reserve_timeout))
        (invalid "dataplane.allocator.reserve_timeout must be positive")
    check (not (not_positive c.idle_timeout))
        (invalid "dataplane.allocator.idle_timeout must be positive")
    check (not (not_positive c.cleanup_interval))
        (invalid "dataplane.allocator.cleanup_interval must be positive")
    check (not (not_positive c.cleanup_slots_per_run || lt64 16384 c.cleanup_slots_per_run))
        (invalid "dataplane.allocator.cleanup_slots_per_run is out of range")
    check (float.within_zero_one c.memory_high_watermark_ratio)
        (invalid "dataplane.allocator.memory_high_watermark_ratio must be within (0,1)")
    check (not (lt64 c.idle_timeout c.cleanup_interval))
        (invalid "dataplane.allocator.idle_timeout must not be less than cleanup_interval")

  -- `DataPlaneConfig.Validate`, on the three sections.
  unfoldable pub validate_data_plane :
      AllocatorConfig Float → NodeConfig → HaConfig → Result Error (Unit {0})
  validate_data_plane allocator node ha = do
    validate_allocator allocator
    validate_node node
    validate_ha ha
    check (not (le64 (lease_deadline ha) (add64 ha.renew_interval allocator.reserve_timeout)))
        (invalid "dataplane: a renewal cannot complete before the local deadline")

pub record MigrationConfig : Type 0 where
  pub join_stability_window : Duration
  pub batch_slots : Int64
  pub max_inflight : Int64
  pub max_per_source : Int64
  pub max_per_target : Int64
  pub max_planned : Int64

-- b > min(x, y, z).
abbrev above_min : Int64 → Int64 → Int64 → Int64 → Bool
above_min b x y z = lt64 x b || lt64 y b || lt64 z b

unfoldable pub validate_migration : MigrationConfig → Result Error (Unit {0})
validate_migration c =
    check
      (not (
        not_positive c.join_stability_window
        || not_positive c.batch_slots
        || lt64 1000 c.batch_slots
        || not_positive c.max_inflight
        || not_positive c.max_per_source
        || not_positive c.max_per_target
        || lt64 c.max_planned c.max_inflight
        || lt64 16384 c.max_planned
        || above_min c.batch_slots c.max_inflight c.max_per_source c.max_per_target))
      (invalid "controlplane.migration limits are invalid")

pub record ControlPlaneConfig : Type 0 where
  pub migration : MigrationConfig
  pub active_publish_interval : Duration
  pub layout_version : Int64
  pub coordinator_lease : Duration
  pub reconcile_interval : Duration
  pub pass_timeout : Duration

unfoldable pub validate_control_plane : ControlPlaneConfig → Result Error (Unit {0})
validate_control_plane c = do
  check (not (not_positive c.layout_version))
      (invalid "controlplane.layout_version must be positive")
  check
      (not (
        not_positive c.active_publish_interval
        || lt64 c.reconcile_interval c.active_publish_interval))
      (invalid "controlplane.active_publish_interval must be within (0,reconcile_interval]")
  validate_migration c.migration
  check (not (not_positive c.coordinator_lease))
      (invalid "controlplane.coordinator_lease must be positive")
  check (not (not_positive c.reconcile_interval))
      (invalid "controlplane.reconcile_interval must be positive")
  check (not (not_positive c.pass_timeout)) (invalid "controlplane.pass_timeout must be positive")
  check (not (le64 c.coordinator_lease c.reconcile_interval)) (
      invalid "controlplane.reconcile_interval must be shorter than controlplane.coordinator_lease")
  check (not (le64 c.coordinator_lease c.pass_timeout))
      (invalid "controlplane.pass_timeout must be shorter than controlplane.coordinator_lease")
