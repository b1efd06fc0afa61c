-- ===== src/Config/Examples.antt =====
-- The default settings, and one that wraps around.
use sindri.Prelude.{true, ok, ◌≡◌, refl, arith, String_discrete, Bool-cases}
use sindri.Config.{
  HaConfig, NodeConfig, AllocatorConfig, FloatTests, MigrationConfig, ControlPlaneConfig,
  validate_authority, validate_data_plane, validate_control_plane,
}
use sindri.Config.Margins.{
  Margins, Schedule, validate_data_plane-Margins, validate_control_plane-Schedule,
}

abbrev default_ha : HaConfig
default_ha = record {
  lease_duration = 3000000000;
  quiet_window = 5000000000;
  max_pause = 1000000000;
  clock_drift = 100000000;
  clock_jump = 100000000;
  safety_margin = 500000000;
  renew_interval = 1000000000;
  release_drain_timeout = 2000000000;
  pause_verified = true;
  clock_disciplined = true;
  node_ttl = 15000000000;
}

abbrev node : NodeConfig
node = record {
  id = "node-a";
  heartbeat_interval = 1000000000;
  route_refresh_interval = 1000000000;
  handoff_interval = 250000000;
  route_query_timeout = 1000000000;
}

-- The settings in floating point are left at their defaults.
abbrev accept_defaults : FloatTests Unit
accept_defaults = record { within_zero_one = λ x. true; within_one_ten = λ x. true }

abbrev default_allocator : AllocatorConfig Unit
default_allocator = record {
  default_step = 1000;
  max_step = 100000;
  prefetch_ratio = tt;
  prefetch_latency_multiplier = tt;
  prefetch_latency_window = 60000000000;
  prefetch_latency_min_samples = 16;
  prefetch_rate_reset_after = 60000000000;
  step_increase_threshold = 900000000000;
  step_decrease_threshold = 1800000000000;
  reserve_timeout = 1000000000;
  idle_timeout = 86400000000000;
  cleanup_interval = 1000000000;
  cleanup_slots_per_run = 64;
  memory_high_watermark_ratio = tt;
}

defaults_accepted : validate_data_plane accept_defaults default_allocator node default_ha ≡ ok tt
unfolding validate_data_plane String_discrete Bool-cases sindri.Config.validate_allocator
    sindri.Config.validate_node sindri.Keys.bytes sindri.Config.validate_ha validate_authority
    sindri.Config.quiet_window_floor sindri.Config.lease_deadline
defaults_accepted = refl

validate_data_plane-Margins_example : Margins default_ha 1000000000
validate_data_plane-Margins_example =
    validate_data_plane-Margins accept_defaults default_allocator node default_ha
      (omega arith, omega arith, omega arith, omega arith, omega arith, omega arith, omega arith)
      (omega arith) (omega arith) (omega arith) defaults_accepted

abbrev default_control : ControlPlaneConfig
default_control = record {
  migration = record {
    join_stability_window = 15000000000;
    batch_slots = 64;
    max_inflight = 256;
    max_per_source = 64;
    max_per_target = 64;
    max_planned = 1024;
  };
  active_publish_interval = 250000000;
  layout_version = 1;
  coordinator_lease = 10000000000;
  reconcile_interval = 5000000000;
  pass_timeout = 3000000000;
}

control_accepted : validate_control_plane default_control ≡ ok tt
unfolding validate_control_plane sindri.Config.validate_migration
control_accepted = refl

validate_control_plane-Schedule_example : Schedule default_control
validate_control_plane-Schedule_example =
    validate_control_plane-Schedule default_control
      (
        omega arith,
        omega arith,
        omega arith,
        omega arith,
        (omega arith, omega arith, omega arith, omega arith, omega arith),
      )
      control_accepted

-- A drift bound of almost 2 ^ 63 nanoseconds makes the floor of the quiet window negative, and the
-- five seconds above are accepted for it.
wrapped_floor_accepted :
    validate_authority (record default_ha { clock_drift = 9223372036854775807 }) ≡ ok tt
unfolding validate_authority sindri.Config.quiet_window_floor
wrapped_floor_accepted = refl
