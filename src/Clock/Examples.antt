-- ===== src/Clock/Examples.antt =====
-- A steady storage clock, and one that jumps.
use sindri.Prelude.{true, false, [], ◌∷◌, ok, err, ◌≡◌, refl, arith}
use sindri.Store.{authority_changed}
use sindri.Config.{HaConfig}
use sindri.Serving.{Attempt, new_allocator}
use sindri.Serving.Operations.{Registration}
use sindri.Serving.Stopped.{OutOfService, entering, marking, perform_all}
use sindri.Clock.{StorageClockMonitor, Sample, observe, node_renew}
use sindri.Clock.Bounds.{observe-no_false_alarm, node_renew-OutOfService}

abbrev monitor : StorageClockMonitor
monitor = record {
  drift_bound = 10;
  jump_bound = 20;
  armed = true;
  last_storage = 5000;
  last_start = 100;
  last_end = 104;
  violated = false;
  uncertain = 0;
}

abbrev steady : Sample
steady = record { start = 200; storage = 5103; end_at = 206 }

abbrev jumped : Sample
jumped = record steady { storage = 5400 }

observe-no_false_alarm_example : (observe (ok steady) monitor).1 ≡ ok tt
observe-no_false_alarm_example =
    observe-no_false_alarm steady monitor 102 203
      (record {
        times = (omega arith, omega arith, omega arith, omega arith);
        bounds = (omega arith, omega arith);
        order = (omega arith, omega arith, omega arith);
      })
      (record {
        within = (omega arith, omega arith, omega arith, omega arith);
        faster = (omega arith, omega arith);
        slower = omega arith;
      })
      refl

abbrev settings : HaConfig
settings = record {
  lease_duration = 300;
  quiet_window = 700;
  max_pause = 100;
  clock_drift = 10;
  clock_jump = 20;
  safety_margin = 50;
  renew_interval = 100;
  release_drain_timeout = 100;
  pause_verified = true;
  clock_disciplined = true;
  node_ttl = 900;
}

abbrev unanswered : Attempt
unanswered = record {
  anchor = 10;
  answered = 20;
  lease = λ revision. err authority_changed;
  authority = err authority_changed;
}

abbrev unregistered : Registration
unregistered = record { registered = ok tt; authority = err authority_changed }

node_renew-OutOfService_example :
    ((node_renew settings unregistered unanswered unanswered
        (ok jumped)
        monitor
        (new_allocator "n1" "a")).0.violated
      ≡ true)
    × OutOfService (
        perform_all
          (entering 7 ∷ marking ∷ [])
          (node_renew settings unregistered unanswered unanswered
            (ok jumped)
            monitor
            (new_allocator "n1" "a")).1)
node_renew-OutOfService_example =
    node_renew-OutOfService settings unregistered unanswered unanswered jumped monitor
      (new_allocator "n1" "a") (entering 7 ∷ marking ∷ [])
      (record {
        times = (omega arith, omega arith, omega arith, omega arith);
        bounds = (omega arith, omega arith);
        order = (omega arith, omega arith, omega arith);
      })
      refl (omega arith)
