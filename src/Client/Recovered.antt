-- ===== src/Client/Recovered.antt =====
-- An allocation whose first invocation meets a stale route and whose second succeeds.
use sindri.Prelude.{
  ap, ℕ, ◌+◌, ◌/◌, ◌≤◌, true, false, Option, none, some, ◌==◌, if◌then◌else◌, ◌≡◌, refl, ◌⊎◌, arith,
}
use sindri.Prelude.Int64.{Int64}
use sindri.Client.Retries.{
  RetryAction, RetryDecision, default_policy, is_valid, retry_delay, World, run_with_retry,
}
use sindri.Client.Attempts.{Succeeded, retry_delay-bounds, run_with_retry-Succeeded}
use sindri.Client.Invocations.{CountsInvocations, run_with_retry-bound}

data Failure : Type 0 where
  stale : Failure

-- The invocations so far and the time that the waits have taken.
record Clocked : Type 0 where
  invocations : ℕ
  elapsed : ℕ

abbrev halved : Int64 → Int64
halved x = x / 2

abbrev world : World Clocked Failure
world = record {
  with_timeout = λ t w. w;
  context_error = λ w. (w, none);
  retry_wait = λ t w. (record w { elapsed = w.elapsed + t }, none);
  version = λ w. 7;
  refresh_after = λ v w. (w, none);
  invoke = λ w. (
    record w { invocations = w.invocations + 1 },
    if w.invocations == 0 then some stale else none,
  );
  classify = λ e. record { action = RetryAction.refresh; after = 0 };
  retry_result = λ e. e;
  scale = λ w x. halved x;
}

abbrev begun : Clocked
begun = record { invocations = 0; elapsed = 0 }

default_valid : is_valid default_policy ≡ true
unfolding is_valid
default_valid = refl

-- The second attempt comes after a wait of three quarters of the first backoff.
second_attempt :
    run_with_retry world default_policy false begun
    ≡ (record { invocations = 2; elapsed = 75000000 }, none)
unfolding run_with_retry retry_delay sindri.Client.Retries.grow
second_attempt = refl

recovered : (run_with_retry world default_policy false begun).1 ≡ none
recovered = ap (λ (x : Clocked × Option Failure). x.1) second_attempt

run_with_retry-Succeeded_example :
    Succeeded world false begun (run_with_retry world default_policy false begun).0
run_with_retry-Succeeded_example =
    run_with_retry-Succeeded world default_policy false begun default_valid recovered

counted : CountsInvocations world (λ w. w.invocations)
counted = record {
  on_invoke = λ w. refl;
  on_timeout = λ t w. refl;
  on_context = λ w. refl;
  on_wait = λ t w. refl;
  on_refresh = λ v w. refl;
}

run_with_retry-bound_example : (run_with_retry world default_policy false begun).0.invocations ≤ 8
run_with_retry-bound_example =
    run_with_retry-bound world (λ w. w.invocations) counted default_policy false begun

halved-part : (x : Int64) → x ≤ 2000000000 → halved x ≤ x
halved-part x small = omega arith

retry_delay-bounds_example :
    (0 ≤ retry_delay halved default_policy 3 0)
    × (50000000 ≤ retry_delay halved default_policy 3 0)
    × ((retry_delay halved default_policy 3 0 ≤ 2000000000)
        ⊎ (retry_delay halved default_policy 3 0 ≡ 0))
retry_delay-bounds_example =
    retry_delay-bounds default_policy halved 3 0 default_valid (omega arith, omega arith)
      (omega arith) halved-part
