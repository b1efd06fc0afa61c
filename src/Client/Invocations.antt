-- ===== src/Client/Invocations.antt =====
-- How often runWithRetry invokes.
use sindri.Prelude.{
  ℕ, zero, suc, ◌+◌, ◌≤◌, Bool, true, false, Option, none, some, ◌==◌, if◌then◌else◌, if-either,
  ◌≡◌, refl, arith,
}
use sindri.Prelude.Int64.{Int64}
use sindri.Client.Retries.{
  RetryDecision, RetryPolicy, retry_delay, World, Turn, stop, again, is_never, is_refresh,
  judge_invocation, within_context, invoke_now, invoke_once, refreshed, after_wait, back_off,
  attempt_once, onward, retry_loop, run_with_retry,
}

-- `count` counts the invocations: nothing else moves it.
pub record CountsInvocations {W E : Type 0} (m : World W E) (count : W → ℕ) : Type 0 where
  pub on_invoke : (w : W) → count (m.invoke w).0 ≡ count w + 1
  pub on_timeout : (t : Int64) (w : W) → count (m.with_timeout t w) ≡ count w
  pub on_context : (w : W) → count (m.context_error w).0 ≡ count w
  pub on_wait : (t : Int64) (w : W) → count (m.retry_wait t w).0 ≡ count w
  pub on_refresh : (v : Int64) (w : W) → count (m.refresh_after v w).0 ≡ count w

module _ {W E : Type 0} (m : World W E) (count : W → ℕ) (c : CountsInvocations m count) where
  within_context-count :
      (next : W → W × Turn E) (k : ℕ) (x : W × Option E)
      → count (next x.0).0 ≤ count x.0 + k
      → count (within_context m next x).0 ≤ count x.0 + k
  unfolding within_context
  within_context-count next k (w, some e) h = omega arith
  within_context-count next k (w, none) h = h

  judge_invocation-count :
      (r : Option E) (v : Int64) (w : W) → count (judge_invocation m r v w).0 ≡ count w
  unfolding judge_invocation
  judge_invocation-count none v w = refl
  judge_invocation-count (some e) v w =
      if-either (λ (t : W × Turn E). count t.0 ≡ count w) (is_never (m.classify e).action)
        (λ _. refl) (λ _. refl)

  invoke_once-count : (w : W) → count (invoke_once m w).0 ≤ count w + 1
  unfolding invoke_once invoke_now
  invoke_once-count w =
      let w1 = (m.context_error w).0 in
      let (w2, result) = m.invoke w1 in
      let observed = if m.version w1 == 0 then m.version w2 else m.version w1 in
      let alive = c.on_context w in
      let invoked = c.on_invoke w1 in
      let after = c.on_context w2 in
      let judged =
        within_context-count (judge_invocation m result observed) 0 (m.context_error w2)
          (omega (arith, judge_invocation-count result observed (m.context_error w2).0)) in
      let whole : count (invoke_now m w1).0 ≤ count w1 + 1 =
        omega (arith, judged, after, invoked) in
      omega (arith, alive, within_context-count (invoke_now m) 1 (m.context_error w) whole)

  refreshed-count : (v : Int64) (x : W × Option E) → count (refreshed m v x).0 ≤ count x.0 + 1
  unfolding refreshed
  refreshed-count v (w, none) = invoke_once-count w
  refreshed-count v (w, some e) =
      if-either (λ (t : W × Turn E). count t.0 ≤ count w + 1) (is_never (m.classify e).action)
        (λ _. omega arith) (λ _. omega arith)

  after_wait-count :
      (d : RetryDecision) (v : Int64) (x : W × Option E)
      → count (after_wait m d v x).0 ≤ count x.0 + 1
  unfolding after_wait
  after_wait-count d v (w, some e) = omega arith
  after_wait-count d v (w, none) =
      if-either (λ (t : W × Turn E). count t.0 ≤ count w + 1) (is_refresh d.action)
        (λ _. omega (arith, c.on_refresh v w, refreshed-count v (m.refresh_after v w)))
        (λ _. invoke_once-count w)

  back_off-count :
      (p : RetryPolicy) (attempt : ℕ) (last : Option E) (v : Int64) (w : W)
      → count (back_off m p attempt last v w).0 ≤ count w + 1
  unfolding back_off
  back_off-count p attempt none v w = invoke_once-count w
  back_off-count p attempt (some e) v w =
      let delay = retry_delay (m.scale w) p attempt (m.classify e).after in
      omega (arith, c.on_wait delay w, after_wait-count (m.classify e) v (m.retry_wait delay w))

  attempt_once-count :
      (p : RetryPolicy) (attempt : ℕ) (last : Option E) (v : Int64) (w : W)
      → count (attempt_once m p attempt last v w).0 ≤ count w + 1
  unfolding attempt_once
  attempt_once-count p attempt last v w = omega (
    arith,
    c.on_context w,
    within_context-count (back_off m p attempt last v) 1 (m.context_error w)
        (back_off-count p attempt last v (m.context_error w).0),
  )

  onward-count :
      (rest : E → Int64 → W → W × Option E) (n : ℕ) (x : W × Turn E)
      → ((e : E) (v : Int64) (w : W) → count (rest e v w).0 ≤ count w + n)
      → count (onward m rest x).0 ≤ count x.0 + n
  unfolding onward
  onward-count rest n (w, stop r) h = omega arith
  onward-count rest n (w, again e v) h = h e v w

  retry_loop-count :
      (p : RetryPolicy) (n attempt : ℕ) (last : Option E) (v : Int64) (w : W)
      → count (retry_loop m p n attempt last v w).0 ≤ count w + n
  unfolding retry_loop
  retry_loop-count p zero attempt last v w = omega arith
  retry_loop-count p (suc n) attempt last v w = omega (
    arith,
    attempt_once-count p attempt last v w,
    onward-count (λ e. retry_loop m p n (attempt + 1) (some e)) n
        (attempt_once m p attempt last v w)
        (λ e v' w'. retry_loop-count p n (attempt + 1) (some e) v' w'),
  )

  -- runWithRetry comes to an end after at most as many invocations as the policy has attempts, and
  -- after one in a context that is marked as a single attempt.
  pub run_with_retry-bound :
      (p : RetryPolicy) (single : Bool) (w : W)
      → count (run_with_retry m p single w).0 ≤ count w + (if single then 1 else p.max_attempts)
  unfolding run_with_retry
  run_with_retry-bound p true w = omega (arith, c.on_invoke w)
  run_with_retry-bound p false w = omega (
    arith,
    c.on_timeout p.max_elapsed w,
    retry_loop-count p p.max_attempts 0 none 0 (m.with_timeout p.max_elapsed w),
  )
