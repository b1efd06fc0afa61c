-- ===== src/Client/Retries.antt =====
-- The client's retries, pkg/sequence/router.go: retryDelay and runWithRetry.
--
-- The world of one allocation, with its context, its clock and its router, is a parameter, and so are
-- its parts: what ends the context, the waits, the route's version and refresh, the invocation, the
-- classification of an error, and the random part of a delay.
use sindri.Prelude.{
  ℕ, zero, suc, ◌+◌, ◌-◌, ◌/◌, Bool, true, false, not, ◌||◌, Option, none, some, ltb, ◌==◌,
  if◌then◌else◌,
}
use sindri.Prelude.Int64.{Int64, add64, lt64, le64}

-- RetryAfterBackoff, RetryAfterRefresh, RetryAfterThrottle and RetryNever.
pub data RetryAction : Type 0 where
  backoff refresh throttle never : RetryAction

pub record RetryDecision : Type 0 where
  pub action : RetryAction
  pub after : Int64

pub record RetryPolicy : Type 0 where
  pub max_attempts : ℕ
  pub max_elapsed : Int64
  pub initial_backoff : Int64
  pub max_backoff : Int64

-- `Validate`; MaxAttempts, an int, is a number.
unfoldable pub is_valid : RetryPolicy → Bool
is_valid p = not (
    ltb p.max_attempts 1
    || le64 p.max_elapsed 0
    || le64 p.initial_backoff 0
    || lt64 p.max_backoff p.initial_backoff)

-- DefaultRetryPolicy.
abbrev pub default_policy : RetryPolicy
default_policy = record {
  max_attempts = 8;
  max_elapsed = 10000000000;
  initial_backoff = 100000000;
  max_backoff = 2000000000;
}

-- The loop of retryDelay, with the doublings that are left.
unfoldable pub grow : RetryPolicy → ℕ → Int64 → Int64
grow p zero delay = delay
grow p (suc n) delay =
    if lt64 delay p.max_backoff
    then grow p n (if lt64 (p.max_backoff / 2) delay then p.max_backoff else add64 delay delay)
    else delay

-- `retryDelay`; `scale` multiplies by a random number below 1 and rounds.
unfoldable pub retry_delay : (Int64 → Int64) → RetryPolicy → ℕ → Int64 → Int64
retry_delay scale p attempt minimum =
    let delay = grow p (attempt - 1) p.initial_backoff in
    let jittered = add64 (delay / 2) (scale (delay - delay / 2)) in
    if lt64 jittered minimum then minimum else jittered

-- What the retries of one allocation act on; every part may move the clock.
pub record World (W E : Type 0) : Type 1 where
  -- context.WithTimeout
  pub with_timeout : Int64 → W → W
  -- ctx.Err()
  pub context_error : W → W × Option E
  pub retry_wait : Int64 → W → W × Option E
  pub version : W → Int64
  pub refresh_after : Int64 → W → W × Option E
  pub invoke : W → W × Option E
  pub classify : E → RetryDecision
  pub retry_result : E → E
  -- The factor of a delay's random part.
  pub scale : W → Int64 → Int64

-- How an attempt ends: the loop returns, or goes on with the last error and the observed version.
pub data Turn (E : Type 0) : Type 0 where
  stop : Option E → Turn E
  again : E → Int64 → Turn E

abbrev pub is_never : RetryAction → Bool
is_never a = elim a [ never ↦ true | _ ↦ false ]

abbrev pub is_refresh : RetryAction → Bool
is_refresh a = elim a [ refresh ↦ true | _ ↦ false ]

module _ {W E : Type 0} (m : World W E) where
  unfoldable pub judge_invocation : Option E → Int64 → W → W × Turn E
  judge_invocation none v w = (w, stop none)
  judge_invocation (some e) v w =
      if is_never (m.classify e).action then (w, stop (some (m.retry_result e))) else (w, again e v)

  -- `if ctx.Err() != nil { return ctx.Err() }`.
  unfoldable pub within_context : (W → W × Turn E) → W × Option E → W × Turn E
  within_context next (w, some e) = (w, stop (some e))
  within_context next (w, none) = next w

  -- The invocation and what follows it in the round.
  unfoldable pub invoke_now : W → W × Turn E
  unfolding judge_invocation within_context
  invoke_now w =
      let (w1, result) = m.invoke w in
      let observed = if m.version w == 0 then m.version w1 else m.version w in
      within_context (judge_invocation result observed) (m.context_error w1)

  -- From the second look at the context on.
  unfoldable pub invoke_once : W → W × Turn E
  unfolding invoke_now within_context
  invoke_once w = within_context invoke_now (m.context_error w)

  -- After a refresh, with the version that was observed before it.
  unfoldable pub refreshed : Int64 → W × Option E → W × Turn E
  unfolding invoke_once
  refreshed v (w, none) = invoke_once w
  refreshed v (w, some e) =
      if is_never (m.classify e).action then (w, stop (some e)) else (w, again e v)

  unfoldable pub after_wait : RetryDecision → Int64 → W × Option E → W × Turn E
  unfolding invoke_once refreshed
  after_wait d v (w, some e) = (w, stop (some e))
  after_wait d v (w, none) =
      if is_refresh d.action then refreshed v (m.refresh_after v w) else invoke_once w

  -- The part of a round that the first one does not have.
  unfoldable pub back_off : RetryPolicy → ℕ → Option E → Int64 → W → W × Turn E
  unfolding invoke_once after_wait
  back_off p attempt none v w = invoke_once w
  back_off p attempt (some e) v w =
      let d = m.classify e in
      after_wait d v (m.retry_wait (retry_delay (m.scale w) p attempt d.after) w)

  -- One round of the loop; `last` is set in each but the first.
  unfoldable pub attempt_once : RetryPolicy → ℕ → Option E → Int64 → W → W × Turn E
  unfolding back_off within_context
  attempt_once p attempt last v w = within_context (back_off p attempt last v) (m.context_error w)

  abbrev pub give_up : Option E → Option E
  give_up none = none
  give_up (some e) = some (m.retry_result e)

  unfoldable pub onward : (E → Int64 → W → W × Option E) → W × Turn E → W × Option E
  onward rest (w, stop result) = (w, result)
  onward rest (w, again e v) = rest e v w

  -- The loop, with the attempts that are left.
  unfoldable pub retry_loop : RetryPolicy → ℕ → ℕ → Option E → Int64 → W → W × Option E
  unfolding attempt_once onward
  retry_loop p zero attempt last v w = (w, give_up last)
  retry_loop p (suc n) attempt last v w =
      onward (λ e. retry_loop p n (attempt + 1) (some e)) (attempt_once p attempt last v w)

  -- `runWithRetry`; the calls for one owner's part of a batch run in a context that is marked as a
  -- single attempt.
  unfoldable pub run_with_retry : RetryPolicy → Bool → W → W × Option E
  unfolding retry_loop
  run_with_retry p true w = m.invoke w
  run_with_retry p false w = retry_loop p p.max_attempts 0 none 0 (m.with_timeout p.max_elapsed w)
