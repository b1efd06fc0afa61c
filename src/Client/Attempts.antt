-- ===== src/Client/Attempts.antt =====
-- How long runWithRetry waits, and what its success means.
use sindri.Prelude.{
  ap, Bool, ℕ, zero, suc, ◌+◌, ◌-◌, ◌/◌, ◌≤◌, ◌<◌, true, false, Option, none, some, ◌==◌,
  if◌then◌else◌, if-either, ◌≡◌, ◌≢◌, refl, ◌⊎◌, inl, inr, arith,
}
use sindri.Prelude.Int64.{Int64, two63, two64, add64, lt64}
use sindri.Client.Retries.{
  RetryDecision, RetryPolicy, is_valid, grow, retry_delay, World, Turn, stop, again, is_never,
  is_refresh, judge_invocation, within_context, invoke_now, invoke_once, refreshed, after_wait,
  back_off, attempt_once, onward, retry_loop, run_with_retry,
}

grow-bounds :
    (p : RetryPolicy) (n : ℕ) (delay : Int64)
    → p.max_backoff < two63
    → delay ≤ p.max_backoff
    → (delay ≤ grow p n delay) × (grow p n delay ≤ p.max_backoff)
unfolding grow
grow-bounds p zero delay small below = (omega arith, below)
grow-bounds p (suc n) delay small below =
    let full = grow-bounds p n p.max_backoff small (omega arith) in
    if-either (λ x. (delay ≤ x) × (x ≤ p.max_backoff)) (lt64 delay p.max_backoff)
      (λ less.
        if-either (λ d. (delay ≤ grow p n d) × (grow p n d ≤ p.max_backoff))
          (lt64 (p.max_backoff / 2) delay) (λ large. (omega (arith, full.0, below), full.1))
          (λ half.
            let fits : delay + delay ≤ p.max_backoff = ground arith in
            let exact : add64 delay delay ≡ delay + delay = omega (arith, fits, small) in
            let double = grow-bounds p n (add64 delay delay) small (omega (arith, exact, fits)) in
            (omega (arith, double.0, exact), double.1)))
      (λ reached. (omega arith, below))

jitter-bounds :
    (first largest delay part minimum : Int64)
    → (first ≤ delay) × (delay ≤ largest)
    → part ≤ delay - delay / 2
    → minimum < two63
    → largest < two63
    → let jittered = add64 (delay / 2) part in
      let d = if lt64 jittered minimum then minimum else jittered in
      (minimum ≤ d) × (first / 2 ≤ d) × ((d ≤ largest) ⊎ (d ≡ minimum))
jitter-bounds first largest delay part minimum between small m l =
    let exact : add64 (delay / 2) part ≡ delay / 2 + part = omega (arith, between.1, small, l) in
    if-either (λ d. (minimum ≤ d) × (first / 2 ≤ d) × ((d ≤ largest) ⊎ (d ≡ minimum)))
      (lt64 (add64 (delay / 2) part) minimum)
      (λ short.
        let less : delay / 2 + part < minimum = ground arith in
        (omega arith, omega (arith, less, between.0), inr refl))
      (λ long.
        let more : minimum ≤ delay / 2 + part = ground arith in
        (
          omega (arith, more, exact),
          omega (arith, exact, between.0),
          inl (omega (arith, exact, small, between.1)),
        ))

-- For a valid policy a delay is at least the minimum and half of the first backoff, and at most the
-- largest backoff, unless the minimum is larger. The random part is at most what it is a part of.
pub retry_delay-bounds :
    (p : RetryPolicy) (scale : Int64 → Int64) (attempt : ℕ) (minimum : Int64)
    → is_valid p ≡ true
    → (p.initial_backoff < two64) × (p.max_backoff < two64)
    → minimum < two63
    → ((x : Int64) → x ≤ p.max_backoff → scale x ≤ x)
    → (minimum ≤ retry_delay scale p attempt minimum)
      × (p.initial_backoff / 2 ≤ retry_delay scale p attempt minimum)
      × ((retry_delay scale p attempt minimum ≤ p.max_backoff)
          ⊎ (retry_delay scale p attempt minimum ≡ minimum))
unfolding retry_delay is_valid
retry_delay-bounds p scale attempt minimum valid int small scaled =
    let ordered : (p.initial_backoff ≤ p.max_backoff) × (p.max_backoff < two63) = ground arith in
    let g = grow-bounds p (attempt - 1) p.initial_backoff ordered.1 ordered.0 in
    let part =
      scaled (grow p (attempt - 1) p.initial_backoff - grow p (attempt - 1) p.initial_backoff / 2)
        (omega arith) in
    jitter-bounds p.initial_backoff p.max_backoff (grow p (attempt - 1) p.initial_backoff) _ minimum
      g part small ordered.1

module _ {W E : Type 0} (m : World W E) where
  -- The world is that after an invocation without an error, which the context outlived.
  pub Outlived : W → Type 0
  Outlived after =
      (before : W) × ((m.invoke before).1 ≡ none)
      × ((m.context_error (m.invoke before).0).0 ≡ after)
      × ((m.context_error (m.invoke before).0).1 ≡ none)

  -- A single attempt from `w` succeeds by its one invocation, whatever the context does then.
  pub Succeeded : Bool → W → W → Type 0
  Succeeded true w after = m.invoke w ≡ (after, none)
  Succeeded false w after = Outlived after

  Sound : W → Option E → Type 0
  Sound w none = Outlived w
  Sound w (some e) = Unit

  SoundTurn : W × Turn E → Type 0
  SoundTurn (w, stop r) = Sound w r
  SoundTurn (w, again e v) = Unit

  judge_invocation-Sound :
      (r : Option E) (v : Int64) (w : W)
      → (r ≡ none → Outlived w)
      → SoundTurn (judge_invocation m r v w)
  unfolding judge_invocation SoundTurn Sound
  judge_invocation-Sound none v w done = done refl
  judge_invocation-Sound (some e) v w done =
      if-either (λ t. SoundTurn t) (is_never (m.classify e).action) (λ _. tt) (λ _. tt)

  within_context-Sound :
      (next : W → W × Turn E) (x : W × Option E)
      → (x.1 ≡ none → SoundTurn (next x.0))
      → SoundTurn (within_context m next x)
  unfolding within_context SoundTurn Sound
  within_context-Sound next (w, some e) sound = tt
  within_context-Sound next (w, none) sound = sound refl

  invoke_once-Sound : (w : W) → SoundTurn (invoke_once m w)
  unfolding invoke_once invoke_now Outlived
  invoke_once-Sound w = within_context-Sound (invoke_now m) (m.context_error w) (λ _.
      let w1 = (m.context_error w).0 in
      let (w2, result) = m.invoke w1 in
      let observed = if m.version w1 == 0 then m.version w2 else m.version w1 in
      within_context-Sound (judge_invocation m result observed) (m.context_error w2)
        (λ outlived. judge_invocation-Sound result observed _ (λ good. (w1, good, refl, outlived))))

  refreshed-Sound : (v : Int64) (x : W × Option E) → SoundTurn (refreshed m v x)
  unfolding refreshed SoundTurn Sound
  refreshed-Sound v (w, none) = invoke_once-Sound w
  refreshed-Sound v (w, some e) =
      if-either (λ t. SoundTurn t) (is_never (m.classify e).action) (λ _. tt) (λ _. tt)

  after_wait-Sound :
      (d : RetryDecision) (v : Int64) (x : W × Option E) → SoundTurn (after_wait m d v x)
  unfolding after_wait SoundTurn Sound
  after_wait-Sound d v (w, some e) = tt
  after_wait-Sound d v (w, none) =
      if-either (λ t. SoundTurn t) (is_refresh d.action) (λ _. refreshed-Sound v _)
        (λ _. invoke_once-Sound w)

  back_off-Sound :
      (p : RetryPolicy) (attempt : ℕ) (last : Option E) (v : Int64) (w : W)
      → SoundTurn (back_off m p attempt last v w)
  unfolding back_off
  back_off-Sound p attempt none v w = invoke_once-Sound w
  back_off-Sound p attempt (some e) v w =
      after_wait-Sound (m.classify e) v
        (m.retry_wait (retry_delay (m.scale w) p attempt (m.classify e).after) w)

  onward-Sound :
      (rest : E → Int64 → W → W × Option E) (x : W × Turn E)
      → SoundTurn x
      → ((e : E) (v : Int64) (w : W) → (rest e v w).1 ≡ none → Outlived (rest e v w).0)
      → (onward m rest x).1 ≡ none
      → Outlived (onward m rest x).0
  unfolding onward SoundTurn Sound
  onward-Sound rest (w, stop none) s further h = s
  onward-Sound rest (w, stop (some e)) s further h = absurd (cc)
  onward-Sound rest (w, again e v) s further h = further e v w h

  -- The loop has something to report: an attempt that is left or an error.
  retry_loop-Sound :
      (p : RetryPolicy) (n attempt : ℕ) (last : Option E) (v : Int64) (w : W)
      → (n ≡ 0 → last ≢ none)
      → (retry_loop m p n attempt last v w).1 ≡ none
      → Outlived (retry_loop m p n attempt last v w).0
  unfolding retry_loop attempt_once
  retry_loop-Sound p zero attempt none v w some_error h = absurd (some_error refl refl)
  retry_loop-Sound p zero attempt (some e) v w some_error h = absurd (cc)
  retry_loop-Sound p (suc n) attempt last v w some_error h =
      onward-Sound (λ e. retry_loop m p n (attempt + 1) (some e))
        (attempt_once m p attempt last v w)
        (within_context-Sound (back_off m p attempt last v) (m.context_error w)
          (λ _. back_off-Sound p attempt last v _))
        (λ e v' w'. retry_loop-Sound p n (attempt + 1) (some e) v' w' (λ _ e'. cc)) h

  -- Under a valid policy runWithRetry reports success only right after an invocation that returned no
  -- error. In a context that is marked as a single attempt that is its one invocation; in any other
  -- the context had not ended either when the invocation returned.
  pub run_with_retry-Succeeded :
      (p : RetryPolicy) (single : Bool) (w : W)
      → is_valid p ≡ true
      → (run_with_retry m p single w).1 ≡ none
      → Succeeded single w (run_with_retry m p single w).0
  unfolding run_with_retry is_valid Succeeded
  run_with_retry-Succeeded p true w valid h = ap (λ e. ((m.invoke w).0, e)) h
  run_with_retry-Succeeded p false w valid h =
      retry_loop-Sound p p.max_attempts 0 none 0 _ (λ empty. absurd (ground arith)) h
