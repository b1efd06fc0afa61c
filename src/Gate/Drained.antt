-- ===== src/Gate/Drained.antt =====
-- What a finished drain guarantees, whatever the goroutines do afterwards.
use sindri.Prelude.{
  ℕ, zero, suc, Bool, true, false, Bool-cases, Option, none, some, List, [], ◌∷◌, ◌≡◌, ◌≢◌, refl,
  ◌∙◌, sym, ap, subst, if◌then◌else◌, inl, inr, All, arith,
}
use sindri.Gate.{
  Caller, outside, counted, turned_away, inside, Drain, not_started, polling, quiesced, Slot, Step,
  arrive, proceed, fence, open_pending, detach, start_drain, poll, arrive_at, enter_add, enter_read,
  leave_gate, proceed_from, close_for_drain, start_if, poll_drain, step, run_steps, new_slot,
  outsiders,
}
use sindri.Gate.Counts.{Counted, total, step-Counted, total-outsiders, All-set_caller}

abbrev pub NotInside : Caller → Type 0
NotInside c = c ≢ inside

-- No goroutine is between a successful `enter` and `leave`.
abbrev pub Empty : Slot → Type 0
Empty s = All NotInside s.callers

-- A drain has begun only on a withdrawn slot, whose gate stays closed, and one that reported
-- success left the gate empty.
pub record Gated (s : Slot) : Type 0 where
  pub counts : Counted s
  pub closed : s.detached ≡ true → s.draining ≡ true
  pub withdrawn : s.drain ≢ not_started → s.detached ≡ true
  pub empty : s.drain ≡ quiesced → Empty s

total-zero : (cs : List Caller) → total cs ≡ 0 → All NotInside cs
total-zero [] h = tt
total-zero (outside ∷ cs) h = (λ e. cc, total-zero cs (ground arith))
total-zero (inside ∷ cs) h = absurd (omega (arith, h))
total-zero (c ∷ cs) h = absurd (omega (arith, h))

module _ (s : Slot) (g : Gated s) where
  arrive_at-Gated :
      (t : ℕ) (o : Option Caller) → Counted (arrive_at t o s) → Gated (arrive_at t o s)
  unfolding arrive_at
  arrive_at-Gated t (some outside) c = record {
    counts = c;
    closed = g.closed;
    withdrawn = g.withdrawn;
    empty = λ e. All-set_caller NotInside t counted s.callers (λ q. cc) (g.empty e);
  }
  arrive_at-Gated t (some x) c = g
  arrive_at-Gated t none c = g

  proceed_from-Gated :
      (t : ℕ) (o : Option Caller) → Counted (proceed_from t o s) → Gated (proceed_from t o s)
  unfolding proceed_from enter_read
  proceed_from-Gated t (some counted) c = record {
    counts = c;
    closed = g.closed;
    withdrawn = g.withdrawn;
    empty = λ e.
        rw (g.closed (g.withdrawn (λ n. cc)))
          (All-set_caller NotInside t turned_away s.callers (λ q. cc) (g.empty e));
  }
  proceed_from-Gated t (some turned_away) c = record {
    counts = c;
    closed = g.closed;
    withdrawn = g.withdrawn;
    empty = λ e. All-set_caller NotInside t outside s.callers (λ q. cc) (g.empty e);
  }
  proceed_from-Gated t (some inside) c = record {
    counts = c;
    closed = g.closed;
    withdrawn = g.withdrawn;
    empty = λ e. All-set_caller NotInside t outside s.callers (λ q. cc) (g.empty e);
  }
  proceed_from-Gated t (some outside) c = g
  proceed_from-Gated t none c = g

  close_for_drain-Gated :
      (d : Drain) → s.detached ≡ true → s.drain ≡ d → Gated (close_for_drain d s)
  unfolding close_for_drain
  close_for_drain-Gated not_started w e = record {
    counts = g.counts;
    closed = λ h. refl;
    withdrawn = λ h. w;
    empty = λ h. absurd (cc);
  }
  close_for_drain-Gated d w e = g

  start_if-Gated : (detached : Bool) → s.detached ≡ detached → Gated (start_if detached s)
  unfolding start_if
  start_if-Gated true e = close_for_drain-Gated s.drain e refl
  start_if-Gated false e = g

  poll_drain-Gated : (d : Drain) (expired : Bool) → s.drain ≡ d → Gated (poll_drain d expired s)
  unfolding poll_drain
  poll_drain-Gated polling expired e = record {
    counts = g.counts;
    closed = g.closed;
    withdrawn = λ h. g.withdrawn (λ q. cc);
    empty = λ h. total-zero s.callers (ground (arith, g.counts));
  }
  poll_drain-Gated d expired e = g

  open_pending-Gated : Gated (step open_pending s)
  unfolding step
  open_pending-Gated = elim (Bool-cases s.detached) [
    | inl d ↦ subst Gated (sym (ap (λ b. if b then s else record s { draining = false }) d)) g
    | inr d ↦
        subst Gated (sym (ap (λ b. if b then s else record s { draining = false }) d)) (record {
          counts = g.counts;
          closed = λ h. absurd (cc);
          withdrawn = g.withdrawn;
          empty = g.empty;
        })
  ]

pub step-Gated : (e : Step) (s : Slot) → Gated s → Gated (step e s)
unfolding step
step-Gated (arrive t) s g = arrive_at-Gated s g t _ (step-Counted (arrive t) s g.counts)
step-Gated (proceed t) s g = proceed_from-Gated s g t _ (step-Counted (proceed t) s g.counts)
step-Gated fence s g = record {
  counts = g.counts;
  closed = λ h. refl;
  withdrawn = g.withdrawn;
  empty = g.empty;
}
step-Gated open_pending s g = open_pending-Gated s g
step-Gated detach s g = record {
  counts = g.counts;
  closed = λ h. refl;
  withdrawn = λ h. refl;
  empty = g.empty;
}
step-Gated start_drain s g = start_if-Gated s g s.detached refl
step-Gated (poll expired) s g = poll_drain-Gated s g s.drain expired refl

arrive_at-drain : (t : ℕ) (o : Option Caller) (s : Slot) → (arrive_at t o s).drain ≡ s.drain
unfolding arrive_at enter_add
arrive_at-drain t (some outside) s = refl
arrive_at-drain t (some c) s = refl
arrive_at-drain t none s = refl

pub proceed_from-drain :
    (t : ℕ) (o : Option Caller) (s : Slot) → (proceed_from t o s).drain ≡ s.drain
unfolding proceed_from enter_read leave_gate
proceed_from-drain t (some outside) s = refl
proceed_from-drain t (some c) s = refl
proceed_from-drain t none s = refl

close_for_drain-quiesced :
    (d : Drain) (s : Slot) → s.drain ≡ d → d ≡ quiesced → (close_for_drain d s).drain ≡ quiesced
unfolding close_for_drain
close_for_drain-quiesced not_started s e h = absurd (cc)
close_for_drain-quiesced d s e h = cc

start_if-quiesced : (b : Bool) (s : Slot) → s.drain ≡ quiesced → (start_if b s).drain ≡ quiesced
unfolding start_if
start_if-quiesced true s h = close_for_drain-quiesced s.drain s refl h
start_if-quiesced false s h = h

poll_drain-quiesced :
    (d : Drain) (expired : Bool) (s : Slot)
    → s.drain ≡ d
    → d ≡ quiesced
    → (poll_drain d expired s).drain ≡ quiesced
unfolding poll_drain
poll_drain-quiesced polling expired s e h = absurd (cc)
poll_drain-quiesced d expired s e h = cc

step-quiesced : (e : Step) (s : Slot) → s.drain ≡ quiesced → (step e s).drain ≡ quiesced
unfolding step
step-quiesced (arrive t) s h = arrive_at-drain t _ s ∙ h
step-quiesced (proceed t) s h = proceed_from-drain t _ s ∙ h
step-quiesced fence s h = h
step-quiesced open_pending s h = ground arith
step-quiesced detach s h = h
step-quiesced start_drain s h = start_if-quiesced s.detached s h
step-quiesced (poll expired) s h = poll_drain-quiesced s.drain expired s refl h

pub run_steps-Gated : (es : List Step) (s : Slot) → Gated s → Gated (run_steps es s)
unfolding run_steps
run_steps-Gated [] s g = g
run_steps-Gated (e ∷ es) s g = run_steps-Gated es (step e s) (step-Gated e s g)

run_steps-quiesced :
    (es : List Step) (s : Slot) → s.drain ≡ quiesced → (run_steps es s).drain ≡ quiesced
unfolding run_steps
run_steps-quiesced [] s h = h
run_steps-quiesced (e ∷ es) s h = run_steps-quiesced es (step e s) (step-quiesced e s h)

outsiders-NotInside : (n : ℕ) → All NotInside (outsiders n)
outsiders-NotInside zero = tt
outsiders-NotInside (suc n) = (λ e. cc, outsiders-NotInside n)

pub new_slot-Gated : (n : ℕ) → Gated (new_slot n)
new_slot-Gated n = record {
  counts = sym (total-outsiders n);
  closed = λ h. refl;
  withdrawn = λ h. absurd (h refl);
  empty = λ h. outsiders-NotInside n;
}

-- Once a drain of a slot's gate has reported success, then after any further steps of any
-- goroutines the gate is closed and no goroutine is inside it.
pub run_steps-Empty :
    (n : ℕ) (before after : List Step)
    → (run_steps before (new_slot n)).drain ≡ quiesced
    → ((run_steps after (run_steps before (new_slot n))).draining ≡ true)
      × Empty (run_steps after (run_steps before (new_slot n)))
run_steps-Empty n before after h =
    let done = run_steps-quiesced after (run_steps before (new_slot n)) h in
    let g =
      run_steps-Gated after (run_steps before (new_slot n))
        (run_steps-Gated before (new_slot n) (new_slot-Gated n)) in
    (g.closed (g.withdrawn (λ e. cc)), g.empty done)
