-- ===== src/Gate/Counts.antt =====
-- The gate's counter counts the goroutines that are past their Add(1).
use sindri.Prelude.{
  ℕ, zero, suc, get_elem?, ◌+◌, Option, none, some, List, [], ◌∷◌, All, ◌≡◌, refl, arith, Bool,
  true, false, Bool-cases, inl, inr,
}
use sindri.Gate.{
  Caller, Drain, polling, not_started, close_for_drain, start_if, poll_drain, outside, counted,
  turned_away, inside, Slot, Step, set_caller, arrive, proceed, fence, open_pending, detach,
  start_drain, poll, arrive_at, proceed_from, step, outsiders,
}

abbrev pub weight : Caller → ℕ
weight outside = 0
weight counted = 1
weight turned_away = 1
weight inside = 1

abbrev pub total : List Caller → ℕ
total [] = 0
total (c ∷ cs) = weight c + total cs

pub total-set_caller :
    (t : ℕ) (old new : Caller) (cs : List Caller)
    → get_elem? cs t ≡ some old
    → total (set_caller t new cs) + weight old ≡ total cs + weight new
unfolding set_caller
total-set_caller t old new [] h = absurd (cc)
total-set_caller zero old new (x ∷ xs) h = ground arith
total-set_caller (suc t) old new (x ∷ xs) h = omega (arith, total-set_caller t old new xs h)

pub All-set_caller :
    (P : Caller → Type 0) (t : ℕ) (new : Caller) (cs : List Caller)
    → P new
    → All P cs
    → All P (set_caller t new cs)
unfolding set_caller
All-set_caller P t new [] p a = tt
All-set_caller P zero new (x ∷ xs) p (b, bs) = (p, bs)
All-set_caller P (suc t) new (x ∷ xs) p (b, bs) = (b, All-set_caller P t new xs p bs)

abbrev pub Counted : Slot → Type 0
Counted s = s.inflight ≡ total s.callers

arrive_at-Counted :
    (t : ℕ) (o : Option Caller) (s : Slot)
    → get_elem? s.callers t ≡ o
    → Counted s
    → Counted (arrive_at t o s)
unfolding arrive_at
arrive_at-Counted t (some outside) s e h =
    omega (arith, h, total-set_caller t outside counted s.callers e)
arrive_at-Counted t none s e h = h
arrive_at-Counted t (some c) s e h = h

proceed_from-Counted :
    (t : ℕ) (o : Option Caller) (s : Slot)
    → get_elem? s.callers t ≡ o
    → Counted s
    → Counted (proceed_from t o s)
unfolding proceed_from
proceed_from-Counted t (some counted) s e h = elim (Bool-cases s.draining) [
  | inl d ↦ rw d (omega (arith, h, total-set_caller t counted turned_away s.callers e))
  | inr d ↦ rw d (omega (arith, h, total-set_caller t counted inside s.callers e))
]
proceed_from-Counted t (some turned_away) s e h =
    omega (arith, h, total-set_caller t turned_away outside s.callers e)
proceed_from-Counted t (some inside) s e h =
    omega (arith, h, total-set_caller t inside outside s.callers e)
proceed_from-Counted t (some outside) s e h = h
proceed_from-Counted t none s e h = h

close_for_drain-Counted : (d : Drain) (s : Slot) → Counted s → Counted (close_for_drain d s)
unfolding close_for_drain
close_for_drain-Counted not_started s h = h
close_for_drain-Counted d s h = h

start_if-Counted : (detached : Bool) (s : Slot) → Counted s → Counted (start_if detached s)
unfolding start_if
start_if-Counted true s h = close_for_drain-Counted s.drain s h
start_if-Counted false s h = h

poll-Counted :
    (d : Drain) (expired : Bool) (s : Slot) → Counted s → Counted (poll_drain d expired s)
unfolding poll_drain
poll-Counted polling expired s h = h
poll-Counted d expired s h = h

pub step-Counted : (e : Step) (s : Slot) → Counted s → Counted (step e s)
unfolding step
step-Counted (arrive t) s h = arrive_at-Counted t _ s refl h
step-Counted (proceed t) s h = proceed_from-Counted t _ s refl h
step-Counted fence s h = h
step-Counted open_pending s h = ground arith
step-Counted detach s h = h
step-Counted start_drain s h = start_if-Counted s.detached s h
step-Counted (poll expired) s h = poll-Counted s.drain expired s h

pub total-outsiders : (n : ℕ) → total (outsiders n) ≡ 0
total-outsiders zero = refl
total-outsiders (suc n) = omega (arith, total-outsiders n)
