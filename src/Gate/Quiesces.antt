-- ===== src/Gate/Quiesces.antt =====
-- A drain ends once the goroutines inside leave.
use sindri.Prelude.{
  ℕ, zero, suc, length, get_elem?, ◌<◌, ◌≤◌, Bool, true, false, Option, none, some, List, [], ◌∷◌,
  ◌≡◌, ◌≢◌, refl, ◌∙◌, sym, ap, subst, if◌then◌else◌, ℕ_discrete, arith,
}
use sindri.Gate.{
  Caller, outside, counted, turned_away, inside, Drain, polling, quiesced, Slot, Step, set_caller,
  proceed, poll, enter_read, leave_gate, proceed_from, poll_drain, step, run_steps, new_slot,
}
use sindri.Gate.Counts.{total}
use sindri.Gate.Drained.{Gated, run_steps-Gated, new_slot-Gated, proceed_from-drain}

-- The goroutine of that number, if there is one, is not past its Add(1).
AtRest : ℕ → List Caller → Type 0
AtRest u cs = (c : Caller) → get_elem? cs u ≡ some c → c ≡ outside

get_elem?-set_caller :
    (t : ℕ) (c x : Caller) (cs : List Caller) → get_elem? (set_caller t c cs) t ≡ some x → x ≡ c
unfolding set_caller
get_elem?-set_caller t c x [] h = absurd (cc)
get_elem?-set_caller zero c x (y ∷ cs) h = cc
get_elem?-set_caller (suc t) c x (y ∷ cs) h = get_elem?-set_caller t c x cs h

get_elem?-set_caller_other :
    (t u : ℕ) (c : Caller) (cs : List Caller)
    → u ≢ t
    → get_elem? (set_caller t c cs) u ≡ get_elem? cs u
unfolding set_caller
get_elem?-set_caller_other t u c [] n = refl
get_elem?-set_caller_other zero zero c (y ∷ cs) n = absurd (n refl)
get_elem?-set_caller_other zero (suc u) c (y ∷ cs) n = refl
get_elem?-set_caller_other (suc t) zero c (y ∷ cs) n = refl
get_elem?-set_caller_other (suc t) (suc u) c (y ∷ cs) n =
    get_elem?-set_caller_other t u c cs (λ e. n (ap suc e))

length-set_caller : (t : ℕ) (c : Caller) (cs : List Caller) → length (set_caller t c cs) ≡ length cs
unfolding set_caller
length-set_caller t c [] = refl
length-set_caller zero c (y ∷ cs) = refl
length-set_caller (suc t) c (y ∷ cs) = ap suc (length-set_caller t c cs)

proceed_from-length :
    (t : ℕ) (o : Option Caller) (s : Slot) → length (proceed_from t o s).callers ≡ length s.callers
unfolding proceed_from enter_read leave_gate
proceed_from-length t (some outside) s = refl
proceed_from-length t (some counted) s = length-set_caller t _ s.callers
proceed_from-length t (some turned_away) s = length-set_caller t _ s.callers
proceed_from-length t (some inside) s = length-set_caller t _ s.callers
proceed_from-length t none s = refl

proceed_from-other :
    (t u : ℕ) (o : Option Caller) (s : Slot)
    → u ≢ t
    → get_elem? (proceed_from t o s).callers u ≡ get_elem? s.callers u
unfolding proceed_from enter_read leave_gate
proceed_from-other t u (some outside) s n = refl
proceed_from-other t u (some counted) s n = get_elem?-set_caller_other t u _ s.callers n
proceed_from-other t u (some turned_away) s n = get_elem?-set_caller_other t u _ s.callers n
proceed_from-other t u (some inside) s n = get_elem?-set_caller_other t u _ s.callers n
proceed_from-other t u none s n = refl

-- The goroutine of that number is not at the point between its Add(1) and its look at the flag.
NotCounted : ℕ → List Caller → Type 0
NotCounted u cs = (c : Caller) → get_elem? cs u ≡ some c → c ≢ counted

looked : (b : Bool) → (if b then turned_away else inside) ≢ counted
looked true e = cc
looked false e = cc

proceed_from-NotCounted :
    (t : ℕ) (o : Option Caller) (s : Slot)
    → get_elem? s.callers t ≡ o
    → NotCounted t (proceed_from t o s).callers
unfolding proceed_from enter_read leave_gate NotCounted
proceed_from-NotCounted t (some outside) s e c h = λ q. cc
proceed_from-NotCounted t (some counted) s e c h =
    subst (λ x. x ≢ counted) (sym (get_elem?-set_caller t _ c s.callers h)) (looked s.draining)
proceed_from-NotCounted t (some turned_away) s e c h =
    let x = get_elem?-set_caller t _ c s.callers h in λ q. cc
proceed_from-NotCounted t (some inside) s e c h =
    let x = get_elem?-set_caller t _ c s.callers h in λ q. cc
proceed_from-NotCounted t none s e c h = λ q. cc

proceed_from-AtRest :
    (t : ℕ) (o : Option Caller) (s : Slot)
    → get_elem? s.callers t ≡ o
    → NotCounted t s.callers
    → AtRest t (proceed_from t o s).callers
unfolding proceed_from leave_gate NotCounted AtRest
proceed_from-AtRest t (some outside) s e n c h = cc
proceed_from-AtRest t (some counted) s e n c h = absurd (n counted e refl)
proceed_from-AtRest t (some turned_away) s e n c h = get_elem?-set_caller t _ c s.callers h
proceed_from-AtRest t (some inside) s e n c h = get_elem?-set_caller t _ c s.callers h
proceed_from-AtRest t none s e n c h = cc

AtRest→NotCounted : (u : ℕ) (cs : List Caller) → AtRest u cs → NotCounted u cs
unfolding AtRest NotCounted
AtRest→NotCounted u cs r c h q = let x = r c h in cc

-- Whichever goroutine steps, one at rest stays there.
step-AtRest : (t u : ℕ) (s : Slot) → AtRest u s.callers → AtRest u (step (proceed t) s).callers
unfolding step AtRest
step-AtRest t u s r c h = elim (ℕ_discrete u t) [
  | yes p ↦
      proceed_from-AtRest t _ s refl
        (subst (λ v. NotCounted v s.callers) p (AtRest→NotCounted u s.callers r)) c
        (subst (λ v. get_elem? (proceed_from t (get_elem? s.callers t) s).callers v ≡ some c) p h)
  | no n ↦ r c (sym (proceed_from-other t u _ s n) ∙ h)
]

-- A schedule in which each of the first `n` goroutines that is past its Add(1) goes on until it has
-- left: two steps are enough for each.
abbrev pub all_leave : ℕ → List Step
all_leave zero = []
all_leave (suc n) = proceed n ∷ proceed n ∷ all_leave n

BelowAtRest : ℕ → ℕ → Slot → Type 0
BelowAtRest lo hi s = (u : ℕ) → lo ≤ u → u < hi → AtRest u s.callers

twice_AtRest : (k : ℕ) (s : Slot) → AtRest k (step (proceed k) (step (proceed k) s)).callers
unfolding step
twice_AtRest k s =
    proceed_from-AtRest k _ (step (proceed k) s) refl (proceed_from-NotCounted k _ s refl)

leave-BelowAtRest :
    (k hi : ℕ) (s : Slot)
    → BelowAtRest (suc k) hi s
    → BelowAtRest k hi (step (proceed k) (step (proceed k) s))
unfolding BelowAtRest
leave-BelowAtRest k hi s below u low high = elim (ℕ_discrete u k) [
  | yes p ↦
      subst (λ v. AtRest v (step (proceed k) (step (proceed k) s)).callers) (sym p)
        (twice_AtRest k s)
  | no n ↦
      step-AtRest k u (step (proceed k) s)
        (step-AtRest k u s (below u (omega (arith, low, n)) high))
]

all_leave-BelowAtRest :
    (k hi : ℕ) (s : Slot) → BelowAtRest k hi s → BelowAtRest 0 hi (run_steps (all_leave k) s)
unfolding run_steps
all_leave-BelowAtRest zero hi s b = b
all_leave-BelowAtRest (suc k) hi s b =
    all_leave-BelowAtRest k hi (step (proceed k) (step (proceed k) s)) (leave-BelowAtRest k hi s b)

all_leave-length :
    (k : ℕ) (s : Slot) → length (run_steps (all_leave k) s).callers ≡ length s.callers
unfolding run_steps step
all_leave-length zero s = refl
all_leave-length (suc k) s =
    all_leave-length k (step (proceed k) (step (proceed k) s))
    ∙ proceed_from-length k _ (step (proceed k) s)
    ∙ proceed_from-length k _ s

all_leave-drain : (k : ℕ) (s : Slot) → (run_steps (all_leave k) s).drain ≡ s.drain
unfolding run_steps step
all_leave-drain zero s = refl
all_leave-drain (suc k) s =
    all_leave-drain k (step (proceed k) (step (proceed k) s))
    ∙ proceed_from-drain k _ (step (proceed k) s)
    ∙ proceed_from-drain k _ s

total-AtRest : (cs : List Caller) → ((u : ℕ) → u < length cs → AtRest u cs) → total cs ≡ 0
unfolding AtRest
total-AtRest [] r = refl
total-AtRest (c ∷ cs) r =
    let first = r 0 (omega arith) c refl in
    let rest = total-AtRest cs (λ u low. r (suc u) (omega (arith, low))) in rw (first, rest) refl

poll_drain-ends :
    (expired : Bool) (s : Slot) (d : Drain)
    → d ≡ polling
    → s.inflight ≡ 0
    → (poll_drain d expired s).drain ≡ quiesced
unfolding poll_drain
poll_drain-ends expired s polling e h = rw h refl
poll_drain-ends expired s d e h = absurd (cc)

-- From any state that goroutines can bring a new gate to, with a drain under way, the drain reports
-- success, its deadline past or not, as soon as every allocation inside has gone on until it left.
pub all_leave-quiesced :
    (n : ℕ) (before : List Step) (expired : Bool)
    → (run_steps before (new_slot n)).drain ≡ polling
    → let s = run_steps before (new_slot n) in
      (step (poll expired) (run_steps (all_leave (length s.callers)) s)).drain ≡ quiesced
unfolding step BelowAtRest
all_leave-quiesced n before expired h =
    let s : Slot = run_steps before (new_slot n) in
    let t : Slot = run_steps (all_leave (length s.callers)) s in
    let g : Gated t =
      run_steps-Gated _ s (run_steps-Gated before (new_slot n) (new_slot-Gated n)) in
    let rest =
      all_leave-BelowAtRest (length s.callers) (length s.callers) s
        (λ u low high. absurd (omega (arith, low, high))) in
    let long = all_leave-length (length s.callers) s in
    let none_in : total t.callers ≡ 0 =
      total-AtRest t.callers (λ u low. rest u (omega arith) (omega (arith, low, long))) in
    poll_drain-ends expired t t.drain (all_leave-drain (length s.callers) s ∙ h)
      (g.counts ∙ none_in)
