-- ===== src/Clock/Bounds.antt =====
-- What the monitor of the storage clock detects, and what it takes no alarm at.
use sindri.Prelude.{
  ℕ, ◌+◌, ◌≤◌, ◌<◌, min, String, true, false, ◌&&◌, List, Result, ok, if-either, ◌≡◌, refl, ◌∙◌, ap,
  inl, inr, Bool-cases, dec_le, arith,
}
use sindri.Prelude.Int64.{two63, sub64, lt64}
use sindri.Store.{Time, Error}
use sindri.Config.{HaConfig}
use sindri.Serving.{Allocator, Attempt, halted}
use sindri.Serving.Operations.{Registration, fence}
use sindri.Serving.Stopped.{OutOfService, Operation, perform_all, perform_all-OutOfService}
use sindri.Clock.{StorageClockMonitor, Sample, lower, breaks, observe_next, observe, node_renew}

-- The times are those of the next two centuries, and the bounds are durations that are not negative.
pub record Plausible (s : Sample) (m : StorageClockMonitor) : Type 0 where
  pub times :
      (s.storage < 4611686018427387904)
      × (m.last_storage < 4611686018427387904)
      × (s.end_at < 4611686018427387904)
      × (m.last_end < 4611686018427387904)
  pub bounds : (m.drift_bound < two63) × (m.jump_bound < two63)
  pub order : (m.last_start ≤ m.last_end) × (m.last_end ≤ s.start) × (s.start ≤ s.end_at)

-- The storage clock was read at the local instants `earlier` and `later`, within the two samples, and
-- in between ran at most the drift slower, and at most the drift and at most the jump faster.
pub record Steady (s : Sample) (m : StorageClockMonitor) (earlier later : Time) : Type 0 where
  pub within :
      (m.last_start ≤ earlier) × (earlier ≤ m.last_end) × (s.start ≤ later) × (later ≤ s.end_at)
  pub faster :
      (s.storage + earlier ≤ m.last_storage + later + m.drift_bound)
      × (s.storage + earlier ≤ m.last_storage + later + m.jump_bound)
  pub slower : m.last_storage + later ≤ s.storage + earlier + m.drift_bound

within_bound :
    (bound storage last end_at start : ℕ)
    → bound < two63
    → storage < 4611686018427387904
    → last < 4611686018427387904
    → end_at < 4611686018427387904
    → start ≤ end_at
    → storage + start ≤ last + end_at + bound
    → lt64 bound (sub64 (sub64 storage last) (sub64 end_at start)) ≡ false
within_bound bound storage last end_at start b1 b2 b3 b4 order kept = ground arith

not_slower :
    (bound storage last start end_at : ℕ)
    → bound < two63
    → storage < 4611686018427387904
    → last < 4611686018427387904
    → start < 4611686018427387904
    → end_at ≤ start
    → last + start ≤ storage + end_at + bound
    → lt64 (sub64 (sub64 storage last) (sub64 start end_at)) (sub64 0 bound) ≡ false
not_slower bound storage last start end_at b1 b2 b3 b4 order kept = ground arith

-- A monitor that has seen no violation raises none over a storage clock that keeps its bounds.
pub observe-no_false_alarm :
    (s : Sample) (m : StorageClockMonitor) (earlier later : Time)
    → Plausible s m
    → Steady s m earlier later
    → m.violated ≡ false
    → (observe (ok s) m).1 ≡ ok tt
unfolding observe observe_next breaks
observe-no_false_alarm s m earlier later p q clean =
    let within = q.within in
    let order = p.order in
    let (one, two) = q.faster in
    let jumped =
      within_bound m.jump_bound s.storage m.last_storage s.end_at m.last_start p.bounds.1 p.times.0
        p.times.1 p.times.2 (omega (arith, order)) (omega (arith, within, two)) in
    let drifted =
      within_bound m.drift_bound s.storage m.last_storage s.end_at m.last_start p.bounds.0 p.times.0
        p.times.1 p.times.2 (omega (arith, order)) (omega (arith, within, one)) in
    let lagged =
      not_slower m.drift_bound s.storage m.last_storage s.start m.last_end p.bounds.0 p.times.0
        p.times.1 (omega (arith, order, p.times)) (omega (arith, order))
        (omega (arith, within, q.slower)) in
    let kept : breaks s m ≡ false = rw (jumped, drifted, lagged, breaks) refl in
    if-either (λ (r : StorageClockMonitor × Result Error (Unit {0})). r.1 ≡ ok tt) m.armed
      (λ armed. rw (clean, kept) refl) (λ e. refl)

beyond_bound :
    (bound storage last end_at start : ℕ)
    → bound < two63
    → storage < 4611686018427387904
    → last < 4611686018427387904
    → end_at < 4611686018427387904
    → start ≤ end_at
    → last + end_at + bound < storage + start
    → lt64 bound (sub64 (sub64 storage last) (sub64 end_at start)) ≡ true
beyond_bound bound storage last end_at start b1 b2 b3 b4 order ahead = ground arith

breaks-ahead :
    (s : Sample) (m : StorageClockMonitor)
    → Plausible s m
    → m.last_storage + s.end_at + min m.jump_bound m.drift_bound < s.storage + m.last_start
    → breaks s m ≡ true
unfolding breaks
breaks-ahead s m p ahead =
    let order = p.order in
    elim (dec_le m.jump_bound m.drift_bound) [
      | yes small ↦
          let e =
            beyond_bound m.jump_bound s.storage m.last_storage s.end_at m.last_start p.bounds.1
              p.times.0 p.times.1 p.times.2 (omega (arith, order)) (ground arith) in
          rw (e, breaks) refl
      | no large ↦
          let e =
            beyond_bound m.drift_bound s.storage m.last_storage s.end_at m.last_start p.bounds.0
              p.times.0 p.times.1 p.times.2 (omega (arith, order)) (ground arith) in
          elim (Bool-cases (lt64 m.jump_bound (lower s m))) [
            | inl f ↦ rw (f, breaks) refl
            | inr f ↦ rw (f, e, breaks) refl
          ]
    ]

observe-armed :
    (s : Sample) (m : StorageClockMonitor)
    → m.armed ≡ true
    → (observe (ok s) m).0 ≡ observe_next s m
unfolding observe
observe-armed s m armed =
    if-either (λ (r : StorageClockMonitor × Result Error (Unit {0})). r.0 ≡ observe_next s m)
      m.armed (λ e. refl) (λ e. absurd (cc))

observe_next-violated :
    (s : Sample) (m : StorageClockMonitor) → breaks s m ≡ true → (observe_next s m).violated ≡ true
unfolding observe_next
observe_next-violated s m broken = ground arith

fence-halted : (reason : String) (a : Allocator) → halted (fence reason a) ≡ true
unfolding fence
fence-halted reason a = ground arith

-- When a sample shows that the storage clock ran ahead of the local one by more than one of the
-- bounds, the renewal that took it fences the allocator, and from then on, whatever happens, it is
-- out of service.
pub node_renew-OutOfService :
    (c : HaConfig) (r : Registration) (x y : Attempt) (s : Sample) (m : StorageClockMonitor)
    (a : Allocator) (os : List Operation)
    → Plausible s m
    → m.armed ≡ true
    → m.last_storage + s.end_at + min m.jump_bound m.drift_bound < s.storage + m.last_start
    → ((node_renew c r x y (ok s) m a).0.violated ≡ true)
      × OutOfService (perform_all os (node_renew c r x y (ok s) m a).1)
unfolding node_renew
node_renew-OutOfService c r x y s m a os p armed ahead =
    let broken = breaks-ahead s m p ahead in
    let next = observe-armed s m armed in
    let seen : (observe (ok s) m).0.violated ≡ true =
      ap (λ (n : StorageClockMonitor). n.violated) next ∙ observe_next-violated s m broken in
    (
      seen,
      (perform_all-OutOfService os (node_renew c r x y (ok s) m a).1 (
          if-either (λ (b : Allocator). halted b ≡ true) (m.armed && (observe (ok s) m).0.violated)
            (λ e. fence-halted "storage clock exceeded its asserted bound" a)
            (λ e. absurd (ground arith)))).0,
    )
