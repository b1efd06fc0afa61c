-- ===== src/Allocation/Effect.antt =====
-- What one goroutine's step leaves to the others.
use sindri.Prelude.{
  ℕ, suc, ◌+◌, ◌%◌, ◌≤◌, ◌<◌, Bool, some, List, All, ◌≡◌, ◌≢◌, refl, sym, subst, arith,
}
use sindri.Allocation.{
  Block, Key, Position, idle, loaded, added, begun, bounded, confirmed, block_loaded, block_read,
  block_begun, block_fits, block_swapped, waiting, holding, advanced, missed, raised, placed,
  opened, closed, advance,
}
use sindri.Allocation.Ideal.{ideal}
use sindri.Allocation.Invariant.{Even, Knows, Safe}

-- What a step of `t` may do to the fields that the others rely on.
pub record Effect (t : ℕ) (k k' : Key) : Type 0 where
  pub grows : k.generation ≤ k'.generation
  pub cursor : Even k.generation → k.generation ≡ k'.generation → k.next ≤ k'.next
  pub end_kept : Even k.generation → k.generation ≡ k'.generation → k'.last ≡ k.last
  pub locked :
      (u : ℕ)
      → u ≢ t
      → k.lock ≡ some u
      → (k'.lock ≡ some u)
        × (k'.generation ≡ k.generation)
        × (k'.last ≡ k.last)
        × (k'.high ≡ k.high)
        × (k.next ≤ k'.next)
        × (k'.standby ≡ k.standby)
  pub quiet : (u : ℕ) → u ≢ t → k.lock ≡ some u → k.generation % 2 ≡ 1 → k'.granted ≡ k.granted

pub ideal-Effect :
    (t : ℕ) (bound : Bool) (k : Key) (p : Position) → Safe t k p → Effect t k (ideal t bound k p).0
unfolding ideal advance
ideal-Effect t bound k idle (a, b) = record {
  grows = ground arith;
  cursor = λ e f. ground arith;
  end_kept = λ e f. ground arith;
  locked = λ u n l. ground arith;
  quiet = λ u n l o. ground arith;
}
ideal-Effect t bound k p (a, b) = record {
  grows = ground arith;
  cursor = λ e f. ground arith;
  end_kept = λ e f. ground arith;
  locked = λ u n l. ground arith;
  quiet = λ u n l o. ground arith;
}

still_locked :
    (t u : ℕ) (k k' : Key)
    → u ≢ t
    → Effect t k k'
    → (k.lock ≡ some u) × Even k.generation
    → (k'.lock ≡ some u) × Even k'.generation
still_locked t u k k' n e (l, even) = let x = e.locked u n l in (x.0, ground arith)

-- A goroutine keeps what it knows while another one steps.
pub Effect-Knows :
    (t u : ℕ) (k k' : Key) (q : Position) → u ≢ t → Effect t k k' → Safe u k q → Knows u k' q
Effect-Knows t u k k' idle n e (a, b) = tt
Effect-Knows t u k k' (loaded g) n e (a, b) = omega (arith, e.grows)
Effect-Knows t u k k' (added g c) n e (a, b) = tt
Effect-Knows t u k k' (begun g c x) n e (a, b) = a
Effect-Knows t u k k' (bounded g c x) n e (a, b) =
    let older : g ≤ k.generation = (b (g, c, c) refl).bound in
    let grows = e.grows in (λ f. ground (arith, e.end_kept (ground arith) (ground arith)), a.1)
Effect-Knows t u k k' (confirmed g c) n e (a, b) =
    let older : g ≤ k.generation = (b (g, c, c) refl).bound in
    let grows = e.grows in (λ f. ground (arith, e.end_kept (ground arith) (ground arith)), a.1)
Effect-Knows t u k k' (holding m left) n e (a, b) = let x = e.locked u n a.0 in ground arith
Effect-Knows t u k k' (missed m left) n e (a, b) = let x = e.locked u n a.0 in ground arith
Effect-Knows t u k k' (waiting m left) n e (a, b) = a
Effect-Knows t u k k' (advanced left g c) n e (a, b) =
    let x = e.locked u n a.0 in (x.0, ground arith, a.2, a.3)
Effect-Knows t u k k' (raised m r) n e (a, b) = let x = e.locked u n a.0 in ground arith
Effect-Knows t u k k' (placed m r) n e (a, b) = let x = e.locked u n a.0 in ground arith
Effect-Knows t u k k' (opened m r) n e (a, b) = let x = e.locked u n a.0 in ground arith
Effect-Knows t u k k' (block_loaded held m g) n e (a, b) =
    (a.0, omega (arith, e.grows, a.1), a.2, λ h. still_locked t u k k' n e (a.3 h))
Effect-Knows t u k k' (block_read held m g cur) n e (a, b) =
    (a.0, omega (arith, e.grows, a.1), a.2, λ h. still_locked t u k k' n e (a.3 h))
Effect-Knows t u k k' (block_begun held m g cur x) n e (a, b) =
    (a.0, omega (arith, e.grows, a.1), a.2, λ h. still_locked t u k k' n e (a.3 h))
Effect-Knows t u k k' (block_fits held m g cur) n e (a, b) =
    let grows = e.grows in
    (
      a.0,
      omega (arith, e.grows, a.1),
      a.2,
      λ h. still_locked t u k k' n e (a.3 h),
      λ f. ground (arith, e.end_kept (ground arith) (ground arith), a.4),
    )
Effect-Knows t u k k' (block_swapped held m g cur) n e (a, b) =
    let older : g ≤ k.generation = (b (g, suc cur, cur + m) refl).bound in
    let grows = e.grows in
    (
      a.0,
      a.1,
      λ h. still_locked t u k k' n e (a.2 h),
      λ f. ground (arith, e.end_kept (ground arith) (ground arith), a.3),
    )
Effect-Knows t u k k' (closed m r) n e (a, b) =
    let x = e.locked u n a.0 in
    (
      x.0,
      ground arith,
      ground arith,
      ground arith,
      a.4,
      a.5,
      ground arith,
      ground arith,
      subst (λ (bs : List Block). All (λ b. b.last < r.start) bs) (sym (e.quiet u n a.0 a.2)) a.8,
    )
