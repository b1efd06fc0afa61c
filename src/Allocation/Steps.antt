-- ===== src/Allocation/Steps.antt =====
-- What a step does to the fields that the goroutines share.
use sindri.Prelude.{ℕ, suc, ◌≤◌, Bool, none, ◌==◌, ◌≡◌, refl, arith, ◌⊎◌, inl, inr, Bool-cases}
use sindri.Ranges.{SequenceRange}
use sindri.Allocation.{
  Key, Position, idle, loaded, added, begun, bounded, confirmed, block_loaded, block_read,
  block_begun, block_fits, block_swapped, waiting, holding, advanced, missed, raised, placed,
  opened, closed, advance,
}
use sindri.Allocation.Ideal.{ideal}
use sindri.Allocation.Invariant.{Even, Safe, Shared}

-- How the generation moves: not; from even to odd; or with the last store of an activation.
pub data Jump (k k' : Key) (p : Position) : Type 0 where
  same : k'.generation ≡ k.generation → Jump k k' p
  up : Even k.generation → k'.generation ≡ suc k.generation → Jump k k' p
  down : (n : ℕ) (r : SequenceRange) → p ≡ closed n r → k'.next ≡ k.next → Jump k k' p

pub ideal-Jump :
    (t : ℕ) (bound : Bool) (k : Key) (p : Position)
    → Shared k
    → Safe t k p
    → Jump k (ideal t bound k p).0 p
unfolding ideal advance
ideal-Jump t bound k idle s (a, b) = same (ground arith)
ideal-Jump t bound k (loaded g) s (a, b) = same (ground arith)
ideal-Jump t bound k (added g c) s (a, b) = same (ground arith)
ideal-Jump t bound k (begun g c x) s (a, b) = same (ground arith)
ideal-Jump t bound k (bounded g c x) s (a, b) = same (ground arith)
ideal-Jump t bound k (confirmed g c) s (a, b) = same (ground arith)
ideal-Jump t bound k (block_loaded held n g) s (a, b) = same (ground arith)
ideal-Jump t bound k (block_read held n g cur) s (a, b) = same (ground arith)
ideal-Jump t bound k (block_begun held n g cur x) s (a, b) = same (ground arith)
ideal-Jump t bound k (block_fits held n g cur) s (a, b) = same (ground arith)
ideal-Jump t bound k (block_swapped held n g cur) s (a, b) = same (ground arith)
ideal-Jump t bound k (waiting n left) s (a, b) = same (ground arith)
ideal-Jump t bound k (holding n left) s (a, b) = same (ground arith)
ideal-Jump t bound k (missed n left) s (a, b) =
    elim (Bool-cases ((ideal t bound k (missed n left)).0.generation == k.generation)) [
      | inl e ↦ same (ground arith)
      | inr e ↦ up a.1 (ground arith)
    ]
ideal-Jump t bound k (advanced left g c) s (a, b) = same (ground arith)
ideal-Jump t bound k (raised n r) s (a, b) = same (ground arith)
ideal-Jump t bound k (placed n r) s (a, b) = same (ground arith)
ideal-Jump t bound k (opened n r) s (a, b) = same (ground arith)
ideal-Jump t bound k (closed n r) s (a, b) = down n r refl (ground arith)

-- The end of the active range moves up, to at most the end of the last range fetched; the mutex is
-- free only between activations.
pub ideal-range :
    (t : ℕ) (bound : Bool) (k : Key) (p : Position)
    → Shared k
    → Safe t k p
    → let k' = (ideal t bound k p).0 in
      (k.last ≤ k'.last)
      × (k'.last ≤ k'.high)
      × (k'.high ≡ k.high)
      × (k'.lock ≡ none → Even k'.generation)
unfolding ideal advance
ideal-range t bound k idle s (a, b) =
    let high = s.below_high in let free = s.unlocked in ground arith
ideal-range t bound k (loaded g) s (a, b) =
    let high = s.below_high in let free = s.unlocked in ground arith
ideal-range t bound k (added g c) s (a, b) =
    let high = s.below_high in let free = s.unlocked in ground arith
ideal-range t bound k (begun g c x) s (a, b) =
    let high = s.below_high in let free = s.unlocked in ground arith
ideal-range t bound k (bounded g c x) s (a, b) =
    let high = s.below_high in let free = s.unlocked in ground arith
ideal-range t bound k (confirmed g c) s (a, b) =
    let high = s.below_high in let free = s.unlocked in ground arith
ideal-range t bound k (block_loaded held n g) s (a, b) =
    let high = s.below_high in let free = s.unlocked in ground arith
ideal-range t bound k (block_read held n g cur) s (a, b) =
    let high = s.below_high in let free = s.unlocked in ground arith
ideal-range t bound k (block_begun held n g cur x) s (a, b) =
    let high = s.below_high in let free = s.unlocked in ground arith
ideal-range t bound k (block_fits held n g cur) s (a, b) =
    let high = s.below_high in let free = s.unlocked in ground arith
ideal-range t bound k (block_swapped held n g cur) s (a, b) =
    let high = s.below_high in let free = s.unlocked in ground arith
ideal-range t bound k (waiting n left) s (a, b) =
    let high = s.below_high in let free = s.unlocked in ground arith
ideal-range t bound k (holding n left) s (a, b) =
    let high = s.below_high in let free = s.unlocked in ground arith
ideal-range t bound k (missed n left) s (a, b) =
    let high = s.below_high in let free = s.unlocked in ground arith
ideal-range t bound k (advanced left g c) s (a, b) =
    let high = s.below_high in let free = s.unlocked in ground arith
ideal-range t bound k (raised n r) s (a, b) =
    let high = s.below_high in let free = s.unlocked in ground arith
ideal-range t bound k (placed n r) s (a, b) =
    let high = s.below_high in let free = s.unlocked in ground arith
ideal-range t bound k (opened n r) s (a, b) =
    let high = s.below_high in let free = s.unlocked in ground arith
ideal-range t bound k (closed n r) s (a, b) =
    let high = s.below_high in let free = s.unlocked in ground arith

pub ideal-standby :
    (t : ℕ) (bound : Bool) (k : Key) (p : Position)
    → Shared k
    → Safe t k p
    → let k' = (ideal t bound k p).0 in
      (k'.standby ≡ none) ⊎ ((k'.standby ≡ k.standby) × (k'.last ≡ k.last))
unfolding ideal advance
ideal-standby t bound k idle s (a, b) = ground arith
ideal-standby t bound k (loaded g) s (a, b) = ground arith
ideal-standby t bound k (added g c) s (a, b) = ground arith
ideal-standby t bound k (begun g c x) s (a, b) = ground arith
ideal-standby t bound k (bounded g c x) s (a, b) = ground arith
ideal-standby t bound k (confirmed g c) s (a, b) = ground arith
ideal-standby t bound k (block_loaded held n g) s (a, b) = ground arith
ideal-standby t bound k (block_read held n g cur) s (a, b) = ground arith
ideal-standby t bound k (block_begun held n g cur x) s (a, b) = ground arith
ideal-standby t bound k (block_fits held n g cur) s (a, b) = ground arith
ideal-standby t bound k (block_swapped held n g cur) s (a, b) = ground arith
ideal-standby t bound k (waiting n left) s (a, b) = ground arith
ideal-standby t bound k (holding n left) s (a, b) = ground arith
ideal-standby t bound k (missed n left) s (a, b) = ground arith
ideal-standby t bound k (advanced left g c) s (a, b) = ground arith
ideal-standby t bound k (raised n r) s (a, b) = ground arith
ideal-standby t bound k (placed n r) s (a, b) = ground arith
ideal-standby t bound k (opened n r) s (a, b) = ground arith
ideal-standby t bound k (closed n r) s (a, b) = ground arith
