-- ===== src/Allocation/Room.antt =====
-- A step needs room for one more move of the cursor.
use sindri.Prelude.{ℕ, suc, ◌≤◌, Bool, none, some, arith}
use sindri.Prelude.Int64.{max_int64}
use sindri.Allocation.{
  Key, Leftover, Position, idle, loaded, added, begun, bounded, confirmed, block_loaded, block_read,
  block_begun, block_fits, block_swapped, waiting, holding, advanced, missed, raised, placed,
  opened, closed, advance,
}
use sindri.Allocation.Ideal.{ideal}
use sindri.Allocation.Invariant.{Shared, Safe}
use sindri.Allocation.Small.{Small, LeftSmall, SmallAt}

pub Small-grow : (most : ℕ) (k : Key) → Small most k → Small (suc most) k
Small-grow most k s = record { cursor = omega (arith, s.cursor); start = s.start; high = s.high }

LeftSmall-grow : (most : ℕ) (left : Leftover) → LeftSmall most left → LeftSmall (suc most) left
LeftSmall-grow most none a = tt
LeftSmall-grow most (some (g, c)) a = omega (arith, a)

pub SmallAt-grow : (most : ℕ) (p : Position) → SmallAt most p → SmallAt (suc most) p
SmallAt-grow most idle a = tt
SmallAt-grow most (loaded g) a = tt
SmallAt-grow most (added g c) a = omega (arith, a)
SmallAt-grow most (begun g c s) a = (omega (arith, a.0), a.1)
SmallAt-grow most (bounded g c x) a = omega (arith, a)
SmallAt-grow most (confirmed g c) a = omega (arith, a)
SmallAt-grow most (block_loaded held n g) a = tt
SmallAt-grow most (block_read held n g cur) a = omega (arith, a)
SmallAt-grow most (block_begun held n g cur s) a = (omega (arith, a.0), a.1)
SmallAt-grow most (block_fits held n g cur) a = a
SmallAt-grow most (block_swapped held n g cur) a = tt
SmallAt-grow most (waiting n left) a = LeftSmall-grow most left a
SmallAt-grow most (holding n left) a = LeftSmall-grow most left a
SmallAt-grow most (missed n left) a = LeftSmall-grow most left a
SmallAt-grow most (advanced left g c) a = (LeftSmall-grow most left a.0, omega (arith, a.1))
SmallAt-grow most (raised n r) a = tt
SmallAt-grow most (placed n r) a = tt
SmallAt-grow most (opened n r) a = tt
SmallAt-grow most (closed n r) a = tt

module _ (t : ℕ) (bound : Bool) (most : ℕ) (large : max_int64 ≤ most) (k : Key) (sh : Shared k)
    (small : Small most k) where
  -- A step moves the cursor by one at most, beyond the ends of the ranges.
  pub ideal-cursor :
      (p : Position) → SmallAt most p → Safe t k p → (ideal t bound k p).0.next ≤ suc most
  unfolding ideal advance
  ideal-cursor idle a safe = let cursor = small.cursor in let high = small.high in ground arith
  ideal-cursor (loaded g) a safe =
      let cursor = small.cursor in let high = small.high in ground arith
  ideal-cursor (added g c) a safe =
      let cursor = small.cursor in let high = small.high in ground arith
  ideal-cursor (begun g c s) a safe =
      let cursor = small.cursor in let high = small.high in ground arith
  ideal-cursor (bounded g c x) a safe =
      let cursor = small.cursor in let high = small.high in ground arith
  ideal-cursor (confirmed g c) a safe =
      let cursor = small.cursor in let high = small.high in ground arith
  ideal-cursor (block_loaded held n g) a safe =
      let cursor = small.cursor in let high = small.high in ground arith
  ideal-cursor (block_read held n g cur) a safe =
      let cursor = small.cursor in let high = small.high in ground arith
  ideal-cursor (block_begun held n g cur s) a safe =
      let cursor = small.cursor in let high = small.high in ground arith
  ideal-cursor (block_fits held n g cur) a safe =
      let cursor = small.cursor in let high = small.high in ground arith
  ideal-cursor (block_swapped held n g cur) a safe =
      let cursor = small.cursor in let high = small.high in ground arith
  ideal-cursor (waiting n left) a safe =
      let cursor = small.cursor in let high = small.high in ground arith
  ideal-cursor (holding n none) a safe =
      let cursor = small.cursor in let high = small.high in ground arith
  ideal-cursor (holding n (some (g, c))) a safe =
      let cursor = small.cursor in let high = small.high in ground arith
  ideal-cursor (missed n left) a safe =
      let cursor = small.cursor in let high = small.high in ground arith
  ideal-cursor (advanced left g c) a safe =
      let cursor = small.cursor in let high = small.high in ground arith
  ideal-cursor (raised n r) a safe =
      let cursor = small.cursor in let high = small.high in ground arith
  ideal-cursor (placed n r) a safe =
      let cursor = small.cursor in let high = small.high in ground arith
  ideal-cursor (opened n r) a safe =
      let cursor = small.cursor in let high = small.high in ground arith
  ideal-cursor (closed n r) a safe =
      let cursor = small.cursor in let high = small.high in ground arith

  pub ideal-start :
      (p : Position) → SmallAt most p → Safe t k p → (ideal t bound k p).0.start ≤ max_int64
  unfolding ideal advance
  ideal-start idle a safe = let first = small.start in let high = small.high in ground arith
  ideal-start (loaded g) a safe = let first = small.start in let high = small.high in ground arith
  ideal-start (added g c) a safe = let first = small.start in let high = small.high in ground arith
  ideal-start (begun g c s) a safe =
      let first = small.start in let high = small.high in ground arith
  ideal-start (bounded g c x) a safe =
      let first = small.start in let high = small.high in ground arith
  ideal-start (confirmed g c) a safe =
      let first = small.start in let high = small.high in ground arith
  ideal-start (block_loaded held n g) a safe =
      let first = small.start in let high = small.high in ground arith
  ideal-start (block_read held n g cur) a safe =
      let first = small.start in let high = small.high in ground arith
  ideal-start (block_begun held n g cur s) a safe =
      let first = small.start in let high = small.high in ground arith
  ideal-start (block_fits held n g cur) a safe =
      let first = small.start in let high = small.high in ground arith
  ideal-start (block_swapped held n g cur) a safe =
      let first = small.start in let high = small.high in ground arith
  ideal-start (waiting n left) a safe =
      let first = small.start in let high = small.high in ground arith
  ideal-start (holding n none) a safe =
      let first = small.start in let high = small.high in ground arith
  ideal-start (holding n (some (g, c))) a safe =
      let first = small.start in let high = small.high in ground arith
  ideal-start (missed n left) a safe =
      let first = small.start in let high = small.high in ground arith
  ideal-start (advanced left g c) a safe =
      let first = small.start in let high = small.high in ground arith
  ideal-start (raised n r) a safe = let first = small.start in let high = small.high in ground arith
  ideal-start (placed n r) a safe = let first = small.start in let high = small.high in ground arith
  ideal-start (opened n r) a safe = let first = small.start in let high = small.high in ground arith
  ideal-start (closed n r) a safe = let first = small.start in let high = small.high in ground arith

  pub ideal-SmallAt :
      (p : Position) → SmallAt most p → Safe t k p → SmallAt (suc most) (ideal t bound k p).1
  unfolding ideal advance
  ideal-SmallAt idle a safe = let cursor = small.cursor in let first = small.start in ground arith
  ideal-SmallAt (loaded g) a safe =
      let cursor = small.cursor in let first = small.start in ground arith
  ideal-SmallAt (added g c) a safe =
      let cursor = small.cursor in let first = small.start in ground arith
  ideal-SmallAt (begun g c s) a safe =
      let cursor = small.cursor in let first = small.start in ground arith
  ideal-SmallAt (bounded g c x) a safe =
      let cursor = small.cursor in let first = small.start in ground arith
  ideal-SmallAt (confirmed g c) a safe =
      let cursor = small.cursor in let first = small.start in ground arith
  ideal-SmallAt (block_loaded held n g) a safe =
      let cursor = small.cursor in let first = small.start in ground arith
  ideal-SmallAt (block_read held n g cur) a safe =
      let cursor = small.cursor in let first = small.start in ground arith
  ideal-SmallAt (block_begun held n g cur s) a safe =
      let cursor = small.cursor in let first = small.start in ground arith
  ideal-SmallAt (block_fits held n g cur) a safe =
      let cursor = small.cursor in let first = small.start in ground arith
  ideal-SmallAt (block_swapped held n g cur) a safe =
      let cursor = small.cursor in let first = small.start in ground arith
  ideal-SmallAt (waiting n left) a safe =
      let cursor = small.cursor in let first = small.start in ground arith
  ideal-SmallAt (holding n none) a safe =
      let cursor = small.cursor in let first = small.start in ground arith
  ideal-SmallAt (holding n (some (g, c))) a safe =
      let cursor = small.cursor in let first = small.start in ground arith
  ideal-SmallAt (missed n left) a safe =
      let cursor = small.cursor in let first = small.start in ground arith
  ideal-SmallAt (advanced left g c) a safe =
      let cursor = small.cursor in let first = small.start in ground arith
  ideal-SmallAt (raised n r) a safe =
      let cursor = small.cursor in let first = small.start in ground arith
  ideal-SmallAt (placed n r) a safe =
      let cursor = small.cursor in let first = small.start in ground arith
  ideal-SmallAt (opened n r) a safe =
      let cursor = small.cursor in let first = small.start in ground arith
  ideal-SmallAt (closed n r) a safe =
      let cursor = small.cursor in let first = small.start in ground arith
