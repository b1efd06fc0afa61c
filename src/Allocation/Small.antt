-- ===== src/Allocation/Small.antt =====
-- While the cursor has not been moved 2 ^ 63 times, it does not wrap around past 2 ^ 64, and the
-- source's signed comparisons are those of natural numbers.
use sindri.Prelude.{
  ℕ, suc, ◌+◌, ◌≤◌, ◌<◌, Bool, ◌&&◌, none, some, leb, ◌≡◌, refl, arith, inl, inr, Bool-cases,
}
use sindri.Prelude.Int64.{two64, max_int64, add64, le64}
use sindri.Allocation.{
  Key, Leftover, Position, idle, loaded, added, begun, bounded, confirmed, block_loaded, block_read,
  block_begun, block_fits, block_swapped, waiting, holding, advanced, missed, raised, placed,
  opened, closed, within64, advance,
}
use sindri.Allocation.Ideal.{ideal}
use sindri.Allocation.Invariant.{Shared}

-- No number of the key is above `most`, and the bounds of its ranges are int64s from 0 on.
pub record Small (most : ℕ) (k : Key) : Type 0 where
  pub cursor : k.next ≤ most
  pub start : k.start ≤ max_int64
  pub high : k.high ≤ max_int64

abbrev pub LeftSmall : ℕ → Leftover → Type 0
LeftSmall most none = Unit
LeftSmall most (some (g, c)) = c ≤ most

abbrev pub SmallAt : ℕ → Position → Type 0
SmallAt most (added g c) = c ≤ most
SmallAt most (begun g c s) = (c ≤ most) × (s ≤ max_int64)
SmallAt most (bounded g c s) = c ≤ most
SmallAt most (confirmed g c) = c ≤ most
SmallAt most (block_read held n g cur) = cur ≤ most
SmallAt most (block_begun held n g cur s) = (cur ≤ most) × (s ≤ max_int64)
SmallAt most (block_fits held n g cur) = cur + n ≤ max_int64
SmallAt most (waiting n left) = LeftSmall most left
SmallAt most (holding n left) = LeftSmall most left
SmallAt most (missed n left) = LeftSmall most left
SmallAt most (advanced left g c) = LeftSmall most left × (c ≤ most)
SmallAt most _ = Unit

next_exact : (most x : ℕ) → x ≤ most → suc most < two64 → add64 x 1 ≡ suc x
next_exact most x h b = omega (arith, h, b)

within64-leb :
    (first last id : ℕ)
    → first ≤ max_int64
    → last ≤ max_int64
    → id < two64
    → within64 first last id ≡ (leb first id && leb id last)
within64-leb first last id f l i = ground arith

block_within :
    (first last cur n : ℕ)
    → first ≤ max_int64
    → last ≤ max_int64
    → cur < two64
    → (le64 first cur && leb (cur + n) max_int64 && le64 (cur + n) last)
      ≡ (leb first cur && leb (cur + n) max_int64 && leb (cur + n) last)
block_within first last cur n f l i = elim (Bool-cases (leb (cur + n) max_int64)) [
  | inl e ↦ ground arith
  | inr e ↦ ground arith
]

module _ (t : ℕ) (bound : Bool) (most : ℕ) (room : suc most < two64) (k : Key) (sh : Shared k)
    (small : Small most k) where
  last_small : k.last ≤ max_int64
  last_small = omega (arith, sh.below_high, small.high)

  -- The source's step is the ideal one.
  pub advance-ideal : (p : Position) → SmallAt most p → advance t bound k p ≡ ideal t bound k p
  unfolding ideal advance
  advance-ideal idle a = refl
  advance-ideal (loaded g) a = rw (next_exact most k.next small.cursor room) refl
  advance-ideal (added g c) a = refl
  advance-ideal (begun g c s) a =
      rw (within64-leb s k.last c a.1 last_small (omega (arith, a.0, room))) refl
  advance-ideal (bounded g c x) a = refl
  advance-ideal (confirmed g c) a = refl
  advance-ideal (block_loaded held n g) a = refl
  advance-ideal (block_read held n g cur) a = refl
  advance-ideal (block_begun held n g cur s) a =
      rw (block_within s k.last cur n a.1 last_small (omega (arith, a.0, room))) refl
  advance-ideal (block_fits held n g cur) a = refl
  advance-ideal (block_swapped held n g cur) a = refl
  advance-ideal (waiting n left) a = refl
  advance-ideal (holding n none) a = rw (next_exact most k.next small.cursor room) refl
  advance-ideal (holding n (some (g, c))) a =
      rw
        (
          next_exact most k.next small.cursor room,
          within64-leb k.start k.last c small.start last_small (omega (arith, a, room)),
        )
        refl
  advance-ideal (missed n left) a = refl
  advance-ideal (advanced left g c) a =
      rw (within64-leb k.start k.last c small.start last_small (omega (arith, a.1, room))) refl
  advance-ideal (raised n r) a = refl
  advance-ideal (placed n r) a = refl
  advance-ideal (opened n r) a = refl
  advance-ideal (closed n r) a = refl
