-- ===== src/Allocation/Ideal.antt =====
-- The steps of a goroutine with a cursor that does not wrap around and unsigned comparisons, for the
-- proofs: Allocation/Small shows when they are the steps of the source.
use sindri.Prelude.{ℕ, suc, ◌+◌, Bool, true, not, ◌&&◌, none, some, leb, ◌==◌, if◌then◌else◌}
use sindri.Prelude.Int64.{max_int64}
use sindri.Allocation.{
  Key, Leftover, Position, idle, loaded, added, begun, bounded, block_begun, block_fits,
  block_loaded, holding, advanced, missed, is_even, unlock, grant, give_up_fast, block_miss,
  advance,
}

module _ (t : ℕ) (bound : Bool) where
  abbrev ideal_lock : Key → ℕ → Leftover → Key × Position
  ideal_lock k n left =
      if n == 1
      then (if not bound
          then (unlock k, idle)
          else if not k.initialized
          then (k, missed 1 left)
          else elim left [
            | none ↦ (record k { next = suc k.next }, advanced none k.generation (suc k.next))
            | some (g, c) ↦
                if g == k.generation && (leb k.start c && leb c k.last)
                then (grant bound c c (unlock k), idle)
                else (
                  record k { next = suc k.next },
                  advanced (some (g, suc k.next)) k.generation (suc k.next),
                )
          ])
      else if k.initialized && is_even k.generation
      then (k, block_loaded true n k.generation)
      else (k, missed n none)

  unfoldable pub ideal : Key → Position → Key × Position
  unfolding advance
  ideal k (loaded g) =
      if bound then (record k { next = suc k.next }, added g (suc k.next)) else (k, idle)
  ideal k (begun g c s) =
      if leb s c && leb c k.last then (k, bounded g c s) else give_up_fast t bound k g c
  ideal k (block_begun held n g cur s) =
      if leb s cur && leb (cur + n) max_int64 && leb (cur + n) k.last
      then (k, block_fits held n g cur)
      else block_miss t bound held k n
  ideal k (holding n left) = ideal_lock k n left
  ideal k (advanced left g c) =
      if leb k.start c && leb c k.last
      then (grant bound c c (unlock k), idle)
      else if bound
      then (k, missed 1 left)
      else (unlock k, idle)
  ideal k p = advance t bound k p
