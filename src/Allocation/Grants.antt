-- ===== src/Allocation/Grants.antt =====
-- The numbers that a step hands out or carries on.
use sindri.Prelude.{
  ℕ, suc, ◌+◌, ◌-◌, ◌≤◌, ◌<◌, Bool, ◌&&◌, none, some, List, ◌∷◌, leb, ◌==◌, ◌≡◌, refl, arith, inl,
  inr, Bool-cases,
}
use sindri.Ranges.{SequenceRange}
use sindri.Allocation.{
  Block, Key, Position, idle, loaded, added, begun, bounded, confirmed, block_loaded, block_read,
  block_begun, block_fits, block_swapped, waiting, holding, advanced, missed, raised, placed,
  opened, closed, advance,
}
use sindri.Allocation.Ideal.{ideal}
use sindri.Allocation.Invariant.{Token, token, Live, Safe}

-- Which numbers a step hands out: none, those of its token, or the first of the activated range.
pub data Grants (k : Key) (p : Position) (granted : List Block) : Type 0 where
  nothing : granted ≡ k.granted → Grants k p granted
  of_token :
      (tok : Token)
      → token p ≡ some tok
      → Live k tok
      → tok.2 ≤ k.last
      → granted ≡ record { first = tok.1; last = tok.2 } ∷ k.granted
      → Grants k p granted
  of_range :
      (n : ℕ) (r : SequenceRange)
      → p ≡ closed n r
      → granted ≡ record { first = r.start; last = r.start + n - 1 } ∷ k.granted
      → Grants k p granted

pub ideal-Grants :
    (t : ℕ) (bound : Bool) (k : Key) (p : Position)
    → Safe t k p
    → Grants k p (ideal t bound k p).0.granted
unfolding ideal advance
ideal-Grants t bound k idle (a, b) = nothing refl
ideal-Grants t bound k (loaded g) (a, b) = nothing (ground arith)
ideal-Grants t bound k (added g c) (a, b) = nothing (ground arith)
ideal-Grants t bound k (begun g c x) (a, b) = nothing (ground arith)
ideal-Grants t bound k (bounded g c x) (a, b) = nothing (ground arith)
ideal-Grants t bound k (block_loaded held n g) (a, b) = nothing (ground arith)
ideal-Grants t bound k (block_read held n g cur) (a, b) = nothing (ground arith)
ideal-Grants t bound k (block_begun held n g cur x) (a, b) = nothing (ground arith)
ideal-Grants t bound k (block_fits held n g cur) (a, b) = nothing (ground arith)
ideal-Grants t bound k (waiting n left) (a, b) = nothing (ground arith)
ideal-Grants t bound k (missed n left) (a, b) = nothing (ground arith)
ideal-Grants t bound k (raised n r) (a, b) = nothing (ground arith)
ideal-Grants t bound k (placed n r) (a, b) = nothing (ground arith)
ideal-Grants t bound k (opened n r) (a, b) = nothing (ground arith)
ideal-Grants t bound k (holding n none) (a, b) = nothing (ground arith)
ideal-Grants t bound k (confirmed g c) (a, b) = elim (Bool-cases (g == k.generation && bound)) [
  | inl e ↦ of_token (g, c, c) refl (ground arith, ground arith) (ground arith) (ground arith)
  | inr e ↦ nothing (ground arith)
]
ideal-Grants t bound k (block_swapped held n g cur) (a, b) =
    elim (Bool-cases (g == k.generation && bound)) [
      | inl e ↦
          of_token (g, suc cur, cur + n) refl (ground arith, ground arith) (ground arith)
            (ground arith)
      | inr e ↦ nothing (ground arith)
    ]
ideal-Grants t bound k (advanced left g c) (a, b) =
    elim (Bool-cases (leb k.start c && leb c k.last && bound)) [
      | inl e ↦ of_token (g, c, c) refl (ground arith, ground arith) (ground arith) (ground arith)
      | inr e ↦ nothing (ground arith)
    ]
ideal-Grants t bound k (holding n (some (g, c))) (a, b) =
    elim (Bool-cases
      (n == 1 && bound && k.initialized && (g == k.generation && leb k.start c && leb c k.last))) [
        | inl e ↦ of_token (g, c, c) refl (ground arith, ground arith) (ground arith) (ground arith)
        | inr e ↦ nothing (ground arith)
      ]
ideal-Grants t bound k (closed n r) (a, b) = elim (Bool-cases bound) [
  | inl e ↦ of_range n r refl (ground arith)
  | inr e ↦ nothing (ground arith)
]

-- The new token of the goroutine that steps: the numbers that it had before, in an older generation
-- perhaps, or fresh ones off the cursor.
pub data Carries (k k' : Key) (p : Position) (tok : Token) : Type 0 where
  kept :
      (old : Token)
      → token p ≡ some old
      → tok.1 ≡ old.1
      → tok.2 ≡ old.2
      → tok.0 ≤ old.0
      → k'.granted ≡ k.granted
      → Carries k k' p tok
  taken :
      k.next < tok.1
      → tok.2 ≤ k'.next
      → tok.0 ≤ k'.generation
      → k'.granted ≡ k.granted
      → k'.generation ≡ k.generation
      → Carries k k' p tok

pub ideal-Carries :
    (t : ℕ) (bound : Bool) (k : Key) (p : Position) (tok : Token)
    → Safe t k p
    → token (ideal t bound k p).1 ≡ some tok
    → Carries k (ideal t bound k p).0 p tok
unfolding ideal advance
ideal-Carries t bound k idle tok (a, b) h = absurd (ground arith)
ideal-Carries t bound k (loaded g) tok (a, b) h =
    taken (ground arith) (ground arith) (ground arith) (ground arith) (ground arith)
ideal-Carries t bound k (added g c) tok (a, b) h =
    kept (g, c, c) refl (ground arith) (ground arith) (ground arith) (ground arith)
ideal-Carries t bound k (begun g c x) tok (a, b) h =
    kept (g, c, c) refl (ground arith) (ground arith) (ground arith) (ground arith)
ideal-Carries t bound k (bounded g c x) tok (a, b) h =
    kept (g, c, c) refl (ground arith) (ground arith) (ground arith) (ground arith)
ideal-Carries t bound k (confirmed g c) tok (a, b) h =
    kept (g, c, c) refl (ground arith) (ground arith) (ground arith) (ground arith)
ideal-Carries t bound k (block_loaded held n g) tok (a, b) h = absurd (ground arith)
ideal-Carries t bound k (block_read held n g cur) tok (a, b) h = absurd (ground arith)
ideal-Carries t bound k (block_begun held n g cur x) tok (a, b) h = absurd (ground arith)
ideal-Carries t bound k (block_swapped held n g cur) tok (a, b) h = absurd (ground arith)
ideal-Carries t bound k (block_fits held n g cur) tok (a, b) h =
    taken (ground arith) (ground arith) (ground arith) (ground arith) (ground arith)
ideal-Carries t bound k (waiting n none) tok (a, b) h = absurd (ground arith)
ideal-Carries t bound k (waiting n (some (g, c))) tok (a, b) h =
    kept (g, c, c) refl (ground arith) (ground arith) (ground arith) (ground arith)
ideal-Carries t bound k (holding n none) tok (a, b) h =
    taken (ground arith) (ground arith) (ground arith) (ground arith) (ground arith)
ideal-Carries t bound k (holding n (some (g, c))) tok (a, b) h =
    let older : g ≤ k.generation = (b (g, c, c) refl).bound in
    elim (Bool-cases (n == 1 && k.initialized)) [
      | inl e ↦ taken (ground arith) (ground arith) (ground arith) (ground arith) (ground arith)
      | inr e ↦ kept (g, c, c) refl (ground arith) (ground arith) (ground arith) (ground arith)
    ]
ideal-Carries t bound k (missed n none) tok (a, b) h = absurd (ground arith)
ideal-Carries t bound k (missed n (some (g, c))) tok (a, b) h =
    kept (g, c, c) refl (ground arith) (ground arith) (ground arith) (ground arith)
ideal-Carries t bound k (advanced none g c) tok (a, b) h = absurd (ground arith)
ideal-Carries t bound k (advanced (some (old, x)) g c) tok (a, b) h =
    let same = a.3 (old, x) refl in
    kept (g, c, c) refl (ground arith) (ground arith) (ground arith) (ground arith)
ideal-Carries t bound k (raised n r) tok (a, b) h = absurd (ground arith)
ideal-Carries t bound k (placed n r) tok (a, b) h = absurd (ground arith)
ideal-Carries t bound k (opened n r) tok (a, b) h = absurd (ground arith)
ideal-Carries t bound k (closed n r) tok (a, b) h = absurd (ground arith)
