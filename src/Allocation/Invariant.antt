-- ===== src/Allocation/Invariant.antt =====
-- What holds of a key and of every goroutine at every step.
use sindri.Prelude.{
  ℕ, suc, ◌+◌, ◌%◌, ◌≤◌, ◌<◌, Bool, true, Option, none, some, List, [], ◌∷◌, All, ◌≡◌, refl, arith,
  ◌⊎◌, inl, inr, Option-cases,
}
use sindri.Store.Slots.{All-map}
use sindri.Ranges.{SequenceRange}
use sindri.Allocation.{
  Block, Key, Leftover, Position, idle, loaded, added, begun, bounded, confirmed, block_loaded,
  block_read, block_begun, block_fits, block_swapped, waiting, holding, advanced, missed, raised,
  placed, opened, closed, advance,
}
use sindri.Allocation.Ideal.{ideal}

abbrev pub Even : ℕ → Type 0
Even g = g % 2 ≡ 0

-- The numbers from `lo` to `hi` are none of the block's.
abbrev pub Apart : ℕ → ℕ → Block → Type 0
Apart lo hi b = (hi < b.first) ⊎ (b.last < lo)

-- The numbers that a position has taken off the cursor, and the generation they belong to.
abbrev pub Token : Type 0
Token = ℕ × ℕ × ℕ

abbrev of_leftover : Leftover → Option Token
of_leftover none = none
of_leftover (some (g, c)) = some (g, c, c)

abbrev pub token : Position → Option Token
token (added g c) = some (g, c, c)
token (begun g c x) = some (g, c, c)
token (bounded g c s) = some (g, c, c)
token (confirmed g c) = some (g, c, c)
token (block_swapped held n g cur) = some (g, suc cur, cur + n)
token (waiting n left) = of_leftover left
token (holding n left) = of_leftover left
token (missed n left) = of_leftover left
token (advanced left g c) = some (g, c, c)
token _ = none

abbrev pub Live : Key → Token → Type 0
Live k (g, lo, hi) = (g ≡ k.generation) × Even g

abbrev pub Fresh : Key → Token → Type 0
Fresh k (g, lo, hi) = (hi ≤ k.next) × All (Apart lo hi) k.granted

-- What a position knows besides its token.
abbrev pub Knows : ℕ → Key → Position → Type 0
Knows t k idle = Unit
Knows t k (loaded g) = g ≤ k.generation
Knows t k (added g c) = Unit
Knows t k (begun g c x) = Even g
Knows t k (bounded g c s) = (g ≡ k.generation → c ≤ k.last) × Even g
Knows t k (confirmed g c) = (g ≡ k.generation → c ≤ k.last) × Even g
Knows t k (block_loaded held n g) =
    (0 < n) × (g ≤ k.generation) × Even g × (held ≡ true → (k.lock ≡ some t) × Even k.generation)
Knows t k (block_read held n g cur) =
    (0 < n) × (g ≤ k.generation) × Even g × (held ≡ true → (k.lock ≡ some t) × Even k.generation)
Knows t k (block_begun held n g cur x) =
    (0 < n) × (g ≤ k.generation) × Even g × (held ≡ true → (k.lock ≡ some t) × Even k.generation)
Knows t k (block_fits held n g cur) =
    (0 < n)
    × (g ≤ k.generation)
    × Even g
    × (held ≡ true → (k.lock ≡ some t) × Even k.generation)
    × (g ≡ k.generation → cur + n ≤ k.last)
Knows t k (block_swapped held n g cur) =
    (0 < n)
    × Even g
    × (held ≡ true → (k.lock ≡ some t) × Even k.generation)
    × (g ≡ k.generation → cur + n ≤ k.last)
Knows t k (waiting n left) = 0 < n
Knows t k (holding n left) = (k.lock ≡ some t) × Even k.generation × (0 < n)
Knows t k (missed n left) = (k.lock ≡ some t) × Even k.generation × (0 < n)
Knows t k (advanced left g c) =
    (k.lock ≡ some t)
    × (g ≡ k.generation)
    × Even g
    × ((old : ℕ × ℕ) → left ≡ some old → (old.1 ≡ c) × (old.0 ≤ g))
Knows t k (raised n r) =
    (k.lock ≡ some t)
    × (k.standby ≡ none)
    × (k.generation % 2 ≡ 1)
    × (k.last < r.start)
    × (0 < n)
    × (r.start + n ≤ suc r.last)
    × (r.last ≤ k.high)
Knows t k (placed n r) =
    (k.lock ≡ some t)
    × (k.standby ≡ none)
    × (k.generation % 2 ≡ 1)
    × (k.last < r.start)
    × (0 < n)
    × (r.start + n ≤ suc r.last)
    × (r.last ≤ k.high)
    × (r.start + n ≤ suc k.next)
Knows t k (opened n r) =
    (k.lock ≡ some t)
    × (k.standby ≡ none)
    × (k.generation % 2 ≡ 1)
    × (k.last < r.start)
    × (0 < n)
    × (r.start + n ≤ suc r.last)
    × (r.last ≤ k.high)
    × (r.start + n ≤ suc k.next)
Knows t k (closed n r) =
    (k.lock ≡ some t)
    × (k.standby ≡ none)
    × (k.generation % 2 ≡ 1)
    × (k.last ≡ r.last)
    × (0 < n)
    × (r.start + n ≤ suc r.last)
    × (r.last ≤ k.high)
    × (r.start + n ≤ suc k.next)
    × All (λ b. b.last < r.start) k.granted

pub record Held (k : Key) (tok : Token) : Type 0 where
  pub bound : tok.0 ≤ k.generation
  pub fresh : Live k tok → Fresh k tok

abbrev pub Safe : ℕ → Key → Position → Type 0
Safe t k p = Knows t k p × ((tok : Token) → token p ≡ some tok → Held k tok)

abbrev pub Pairwise : List Block → Type 0
Pairwise [] = Unit
Pairwise (b ∷ bs) = All (Apart b.first b.last) bs × Pairwise bs

pub record Shared (k : Key) : Type 0 where
  pub apart : Pairwise k.granted
  pub below_next : Even k.generation → All (λ b. b.last ≤ k.next) k.granted
  pub below_last : All (λ b. b.last ≤ k.last) k.granted
  pub below_high : k.last ≤ k.high
  pub standby :
      (r : SequenceRange)
      → k.standby ≡ some r
      → (k.last < r.start) × (r.start ≤ r.last) × (r.last ≤ k.high)
  pub unlocked : k.lock ≡ none → Even k.generation

-- The position's own step keeps what it knows.
pub ideal-Knows :
    (t : ℕ) (bound : Bool) (k : Key) (p : Position)
    → Shared k
    → Safe t k p
    → Knows t (ideal t bound k p).0 (ideal t bound k p).1
unfolding ideal advance
ideal-Knows t bound k idle s (a, b) = tt
ideal-Knows t bound k (loaded g) s (a, b) = ground arith
ideal-Knows t bound k (added g c) s (a, b) = ground arith
ideal-Knows t bound k (begun g c x) s (a, b) = ground arith
ideal-Knows t bound k (bounded g c x) s (a, b) = ground arith
ideal-Knows t bound k (confirmed g c) s (a, b) = ground arith
ideal-Knows t bound k (block_loaded held n g) s (a, b) = ground arith
ideal-Knows t bound k (block_read held n g cur) s (a, b) = ground arith
ideal-Knows t bound k (block_begun held n g cur x) s (a, b) = ground arith
ideal-Knows t bound k (block_fits held n g cur) s (a, b) = ground arith
ideal-Knows t bound k (block_swapped held n g cur) s (a, b) = ground arith
ideal-Knows t bound k (waiting n left) s (a, b) = ground arith
ideal-Knows t bound k (holding n none) s (a, b) = ground arith
ideal-Knows t bound k (holding n (some (g, c))) s (a, b) =
    let older : g ≤ k.generation = (b (g, c, c) refl).bound in ground arith
ideal-Knows t bound k (missed n left) s (a, b) = elim (Option-cases k.standby) [
  | inl e ↦ ground arith
  | inr (r, e) ↦ let fits = s.standby r e in ground arith
]
ideal-Knows t bound k (advanced left g c) s (a, b) = ground arith
ideal-Knows t bound k (raised n r) s (a, b) = ground arith
ideal-Knows t bound k (placed n r) s (a, b) = ground arith
ideal-Knows t bound k (opened n r) s (a, b) = (
  a.0,
  a.1,
  a.2,
  refl,
  a.4,
  a.5,
  a.6,
  a.7,
  All-map (λ b. b.last ≤ k.last) (λ b. b.last < r.start) k.granted (λ x l. omega (arith, a.3))
      s.below_last,
)
ideal-Knows t bound k (closed n r) s (a, b) = ground arith
