-- ===== src/Allocation.antt =====
-- internal/sequence/biz/allocation.go: how the goroutines of one replica hand out the numbers of one
-- key, between ranges that are fetched in the background.
--
-- A goroutine is a position in the code of `allocate`, `allocateSlow`, `allocateBlock`,
-- `tryAllocateBlock` or `allocateBlockSlow`, with the values that it has loaded; a step runs it up to
-- and with its next atomic operation. Operations under the mutex on fields that only its holder
-- writes are run together. The cursor is an int64, by its pattern, which Add(1) wraps around; the other
-- sums stay within a checked range. The generation is a natural number: it would have to be moved
-- 2 ^ 64 times to wrap around.
pub mod Ideal
pub mod Invariant
pub mod Effect
pub mod Grants
pub mod Steps
pub mod Unique
pub mod Kept
pub mod System
pub mod Small
pub mod Room
pub mod History
pub mod Fetches
pub mod Around
pub mod Examples
use sindri.Prelude.{
  ℕ, suc, ◌+◌, ◌-◌, ◌%◌, Bool, true, false, not, ◌&&◌, ◌||◌, Option, none, some, List, ◌∷◌, leb,
  ◌==◌, if◌then◌else◌,
}
use sindri.Prelude.Int64.{Int64, max_int64, add64, le64}
use sindri.Ranges.{SequenceRange}

-- The numbers from `first` to `last`.
pub record Block : Type 0 where
  pub first : ℕ
  pub last : ℕ

-- The fields of keyState that the numbers depend on; `fetching` says whether `fetch` is set, and
-- `lock` who holds `mu`. `granted` is the history of the numbers handed out, and `high` the end of
-- the last range fetched.
pub record Key : Type 0 where
  pub next : ℕ
  pub start : ℕ
  pub last : ℕ  -- `end`
  pub generation : ℕ
  pub initialized : Bool
  pub standby : Option SequenceRange
  pub fetching : Bool
  pub lock : Option ℕ
  pub granted : List Block
  pub high : ℕ

-- What the fast path left for the slow one: the generation and the candidate.
abbrev pub Leftover : Type 0
Leftover = Option (ℕ × ℕ)

pub data Position : Type 0 where
  idle : Position
  -- allocate: generation loaded; next advanced; start read; end read; start read again
  loaded : ℕ → Position
  added : ℕ → ℕ → Position
  begun : ℕ → ℕ → ℕ → Position
  bounded : ℕ → ℕ → ℕ → Position
  confirmed : ℕ → ℕ → Position
  -- tryAllocateBlock, with or without the mutex: generation, next, start and end read; next swapped
  block_loaded : Bool → ℕ → ℕ → Position
  block_read : Bool → ℕ → ℕ → ℕ → Position
  block_begun : Bool → ℕ → ℕ → ℕ → ℕ → Position
  block_fits : Bool → ℕ → ℕ → ℕ → Position
  block_swapped : Bool → ℕ → ℕ → ℕ → Position
  -- the slow paths: before the mutex; with it; next advanced; no number in the active range
  waiting : ℕ → Leftover → Position
  holding : ℕ → Leftover → Position
  advanced : Leftover → ℕ → ℕ → Position
  missed : ℕ → Leftover → Position
  -- activateStandbyLocked: generation odd; next, start and end stored
  raised : ℕ → SequenceRange → Position
  placed : ℕ → SequenceRange → Position
  opened : ℕ → SequenceRange → Position
  closed : ℕ → SequenceRange → Position

abbrev pub is_even : ℕ → Bool
is_even g = g % 2 == 0

abbrev pub unlock : Key → Key
unlock k = record k { lock = none }

abbrev pub unlock_if : Bool → Key → Key
unlock_if true k = unlock k
unlock_if false k = k

-- The return of the numbers, unless the bound on pauses or the slot's state refuses them.
abbrev pub grant : Bool → ℕ → ℕ → Key → Key
grant bound first last k =
    if bound then record k { granted = record { first = first; last = last } ∷ k.granted } else k

-- `id >= start && id <= end`.
abbrev pub within64 : Int64 → Int64 → Int64 → Bool
within64 first last id = le64 first id && le64 id last

abbrev pub size : SequenceRange → ℕ
size r = r.last + 1 - r.start

-- `bound` is the answer of the checks that read a clock or the slot: beginLinearization before the
-- cursor moves, and checkLinearizationBound after.
module _ (t : ℕ) (bound : Bool) where
  -- `allocate` when the fast path has failed: the slow path, with what is left.
  abbrev pub give_up_fast : Key → ℕ → ℕ → Key × Position
  give_up_fast k g c = if bound then (k, waiting 1 (some (g, c))) else (k, idle)

  abbrev pub block_miss : Bool → Key → ℕ → Key × Position
  block_miss held k n = if held then (k, missed n none) else (k, waiting n none)

  abbrev with_lock : Key → ℕ → Leftover → Key × Position
  with_lock k n left =
      if n == 1
      then (if not bound
          then (unlock k, idle)
          else if not k.initialized
          then (k, missed 1 left)
          else elim left [
            | none ↦
                (record k { next = add64 k.next 1 }, advanced none k.generation (add64 k.next 1))
            | some (g, c) ↦
                if g == k.generation && within64 k.start k.last c
                then (grant bound c c (unlock k), idle)
                else (
                  record k { next = add64 k.next 1 },
                  advanced (some (g, add64 k.next 1)) k.generation (add64 k.next 1),
                )
          ])
      else if k.initialized && is_even k.generation
      then (k, block_loaded true n k.generation)
      else (k, missed n none)

  abbrev fetch_or_wait : Key → ℕ → Leftover → Key × Position
  fetch_or_wait k n left =
      (unlock (if k.fetching then k else record k { fetching = true }), waiting n left)

  abbrev activate : Key → ℕ → Leftover → Option SequenceRange → Key × Position
  activate k n left none = fetch_or_wait k n left
  activate k n left (some r) =
      if n == 1 || leb n (size r)
      then (if n == 1 || bound
          then (record k { standby = none; generation = suc k.generation }, raised n r)
          else (unlock k, idle))
      else fetch_or_wait (record k { standby = none }) n left

  unfoldable pub advance : Key → Position → Key × Position
  advance k idle = (k, idle)
  advance k (loaded g) =
      if bound then (record k { next = add64 k.next 1 }, added g (add64 k.next 1)) else (k, idle)
  advance k (added g c) = if is_even g then (k, begun g c k.start) else give_up_fast k g c
  advance k (begun g c s) = if within64 s k.last c then (k, bounded g c s) else give_up_fast k g c
  advance k (bounded g c s) = if s == k.start then (k, confirmed g c) else give_up_fast k g c
  advance k (confirmed g c) =
      if g == k.generation then (grant bound c c k, idle) else give_up_fast k g c
  advance k (block_loaded held n g) = (k, block_read held n g k.next)
  advance k (block_read held n g cur) = (k, block_begun held n g cur k.start)
  advance k (block_begun held n g cur s) =
      if le64 s cur && leb (cur + n) max_int64 && le64 (cur + n) k.last
      then (k, block_fits held n g cur)
      else block_miss held k n
  advance k (block_fits held n g cur) =
      if not bound
      then (unlock_if held k, idle)
      else if k.next == cur
      then (record k { next = cur + n }, block_swapped held n g cur)
      else block_miss held k n
  advance k (block_swapped held n g cur) =
      if not bound
      then (unlock_if held k, idle)
      else if g == k.generation
      then (grant bound (suc cur) (cur + n) (unlock_if held k), idle)
      else block_miss held k n
  advance k (waiting n left) = elim k.lock [
    | none ↦ (record k { lock = some t }, holding n left)
    | some _ ↦ (k, waiting n left)
  ]
  advance k (holding n left) = with_lock k n left
  advance k (advanced left g c) =
      if within64 k.start k.last c
      then (grant bound c c (unlock k), idle)
      else if bound
      then (k, missed 1 left)
      else (unlock k, idle)
  advance k (missed n left) = activate k n left k.standby
  advance k (raised n r) = (record k { next = r.start + n - 1 }, placed n r)
  advance k (placed n r) = (record k { start = r.start }, opened n r)
  advance k (opened n r) = (record k { last = r.last }, closed n r)
  advance k (closed n r) = (
    grant bound r.start (r.start + n - 1)
        (record k { generation = suc k.generation; initialized = true; lock = none }),
    idle,
  )
