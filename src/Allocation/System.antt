-- ===== src/Allocation/System.antt =====
-- All the goroutines of one key, and what happens around them.
use sindri.Prelude.{
  ℕ, ◌≤◌, ◌<◌, Bool, true, false, not, ◌&&◌, ◌||◌, none, some, List, [], ◌∷◌, leb, ◌==◌,
  if◌then◌else◌, ite, ℕ_discrete, ◌-◌,
}
use sindri.Prelude.Int64.{max_int64}
use sindri.Ranges.{SequenceRange}
use sindri.Allocation.{Key, Position, idle, loaded, block_loaded, waiting, advance, size, is_even}

pub record System : Type 0 where
  pub key : Key
  pub at : ℕ → Position  -- by goroutine

unfoldable pub set : ℕ → Position → (ℕ → Position) → ℕ → Position
set t p f u = ite (ℕ_discrete t u) p (f u)

-- An event: a call of `allocateBlock` for a count; a step; the end of a wait, by its context or by
-- the error of a fetch; a fetch that succeeds or fails; a background fetch; `prepareBatchRange`.
pub data Event : Type 0 where
  call : ℕ → ℕ → Event
  step : ℕ → Bool → Event
  leave : ℕ → Event
  fetched : SequenceRange → Event
  failed : Event
  prefetch : Event
  prepare : ℕ → Event

-- Where a call begins: on the fast path if there is an active range.
abbrev pub entry : Key → ℕ → Position
entry k n =
    if n == 0 || n == 1
    then (if k.initialized then loaded k.generation else waiting 1 none)
    else if k.initialized && is_even k.generation
    then block_loaded false n k.generation
    else waiting n none

abbrev pub enter : Key → ℕ → Position → Position
enter k n idle = entry k n
enter k n p = p

abbrev pub left : Position → Position
left (waiting n l) = idle
left p = p

-- `hasReadyBlockLocked`.
abbrev pub has_ready_block : Key → ℕ → Bool
has_ready_block k n =
    k.initialized
      && is_even k.generation
      && leb k.start k.next
      && leb k.next k.last
      && leb n (k.last - k.next)
    || elim k.standby [ none ↦ false | some r ↦ leb n (size r) ]

abbrev pub is_free : Key → Bool
is_free k = elim k.lock [ none ↦ true | some _ ↦ false ]

-- `completeFetch`, which the mutex lets run only while nobody holds it.
abbrev pub complete : Key → SequenceRange → Key
complete k r =
    if is_free k && k.fetching
    then record k { standby = some r; high = r.last; fetching = false }
    else k

abbrev pub fail : Key → Key
fail k = if is_free k then record k { fetching = false } else k

-- The end of `afterAllocate`.
abbrev pub start_prefetch : Key → Key
start_prefetch k = elim k.standby [
  | none ↦ (if is_free k then record k { fetching = true } else k)
  | some _ ↦ k
]

abbrev pub prepare_batch_range : Key → ℕ → Key
prepare_batch_range k n =
    if not (is_free k) || has_ready_block k n || k.fetching
    then k
    else record k { standby = none; fetching = true }

unfoldable pub react : System → Event → System
unfolding set
react s (call t n) = record s { at = set t (enter s.key n (s.at t)) s.at }
react s (step t bound) =
    let r = advance t bound s.key (s.at t) in record { key = r.0; at = set t r.1 s.at }
react s (leave t) = record s { at = set t (left (s.at t)) s.at }
react s (fetched r) = record s { key = complete s.key r }
react s failed = record s { key = fail s.key }
react s prefetch = record s { key = start_prefetch s.key }
react s (prepare n) = record s { key = prepare_batch_range s.key n }

unfoldable pub run : System → List Event → System
run s [] = s
run s (e ∷ es) = run (react s e) es

-- A new keyState: no range, nobody inside.
abbrev pub new_key : Key
new_key = record {
  next = 0;
  start = 0;
  last = 0;
  generation = 0;
  initialized = false;
  standby = none;
  fetching = false;
  lock = none;
  granted = [];
  high = 0;
}

abbrev pub new_system : System
new_system = record { key = new_key; at = λ t. idle }

-- The fetched ranges are not empty, each lies above `high` and the ranges before it, and all are
-- int64s.
abbrev pub Rising : ℕ → List Event → Type 0
Rising high [] = Unit
Rising high (fetched r ∷ es) =
    (high < r.start) × (r.start ≤ r.last) × (r.last ≤ max_int64) × Rising r.last es
Rising high (e ∷ es) = Rising high es
