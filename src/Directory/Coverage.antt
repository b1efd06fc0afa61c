-- ===== src/Directory/Coverage.antt =====
-- A route that passes the coverage check has exactly one segment for each slot, and the binary
-- search finds it.
use sindri.Prelude.{
  ℕ, zero, suc, ◌+◌, ◌≤◌, ◌<◌, true, false, Option, none, some, List, [], ◌∷◌, ok, leb,
  if◌then◌else◌, length, get_elem?, ◌≡◌, refl, arith, Bool-cases, inl, inr,
}
use sindri.Keys.{slot_count}
use sindri.Directory.{RouteSegment, Route, ends_at_or_after, segment_for, check_route_from}
use sindri.Directory.Search.{TurnsAt, search-TurnsAt}

-- The segments run from `next` to the end of the slot space, each after the one before it.
abbrev pub Contiguous : ℕ → List RouteSegment → Type 0
Contiguous next [] = next ≡ slot_count
Contiguous next (s ∷ ss) =
    (s.start_slot ≡ next)
    × (s.start_slot ≤ s.end_slot)
    × (s.end_slot < slot_count)
    × Contiguous (s.end_slot + 1) ss

pub check_route_from-Contiguous :
    (next : ℕ) (ss : List RouteSegment) → check_route_from next ss ≡ ok tt → Contiguous next ss
unfolding check_route_from
check_route_from-Contiguous next [] h = ground arith
check_route_from-Contiguous next (s ∷ ss) h = (
  ground arith,
  ground arith,
  ground arith,
  check_route_from-Contiguous (s.end_slot + 1) ss (ground arith),
)

-- Segment `s` covers the slot.
abbrev pub Covers : ℕ → RouteSegment → Type 0
Covers slot s = (s.start_slot ≤ slot) × (slot ≤ s.end_slot)

-- All segments from a later start on end after the slot.
ends-later :
    (slot next : ℕ) (ss : List RouteSegment) (k : ℕ)
    → Contiguous next ss
    → slot < next
    → k < length ss
    → ends_at_or_after slot ss k ≡ true
unfolding ends_at_or_after
ends-later slot next [] k c l b = absurd (omega arith)
ends-later slot next (s ∷ ss) zero c l b = ground arith
ends-later slot next (s ∷ ss) (suc k) c l b =
    ends-later slot (s.end_slot + 1) ss k c.3 (ground arith) (omega arith)

-- The first segment that ends at the slot or after it.
unfoldable pub first_ending : ℕ → List RouteSegment → Option RouteSegment
first_ending slot [] = none
first_ending slot (s ∷ ss) = if leb slot s.end_slot then some s else first_ending slot ss

-- The segment at the place where the search's predicate turns true.
pub record Found (slot : ℕ) (ss : List RouteSegment) : Type 0 where
  pub index : ℕ
  pub segment : RouteSegment
  pub there : get_elem? ss index ≡ some segment
  pub covers : Covers slot segment
  pub first : first_ending slot ss ≡ some segment
  pub turns : TurnsAt (ends_at_or_after slot ss) (length ss) index
  pub in_range : index ≤ length ss

Found-later :
    (slot : ℕ) (s : RouteSegment) (ss : List RouteSegment)
    → s.end_slot < slot
    → Found slot ss
    → Found slot (s ∷ ss)
unfolding ends_at_or_after first_ending
Found-later slot s ss l f = record {
  index = suc f.index;
  segment = f.segment;
  there = f.there;
  covers = f.covers;
  first = ground (arith, f.first);
  turns = ((λ k b. later k b), (λ k a b. after k a b));
  in_range = ground (arith, f.in_range);
}
  where
    later : (k : ℕ) → k < suc f.index → ends_at_or_after slot (s ∷ ss) k ≡ false
    later zero b = ground arith
    later (suc k) b = f.turns.0 k (omega arith)

    after :
        (k : ℕ) → suc f.index ≤ k → k < length (s ∷ ss) → ends_at_or_after slot (s ∷ ss) k ≡ true
    after zero a b = absurd (omega arith)
    after (suc k) a b = f.turns.1 k (omega arith) (omega arith)

pub Contiguous-Found :
    (slot next : ℕ) (ss : List RouteSegment)
    → Contiguous next ss
    → next ≤ slot
    → slot < slot_count
    → Found slot ss
unfolding ends_at_or_after first_ending
Contiguous-Found slot next [] c a b = absurd (omega arith)
Contiguous-Found slot next (s ∷ ss) c a b = elim (Bool-cases (leb slot s.end_slot)) [
  | inl e ↦ record {
    index = 0;
    segment = s;
    there = refl;
    covers = (ground arith, ground arith);
    first = ground arith;
    turns = ((λ k l. absurd (omega arith)), (λ k l m. first (ground arith) k m));
    in_range = omega arith;
  }
  | inr e ↦
      Found-later slot s ss (ground arith)
        (Contiguous-Found slot (s.end_slot + 1) ss c.3 (ground arith) b)
]
  where
    first :
        slot ≤ s.end_slot → (k : ℕ) → k < length (s ∷ ss) → ends_at_or_after slot (s ∷ ss) k ≡ true
    first e zero l = ground arith
    first e (suc k) l = ends-later slot (s.end_slot + 1) ss k c.3 (omega arith) (omega arith)

pub segment_for-Found :
    (route : Route) (slot : ℕ) (f : Found slot route.segments)
    → slot < slot_count
    → segment_for (some route) slot ≡ some f.segment
unfolding segment_for
segment_for-Found route slot f b =
    let n = length route.segments in
    let e =
      search-TurnsAt (ends_at_or_after slot route.segments) n f.index n 0 n f.turns (omega arith)
        f.in_range (omega arith) (omega arith) in
    let beyond = f.covers.0 in
    let in_space : leb slot_count slot ≡ false = ground arith in
    rw (in_space, segment_for, e, f.there) (ground arith)
