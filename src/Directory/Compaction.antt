-- ===== src/Directory/Compaction.antt =====
-- Joining adjacent runs keeps the coverage, and the owner and epoch of every slot.
use mathlib.Core.Option
use sindri.Prelude.{
  ℕ, zero, suc, ◌+◌, ◌≤◌, ◌<◌, String, true, Option, some, List, [], ◌∷◌, ok, get_elem?, ◌≡◌, refl,
  arith,
}
use sindri.Store.{SlotState}
use sindri.Keys.{slot_count}
use sindri.Directory.{
  OwnershipSegment, RouteSegment, validate_segments_from, check_owner, compact_from, compact,
  check_route_from, follows, complete, to_route_segment,
}
use sindri.Directory.Coverage.{first_ending}

-- The owner and epoch that a segment gives its slots.
abbrev pub story : RouteSegment → String × String × ℕ
story s = (s.owner_node_id, s.owner_instance_id, s.epoch)

check_owner-complete :
    (s : OwnershipSegment) (state : SlotState)
    → s.state ≡ state
    → check_owner s state ≡ ok tt
    → complete (to_route_segment s) ≡ true
unfolding check_owner
check_owner-complete s SlotState.unowned e h = ground arith
check_owner-complete s SlotState.owned e h = ground arith
check_owner-complete s SlotState.draining e h = ground arith
check_owner-complete s SlotState.other e h = cc

-- What one step of the validation has checked.
record Valid (next : ℕ) (s : OwnershipSegment) (ss : List OwnershipSegment) : Type 0 where
  at : s.start_slot ≡ next
  ordered : s.start_slot ≤ s.end_slot
  inside : s.end_slot < slot_count
  complete_owner : complete (to_route_segment s) ≡ true
  rest : validate_segments_from (s.end_slot + 1) ss ≡ ok tt

validate_segments_from-Valid :
    (next : ℕ) (s : OwnershipSegment) (ss : List OwnershipSegment)
    → validate_segments_from next (s ∷ ss) ≡ ok tt
    → Valid next s ss
unfolding validate_segments_from
validate_segments_from-Valid next s ss h = record {
  at = ground arith;
  ordered = ground arith;
  inside = ground arith;
  complete_owner = check_owner-complete s s.state refl (ground arith);
  rest = ground arith;
}

check_route_from-compact_from :
    (next : ℕ) (last : RouteSegment) (ss : List OwnershipSegment)
    → validate_segments_from (last.end_slot + 1) ss ≡ ok tt
    → follows next last.start_slot last.end_slot ≡ true
    → complete last ≡ true
    → check_route_from next (compact_from last ss) ≡ ok tt
unfolding compact_from check_route_from
check_route_from-compact_from next last [] h f c = unfold validate_segments_from in ground arith
check_route_from-compact_from next last (s ∷ ss) h f c =
    let v = validate_segments_from-Valid (last.end_slot + 1) s ss h in
    let joined =
      check_route_from-compact_from next (record last { end_slot = s.end_slot }) ss v.rest in
    let apart = check_route_from-compact_from (last.end_slot + 1) (to_route_segment s) ss v.rest in
    let e1 = v.at in
    let e2 = v.ordered in
    let e3 = v.inside in let e4 = v.complete_owner in ground (arith, joined, apart)

-- A route made of valid segments passes the decoder's check.
pub check_route_from-compact :
    (ss : List OwnershipSegment)
    → validate_segments_from 0 ss ≡ ok tt
    → check_route_from 0 (compact ss) ≡ ok tt
unfolding compact
check_route_from-compact [] h = unfold validate_segments_from in ground arith
check_route_from-compact (s ∷ ss) h =
    let v = validate_segments_from-Valid 0 s ss h in
    let e1 = v.at in
    let e2 = v.ordered in
    let e3 = v.inside in
    check_route_from-compact_from 0 (to_route_segment s) ss v.rest (ground arith) v.complete_owner

abbrev story_at : ℕ → List RouteSegment → Option (String × String × ℕ)
story_at slot ss = Option.map story (first_ending slot ss)

abbrev raw : List OwnershipSegment → List RouteSegment
raw [] = []
raw (s ∷ ss) = to_route_segment s ∷ raw ss

story_at-compact_from :
    (slot next : ℕ) (last : RouteSegment) (ss : List OwnershipSegment)
    → validate_segments_from (last.end_slot + 1) ss ≡ ok tt
    → story_at slot (compact_from last ss) ≡ story_at slot (last ∷ raw ss)
unfolding compact_from first_ending
story_at-compact_from slot next last [] h = refl
story_at-compact_from slot next last (s ∷ ss) h =
    let v = validate_segments_from-Valid (last.end_slot + 1) s ss h in
    let joined =
      story_at-compact_from slot next (record last { end_slot = s.end_slot }) ss v.rest in
    let apart = story_at-compact_from slot next (to_route_segment s) ss v.rest in
    let e1 = v.at in let e2 = v.ordered in ground arith

story_at-raw :
    (slot next k : ℕ) (ss : List OwnershipSegment) (s : OwnershipSegment)
    → validate_segments_from next ss ≡ ok tt
    → get_elem? ss k ≡ some s
    → s.start_slot ≤ slot
    → slot ≤ s.end_slot
    → (next ≤ slot) × (story_at slot (raw ss) ≡ some (story (to_route_segment s)))
unfolding first_ending
story_at-raw slot next k [] s h there a b = absurd cc
story_at-raw slot next zero (x ∷ ss) s h there a b =
    let v = validate_segments_from-Valid next x ss h in let e1 = v.at in ground arith
story_at-raw slot next (suc k) (x ∷ ss) s h there a b =
    let v = validate_segments_from-Valid next x ss h in
    let e1 = v.at in
    let e2 = v.ordered in
    let (past, rest) = story_at-raw slot (x.end_slot + 1) k ss s v.rest there a b in
    (omega arith, ground arith)

-- Every slot of a valid segment has that segment's owner and epoch in the joined route.
pub first_ending-compact :
    (slot k : ℕ) (ss : List OwnershipSegment) (s : OwnershipSegment)
    → validate_segments_from 0 ss ≡ ok tt
    → get_elem? ss k ≡ some s
    → s.start_slot ≤ slot
    → slot ≤ s.end_slot
    → Option.map story (first_ending slot (compact ss)) ≡ some (story (to_route_segment s))
unfolding compact
first_ending-compact slot k [] s h there a b = absurd cc
first_ending-compact slot k (x ∷ ss) s h there a b =
    let v = validate_segments_from-Valid 0 x ss h in
    let (past, e) = story_at-raw slot 0 k (x ∷ ss) s h there a b in
    let joined = story_at-compact_from slot 0 (to_route_segment x) ss v.rest in ground arith
