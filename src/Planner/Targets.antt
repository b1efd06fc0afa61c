-- ===== src/Planner/Targets.antt =====
-- `planTargetsFromSegments` and the slots that a node's `Refresh` claims: where each slot should be.
use sindri.Prelude.{
  ℕ, zero, suc, ◌+◌, String, Bool, true, false, not, ◌&&◌, ◌||◌, Option, none, some, List, [], ◌∷◌,
  Result, ok, ◌>>=◌, Table, if◌then◌else◌, ltb, str_eq,
}
use sindri.Store.{SlotState, Error}
use sindri.Directory.{OwnershipSegment, validate_ownership_segments}
use sindri.Planner.{NodeInfo, SlotTarget, sort_nodes, slot_quotas, quota, is_serving, slots_in}

-- The last node with that ID, as the map of instances holds it.
unfoldable pub instance_of : String → List NodeInfo → Option String
instance_of id [] = none
instance_of id (n ∷ ns) = elim (instance_of id ns) [
  | some i ↦ some i
  | none ↦ if str_eq n.id id then some n.instance_id else none
]

abbrev pub is_draining : SlotState → Bool
is_draining SlotState.draining = true
is_draining _ = false

abbrev same_instance : Option String → String → Bool
same_instance none id = false
same_instance (some i) id = str_eq i id

-- The slots of the segment stay with its owner.
unfoldable pub stays : List NodeInfo → OwnershipSegment → Bool
stays nodes s =
    is_serving s.state
      && same_instance (instance_of s.owner_node_id nodes) s.owner_instance_id
      && not s.quiet_window_overdue
    || is_draining s.state && not s.release_ready

abbrev pub NodeCounts : Type 0
NodeCounts = String → ℕ

abbrev pub count_one : String → NodeCounts → NodeCounts
count_one id c j = if str_eq j id then c j + 1 else c j

-- A slot of the first loop's result: with its node, or free.
pub data Survey : Type 0 where
  kept : ℕ → String → Survey
  free : ℕ → Survey

unfoldable pub survey_slots : Bool → String → ℕ → ℕ → List Survey → List Survey
survey_slots stay owner slot zero rest = rest
survey_slots stay owner slot (suc n) rest =
    (if stay then kept slot owner else free slot) ∷ survey_slots stay owner (slot + 1) n rest

-- The loop over the segments.
unfoldable pub survey : List NodeInfo → List OwnershipSegment → List Survey
survey nodes [] = []
survey nodes (s ∷ ss) =
    survey_slots (stays nodes s) s.owner_node_id s.start_slot (slots_in s) (survey nodes ss)

unfoldable pub count_kept : List Survey → NodeCounts → NodeCounts
count_kept [] c = c
count_kept (kept slot owner ∷ rest) c = count_kept rest (count_one owner c)
count_kept (free slot ∷ rest) c = count_kept rest c

-- The first node below its quota, or else the last of those with the fewest slots before it.
unfoldable pub choose : Table String ℕ → NodeCounts → String → List NodeInfo → String
choose quotas c chosen [] = chosen
choose quotas c chosen (n ∷ ns) =
    let rest = choose quotas c (if ltb (c n.id) (c chosen) then n.id else chosen) ns in
    if ltb (c n.id) (quota quotas n.id) then n.id else rest

abbrev target_of : ℕ → String → SlotTarget
target_of slot node = record { slot_id = slot; target_node_id = node }

-- With no nodes, a free slot has no target.
unfoldable pub assign_none : List Survey → List SlotTarget
assign_none [] = []
assign_none (kept slot owner ∷ rest) = target_of slot owner ∷ assign_none rest
assign_none (free slot ∷ rest) = target_of slot "" ∷ assign_none rest

-- The loop over the free slots, in slot order.
unfoldable pub assign :
    Table String ℕ → NodeInfo → List NodeInfo → NodeCounts → List Survey → List SlotTarget
assign quotas first nodes c [] = []
assign quotas first nodes c (kept slot owner ∷ rest) =
    target_of slot owner ∷ assign quotas first nodes c rest
assign quotas first nodes c (free slot ∷ rest) =
    let chosen = choose quotas c first.id nodes in
    target_of slot chosen ∷ assign quotas first nodes (count_one chosen c) rest

unfoldable pub assign_sorted : List NodeInfo → List Survey → List SlotTarget
assign_sorted [] surveyed = assign_none surveyed
assign_sorted (n ∷ ns) surveyed =
    assign (slot_quotas (n ∷ ns)) n (n ∷ ns) (count_kept surveyed (λ id. 0)) surveyed

-- `planTargetsFromSegments`.
unfoldable pub plan_targets : List OwnershipSegment → List NodeInfo → Result Error (List SlotTarget)
plan_targets segments nodes = validate_ownership_segments segments >>= λ u.
    ok (assign_sorted (sort_nodes nodes) (survey (sort_nodes nodes) segments))

unfoldable pub is_blocked : ℕ → List OwnershipSegment → Bool
is_blocked slot [] = false
is_blocked slot (s ∷ ss) =
    is_draining s.state
      && not s.release_ready
      && not (ltb slot s.start_slot)
      && not (ltb s.end_slot slot)
    || is_blocked slot ss

-- The slots that `Refresh` has the allocator claim.
unfoldable pub refresh_slots : String → List OwnershipSegment → List SlotTarget → List ℕ
refresh_slots node segments [] = []
refresh_slots node segments (t ∷ ts) =
    let rest = refresh_slots node segments ts in
    if str_eq t.target_node_id node && not (is_blocked t.slot_id segments)
    then t.slot_id ∷ rest
    else rest
