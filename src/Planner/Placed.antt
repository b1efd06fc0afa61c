-- ===== src/Planner/Placed.antt =====
-- The layout that `planTargetsFromSegments` answers, and what a node claims of it.
use sindri.Prelude.{
  ℕ, ◌+◌, String, false, not, ◌&&◌, List, [], ◌∷◌, ok, Table, >>=-eq-ok, ok_injective, if-either,
  str_eq, All, Any, Any-map, Any-All, ◌≡◌, ◌≢◌, refl, sym, ◌∙◌, subst, arith, ◌⊎◌, inl, inr,
  Bool-cases,
}
use sindri.Keys.{slot_count}
use sindri.Directory.{OwnershipSegment, validate_ownership_segments}
use sindri.Planner.{NodeInfo, SlotTarget, sort_nodes, slot_quotas}
use sindri.Planner.Targets.{
  is_draining, stays, NodeCounts, count_one, Survey, kept, free, survey, count_kept, choose,
  assign_none, assign, assign_sorted, plan_targets, is_blocked, refresh_slots,
}
use sindri.Planner.Staying.{InService, Releasing, Stays, stays-Stays, Stays-stays, Releasing-eq}
use sindri.Planner.Surveyed.{
  Covers, validate-Covered, slot_of, NumberedSurvey, Surveyed, survey-Surveyed, choose-Any,
}

-- Where a slot is planned, by the segment that covers it: it stays with an owner that keeps it, and
-- otherwise goes to one of the nodes.
abbrev pub Placed : List NodeInfo → SlotTarget → OwnershipSegment → Type 0
Placed nodes t s =
    Covers t.slot_id s
    × (Stays nodes s → t.target_node_id ≡ s.owner_node_id)
    × (¬ Stays nodes s → nodes ≢ [] → Any (λ n. n.id ≡ t.target_node_id) nodes)

-- Every slot of the slot space once, in order.
abbrev pub Numbered : ℕ → List SlotTarget → Type 0
Numbered next [] = next ≡ slot_count
Numbered next (t ∷ ts) = (t.slot_id ≡ next) × Numbered (next + 1) ts

module _ (nodes : List NodeInfo) (segments : List OwnershipSegment) where
  PlacedAll : List SlotTarget → Type 0
  PlacedAll ts = All (λ t. Any (Placed nodes t) segments) ts

  kept-Placed :
      (slot : ℕ) (owner : String)
      → Surveyed nodes segments (kept slot owner)
      → Any (Placed nodes (record { slot_id = slot; target_node_id = owner })) segments
  unfolding Surveyed
  kept-Placed slot owner a =
      Any-map _ _ segments
        (λ s p. (p.0, (λ e. p.2), λ not_staying. absurd (not_staying (stays-Stays nodes s p.1)))) a

  free-Placed :
      (slot : ℕ) (node : String)
      → (nodes ≢ [] → Any (λ n. n.id ≡ node) nodes)
      → Surveyed nodes segments (free slot)
      → Any (Placed nodes (record { slot_id = slot; target_node_id = node })) segments
  unfolding Surveyed
  free-Placed slot node chosen a =
      Any-map _ _ segments
        (λ s p.
          (p.0, (λ e. absurd (let kept_here = Stays-stays nodes s e in ground arith)), λ e. chosen))
        a

  assign_none-Placed :
      (next : ℕ) (es : List Survey)
      → nodes ≡ []
      → All (Surveyed nodes segments) es × NumberedSurvey next es
      → PlacedAll (assign_none es) × Numbered next (assign_none es)
  unfolding assign_none NumberedSurvey slot_of PlacedAll
  assign_none-Placed next [] empty (a, c) = (tt, c)
  assign_none-Placed next (kept slot owner ∷ es) empty ((b, a), (at, c)) =
      let (placed, numbered) = assign_none-Placed (next + 1) es empty (a, c) in
      ((kept-Placed slot owner b, placed), (at, numbered))
  assign_none-Placed next (free slot ∷ es) empty ((b, a), (at, c)) =
      let (placed, numbered) = assign_none-Placed (next + 1) es empty (a, c) in
      ((free-Placed slot "" (λ some_node. absurd (some_node empty)) b, placed), (at, numbered))

  assign-Placed :
      (quotas : Table String ℕ) (first : NodeInfo) (c : NodeCounts) (next : ℕ) (es : List Survey)
      → Any (λ n. n.id ≡ first.id) nodes
      → All (Surveyed nodes segments) es × NumberedSurvey next es
      → PlacedAll (assign quotas first nodes c es) × Numbered next (assign quotas first nodes c es)
  unfolding assign NumberedSurvey slot_of PlacedAll
  assign-Placed quotas first c next [] there (a, d) = (tt, d)
  assign-Placed quotas first c next (kept slot owner ∷ es) there ((b, a), (at, d)) =
      let (placed, numbered) = assign-Placed quotas first c (next + 1) es there (a, d) in
      ((kept-Placed slot owner b, placed), (at, numbered))
  assign-Placed quotas first c next (free slot ∷ es) there ((b, a), (at, d)) =
      let chosen = choose quotas c first.id nodes in
      let (placed, numbered) =
        assign-Placed quotas first (count_one chosen c) (next + 1) es there (a, d) in
      (
        (free-Placed slot chosen (λ some_node. choose-Any quotas c first.id nodes there) b, placed),
        (at, numbered),
      )

assign_sorted-Placed :
    (nodes : List NodeInfo) (segments : List OwnershipSegment) (es : List Survey)
    → All (Surveyed nodes segments) es × NumberedSurvey 0 es
    → PlacedAll nodes segments (assign_sorted nodes es) × Numbered 0 (assign_sorted nodes es)
unfolding assign_sorted
assign_sorted-Placed [] segments es s = assign_none-Placed [] segments 0 es refl s
assign_sorted-Placed (n ∷ ns) segments es s =
    assign-Placed (n ∷ ns) segments (slot_quotas (n ∷ ns)) n (count_kept es (λ id. 0)) 0 es
      (inl refl) s

-- The layout that `planTargetsFromSegments` answers has every slot once, in order. The slots of a
-- segment stay with its owner where the owner is a live node, is still the instance that serves them,
-- and is not overdue by the quiet window, or where it drains them and may not release them yet. All
-- other slots go to live nodes if there are any.
pub plan_targets-Placed :
    (segments : List OwnershipSegment) (nodes : List NodeInfo) (targets : List SlotTarget)
    → plan_targets segments nodes ≡ ok targets
    → All (λ t. Any (Placed (sort_nodes nodes) t) segments) targets × Numbered 0 targets
unfolding plan_targets PlacedAll
plan_targets-Placed segments nodes targets h =
    let (u, valid, done) = >>=-eq-ok (validate_ownership_segments segments) _ h in
    let placed =
      assign_sorted-Placed (sort_nodes nodes) segments (survey (sort_nodes nodes) segments) (
        survey-Surveyed (sort_nodes nodes) segments segments 0 (λ P x. x)
          (validate-Covered 0 segments valid)) in
    subst (λ ts. All (λ t. Any (Placed (sort_nodes nodes) t) segments) ts × Numbered 0 ts)
      (ok_injective done) placed

-- A slot that a node may claim: no other live node has it in service, and it is not in a release that
-- is still under way.
abbrev pub Claimable : List NodeInfo → String → ℕ → OwnershipSegment → Type 0
Claimable nodes node slot s =
    Covers slot s × ((¬ InService nodes s) ⊎ (s.owner_node_id ≡ node)) × (¬ Releasing s)

is_blocked-none :
    (slot : ℕ) (ss : List OwnershipSegment)
    → is_blocked slot ss ≡ false
    → All (λ s. Covers slot s → is_draining s.state && not s.release_ready ≡ false) ss
unfolding is_blocked
is_blocked-none slot [] h = tt
is_blocked-none slot (s ∷ ss) h = (λ c. ground arith, is_blocked-none slot ss (ground arith))

claim_one :
    (nodes : List NodeInfo) (node : String) (segments : List OwnershipSegment) (t : SlotTarget)
    → t.target_node_id ≡ node
    → is_blocked t.slot_id segments ≡ false
    → Any (Placed nodes t) segments
    → Any (Claimable nodes node t.slot_id) segments
claim_one nodes node segments t mine clear placed =
    Any-map _ _ segments
      (λ s both. (
        both.1.0,
        elim (Bool-cases (stays nodes s)) [
          | inl e ↦ inr (sym (both.1.1 (stays-Stays nodes s e)) ∙ mine)
          | inr e ↦ inl (λ serving. let kept_here = Stays-stays nodes s (inl serving) in cc)
        ],
        Releasing-eq s (both.0 both.1.0),
      ))
      (Any-All _ _ segments (is_blocked-none t.slot_id segments clear) placed)

refresh_slots-All :
    (nodes : List NodeInfo) (node : String) (segments : List OwnershipSegment)
    (ts : List SlotTarget)
    → All (λ t. Any (Placed nodes t) segments) ts
    → All (λ k. Any (Claimable nodes node k) segments) (refresh_slots node segments ts)
unfolding refresh_slots
refresh_slots-All nodes node segments [] a = tt
refresh_slots-All nodes node segments (t ∷ ts) (p, a) =
    let rest = refresh_slots-All nodes node segments ts a in
    if-either (All (λ k. Any (Claimable nodes node k) segments))
      (str_eq t.target_node_id node && not (is_blocked t.slot_id segments))
      (λ e. (claim_one nodes node segments t (ground arith) (ground arith) p, rest)) (λ e. rest)

-- A node claims only slots that no other live node has in service (owned, still by the instance of
-- that name, and not overdue by the quiet window), and that no instance drains without being ready
-- to release them.
pub refresh_slots-Claimable :
    (segments : List OwnershipSegment) (nodes : List NodeInfo) (targets : List SlotTarget)
    (node : String)
    → plan_targets segments nodes ≡ ok targets
    → All
        (λ k. Any (Claimable (sort_nodes nodes) node k) segments)
        (refresh_slots node segments targets)
refresh_slots-Claimable segments nodes targets node h =
    refresh_slots-All (sort_nodes nodes) node segments targets
      (plan_targets-Placed segments nodes targets h).0
