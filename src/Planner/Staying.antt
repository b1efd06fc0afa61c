-- ===== src/Planner/Staying.antt =====
-- Which segments stay with their owners, apart from the code that decides it.
use sindri.Prelude.{
  String, not, ◌&&◌, true, false, none, some, List, [], ◌∷◌, All, ◌≡◌, ◌≢◌, refl, arith, ◌⊎◌, inl,
  inr, Bool-cases, Option-cases,
}
use sindri.Store.{SlotState}
use sindri.Directory.{OwnershipSegment}
use sindri.Planner.{NodeInfo, is_serving}
use sindri.Planner.Targets.{instance_of, is_draining, stays}

-- The node `id` is among the nodes, and the last of that name has the instance.
abbrev pub Runs : String → String → List NodeInfo → Type 0
Runs id instance_id [] = ⊥
Runs id instance_id (n ∷ ns) =
    Runs id instance_id ns ⊎ (All (λ m. m.id ≢ id) ns × (n.id ≡ id) × (n.instance_id ≡ instance_id))

-- The owner is a live node, still the instance that took the slots, and in service: its quiet window
-- is not overdue.
abbrev pub InService : List NodeInfo → OwnershipSegment → Type 0
InService nodes s =
    (s.state ≡ SlotState.owned)
    × Runs s.owner_node_id s.owner_instance_id nodes
    × (s.quiet_window_overdue ≡ false)

-- The owner is draining the slots and may not release them yet.
abbrev pub Releasing : OwnershipSegment → Type 0
Releasing s = (s.state ≡ SlotState.draining) × (s.release_ready ≡ false)

abbrev pub Stays : List NodeInfo → OwnershipSegment → Type 0
Stays nodes s = InService nodes s ⊎ Releasing s

instance_of-absent :
    (id : String) (ns : List NodeInfo) → All (λ m. m.id ≢ id) ns → instance_of id ns ≡ none
unfolding instance_of
instance_of-absent id [] a = refl
instance_of-absent id (n ∷ ns) (other, a) = let rest = instance_of-absent id ns a in ground arith

instance_of-missing :
    (id : String) (ns : List NodeInfo) → instance_of id ns ≡ none → All (λ m. m.id ≢ id) ns
unfolding instance_of
instance_of-missing id [] h = tt
instance_of-missing id (n ∷ ns) h = elim (Option-cases (instance_of id ns)) [
  | inl e ↦ (λ same. ground arith, instance_of-missing id ns e)
  | inr (i, e) ↦ absurd (ground arith)
]

instance_of-Runs : (id i : String) (ns : List NodeInfo) → instance_of id ns ≡ some i → Runs id i ns
unfolding instance_of
instance_of-Runs id i [] h = absurd (cc)
instance_of-Runs id i (n ∷ ns) h = elim (Option-cases (instance_of id ns)) [
  | inl e ↦ inr (instance_of-missing id ns e, ground arith, ground arith)
  | inr (j, e) ↦ let same : i ≡ j = ground arith in inl (instance_of-Runs id i ns (rw same e))
]

Runs-instance_of : (id i : String) (ns : List NodeInfo) → Runs id i ns → instance_of id ns ≡ some i
unfolding instance_of
Runs-instance_of id i [] r = absurd r
Runs-instance_of id i (n ∷ ns) (inl r) = let rest = Runs-instance_of id i ns r in ground arith
Runs-instance_of id i (n ∷ ns) (inr (others, named, runs)) =
    let rest = instance_of-absent id ns others in ground arith

is_draining-eq : (x : SlotState) → is_draining x ≡ true → x ≡ SlotState.draining
is_draining-eq SlotState.draining h = refl
is_draining-eq x h = absurd (cc)

is_serving-eq : (x : SlotState) → is_serving x ≡ true → x ≡ SlotState.owned
is_serving-eq SlotState.owned h = refl
is_serving-eq x h = absurd (cc)

pub stays-Stays :
    (nodes : List NodeInfo) (s : OwnershipSegment) → stays nodes s ≡ true → Stays nodes s
unfolding stays
stays-Stays nodes s h = elim (Bool-cases (is_draining s.state)) [
  | inl d ↦ inr (is_draining-eq s.state d, ground arith)
  | inr d ↦ elim (Option-cases (instance_of s.owner_node_id nodes)) [
    | inl e ↦ absurd (ground arith)
    | inr (i, e) ↦
        let same : i ≡ s.owner_instance_id = ground arith in
        inl (
          is_serving-eq s.state (ground arith),
          instance_of-Runs s.owner_node_id s.owner_instance_id nodes (rw same at e),
          ground arith,
        )
  ]
]

pub Stays-stays :
    (nodes : List NodeInfo) (s : OwnershipSegment) → Stays nodes s → stays nodes s ≡ true
unfolding stays
Stays-stays nodes s (inl (owned, runs, on_time)) =
    let e = Runs-instance_of s.owner_node_id s.owner_instance_id nodes runs in ground arith
Stays-stays nodes s (inr (draining, held)) = ground arith

pub Releasing-eq :
    (s : OwnershipSegment) → (is_draining s.state && not s.release_ready ≡ false) → ¬ Releasing s
Releasing-eq s h (draining, held) = absurd (ground arith)
