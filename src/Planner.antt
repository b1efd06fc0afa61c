-- ===== src/Planner.antt =====
-- The placement planner of internal/sequence/biz/placement.go: what each node's share is, where a
-- slot should be, and which slots to move.
--
-- A map from names to numbers is a function that is 0 where nothing was written.
pub mod Quotas
pub mod Targets
pub mod Staying
pub mod Surveyed
pub mod Placed
pub mod Examples
pub mod Plans
pub mod Migrations
use Prim.Native.String.{compare as compare_text}
use text.Mathlib.Text.{is_lt}
use sindri.Prelude.{
  ℕ, zero, suc, ◌+◌, ◌-◌, ◌/◌, ◌%◌, String, Bool, true, false, not, ◌&&◌, ◌||◌, Option, none, some,
  List, [], ◌∷◌, Result, ok, err, Table, lookup, upsert, String_discrete, ltb, leb, ◌==◌, str_eq,
  if◌then◌else◌, length,
}
use sindri.Prelude.Int64.{Int64, add64, sub64, lt64, le64}
use sindri.Store.{SlotState, Kind, Phase, Duration, Error}
use sindri.Keys.{slot_count}
use sindri.Directory.{OwnershipSegment, validate_ownership_segments}
use sindri.Handoffs.{Handoff, is_active}

pub record NodeInfo : Type 0 where
  pub id : String
  pub instance_id : String
  pub stable_for : Duration

pub record SlotTarget : Type 0 where
  pub slot_id : ℕ
  pub target_node_id : String

unfoldable pub insert_node : NodeInfo → List NodeInfo → List NodeInfo
insert_node n [] = n ∷ []
insert_node n (m ∷ ms) =
    let rest = insert_node n ms in if is_lt (compare_text m.id n.id) then m ∷ rest else n ∷ m ∷ ms

-- sort.Slice by ID.
unfoldable pub sort_nodes : List NodeInfo → List NodeInfo
sort_nodes [] = []
sort_nodes (n ∷ ns) = insert_node n (sort_nodes ns)

-- The share of the i-th of `count` nodes.
abbrev pub share : ℕ → ℕ → ℕ
share count i = slot_count / count + (if ltb i (slot_count % count) then 1 else 0)

unfoldable pub quotas_from : ℕ → ℕ → List NodeInfo → Table String ℕ → Table String ℕ
quotas_from count i [] t = t
quotas_from count i (n ∷ ns) t =
    quotas_from count (i + 1) ns (upsert String_discrete n.id (share count i) t)

-- `slotQuotas`.
unfoldable pub slot_quotas : List NodeInfo → Table String ℕ
slot_quotas nodes = quotas_from (length nodes) 0 nodes []

abbrev or_zero : Option ℕ → ℕ
or_zero none = 0
or_zero (some n) = n

-- quotas[id].
abbrev pub quota : Table String ℕ → String → ℕ
quota t id = or_zero (lookup String_discrete id t)

-- The last node with that instance, as the map byInstance holds it.
unfoldable pub by_instance : String → List NodeInfo → Option NodeInfo
by_instance id [] = none
by_instance id (n ∷ ns) = elim (by_instance id ns) [
  | some m ↦ some m
  | none ↦ if str_eq n.instance_id id then some n else none
]

abbrev pub Counts : Type 0
Counts = String → Int64

abbrev pub no_counts : Counts
no_counts id = 0

abbrev pub set_count : String → Int64 → Counts → Counts
set_count id x c j = if str_eq j id then x else c j

abbrev is_unowned : SlotState → Bool
is_unowned SlotState.unowned = true
is_unowned _ = false

abbrev pub is_serving : SlotState → Bool
is_serving SlotState.owned = true
is_serving _ = false

-- `Slots`.
abbrev pub slots_in : OwnershipSegment → ℕ
slots_in s = s.end_slot - s.start_slot + 1

-- The first loop: nothing is planned while any slot is without a live owner.
unfoldable pub tally : List NodeInfo → List OwnershipSegment → Counts → Option Counts
tally nodes [] c = some c
tally nodes (s ∷ ss) c =
    if is_unowned s.state || s.quiet_window_overdue
    then none
    else elim (by_instance s.owner_instance_id nodes) [
      | none ↦ none
      | some n ↦
          tally nodes ss
            (set_count s.owner_instance_id (add64 (c s.owner_instance_id) (slots_in s)) c)
    ]

-- The nodes that have slots or have been there long enough.
unfoldable pub admit : Counts → Duration → List NodeInfo → List NodeInfo
admit c stability [] = []
admit c stability (n ∷ ns) =
    let rest = admit c stability ns in
    if lt64 0 (c n.instance_id) || le64 stability n.stable_for then n ∷ rest else rest

unfoldable pub is_busy : ℕ → List Handoff → Bool
is_busy slot [] = false
is_busy slot (h ∷ hs) = is_active h.phase && h.slot_id == slot || is_busy slot hs

abbrev is_transferred : Phase → Bool
is_transferred Phase.transferred = true
is_transferred _ = false

unfoldable pub move_one : String → String → Counts → Counts
move_one source target c =
    let left = set_count source (sub64 (c source) 1) c in
    if str_eq target "" then left else set_count target (add64 (left target) 1) left

-- The counts as they will be once the pending handoffs are done.
unfoldable pub settle_pending : List Handoff → Counts → Counts
settle_pending [] c = c
settle_pending (h ∷ hs) c = settle_pending hs (
    if is_active h.phase && not (is_transferred h.phase)
    then move_one h.source_instance_id h.target_instance_id c
    else c)

-- The first admitted node below its quota, by instance; "" if there is none.
unfoldable pub first_target : List NodeInfo → Table String ℕ → Counts → String
first_target [] quotas c = ""
first_target (n ∷ ns) quotas c =
    let rest = first_target ns quotas c in
    if lt64 (c n.instance_id) (quota quotas n.id) then n.instance_id else rest

abbrev pub plan_for : (ℕ → String) → OwnershipSegment → ℕ → String → Handoff
plan_for fresh s slot target = record {
  slot_id = slot;
  id = fresh slot;
  kind = Kind.transfer;
  source_instance_id = s.owner_instance_id;
  source_epoch = s.epoch;
  target_instance_id = target;
  phase = Phase.planned;
  drained = false;
  target_ready = false;
  not_before = 0;
}

-- What the loops read and do not change.
pub record Fleet : Type 0 where
  pub admitted : List NodeInfo
  pub quotas : Table String ℕ
  pub pending : List Handoff
  pub fresh : ℕ → String

-- The inner loop over `n` slots from `slot` on, with `room` plans left; `next` is what follows it.
unfoldable pub plan_slots :
    Fleet → OwnershipSegment → ℕ → ℕ → ℕ → Counts → ℕ → (Counts → ℕ → List Handoff) → List Handoff
plan_slots f s owner_quota zero slot c room next = next c room
plan_slots f s owner_quota (suc n) slot c room next =
    let target = first_target f.admitted f.quotas c in
    let moved = set_count s.owner_instance_id (sub64 (c s.owner_instance_id) 1) c in
    let after = set_count target (add64 (moved target) 1) moved in
    let skipped = plan_slots f s owner_quota n (slot + 1) c room next in
    let more = plan_slots f s owner_quota n (slot + 1) after (room - 1) next in
    if lt64 owner_quota (c s.owner_instance_id)
    then (if is_busy slot f.pending
        then skipped
        else (if str_eq target ""
            then []
            else plan_for f.fresh s slot target ∷ (if room == 1 then [] else more)))
    else next c room

abbrev pub id_of : Option NodeInfo → String
id_of none = ""
id_of (some n) = n.id

unfoldable pub plan_segments :
    List NodeInfo → Fleet → List OwnershipSegment → Counts → ℕ → List Handoff
plan_segments nodes f [] c room = []
plan_segments nodes f (s ∷ ss) c room =
    if is_serving s.state
    then plan_slots f s (quota f.quotas (id_of (by_instance s.owner_instance_id nodes)))
        (slots_in s) s.start_slot c room (plan_segments nodes f ss)
    else plan_segments nodes f ss c room

-- The part of planMigrations after the first loop.
unfoldable pub plan_admitted :
    (ℕ → String)
    → List OwnershipSegment
    → List NodeInfo
    → List Handoff
    → List NodeInfo
    → Counts
    → ℕ
    → List Handoff
plan_admitted fresh segments nodes pending admitted c limit =
    if ltb (length admitted) 2
    then []
    else plan_segments nodes
        (record {
          admitted = admitted;
          quotas = slot_quotas admitted;
          pending = pending;
          fresh = fresh;
        })
        segments (settle_pending pending c) limit

unfoldable pub plan_tallied :
    (ℕ → String)
    → List OwnershipSegment
    → List NodeInfo
    → List Handoff
    → Duration
    → ℕ
    → Option Counts
    → List Handoff
plan_tallied fresh segments nodes pending stability limit none = []
plan_tallied fresh segments nodes pending stability limit (some c) =
    plan_admitted fresh segments nodes pending (sort_nodes (admit c stability nodes)) c limit

-- `planMigrations`; a limit that is not positive is 0, and new identities go by the slot.
unfoldable pub plan_migrations :
    (ℕ → String)
    → List OwnershipSegment
    → List NodeInfo
    → List Handoff
    → Duration
    → ℕ
    → List Handoff
plan_migrations fresh segments nodes pending stability limit =
    elim (validate_ownership_segments segments) [
      | err e ↦ []
      | ok u ↦
          if limit == 0
          then []
          else plan_tallied fresh segments nodes pending stability limit
              (tally nodes segments no_counts)
    ]
