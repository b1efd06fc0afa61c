-- ===== src/Directory.antt =====
-- internal/sequence/biz/placement.go: the ownership segments of the slot space, the stored route that
-- is made of them, and the cache that answers which segment covers a slot.
--
-- The JSON codec of a payload is a parameter, `marshal` and `unmarshal`.
pub mod Search
pub mod Coverage
pub mod Compaction
pub mod Stored
pub mod Examples
use sindri.Prelude.{
  ℕ, zero, suc, ◌+◌, ◌/◌, String, Bool, true, false, not, ◌&&◌, ◌||◌, Option, none, some, List, [],
  ◌∷◌, Result, ok, err, ◌>>=◌, ◌>>◌, check, ltb, leb, ◌==◌, str_eq, if◌then◌else◌, length,
  get_elem?,
}
use sindri.Prelude.Int64.{Int64, lt64, le64}
use sindri.Store.{SlotState, Error, invalid}
use sindri.Keys.{slot_count}

pub record OwnershipSegment : Type 0 where
  pub start_slot : ℕ  -- uint32
  pub end_slot : ℕ  -- uint32
  pub owner_node_id : String
  pub owner_instance_id : String
  pub epoch : ℕ  -- uint64
  pub state : SlotState
  pub grant_age_known : Bool
  pub quiet_window_overdue : Bool
  pub release_ready : Bool

abbrev pub is_empty : String → Bool
is_empty s = str_eq s ""

abbrev is_unowned : SlotState → Bool
is_unowned SlotState.unowned = true
is_unowned _ = false

-- `Owned`: the segment names a complete owner tuple.
abbrev pub owned : OwnershipSegment → Bool
owned s =
    not (is_unowned s.state) && not (is_empty s.owner_node_id) && not (is_empty s.owner_instance_id)

unfoldable pub check_owner : OwnershipSegment → SlotState → Result Error (Unit {0})
check_owner s SlotState.unowned =
    check (is_empty s.owner_node_id && is_empty s.owner_instance_id)
      (invalid "sequence: unowned slot names an owner")
check_owner s SlotState.other = err (invalid "sequence: invalid slot state")
check_owner s _ =
    check (owned s && not (s.epoch == 0) && s.grant_age_known)
      (invalid "sequence: incomplete slot authority")

-- The coverage check that both loops make first.
abbrev pub follows : ℕ → ℕ → ℕ → Bool
follows next start last = start == next && leb start last && ltb last slot_count

unfoldable pub validate_segments_from : ℕ → List OwnershipSegment → Result Error (Unit {0})
unfolding check_owner
validate_segments_from next [] =
    check (next == slot_count) (invalid "sequence: incomplete ownership coverage")
validate_segments_from next (s ∷ ss) = do
  check (follows next s.start_slot s.end_slot) (invalid "sequence: invalid ownership segment")
  check_owner s s.state
  validate_segments_from (s.end_slot + 1) ss

abbrev pub validate_ownership_segments : List OwnershipSegment → Result Error (Unit {0})
validate_ownership_segments segments = validate_segments_from 0 segments

pub record RouteSegment : Type 0 where
  pub start_slot : ℕ
  pub end_slot : ℕ
  pub owner_node_id : String
  pub owner_instance_id : String
  pub epoch : ℕ

pub record Route : Type 0 where
  pub version : Int64
  pub layout_version : Int64
  pub segments : List RouteSegment

-- sort.Search: the loop over the half-open interval from `lo` to `hi`.
unfoldable pub search : (ℕ → Bool) → ℕ → ℕ → ℕ → ℕ
search f zero lo hi = lo
search f (suc fuel) lo hi =
    let h = (lo + hi) / 2 in
    let left = search f fuel lo h in
    let right = search f fuel (h + 1) hi in if ltb lo hi then (if f h then left else right) else lo

-- The predicate of the search; the index is in range when it is called.
unfoldable pub ends_at_or_after : ℕ → List RouteSegment → ℕ → Bool
ends_at_or_after slot segments i = elim (get_elem? segments i) [
  | none ↦ false
  | some s ↦ leb slot s.end_slot
]

-- The segment found, unless it starts beyond the slot.
abbrev pub not_beyond : ℕ → Option RouteSegment → Option RouteSegment
not_beyond slot none = none
not_beyond slot (some s) = if ltb slot s.start_slot then none else some s

-- The interval halves, so its length is fuel enough.
unfoldable pub segment_for : Option Route → ℕ → Option RouteSegment
segment_for none slot = none
segment_for (some route) slot =
    if leb slot_count slot
    then none
    else (let n = length route.segments in
        not_beyond slot
          (get_elem? route.segments (search (ends_at_or_after slot route.segments) n 0 n)))

-- `RouteCache.OwnerOf` and `RouteCache.EpochOf`.
unfoldable pub owner_of : Route → ℕ → String
owner_of route slot = elim (segment_for (some route) slot) [ none ↦ "" | some s ↦ s.owner_node_id ]

unfoldable pub epoch_of : Route → ℕ → Option ℕ
epoch_of route slot = elim (segment_for (some route) slot) [ none ↦ none | some s ↦ some s.epoch ]

-- `RouteCache.UpdateRoute`: a stale version is ignored.
unfoldable pub update_route : Route → Route → Route
update_route old route = if le64 route.version old.version then old else route

pub record RoutePayload : Type 0 where
  pub layout_version : Int64
  pub segments : List RouteSegment

abbrev pub to_route_segment : OwnershipSegment → RouteSegment
to_route_segment s = record {
  start_slot = s.start_slot;
  end_slot = s.end_slot;
  owner_node_id = s.owner_node_id;
  owner_instance_id = s.owner_instance_id;
  epoch = s.epoch;
}

abbrev pub same_story : RouteSegment → RouteSegment → Bool
same_story last current =
    str_eq last.owner_node_id current.owner_node_id
    && str_eq last.owner_instance_id current.owner_instance_id
    && last.epoch == current.epoch

-- The loop that joins adjacent runs; `last` is the segment at the end of the payload so far.
unfoldable pub compact_from : RouteSegment → List OwnershipSegment → List RouteSegment
compact_from last [] = last ∷ []
compact_from last (s ∷ ss) =
    let joined = compact_from (record last { end_slot = s.end_slot }) ss in
    let apart = compact_from (to_route_segment s) ss in
    if same_story last (to_route_segment s) then joined else last ∷ apart

unfoldable pub compact : List OwnershipSegment → List RouteSegment
compact [] = []
compact (s ∷ ss) = compact_from (to_route_segment s) ss

-- The authority check of `DecodeRoute`: no half of an owner, and no owner at epoch 0.
abbrev pub complete : RouteSegment → Bool
complete s = elim (is_empty s.owner_node_id) [
  | true ↦ is_empty s.owner_instance_id
  | false ↦ not (is_empty s.owner_instance_id) && not (s.epoch == 0)
]

unfoldable pub check_route_from : ℕ → List RouteSegment → Result Error (Unit {0})
check_route_from next [] =
    check (next == slot_count) (invalid "sequence: ownership segments are required")
check_route_from next (s ∷ ss) = do
  check (follows next s.start_slot s.end_slot) (invalid "sequence: invalid route coverage")
  check (complete s) (invalid "sequence: incomplete route authority")
  check_route_from (s.end_slot + 1) ss

module _ {Bytes : Type 0} (marshal : RoutePayload → Bytes) where
  unfoldable pub encode_ownership_segments : List OwnershipSegment → Int64 → Result Error Bytes
  encode_ownership_segments segments layout_version = do
    check (lt64 0 layout_version) (invalid "sequence: invalid layout version")
    validate_ownership_segments segments
    ok (marshal (record { layout_version = layout_version; segments = compact segments }))

module _ {Bytes : Type 0} (unmarshal : Bytes → Result Error RoutePayload) where
  unfoldable pub decode_route : Int64 → Bytes → Result Error Route
  decode_route version payload = do
    stored ← unmarshal payload
    check (lt64 0 version && lt64 0 stored.layout_version)
        (invalid "sequence: invalid route version")
    check_route_from 0 stored.segments
    ok (record {
      version = version;
      layout_version = stored.layout_version;
      segments = stored.segments;
    })
