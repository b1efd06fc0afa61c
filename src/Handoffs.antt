-- ===== src/Handoffs.antt =====
-- internal/sequence/data/handoff_data.go: the durable handoff state machine. ApplyHandoffs runs a
-- batch of commands in one transaction: every command is judged against the rows that were locked
-- when the transaction began, and the accepted changes are written together at its end.
pub mod Apply
pub mod Batch
pub mod Protocol
pub mod Transaction
pub mod Authority
pub mod Planning
pub mod Planned
pub mod Recovery
pub mod Released
pub mod Examples
use sindri.Prelude.{
  ℕ, suc, ◌+◌, String, Bool, true, false, not, ◌&&◌, ◌||◌, Option, none, some, List, [], ◌∷◌, ◌++◌,
  Result, ok, err, Table, lookup, upsert, ℕ_discrete, String_discrete, leb, ltb, ◌==◌, str_eq,
  if◌then◌else◌, length, max,
}
use sindri.Prelude.Int64.{lt64}
use sindri.Store.{
  SlotState, InstanceState, Kind, Phase, Time, Duration, time_add, before, next64, InstanceRow,
  OwnershipRow, HandoffRow, Database, Error, authority_changed, invalid, Commit, transaction,
  mem_nat, lock_instances, bump_revisions,
}

pub data Action : Type 0 where
  prepare begin withdraw ack_drain transfer ack_active other : Action

-- biz.Handoff: an empty target and a zero time stand for no target and no boundary.
pub record Handoff : Type 0 where
  pub slot_id : ℕ
  pub id : String
  pub kind : Kind
  pub source_instance_id : String
  pub source_epoch : ℕ
  pub target_instance_id : String
  pub phase : Phase
  pub drained : Bool
  pub target_ready : Bool
  pub not_before : Time

-- `Active`: the handoff still governs its slot.
abbrev pub is_active : Phase → Bool
is_active Phase.completed = false
is_active Phase.cancelled = false
is_active _ = true

abbrev pub or_empty : Option String → String
or_empty none = ""
or_empty (some s) = s

abbrev or_zero : Option Time → Time
or_zero none = 0
or_zero (some t) = t

unfoldable pub to_handoff : HandoffRow → Handoff
to_handoff r = record {
  slot_id = r.slot_id;
  id = r.id;
  kind = r.kind;
  source_instance_id = r.source_instance_id;
  source_epoch = r.source_epoch;
  target_instance_id = or_empty r.target_instance_id;
  phase = r.phase;
  drained = r.drained;
  target_ready = r.target_ready;
  not_before = or_zero r.not_before;
}

unfoldable pub row_for_handoff : Handoff → Time → HandoffRow
row_for_handoff h now = record {
  slot_id = h.slot_id;
  id = h.id;
  kind = h.kind;
  source_instance_id = h.source_instance_id;
  source_epoch = h.source_epoch;
  target_instance_id = if str_eq h.target_instance_id "" then none else some h.target_instance_id;
  phase = h.phase;
  drained = h.drained;
  target_ready = h.target_ready;
  not_before = if h.not_before == 0 then none else some h.not_before;
  created_at = now;
  updated_at = now;
}

-- biz.HandoffCommand, and the parts of biz.HandoffRequest that the transaction reads.
pub record Command : Type 0 where
  pub handoff : Handoff
  pub action : Action

pub record Limits : Type 0 where
  pub batch_slots : ℕ
  pub max_inflight : ℕ
  pub max_per_source : ℕ
  pub max_per_target : ℕ
  pub max_planned : ℕ

pub record Request : Type 0 where
  pub instance_id : String
  pub revision : ℕ
  pub commands : List Command
  pub lease_duration : Duration
  pub quiet_window : Duration
  pub limits : Limits

-- The rows that the transaction locked, and the storage clock it read.
pub record Snapshot : Type 0 where
  pub leases : String → Option InstanceRow
  pub owned : ℕ → Option OwnershipRow
  pub current : ℕ → Option HandoffRow
  pub now : Time

abbrev is_instance_active : InstanceState → Bool
is_instance_active InstanceState.active = true
is_instance_active InstanceState.retired = false

-- `freshInstance`, where a missing row is Go's zero row.
unfoldable pub fresh_instance : Option InstanceRow → Time → Duration → Bool
fresh_instance none now lease = false
fresh_instance (some r) now lease =
    not (str_eq r.instance_id "")
    && is_instance_active r.state
    && lt64 0 lease
    && before now (time_add r.granted_at lease)

-- leases[id].Revision.
abbrev pub revision_of : Option InstanceRow → ℕ
revision_of none = 0
revision_of (some r) = r.revision

-- How many handoffs are in flight: in all, by source and by target.
pub record Budget : Type 0 where
  pub total : ℕ
  pub outgoing : String → ℕ
  pub incoming : String → ℕ

abbrev pub increment : (String → ℕ) → String → String → ℕ
increment f id j = if str_eq id j then suc (f j) else f j

abbrev pub is_inflight : Phase → Bool
is_inflight Phase.draining = true
is_inflight Phase.transferred = true
is_inflight _ = false

abbrev count_incoming : (String → ℕ) → Option String → String → ℕ
count_incoming f none = f
count_incoming f (some target) = increment f target

abbrev pub budget_of : Table ℕ HandoffRow → Budget
budget_of [] = record { total = 0; outgoing = λ _. 0; incoming = λ _. 0 }
budget_of ((k, r) ∷ t) =
    let b = budget_of t in
    if is_inflight r.phase
    then record {
      total = suc b.total;
      outgoing = increment b.outgoing r.source_instance_id;
      incoming = count_incoming b.incoming r.target_instance_id;
    }
    else b
