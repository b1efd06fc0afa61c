-- ===== src/Handoffs/Planning.antt =====
-- `Handoffs` and `PlanHandoffs`, and the coordinator's guard of internal/sequence/data/placement_data.go.
--
-- The sentinel ErrCoordinatorLost is `invalid` with its text.
use sindri.Prelude.{
  ℕ, zero, ◌+◌, String, Bool, true, false, not, ◌&&◌, ◌||◌, Option, none, some, List, [], ◌∷◌, suc,
  Result, ok, err, ◌>>◌, check, Table, lookup, ℕ_discrete, ltb, ◌==◌, str_eq, if◌then◌else◌, length,
}
use sindri.Store.{
  SlotState, Phase, Time, Duration, before, OwnershipRow, HandoffRow, Database, Error, invalid,
  Commit, transaction, lock_instances,
}
use sindri.Handoffs.{
  Handoff, Limits, Snapshot, is_active, to_handoff, row_for_handoff, fresh_instance,
}
use sindri.Handoffs.Apply.{owner_is, phase_eq, state_eq, is_transfer}
use sindri.Handoffs.Batch.{write_handoffs}

-- biz.CoordinatorLease, and the row of sequence_coordinator.
pub record CoordinatorLease : Type 0 where
  pub held : Bool
  pub instance_id : String
  pub epoch : ℕ

pub record CoordinatorRow : Type 0 where
  pub owner_instance_id : Option String
  pub epoch : ℕ
  pub expires_at : Option Time

-- `GuardCoordinator`.
unfoldable pub guard_coordinator :
    CoordinatorLease → CoordinatorRow → Time → Result Error (Unit {0})
guard_coordinator lease row now =
    check
      (lease.held
        && elim row.owner_instance_id [ none ↦ false | some id ↦ str_eq id lease.instance_id ]
        && row.epoch == lease.epoch
        && elim row.expires_at [ none ↦ false | some t ↦ before now t ])
      (invalid "sequence: coordinator tenure lost")

-- The rows that still govern their slots, in slot order as the table holds them.
unfoldable pub active_rows : Table ℕ HandoffRow → List HandoffRow
active_rows [] = []
active_rows ((k, r) ∷ t) = let rest = active_rows t in if is_active r.phase then r ∷ rest else rest

abbrev involves : String → HandoffRow → Bool
involves id r =
    str_eq r.source_instance_id id
    || elim r.target_instance_id [ none ↦ false | some target ↦ str_eq target id ]

abbrev involving : String → List HandoffRow → List HandoffRow
involving id [] = []
involving id (r ∷ rs) =
    let rest = involving id rs in if str_eq id "" || involves id r then r ∷ rest else rest

abbrev first_handoffs : ℕ → List HandoffRow → List Handoff
first_handoffs zero rs = []
first_handoffs (suc n) [] = []
first_handoffs (suc n) (r ∷ rs) = to_handoff r ∷ first_handoffs n rs

-- `Handoffs`, with a limit that is a natural number.
unfoldable pub handoffs : String → ℕ → Database → Result Error (List Handoff)
handoffs id limit db = do
  check (not (limit == 0 || ltb 16384 limit)) (invalid "sequence: invalid handoff read bound")
  ok (first_handoffs limit (involving id (active_rows db.handoffs)))

abbrev pub well_formed : Handoff → Bool
well_formed h =
    not (str_eq h.id "")
    && is_transfer h.kind
    && not (str_eq h.source_instance_id h.target_instance_id)
    && not (h.source_epoch == 0)
    && phase_eq h.phase Phase.planned

unfoldable pub check_plans : List Handoff → Result Error (Unit {0})
check_plans [] = ok tt
check_plans (h ∷ hs) = do
  check (well_formed h) (invalid "sequence: invalid migration intent")
  check_plans hs

-- The slot row is the source's, at its epoch, and is served.
abbrev pub source_owns : Handoff → Option OwnershipRow → Bool
source_owns h none = false
source_owns h (some o) =
    owner_is o h.source_instance_id && o.epoch == h.source_epoch && state_eq o.state SlotState.owned

abbrev pub ungoverned : Option HandoffRow → Bool
ungoverned none = true
ungoverned (some r) = not (is_active r.phase)

abbrev pub plannable : Snapshot → Duration → Handoff → Bool
plannable s lease h =
    source_owns h (s.owned h.slot_id)
    && fresh_instance (s.leases h.target_instance_id) s.now lease
    && fresh_instance (s.leases h.source_instance_id) s.now lease
    && ungoverned (s.current h.slot_id)

-- The loop over the plans.
unfoldable pub planned_rows : Snapshot → Duration → List Handoff → List HandoffRow
planned_rows s lease [] = []
planned_rows s lease (h ∷ hs) =
    let rest = planned_rows s lease hs in
    if plannable s lease h then row_for_handoff h s.now ∷ rest else rest

abbrev plan_ids : List Handoff → List String
plan_ids [] = []
plan_ids (h ∷ hs) = h.source_instance_id ∷ h.target_instance_id ∷ plan_ids hs

unfoldable pub plan_snapshot : List Handoff → Time → Database → Snapshot
plan_snapshot plans now db = record {
  leases = lock_instances db (plan_ids plans);
  owned = λ slot. lookup ℕ_discrete slot db.slots;
  current = λ slot. lookup ℕ_discrete slot db.handoffs;
  now = now;
}

-- The body of the transaction, after the guard's answer; too many plans are dropped in silence.
unfoldable pub plan_body :
    Result Error (Unit {0})
    → Limits
    → Duration
    → Time
    → List Handoff
    → Database
    → Result Error (Unit {0} × Database)
plan_body guard limits lease now plans db = do
  guard
  if ltb limits.max_planned (length (active_rows db.handoffs) + length plans)
      then ok (tt, db)
      else do
        check_plans plans
        ok (
          tt,
          record db {
            handoffs =
                write_handoffs (planned_rows (plan_snapshot plans now db) lease plans) db.handoffs;
          },
        )

unfoldable pub plan_handoffs :
    Commit
    → Time
    → CoordinatorLease
    → CoordinatorRow
    → Limits
    → Duration
    → List Handoff
    → Database
    → Database × Result Error (Unit {0})
plan_handoffs c now tenure row limits lease plans db =
    if length plans == 0
    then (db, ok tt)
    else if ltb limits.batch_slots (length plans)
    then (db, err (invalid "sequence: handoff batch exceeds limit"))
    else transaction c (plan_body (guard_coordinator tenure row now) limits lease now plans) db
