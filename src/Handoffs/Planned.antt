-- ===== src/Handoffs/Planned.antt =====
-- What a planning transaction leaves: new handoffs for slots that are served, within the limit.
use sindri.Prelude.{
  ℕ, suc, ◌+◌, ◌≤◌, true, false, some, List, [], ◌∷◌, Result, ok, ◌>>◌, >>=-eq-ok, Table, lookup,
  upsert, lookup-upsert, ℕ_discrete, All, ltb, ◌==◌, length, ◌≡◌, refl, subst, arith, ◌⊎◌, inl, inr,
  Bool-cases, Option-cases,
}
use sindri.Store.{
  SlotState, Kind, Phase, Time, Duration, OwnershipRow, HandoffRow, Database, Error, Commit,
  transaction,
}
use sindri.Store.Transactions.{transaction-Settled}
use sindri.Handoffs.{Handoff, Limits, Snapshot, is_active, row_for_handoff}
use sindri.Handoffs.Batch.{write_handoffs}
use sindri.Handoffs.Planning.{
  CoordinatorLease, CoordinatorRow, guard_coordinator, active_rows, check_plans, plannable,
  planned_rows, plan_snapshot, plan_body, plan_handoffs, well_formed,
}

count : Table ℕ HandoffRow → ℕ
count t = length (active_rows t)

-- A write adds one active handoff at most.
count-upsert :
    (r : HandoffRow) (t : Table ℕ HandoffRow)
    → length (active_rows (upsert ℕ_discrete r.slot_id r t)) ≤ suc (length (active_rows t))
unfolding active_rows upsert
count-upsert r [] = ground arith
count-upsert r ((k, x) ∷ t) = ground (arith, count-upsert r t)

count-write_handoffs :
    (rs : List HandoffRow) (t : Table ℕ HandoffRow)
    → length (active_rows (write_handoffs rs t)) ≤ length rs + length (active_rows t)
unfolding write_handoffs
count-write_handoffs [] t = omega arith
count-write_handoffs (r ∷ rs) t =
    omega (arith, count-upsert r (write_handoffs rs t), count-write_handoffs rs t)

length-planned_rows :
    (s : Snapshot) (lease : Duration) (hs : List Handoff)
    → length (planned_rows s lease hs) ≤ length hs
unfolding planned_rows
length-planned_rows s lease [] = omega arith
length-planned_rows s lease (h ∷ hs) = ground (arith, length-planned_rows s lease hs)

-- A new handoff for slot `r.slot_id`: planned, from the instance that has the slot in service at
-- its current epoch, and no other handoff governs the slot.
pub record Planned (db : Database) (r : HandoffRow) : Type 0 where
  pub owner : OwnershipRow
  pub served : lookup ℕ_discrete r.slot_id db.slots ≡ some owner
  pub source : owner.owner_instance_id ≡ some r.source_instance_id
  pub epoch : owner.epoch ≡ r.source_epoch
  pub state : owner.state ≡ SlotState.owned
  pub kind : r.kind ≡ Kind.transfer
  pub phase : r.phase ≡ Phase.planned
  pub free :
      (x : HandoffRow)
      → lookup ℕ_discrete r.slot_id db.handoffs ≡ some x
      → is_active x.phase ≡ false

plannable-Planned :
    (plans : List Handoff) (now : Time) (lease : Duration) (db : Database) (h : Handoff)
    → well_formed h ≡ true
    → plannable (plan_snapshot plans now db) lease h ≡ true
    → Planned db (row_for_handoff h now)
unfolding plan_snapshot row_for_handoff
plannable-Planned plans now lease db h formed may =
    elim (Option-cases (lookup ℕ_discrete h.slot_id db.slots)) [
      | inl e ↦ absurd (ground arith)
      | inr (o, e) ↦ record {
        owner = o;
        served = e;
        source = ground arith;
        epoch = ground arith;
        state = ground arith;
        kind = ground arith;
        phase = ground arith;
        free = λ x there. ground arith;
      }
    ]

planned_rows-Planned :
    (plans : List Handoff) (now : Time) (lease : Duration) (db : Database) (hs : List Handoff)
    → check_plans hs ≡ ok tt
    → All (Planned db) (planned_rows (plan_snapshot plans now db) lease hs)
unfolding planned_rows check_plans
planned_rows-Planned plans now lease db [] h = tt
planned_rows-Planned plans now lease db (x ∷ hs) h =
    let rest = planned_rows-Planned plans now lease db hs (ground arith) in
    let formed : well_formed x ≡ true = ground arith in
    elim (Bool-cases (plannable (plan_snapshot plans now db) lease x)) [
      | inl e ↦
          rw (e, planned_rows)
            (unfold plan_snapshot in plannable-Planned plans now lease db x formed e, rest)
      | inr e ↦ rw (e, planned_rows) rest
    ]

write_handoffs-origin :
    (P : HandoffRow → Type 0) (rs : List HandoffRow) (t : Table ℕ HandoffRow) (k : ℕ)
    {r : HandoffRow}
    → All P rs
    → lookup ℕ_discrete k (write_handoffs rs t) ≡ some r
    → (lookup ℕ_discrete k t ≡ some r) ⊎ (P r × (r.slot_id ≡ k))
unfolding write_handoffs
write_handoffs-origin P [] t k a h = inl h
write_handoffs-origin P (x ∷ rs) t k {r} a h = elim (ℕ_discrete x.slot_id k) [
  | yes e ↦
      let same : x ≡ r =
        ground (arith, lookup-upsert ℕ_discrete x.slot_id k x (write_handoffs rs t)) in
      inr (subst P same a.0, subst (λ (y : HandoffRow). y.slot_id ≡ k) same e)
  | no n ↦
      write_handoffs-origin P rs t k a.1
        (ground (arith, lookup-upsert ℕ_discrete x.slot_id k x (write_handoffs rs t)))
]

-- After the planning, the rest of the database is as it was, every handoff was there or is planned
-- now, and the active ones are no more than before or within the limit.
pub record PlanOutcome (limits : Limits) (db db' : Database) : Type 0 where
  pub only_handoffs : db' ≡ record db { handoffs = db'.handoffs }
  pub origin :
      (k : ℕ) (r : HandoffRow)
      → lookup ℕ_discrete k db'.handoffs ≡ some r
      → (lookup ℕ_discrete k db.handoffs ≡ some r) ⊎ (Planned db r × (r.slot_id ≡ k))
  pub bounded : (db' ≡ db) ⊎ (length (active_rows db'.handoffs) ≤ limits.max_planned)

unchanged-PlanOutcome : (limits : Limits) (db : Database) → PlanOutcome limits db db
unchanged-PlanOutcome limits db = record {
  only_handoffs = refl;
  origin = λ k r h. inl h;
  bounded = inl refl;
}

written-PlanOutcome :
    (limits : Limits) (lease : Duration) (now : Time) (plans : List Handoff) (db : Database)
    → check_plans plans ≡ ok tt
    → ltb limits.max_planned (length (active_rows db.handoffs) + length plans) ≡ false
    → PlanOutcome limits db (record db {
      handoffs = write_handoffs (planned_rows (plan_snapshot plans now db) lease plans) db.handoffs;
    })
written-PlanOutcome limits lease now plans db formed fits =
    let rows = planned_rows (plan_snapshot plans now db) lease plans in
    record {
      only_handoffs = refl;
      origin = λ k r h.
          write_handoffs-origin (Planned db) (planned_rows (plan_snapshot plans now db) lease plans)
            db.handoffs k (planned_rows-Planned plans now lease db plans formed) h;
      bounded = inr (
          ground (
            arith,
            count-write_handoffs (planned_rows (plan_snapshot plans now db) lease plans)
                db.handoffs,
            length-planned_rows (plan_snapshot plans now db) lease plans,
          ));
    }

plan_body-PlanOutcome :
    (guard : Result Error (Unit {0})) (limits : Limits) (lease : Duration) (now : Time)
    (plans : List Handoff) (db db' : Database) {u : Unit {0}}
    → plan_body guard limits lease now plans db ≡ ok (u, db')
    → PlanOutcome limits db db'
unfolding plan_body
plan_body-PlanOutcome guard limits lease now plans db db' {u} h =
    let (g, guarded, h1) = >>=-eq-ok guard _ h in
    elim (Bool-cases (ltb limits.max_planned (length (active_rows db.handoffs) + length plans))) [
      | inl full ↦
          let same : db ≡ db' = ground arith in
          subst (λ (x : Database). PlanOutcome limits db x) same (unchanged-PlanOutcome limits db)
      | inr fits ↦
          let h2 : (check_plans plans
                >> ok (
                  tt,
                  record db {
                    handoffs =
                        write_handoffs (planned_rows (plan_snapshot plans now db) lease plans)
                          db.handoffs;
                  },
                ))
              ≡ ok (u, db') =
            rw fits at h1 in
          let (v, formed, done) = >>=-eq-ok (check_plans plans) _ h2 in
          let same : record db {
            handoffs =
                write_handoffs (planned_rows (plan_snapshot plans now db) lease plans) db.handoffs;
          }
              ≡ db' =
            ground arith in
          subst (λ (x : Database). PlanOutcome limits db x) same
            (written-PlanOutcome limits lease now plans db formed fits)
    ]

-- Whatever the commit does, planning changes the handoffs only. A handoff that is new is a planned
-- transfer of a slot that its source has in service at its current epoch and that no active handoff
-- governed; and if anything was written, no more handoffs are active than the limit allows.
pub plan_handoffs-PlanOutcome :
    (c : Commit) (now : Time) (tenure : CoordinatorLease) (row : CoordinatorRow) (limits : Limits)
    (lease : Duration) (plans : List Handoff) (db : Database)
    → PlanOutcome limits db (plan_handoffs c now tenure row limits lease plans db).0
unfolding plan_handoffs
plan_handoffs-PlanOutcome c now tenure row limits lease plans db =
    let body = plan_body (guard_coordinator tenure row now) limits lease now plans in
    elim (Bool-cases (length plans == 0)) [
      | inl e ↦ rw (e, plan_handoffs) (unchanged-PlanOutcome limits db)
      | inr e ↦ elim (Bool-cases (ltb limits.batch_slots (length plans))) [
        | inl long ↦ rw (e, long, plan_handoffs) (unchanged-PlanOutcome limits db)
        | inr short ↦
            rw (e, short, plan_handoffs)
              (elim (transaction-Settled c body db) [
                | inl (x, failed, same) ↦ rw same (unchanged-PlanOutcome limits db)
                | inr (u, done, answer) ↦
                    plan_body-PlanOutcome (guard_coordinator tenure row now) limits lease now plans
                      db (transaction c body db).0 done
              ])
      ]
    ]
