-- ===== src/Handoffs/Batch.antt =====
-- `ApplyHandoffs`: the loop over the commands of a batch, and the transaction around it.
use sindri.Prelude.{
  ℕ, String, true, false, ◌||◌, Option, none, some, List, [], ◌∷◌, ◌++◌, Result, ok, err, ◌>>=◌,
  Table, lookup, upsert, ℕ_discrete, ltb, ◌==◌, str_eq, if◌then◌else◌, length,
}
use sindri.Store.{
  Time, OwnershipRow, HandoffRow, Database, Error, invalid, Commit, transaction, mem_nat,
  lock_instances, bump_revisions,
}
use sindri.Handoffs.{Command, Request, Snapshot, Budget, budget_of}
use sindri.Handoffs.Apply.{skip, fail, change, judge}

-- What the loop has collected for the writes: `changed`, `changedSlots` and `changedInstances`.
pub record Changes : Type 0 where
  pub rows : List HandoffRow
  pub slots : List OwnershipRow
  pub instances : List String

abbrev pub no_changes : Changes
no_changes = record { rows = []; slots = []; instances = [] }

abbrev cons_option {ℓ} : {A : Type ℓ} → Option A → List A → List A
cons_option none xs = xs
cons_option (some x) xs = x ∷ xs

unfoldable pub collect : HandoffRow → Option OwnershipRow → List String → Changes → Changes
collect r o ids acc = record {
  rows = r ∷ acc.rows;
  slots = cons_option o acc.slots;
  instances = ids ++ acc.instances;
}

-- The lists grow at the front: every slot is written once at most, so the order of the writes does
-- not show.
unfoldable pub apply_loop :
    Request → Snapshot → Budget → Changes → List ℕ → List Command → Result Error Changes
apply_loop q s b acc seen [] = ok acc
apply_loop q s b acc seen (c ∷ cs) = elim (mem_nat c.handoff.slot_id seen) [
  | true ↦ err (invalid "sequence: duplicate handoff command")
  | false ↦ elim (judge q s b c) [
    | skip ↦ apply_loop q s b acc (c.handoff.slot_id ∷ seen) cs
    | fail e ↦ err e
    | change r o ids b' ↦ apply_loop q s b' (collect r o ids acc) (c.handoff.slot_id ∷ seen) cs
  ]
]

unfoldable pub write_slots : List OwnershipRow → Table ℕ OwnershipRow → Table ℕ OwnershipRow
write_slots [] t = t
write_slots (o ∷ os) t = upsert ℕ_discrete o.slot_id o (write_slots os t)

unfoldable pub write_handoffs : List HandoffRow → Table ℕ HandoffRow → Table ℕ HandoffRow
write_handoffs [] t = t
write_handoffs (r ∷ rs) t = upsert ℕ_discrete r.slot_id r (write_handoffs rs t)

-- The identities that the transaction locks.
abbrev pub command_ids : List Command → List String
command_ids [] = []
command_ids (c ∷ cs) = c.handoff.source_instance_id ∷ c.handoff.target_instance_id ∷ command_ids cs

unfoldable pub snapshot_of : Request → Time → Database → Snapshot
snapshot_of q now db = record {
  leases = lock_instances db (q.instance_id ∷ command_ids q.commands);
  owned = λ slot. lookup ℕ_discrete slot db.slots;
  current = λ slot. lookup ℕ_discrete slot db.handoffs;
  now = now;
}

unfoldable pub write_changes : Changes → Database → Database
write_changes acc db = bump_revisions acc.instances (record db {
  slots = write_slots acc.slots db.slots;
  handoffs = write_handoffs acc.rows db.handoffs;
})

unfoldable pub apply_body : Request → Time → Database → Result Error (Unit {0} × Database)
apply_body q now db = do
  acc ← apply_loop q (snapshot_of q now db) (budget_of db.handoffs) no_changes [] q.commands
  ok (tt, write_changes acc db)

unfoldable pub apply_handoffs :
    Commit → Time → Request → Database → Database × Result Error (Unit {0})
apply_handoffs c now q db =
    if length q.commands == 0
    then (db, ok tt)
    else if ltb q.limits.batch_slots (length q.commands) || str_eq q.instance_id ""
    then (db, err (invalid "sequence: invalid handoff execution batch"))
    else transaction c (apply_body q now) db
