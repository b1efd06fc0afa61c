-- ===== src/Handoffs/Recovery.antt =====
-- `RecoverHandoffs`: the coordinator ends, releases or redirects handoffs whose target has died.
--
-- `fresh_id` stands for uuid.NewString, and `nodes` are the instances of the live members.
use sindri.Prelude.{
  ℕ, suc, String, Bool, false, not, ◌&&◌, Option, none, some, List, [], ◌∷◌, Result, ok, err, ◌>>◌,
  lookup, ℕ_discrete, ◌==◌, str_eq, if◌then◌else◌, length,
}
use sindri.Store.{
  SlotState, Kind, Phase, Time, Duration, before, next64, InstanceRow, OwnershipRow, HandoffRow,
  Database, Error, Commit, transaction, lock_instances, mem_text, mem_nat, map_values,
  bump_revisions,
}
use sindri.Handoffs.{Handoff, fresh_instance}
use sindri.Handoffs.Apply.{owner_is, source_matches, state_eq, is_transfer}
use sindri.Handoffs.Batch.{write_handoffs}
use sindri.Handoffs.Planning.{CoordinatorLease, CoordinatorRow, guard_coordinator, handoffs}

-- The first handoffs whose target is not live, up to the limit; the limit 0 never stops the loop.
unfoldable pub candidates : List String → ℕ → ℕ → List Handoff → List Handoff
candidates nodes limit taken [] = []
candidates nodes limit taken (h ∷ hs) =
    let stop = candidates nodes limit (suc taken) hs in
    let skip = candidates nodes limit taken hs in
    if mem_text h.target_instance_id nodes
    then skip
    else h ∷ (if suc taken == limit then [] else stop)

abbrev not_before_passed : Time → Option Time → Bool
not_before_passed now none = false
not_before_passed now (some t) = not (before now t)

-- What one candidate comes to.
pub data Recovery : Type 0 where
  keep : Recovery
  rewrite : HandoffRow → Recovery
  release : HandoffRow → Recovery

-- The target that a transfer is redirected to: the first live one with a lease.
abbrev new_target :
    (String → Option InstanceRow) → Time → Duration → String → List String → Option String
new_target leases now lease source [] = none
new_target leases now lease source (id ∷ ids) =
    let rest = new_target leases now lease source ids in
    if not (str_eq id source) && fresh_instance (leases id) now lease then some id else rest

abbrev redirected : String → HandoffRow → Option String → HandoffRow
redirected id r none = record r {
  kind = Kind.release;
  target_instance_id = none;
  id = id;
  target_ready = false;
}
redirected id r (some target) = record r {
  target_instance_id = some target;
  id = id;
  drained = false;
  target_ready = false;
}

abbrev held_by : String → ℕ → Option OwnershipRow → Bool
held_by id epoch none = false
held_by id epoch (some o) = owner_is o id && o.epoch == epoch

-- The source still drains the slot.
abbrev pub still_drains : HandoffRow → Option OwnershipRow → Bool
still_drains r none = false
still_drains r (some o) = source_matches o r && state_eq o.state SlotState.draining

module _ (leases : String → Option InstanceRow) (nodes : List String) (fresh_id : ℕ → String)
    (lease : Duration) (now : Time) where
  abbrev cancelled : HandoffRow → HandoffRow
  cancelled r = record r { phase = Phase.cancelled; updated_at = now }

  unfoldable pub recover_draining : HandoffRow → Option OwnershipRow → Recovery
  recover_draining r o =
      if not (still_drains r o)
      then rewrite (cancelled r)
      else if is_transfer r.kind
      then rewrite
          (record (redirected (fresh_id r.slot_id) r
            (new_target leases now lease r.source_instance_id nodes)) { updated_at = now })
      else if not_before_passed now r.not_before
      then release (record r { phase = Phase.completed; updated_at = now })
      else keep

  recover_phase : Handoff → HandoffRow → Option OwnershipRow → Phase → Recovery
  recover_phase h r o Phase.planned = rewrite (cancelled r)
  recover_phase h r o Phase.ready = rewrite (cancelled r)
  recover_phase h r o Phase.draining = recover_draining r o
  recover_phase h r o Phase.transferred =
      if held_by h.target_instance_id (next64 h.source_epoch) o then keep else rewrite (cancelled r)
  recover_phase h r o Phase.completed = keep
  recover_phase h r o Phase.cancelled = keep

  unfoldable pub recover_one : Handoff → Option HandoffRow → Option OwnershipRow → Recovery
  unfolding recover_phase
  recover_one h none o = keep
  recover_one h (some r) o = if str_eq r.id h.id then recover_phase h r o r.phase else keep

-- `changed`, `released` and `revised`; the lists grow at the front.
pub record Recovered : Type 0 where
  pub changed : List HandoffRow
  pub released : List ℕ
  pub revised : List String

unfoldable pub note : Recovery → Recovered → Recovered
note keep acc = acc
note (rewrite r) acc = record acc { changed = r ∷ acc.changed }
note (release r) acc = record {
  changed = r ∷ acc.changed;
  released = r.slot_id ∷ acc.released;
  revised = r.source_instance_id ∷ acc.revised;
}

-- UPDATE … SET owner_instance_id = NULL, state = 'UNOWNED' WHERE slot_id IN released.
unfoldable pub release_slot_row : Time → List ℕ → ℕ → OwnershipRow → OwnershipRow
release_slot_row now released k o =
    if mem_nat k released
    then record o { owner_instance_id = none; state = SlotState.unowned; updated_at = now }
    else o

unfoldable pub write_released : Time → Recovered → Database → Database
write_released now acc db =
    bump_revisions acc.revised
      (record db { slots = map_values (release_slot_row now acc.released) db.slots })

unfoldable pub write_recovered : Time → Recovered → Database → Database
write_recovered now acc db =
    let db' = if length acc.released == 0 then db else write_released now acc db in
    record db' { handoffs = write_handoffs acc.changed db'.handoffs }

abbrev pub candidate_ids : List Handoff → List String → List String
candidate_ids [] nodes = nodes
candidate_ids (h ∷ hs) nodes = h.source_instance_id ∷ h.target_instance_id ∷ candidate_ids hs nodes

module _ (nodes : List String) (fresh_id : ℕ → String) (lease : Duration) (now : Time) where
  unfoldable pub recover_loop :
      (String → Option InstanceRow) → Database → List Handoff → Recovered → Recovered
  recover_loop leases db [] acc = acc
  recover_loop leases db (h ∷ hs) acc = recover_loop leases db hs (
      note
        (recover_one leases nodes fresh_id lease now h (lookup ℕ_discrete h.slot_id db.handoffs)
          (lookup ℕ_discrete h.slot_id db.slots))
        acc)

  unfoldable pub recover_body :
      Result Error (Unit {0}) → List Handoff → Database → Result Error (Unit {0} × Database)
  recover_body guard cs db = do
    guard
    let leases = lock_instances db (candidate_ids cs nodes)
    let acc = recover_loop leases db cs (record { changed = []; released = []; revised = [] })
    ok (tt, write_recovered now acc db)

  unfoldable pub recover_found :
      Commit
      → CoordinatorLease
      → CoordinatorRow
      → ℕ
      → Result Error (List Handoff)
      → Database
      → Database × Result Error (Unit {0})
  recover_found c tenure row limit (err e) db = (db, err e)
  recover_found c tenure row limit (ok pending) db =
      let cs = candidates nodes limit 0 pending in
      if length cs == 0
      then (db, ok tt)
      else transaction c (recover_body (guard_coordinator tenure row now) cs) db

  -- `before_tx` is the database at the time of the first, unlocked read.
  unfoldable pub recover_handoffs :
      Commit
      → CoordinatorLease
      → CoordinatorRow
      → ℕ
      → Database
      → Database
      → Database × Result Error (Unit {0})
  unfolding recover_found
  recover_handoffs c tenure row limit before_tx db =
      recover_found c tenure row limit (handoffs "" 16384 before_tx) db
