-- ===== src/Ownership/Claim.antt =====
-- `ClaimSlots`: taking slots over, in one transaction.
use sindri.Prelude.{
  ℕ, String, Bool, true, false, not, ◌&&◌, ◌||◌, Option, none, some, List, [], ◌∷◌, Result, ok, err,
  ◌>>=◌, ◌>>◌, check, Table, lookup, ℕ_discrete, ltb, ◌==◌, str_eq, if◌then◌else◌, length,
}
use sindri.Prelude.Int64.{le64}
use sindri.Store.{
  SlotState, Kind, Phase, Time, Duration, time_add, before, next64, InstanceRow, OwnershipRow,
  HandoffRow, Database, Error, authority_changed, slot_not_owned, lease_expired, invalid, Commit,
  transaction, mem_nat, lock_instances, map_values, bump_revisions,
}
use sindri.Handoffs.{is_active}
use sindri.Ownership.{Ownership, ownership_of, owned_by, is_live, classified_by}

-- biz.ClaimRequest and biz.ClaimOutcome.
pub record ClaimRequest : Type 0 where
  pub slots : List ℕ
  pub node_id : String
  pub instance_id : String
  pub revision : ℕ
  pub lease : Duration
  pub quiet_window : Duration

pub record ClaimOutcome : Type 0 where
  pub ownership : Ownership
  pub granted : Bool
  pub not_before : Time

-- `loadSlots`: the listed rows, in slot order as the table holds them.
unfoldable pub load_slots : List ℕ → Table ℕ OwnershipRow → List OwnershipRow
load_slots slots [] = []
load_slots slots ((k, r) ∷ t) =
    let rest = load_slots slots t in if mem_nat k slots then r ∷ rest else rest

unfoldable pub owner_ids : List OwnershipRow → List String
owner_ids [] = []
owner_ids (r ∷ rs) = elim r.owner_instance_id [ none ↦ owner_ids rs | some id ↦ id ∷ owner_ids rs ]

-- What the loop over the rows has collected: `outcomes`, `granted` and `changed`.
pub record Claims : Type 0 where
  pub outcomes : List ClaimOutcome
  pub granted : List ℕ
  pub changed : List String

abbrev pub is_kind_release : Kind → Bool
is_kind_release Kind.release = true
is_kind_release Kind.transfer = false

abbrev pub is_draining : Phase → Bool
is_draining Phase.draining = true
is_draining _ = false

abbrev pub cons_owner : Option String → List String → List String
cons_owner none ids = ids
cons_owner (some id) ids = id ∷ ids

module _ (q : ClaimRequest) (now : Time) where
  -- A release whose drain was acknowledged, or whose boundary has passed.
  abbrev pub release_over : OwnershipRow → Option HandoffRow → Bool
  release_over r none = false
  release_over r (some h) =
      is_kind_release h.kind
      && is_draining h.phase
      && h.source_epoch == r.epoch
      && owned_by h.source_instance_id r
      && elim h.not_before [ none ↦ false | some t ↦ h.drained || not (before now t) ]

  -- `NotBefore` of the row's owner: its last grant and the quiet window.
  abbrev pub not_before_of : Option InstanceRow → Time
  not_before_of none = 0
  not_before_of (some owner) = time_add owner.granted_at q.quiet_window

  abbrev pub eligible : OwnershipRow → Option InstanceRow → Option HandoffRow → Bool
  eligible r owner intent = elim r.state [
    | SlotState.unowned ↦ true
    | SlotState.owned ↦ not (before now (not_before_of owner))
    | SlotState.draining ↦ release_over r intent
    | SlotState.other ↦ false
  ]

  abbrev pub is_self : OwnershipRow → Bool
  is_self r = elim r.state [ SlotState.owned ↦ owned_by q.instance_id r | _ ↦ false ]

  abbrev claimed : OwnershipRow → Ownership
  claimed r = record {
    slot_id = r.slot_id;
    owner_node_id = q.node_id;
    owner_instance_id = q.instance_id;
    epoch = next64 r.epoch;
    state = SlotState.owned;
  }

  -- One row of the loop. An owner that is named but was not locked ends the transaction.
  unfoldable pub claim_row :
      (String → Option InstanceRow)
      → Option HandoffRow
      → OwnershipRow
      → Option InstanceRow
      → Claims
      → Claims
  claim_row leases intent r owner acc =
      if is_self r
      then record acc {
        outcomes =
            record { ownership = ownership_of r leases; granted = true; not_before = 0 }
            ∷ acc.outcomes;
      }
      else if eligible r owner intent
      then record {
        outcomes = record { ownership = claimed r; granted = true; not_before = 0 } ∷ acc.outcomes;
        granted = r.slot_id ∷ acc.granted;
        changed = q.instance_id ∷ cons_owner r.owner_instance_id acc.changed;
      }
      else record acc {
        outcomes =
            record {
              ownership = ownership_of r leases;
              granted = false;
              not_before = not_before_of owner;
            }
            ∷ acc.outcomes;
      }

  unfoldable pub owner_row :
      (String → Option InstanceRow) → Option String → Result Error (Option InstanceRow)
  owner_row leases none = ok none
  owner_row leases (some id) = elim (leases id) [
    | none ↦ err authority_changed
    | some i ↦ ok (some i)
  ]

  -- The collected lists grow at the front.
  unfoldable pub claim_loop :
      (String → Option InstanceRow)
      → (ℕ → Option HandoffRow)
      → Claims
      → List OwnershipRow
      → Result Error Claims
  unfolding owner_row
  claim_loop leases intents acc [] = ok acc
  claim_loop leases intents acc (r ∷ rs) = do
    owner ← owner_row leases r.owner_instance_id
    claim_loop leases intents (claim_row leases (intents r.slot_id) r owner acc) rs

  -- UPDATE … SET owner, epoch + 1, OWNED, and the cancelling of the intents.
  unfoldable pub claim_slot_row : List ℕ → ℕ → OwnershipRow → OwnershipRow
  claim_slot_row granted k r =
      if mem_nat k granted
      then record r {
        owner_instance_id = some q.instance_id;
        epoch = next64 r.epoch;
        state = SlotState.owned;
        updated_at = now;
      }
      else r

  unfoldable pub cancel_row : List ℕ → ℕ → HandoffRow → HandoffRow
  cancel_row granted k h =
      if mem_nat k granted && is_active h.phase
      then record h { phase = Phase.cancelled; updated_at = now }
      else h

  unfoldable pub write_granted : Claims → Database → Database
  write_granted acc db = bump_revisions acc.changed (record db {
    slots = map_values (claim_slot_row acc.granted) db.slots;
    handoffs = map_values (cancel_row acc.granted) db.handoffs;
  })

  unfoldable pub write_claims : Claims → Database → Database
  write_claims acc db = if length acc.granted == 0 then db else write_granted acc db

  abbrev pub candidate_ok : InstanceRow → Bool
  candidate_ok i = is_live i && str_eq i.node_id q.node_id && i.revision == q.revision

  unfoldable pub check_candidate : Option InstanceRow → Result Error (Unit {0})
  check_candidate none = err authority_changed
  check_candidate (some i) = do
    check (candidate_ok i) authority_changed
    check (before now (time_add i.granted_at q.lease)) lease_expired

  -- The body of the transaction, with the owners that an earlier read discovered.
  unfoldable pub claim_body :
      List OwnershipRow → Database → Result Error (List ClaimOutcome × Database)
  unfolding check_candidate
  claim_body discovered db = do
    let leases = lock_instances db (q.instance_id ∷ owner_ids discovered)
    let rows = load_slots q.slots db.slots
    check (length rows == length q.slots) slot_not_owned
    check_candidate (leases q.instance_id)
    acc ←
        claim_loop leases (λ slot. lookup ℕ_discrete slot db.handoffs)
          (record { outcomes = []; granted = []; changed = [] }) rows
    ok (acc.outcomes, write_claims acc db)

-- `ClaimSlots`; `before_tx` is the database at the time of the first, unlocked read.
unfoldable pub claim_slots :
    Commit → Time → ClaimRequest → Database → Database → Database × Result Error (List ClaimOutcome)
claim_slots c now q before_tx db =
    if str_eq q.instance_id ""
      || le64 q.lease 0
      || le64 q.quiet_window 0
      || ltb 1000 (length q.slots)
    then (db, err (invalid "sequence: invalid claim"))
    else if length q.slots == 0
    then (db, ok [])
    else classified_by (transaction c (claim_body q now (load_slots q.slots before_tx.slots)) db)
