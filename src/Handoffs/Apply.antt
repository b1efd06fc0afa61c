-- ===== src/Handoffs/Apply.antt =====
-- `ApplyHandoffs`: the judgement of one command, the loop over the batch, and the writes.
use sindri.Prelude.{
  suc, String, Bool, true, false, not, ◌&&◌, ◌||◌, Option, none, some, List, [], ◌∷◌, leb, ◌==◌,
  str_eq, if◌then◌else◌,
}
use sindri.Store.{
  SlotState, Kind, Phase, Time, time_add, before, next64, InstanceRow, OwnershipRow, HandoffRow,
  Error, authority_changed, invalid,
}
use sindri.Handoffs.{
  Action, Handoff, is_active, row_for_handoff, Command, Request, Snapshot, fresh_instance,
  revision_of, Budget, increment, or_empty,
}

-- What one command comes to: nothing, an error that ends the transaction, or a new handoff row,
-- with the new slot row and the instances whose revision moves.
pub data Verdict : Type 0 where
  skip : Verdict
  fail : Error → Verdict
  change : HandoffRow → Option OwnershipRow → List String → Budget → Verdict

abbrev pub owner_is : OwnershipRow → String → Bool
owner_is o id = elim o.owner_instance_id [ none ↦ false | some owner ↦ str_eq owner id ]

abbrev pub phase_eq : Phase → Phase → Bool
phase_eq Phase.planned Phase.planned = true
phase_eq Phase.ready Phase.ready = true
phase_eq Phase.draining Phase.draining = true
phase_eq Phase.transferred Phase.transferred = true
phase_eq Phase.completed Phase.completed = true
phase_eq Phase.cancelled Phase.cancelled = true
phase_eq _ _ = false

abbrev pub state_eq : SlotState → SlotState → Bool
state_eq SlotState.unowned SlotState.unowned = true
state_eq SlotState.owned SlotState.owned = true
state_eq SlotState.draining SlotState.draining = true
state_eq SlotState.other SlotState.other = true
state_eq _ _ = false

abbrev pub is_transfer : Kind → Bool
is_transfer Kind.transfer = true
is_transfer Kind.release = false

-- o.OwnerInstanceID is r.SourceInstanceID, at r.SourceEpoch.
abbrev pub source_matches : OwnershipRow → HandoffRow → Bool
source_matches o r = owner_is o r.source_instance_id && o.epoch == r.source_epoch

-- The row that a command other than WITHDRAW means must still be the one it names.
unfoldable pub names_row : Handoff → HandoffRow → Bool
names_row h r =
    str_eq r.id h.id
    && str_eq r.source_instance_id h.source_instance_id
    && r.source_epoch == h.source_epoch
    && str_eq (or_empty r.target_instance_id) h.target_instance_id

abbrev active_row : Option HandoffRow → Bool
active_row none = false
active_row (some r) = is_active r.phase

-- WITHDRAW makes its own row, a release; `none` is `continue`.
unfoldable pub withdraw_row :
    Request → Time → OwnershipRow → Option HandoffRow → Handoff → Option HandoffRow
withdraw_row q now o existing h =
    if str_eq q.instance_id h.source_instance_id
      && owner_is o h.source_instance_id
      && o.epoch == h.source_epoch
      && state_eq o.state SlotState.owned
      && not (active_row existing)
    then some (
        row_for_handoff
          (record h { kind = Kind.release; phase = Phase.ready; target_instance_id = "" }) now)
    else none

unfoldable pub existing_row : Handoff → Option HandoffRow → Option HandoffRow
existing_row h none = none
existing_row h (some r) = if names_row h r then some r else none

unfoldable pub resolve :
    Request → Time → OwnershipRow → Option HandoffRow → Handoff → Action → Option HandoffRow
resolve q now o existing h Action.withdraw = withdraw_row q now o existing h
resolve q now o existing h _ = existing_row h existing

module _ (q : Request) (s : Snapshot) (b : Budget) where
  abbrev target_of : HandoffRow → String
  target_of r = or_empty r.target_instance_id

  abbrev target_fresh : HandoffRow → Bool
  target_fresh r = fresh_instance (s.leases (target_of r)) s.now q.lease_duration

  unfoldable pub act_prepare : OwnershipRow → HandoffRow → Verdict
  act_prepare o r =
      if (phase_eq r.phase Phase.planned || phase_eq r.phase Phase.draining)
        && str_eq q.instance_id (target_of r)
        && target_fresh r
        && revision_of (s.leases (target_of r)) == q.revision
        && source_matches o r
      then change
          (record r {
            target_ready = true;
            phase = if phase_eq r.phase Phase.planned then Phase.ready else r.phase;
            updated_at = s.now;
          })
          none [] b
      else skip

  -- The boundary of the drain: the quiet window after the source's grant, or after now if later.
  abbrev pub drain_boundary : InstanceRow → Time
  drain_boundary source =
      time_add (if before s.now source.granted_at then source.granted_at else s.now) q.quiet_window

  abbrev over_budget : HandoffRow → Bool
  over_budget r =
      leb q.limits.max_inflight b.total
      || leb q.limits.max_per_source (b.outgoing r.source_instance_id)
      || (is_transfer r.kind
          && (not r.target_ready
              || not (target_fresh r)
              || leb q.limits.max_per_target (b.incoming (target_of r))))

  begin_from : OwnershipRow → HandoffRow → Option InstanceRow → Verdict
  begin_from o r none = fail authority_changed
  begin_from o r (some source) =
      change
        (record r {
          not_before = some (drain_boundary source);
          phase = Phase.draining;
          updated_at = s.now;
        })
        (some (record o { state = SlotState.draining; updated_at = s.now }))
        (r.source_instance_id ∷ [])
        (record {
          total = suc b.total;
          outgoing = increment b.outgoing r.source_instance_id;
          incoming = increment b.incoming (target_of r);
        })

  -- BEGIN, and the second half of WITHDRAW.
  unfoldable pub act_begin : OwnershipRow → HandoffRow → Verdict
  unfolding begin_from
  act_begin o r =
      if phase_eq r.phase Phase.ready
        && source_matches o r
        && state_eq o.state SlotState.owned
        && (str_eq q.instance_id r.source_instance_id || str_eq q.instance_id (target_of r))
      then (if over_budget r then skip else begin_from o r (s.leases r.source_instance_id))
      else skip

  unfoldable pub act_ack_drain : OwnershipRow → HandoffRow → Verdict
  act_ack_drain o r =
      if phase_eq r.phase Phase.draining
        && source_matches o r
        && str_eq q.instance_id r.source_instance_id
      then change (record r { drained = true; updated_at = s.now }) none [] b
      else skip

  -- The drain is over: it was acknowledged, or its boundary has passed.
  abbrev pub drain_over : HandoffRow → Bool
  drain_over r = elim r.not_before [ none ↦ false | some t ↦ r.drained || not (before s.now t) ]

  give_to_target : OwnershipRow → HandoffRow → Verdict
  give_to_target o r =
      if str_eq q.instance_id (target_of r) && target_fresh r && r.target_ready
      then change (record r { phase = Phase.transferred; updated_at = s.now })
          (some (record o {
            owner_instance_id = r.target_instance_id;
            epoch = next64 o.epoch;
            state = SlotState.owned;
            updated_at = s.now;
          }))
          (target_of r ∷ r.source_instance_id ∷ []) b
      else skip

  give_back : OwnershipRow → HandoffRow → Verdict
  give_back o r =
      if str_eq q.instance_id r.source_instance_id
      then change (record r { phase = Phase.completed; updated_at = s.now })
          (some
            (record o { owner_instance_id = none; state = SlotState.unowned; updated_at = s.now }))
          (r.source_instance_id ∷ []) b
      else skip

  unfoldable pub act_transfer : OwnershipRow → HandoffRow → Verdict
  unfolding give_to_target give_back
  act_transfer o r =
      if phase_eq r.phase Phase.draining
        && source_matches o r
        && state_eq o.state SlotState.draining
        && drain_over r
      then (if is_transfer r.kind then give_to_target o r else give_back o r)
      else skip

  unfoldable pub act_ack_active : OwnershipRow → HandoffRow → Verdict
  act_ack_active o r =
      if phase_eq r.phase Phase.transferred
        && str_eq q.instance_id (target_of r)
        && target_fresh r
        && revision_of (s.leases (target_of r)) == q.revision
        && owner_is o (target_of r)
        && o.epoch == next64 r.source_epoch
        && state_eq o.state SlotState.owned
      then change (record r { phase = Phase.completed; updated_at = s.now }) none [] b
      else skip

  unfoldable pub act : Action → OwnershipRow → HandoffRow → Verdict
  act Action.prepare o r = act_prepare o r
  act Action.begin o r = act_begin o r
  act Action.withdraw o r = act_begin o r
  act Action.ack_drain o r = act_ack_drain o r
  act Action.transfer o r = act_transfer o r
  act Action.ack_active o r = act_ack_active o r
  act Action.other o r = fail (invalid "sequence: unknown handoff action")

  act_on : Action → OwnershipRow → Option HandoffRow → Verdict
  act_on a o none = skip
  act_on a o (some r) = act a o r

  judge_owned : Command → Option OwnershipRow → Verdict
  judge_owned c none = skip
  judge_owned c (some o) =
      act_on c.action o (resolve q s.now o (s.current c.handoff.slot_id) c.handoff c.action)

  unfoldable pub judge : Command → Verdict
  unfolding act_on judge_owned
  judge c = judge_owned c (s.owned c.handoff.slot_id)
