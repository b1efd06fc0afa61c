-- ===== src/Handoffs/Examples.antt =====
-- A planned transfer, and a release that outlived its owner.
use sindri.Prelude.{
  ℕ, true, false, Option, none, some, List, [], ◌∷◌, lookup, ℕ_discrete, String, String_discrete,
  Bool-cases, ◌≡◌, refl, arith,
}
use sindri.Store.{
  SlotState, InstanceState, Kind, Phase, InstanceRow, OwnershipRow, HandoffRow, Database, committed,
}
use sindri.Handoffs.{Handoff, Limits}
use sindri.Handoffs.Planning.{CoordinatorLease, CoordinatorRow, plan_handoffs}
use sindri.Handoffs.Planned.{PlanOutcome, plan_handoffs-PlanOutcome}
use sindri.Handoffs.Recovery.{recover_handoffs}
use sindri.Handoffs.Released.{OnlyGivenUp, KeyedHandoffs, recover_handoffs-OnlyGivenUp}

abbrev instance_a : InstanceRow
instance_a = record {
  instance_id = "a";
  node_id = "node-a";
  revision = 5;
  granted_at = 100;
  state = InstanceState.active;
}

abbrev served_by_a : OwnershipRow
served_by_a = record {
  slot_id = 7;
  owner_instance_id = some "a";
  epoch = 2;
  state = SlotState.owned;
  updated_at = 50;
}

abbrev serving : Database
serving = record {
  instances = ("a", instance_a) ∷ ("b", record instance_a { instance_id = "b" }) ∷ [];
  slots = (7, served_by_a) ∷ [];
  handoffs = [];
  ranges = [];
}

abbrev tenure : CoordinatorLease
tenure = record { held = true; instance_id = "b"; epoch = 1 }

abbrev coordinator : CoordinatorRow
coordinator = record { owner_instance_id = some "b"; epoch = 1; expires_at = some 900 }

abbrev limits : Limits
limits = record {
  batch_slots = 8;
  max_inflight = 4;
  max_per_source = 2;
  max_per_target = 2;
  max_planned = 16;
}

abbrev plan : Handoff
plan = record {
  slot_id = 7;
  id = "h1";
  kind = Kind.transfer;
  source_instance_id = "a";
  source_epoch = 2;
  target_instance_id = "b";
  phase = Phase.planned;
  drained = false;
  target_ready = false;
  not_before = 0;
}

-- The plan is written.
abbrev planned_row : HandoffRow
planned_row = record {
  slot_id = 7;
  id = "h1";
  kind = Kind.transfer;
  source_instance_id = "a";
  source_epoch = 2;
  target_instance_id = some "b";
  phase = Phase.planned;
  drained = false;
  target_ready = false;
  not_before = none;
  created_at = 200;
  updated_at = 200;
}

plan_written :
    (plan_handoffs committed 200 tenure coordinator limits 300 (plan ∷ []) serving).0.handoffs
    ≡ (7, planned_row) ∷ []
unfolding plan_handoffs String_discrete Bool-cases sindri.Store.transaction
    sindri.Handoffs.Planning.plan_body sindri.Handoffs.Planning.guard_coordinator
    sindri.Handoffs.Planning.active_rows sindri.Handoffs.Planning.check_plans
    sindri.Handoffs.Batch.write_handoffs sindri.Handoffs.Planning.planned_rows
    sindri.Handoffs.Planning.plan_snapshot lookup ℕ_discrete sindri.Handoffs.fresh_instance
    sindri.Store.lock_instances sindri.Store.time_add sindri.Prelude.upsert
    sindri.Handoffs.row_for_handoff
plan_written = refl

plan_handoffs-PlanOutcome_example :
    PlanOutcome limits serving
      (plan_handoffs committed 200 tenure coordinator limits 300 (plan ∷ []) serving).0
plan_handoffs-PlanOutcome_example =
    plan_handoffs-PlanOutcome committed 200 tenure coordinator limits 300 (plan ∷ []) serving

-- Instance a died while it gave slot 7 up.
abbrev draining_row : OwnershipRow
draining_row = record served_by_a { state = SlotState.draining }

abbrev release_row : HandoffRow
release_row = record planned_row {
  kind = Kind.release;
  target_instance_id = none;
  phase = Phase.draining;
  not_before = some 150;
}

abbrev abandoned : Database
abandoned = record serving { slots = (7, draining_row) ∷ []; handoffs = (7, release_row) ∷ [] }

abbrev given_up_row : OwnershipRow
given_up_row = record served_by_a {
  owner_instance_id = none;
  state = SlotState.unowned;
  updated_at = 200;
}

abbrev fresh_id : ℕ → String
fresh_id k = "h2"

slot_given_up :
    (recover_handoffs
      ("b" ∷ [])
      fresh_id
      300
      200
      committed
      tenure
      coordinator
      4
      abandoned
      abandoned).0.slots
    ≡ (7, given_up_row) ∷ []
unfolding recover_handoffs String_discrete Bool-cases sindri.Handoffs.Planning.handoffs
    sindri.Handoffs.Recovery.candidates sindri.Handoffs.Planning.active_rows
    sindri.Handoffs.to_handoff sindri.Store.transaction sindri.Handoffs.Recovery.recover_body
    sindri.Handoffs.Planning.guard_coordinator sindri.Handoffs.Recovery.write_recovered
    sindri.Handoffs.Recovery.recover_loop sindri.Handoffs.Recovery.note
    sindri.Handoffs.Recovery.recover_one lookup ℕ_discrete sindri.Handoffs.Recovery.recover_draining
    sindri.Handoffs.Recovery.write_released sindri.Store.bump_revisions
    sindri.Handoffs.Recovery.release_slot_row sindri.Handoffs.Batch.write_handoffs
    sindri.Handoffs.Recovery.recover_found sindri.Handoffs.fresh_instance sindri.Prelude.upsert
    sindri.Store.bump_row sindri.Store.lock_instances sindri.Store.time_add
slot_given_up = refl

abandoned-KeyedHandoffs : KeyedHandoffs abandoned.handoffs
abandoned-KeyedHandoffs k r h = unfold lookup in ground arith

recover_handoffs-OnlyGivenUp_example :
    OnlyGivenUp 200 abandoned
      (recover_handoffs
        ("b" ∷ [])
        fresh_id
        300
        200
        committed
        tenure
        coordinator
        4
        abandoned
        abandoned).0
recover_handoffs-OnlyGivenUp_example =
    recover_handoffs-OnlyGivenUp ("b" ∷ []) fresh_id 300 200 committed tenure coordinator 4
      abandoned abandoned abandoned-KeyedHandoffs
