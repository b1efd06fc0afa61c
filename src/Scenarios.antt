-- ===== src/Scenarios.antt =====
-- Two replicas and one key, run through the stores: the theorems on concrete rows.
use sindri.Prelude.{
  ℕ, ◌≤◌, ◌<◌, String, Bool, true, false, Option, none, some, List, [], ◌∷◌, Result, ok, err, Table,
  lookup, ℕ_discrete, String_discrete, Bool-cases, ◌≡◌, ◌≢◌, refl, ap, ◌++◌, arith, ◌⊎◌, inl, inr,
}
use sindri.Store.{
  SlotState, InstanceState, Kind, Phase, InstanceRow, OwnershipRow, HandoffRow, Database, Fault,
  Error, Commit, committed,
}
use sindri.Keys.{slot_for_key, slot_count}
use sindri.Ranges.{Authority, ReservationRequest, SequenceRange}
use sindri.Ranges.Reserve.{reserve_ranges}
use sindri.Ranges.Watermarks.{Fits}
use sindri.Ranges.Adjacent.{Outcome, reserve_ranges-Outcome}
use sindri.Ranges.History.{done, reserve, Increasing, granted, History-Increasing}
use sindri.Ownership.Claim.{ClaimRequest, claim_slots}
use sindri.Ownership.Effects.{Claimed, claim_slots-Claimed}
use sindri.Handoffs.{Action, Handoff, Command, Limits, Request}
use sindri.Handoffs.Batch.{apply_handoffs}
use sindri.Handoffs.Authority.{KeyedSlots, AuthorityChange, apply_handoffs-AuthorityChange}
use sindri.Fencing.{Fenced, claim_slots-Fenced}

abbrev replica_a : InstanceRow
replica_a = record {
  instance_id = "a";
  node_id = "node-a";
  revision = 5;
  granted_at = 100;
  state = InstanceState.active;
}

abbrev replica_b : InstanceRow
replica_b = record {
  instance_id = "b";
  node_id = "node-b";
  revision = 3;
  granted_at = 900;
  state = InstanceState.active;
}

abbrev orders_row : OwnershipRow
orders_row = record {
  slot_id = 15854;
  owner_instance_id = some "a";
  epoch = 2;
  state = SlotState.owned;
  updated_at = 50;
}

abbrev two_replicas : Database
two_replicas = record {
  instances = ("a", replica_a) ∷ ("b", replica_b) ∷ [];
  slots = (15854, orders_row) ∷ [];
  handoffs = [];
  ranges = ("orders", 40) ∷ [];
}

abbrev overflowed : Fault
overflowed = record {
  bad_conn = false;
  deadline_exceeded = false;
  canceled = false;
  net_error = false;
  message = "bigint out of range";
}

abbrev authority_a : Authority
authority_a = record { instance_id = "a"; revision = 5; epochs = (15854, 2) ∷ []; lease = 300 }

abbrev ten_orders : List ReservationRequest
ten_orders = record { key = "orders"; step = 10 } ∷ []

-- The key of the rows above.
orders_slot : slot_for_key "orders" ≡ 15854
unfolding slot_for_key
orders_slot = refl

-- With a current lease, the ten numbers after the watermark are granted.
ten_orders_granted :
    (reserve_ranges overflowed committed 200 authority_a ten_orders two_replicas).1
    ≡ ok (record { start = 41; last = 50 } ∷ [])
unfolding reserve_ranges String_discrete Bool-cases sindri.Ranges.validate_reservation_requests
    sindri.Keys.bytes sindri.Store.transaction sindri.Ranges.Reserve.reserve_body
    sindri.Ranges.check_authority sindri.Store.lock_instances lookup sindri.Store.time_add
    sindri.Ranges.check_slots sindri.Ranges.slots_of sindri.Ranges.sort_targets
    sindri.Ranges.targets_of sindri.Ranges.insert_target ℕ_discrete slot_for_key
    sindri.Ranges.Reserve.advance sindri.Ranges.Reserve.advance_one sindri.Prelude.upsert
    sindri.Ranges.Reserve.build_reserved_ranges sindri.Ranges.Reserve.range_of
    sindri.Ranges.Reserve.select_keys
ten_orders_granted = refl

two_replicas-Fits : Fits two_replicas.ranges
two_replicas-Fits k = unfold lookup in ground arith

reserve_ranges-Outcome_example :
    Outcome ten_orders two_replicas
      (reserve_ranges overflowed committed 200 authority_a ten_orders two_replicas)
reserve_ranges-Outcome_example =
    reserve_ranges-Outcome overflowed committed 200 authority_a ten_orders two_replicas
      two_replicas-Fits

-- The same reservation twice.
abbrev after_ten : Database
after_ten = (reserve_ranges overflowed committed 200 authority_a ten_orders two_replicas).0

History-Increasing_example : Increasing (
    granted ten_orders
      (reserve_ranges overflowed committed 200 authority_a ten_orders two_replicas).1
    ++ (granted ten_orders
          (reserve_ranges overflowed committed 210 authority_a ten_orders after_ten).1
        ++ []))
History-Increasing_example = History-Increasing two_replicas-Fits (
    reserve committed 200 authority_a ten_orders two_replicas (
      reserve committed 210 authority_a ten_orders after_ten
        (done (reserve_ranges overflowed committed 210 authority_a ten_orders after_ten).0)))

-- Replica b claims the slot once a quiet window has passed since a's last grant.
abbrev claim_of_b : ClaimRequest
claim_of_b = record {
  slots = 15854 ∷ [];
  node_id = "node-b";
  instance_id = "b";
  revision = 3;
  lease = 300;
  quiet_window = 700;
}

abbrev taken_row : OwnershipRow
taken_row = record {
  slot_id = 15854;
  owner_instance_id = some "b";
  epoch = 3;
  state = SlotState.owned;
  updated_at = 1000;
}

claimed_by_b :
    lookup ℕ_discrete 15854
      (claim_slots committed 1000 claim_of_b two_replicas two_replicas).0.slots
    ≡ some taken_row
unfolding claim_slots String_discrete Bool-cases lookup sindri.Store.transaction
    sindri.Ownership.Claim.claim_body sindri.Ownership.Claim.load_slots sindri.Store.lock_instances
    sindri.Store.time_add sindri.Ownership.Claim.claim_loop sindri.Ownership.Claim.owner_ids
    sindri.Ownership.Claim.write_claims sindri.Ownership.Claim.claim_row
    sindri.Ownership.Claim.write_granted sindri.Store.bump_revisions ℕ_discrete
    sindri.Ownership.Claim.claim_slot_row
claimed_by_b = refl

claim_slots-Claimed_example :
    Claimed claim_of_b 1000 two_replicas
      (claim_slots committed 1000 claim_of_b two_replicas two_replicas).0
claim_slots-Claimed_example =
    claim_slots-Claimed committed 1000 claim_of_b two_replicas two_replicas (refl, tt, tt)

claim_slots-Fenced_example :
    Fenced replica_a (claim_slots committed 1000 claim_of_b two_replicas two_replicas).0
unfolding lookup ℕ_discrete String_discrete Bool-cases
claim_slots-Fenced_example =
    claim_slots-Fenced committed 1000 claim_of_b two_replicas two_replicas 15854 orders_row
      taken_row replica_a (refl, tt, tt) refl claimed_by_b
      (λ e. ground (arith, ap (λ (o : OwnershipRow). o.epoch) e)) refl refl (omega arith)

-- Replica a gives its slot up: the withdrawal starts the drain.
abbrev withdrawal : Request
withdrawal = record {
  instance_id = "a";
  revision = 5;
  lease_duration = 300;
  quiet_window = 700;
  commands =
      record {
        handoff = record {
          slot_id = 15854;
          id = "h1";
          kind = Kind.release;
          source_instance_id = "a";
          source_epoch = 2;
          target_instance_id = "";
          phase = Phase.planned;
          drained = false;
          target_ready = false;
          not_before = 0;
        };
        action = Action.withdraw;
      }
      ∷ [];
  limits = record {
    batch_slots = 8;
    max_inflight = 4;
    max_per_source = 2;
    max_per_target = 2;
    max_planned = 16;
  };
}

abbrev draining_row : OwnershipRow
draining_row = record orders_row { state = SlotState.draining; updated_at = 200 }

draining_starts :
    lookup ℕ_discrete 15854 (apply_handoffs committed 200 withdrawal two_replicas).0.slots
    ≡ some draining_row
unfolding apply_handoffs String_discrete Bool-cases lookup sindri.Store.transaction
    sindri.Handoffs.Batch.apply_body sindri.Handoffs.Batch.apply_loop sindri.Handoffs.Apply.judge
    sindri.Handoffs.Batch.snapshot_of ℕ_discrete sindri.Handoffs.Apply.resolve
    sindri.Handoffs.Apply.withdraw_row sindri.Handoffs.Apply.act sindri.Handoffs.Apply.act_begin
    sindri.Handoffs.row_for_handoff sindri.Store.lock_instances sindri.Handoffs.Batch.write_changes
    sindri.Store.bump_revisions sindri.Handoffs.Batch.write_slots sindri.Handoffs.Batch.collect
    sindri.Prelude.upsert
draining_starts = refl

two_replicas-KeyedSlots : KeyedSlots two_replicas.slots
two_replicas-KeyedSlots k o h = unfold lookup in ground arith

apply_handoffs-AuthorityChange_example :
    (lookup ℕ_discrete 15854 two_replicas.slots ≡ some draining_row)
    ⊎ AuthorityChange withdrawal 200 two_replicas
        (apply_handoffs committed 200 withdrawal two_replicas).0
        15854
        draining_row
apply_handoffs-AuthorityChange_example =
    apply_handoffs-AuthorityChange committed 200 withdrawal two_replicas 15854 draining_row
      two_replicas-KeyedSlots draining_starts
