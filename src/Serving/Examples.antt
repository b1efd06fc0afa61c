-- ===== src/Serving/Examples.antt =====
-- One replica through its life: its first snapshot, its renewal, a handoff pass, and a fence.
use sindri.Prelude.{
  ℕ, String, true, false, Option, none, some, List, [], ◌∷◌, ok, err, lookup, ℕ_discrete,
  String_discrete, ◌≡◌, refl, arith, length, All, ◌≤◌, inl, inr, ◌⊎◌, ◌+◌, ◌<◌, ap,
}
use sindri.Store.{
  SlotState, InstanceState, InstanceRow, Kind, Phase, committed, OwnershipRow, Database,
}
use sindri.Config.{HaConfig}
use sindri.Config.Margins.{Margins}
use sindri.Ownership.{Ownership, AuthoritySnapshot}
use sindri.Ownership.Claim.{ClaimRequest, claim_slots}
use sindri.Handoffs.{Handoff}
use sindri.Serving.{
  LocalSlot, Allocator, Attempt, new_allocator, apply_authority, unusable, renew_locked, renewed,
}
use sindri.Serving.Operations.{check_local_lease, fence}
use sindri.Serving.Applied.{Applied, apply_authority-Applied}
use sindri.Serving.Renewal.{
  RenewOutcome, renew_locked-RenewOutcome, ServedOpen, renew_locked-ServedOpen, renewed-Accepted,
}
use sindri.Serving.Stopped.{
  OutOfService, entering, marking, syncing, perform_all, perform_all-OutOfService,
}
use sindri.Serving.Leases.{claim_slots-after_local_lease}
use sindri.Serving.Pass.{Justified, handoff_pass, handoff_pass-Justified}

abbrev lease_of_a : InstanceRow
lease_of_a = record {
  instance_id = "a";
  node_id = "n1";
  revision = 5;
  granted_at = 1000;
  state = InstanceState.active;
}

abbrev owned_seven : Ownership
owned_seven = record {
  slot_id = 7;
  owner_node_id = "n1";
  owner_instance_id = "a";
  epoch = 2;
  state = SlotState.owned;
}

abbrev snapshot : AuthoritySnapshot
snapshot = record { lease = lease_of_a; slots = owned_seven ∷ [] }

abbrev started : Allocator
started = new_allocator "n1" "a"

abbrev synced : Allocator
synced = record started {
  revision = 5;
  slots = (7, record { epoch = 2; draining = true; inflight = 0 }) ∷ [];
  pending_active = 7 ∷ [];
}

applied : apply_authority snapshot started ≡ ok synced
unfolding apply_authority new_allocator sindri.Prelude.String_discrete sindri.Prelude.Bool-cases
    sindri.Serving.check_owned sindri.Serving.install_slots sindri.Serving.move_withdrawn lookup
    sindri.Serving.retain_slots sindri.Prelude.upsert
applied = refl

abbrev settings : HaConfig
settings = record {
  lease_duration = 300;
  quiet_window = 700;
  max_pause = 100;
  clock_drift = 10;
  clock_jump = 20;
  safety_margin = 50;
  renew_interval = 100;
  release_drain_timeout = 100;
  pause_verified = true;
  clock_disciplined = true;
  node_ttl = 900;
}

abbrev turn : Attempt
turn = record {
  anchor = 10;
  answered = 20;
  lease = λ revision. ok lease_of_a;
  authority = ok snapshot;
}

fits : unusable settings turn lease_of_a synced ≡ false
unfolding sindri.Prelude.String_discrete sindri.Prelude.Bool-cases new_allocator
    sindri.Config.lease_deadline
fits = refl

apply_authority-Applied_example : Applied snapshot started synced
unfolding new_allocator
apply_authority-Applied_example = apply_authority-Applied snapshot started synced tt applied

renew_locked-RenewOutcome_example :
    RenewOutcome settings turn turn synced (renew_locked settings turn turn synced)
unfolding lookup
renew_locked-RenewOutcome_example = renew_locked-RenewOutcome settings turn turn synced (refl, tt)

renew_locked-ServedOpen_example : ServedOpen (renew_locked settings turn turn synced).0 7 2
unfolding new_allocator sindri.Serving.find_owned
renew_locked-ServedOpen_example =
    renew_locked-ServedOpen settings turn turn snapshot lease_of_a started synced 7 owned_seven tt
      applied refl fits refl refl

perform_all-OutOfService_example :
    OutOfService
      (perform_all (syncing (ok snapshot) ∷ entering 7 ∷ marking ∷ []) (fence "clock" synced))
    × ((reason : String)
        → (fence "clock" synced).fenced ≡ some reason
        → (perform_all
            (syncing (ok snapshot) ∷ entering 7 ∷ marking ∷ [])
            (fence "clock" synced)).fenced
          ≡ some reason)
unfolding fence new_allocator
perform_all-OutOfService_example =
    perform_all-OutOfService (syncing (ok snapshot) ∷ entering 7 ∷ marking ∷ [])
      (fence "clock" synced) refl

-- The source side of a release whose gate has emptied.
abbrev withdrawn : Allocator
withdrawn = record synced {
  slots = [];
  pending_active = [];
  draining_slots = (7, record { epoch = 2; draining = true; inflight = 0 }) ∷ [];
}

abbrev release_of_seven : Handoff
release_of_seven = record {
  slot_id = 7;
  id = "h1";
  kind = Kind.release;
  source_instance_id = "a";
  source_epoch = 2;
  target_instance_id = "";
  phase = Phase.draining;
  drained = false;
  target_ready = false;
  not_before = 0;
}

handoff_pass-Justified_example :
    All (Justified 20 withdrawn) (handoff_pass 20 withdrawn 8 (release_of_seven ∷ []))
    × (length (handoff_pass 20 withdrawn 8 (release_of_seven ∷ [])) ≤ 8)
handoff_pass-Justified_example =
    handoff_pass-Justified 20 withdrawn 8 (release_of_seven ∷ []) (omega arith)

-- Replica b takes slot 7 over once a's quiet window has passed.
abbrev lease_of_b : InstanceRow
lease_of_b = record lease_of_a { instance_id = "b"; node_id = "n2"; granted_at = 1750 }

abbrev row_of_seven : OwnershipRow
row_of_seven = record {
  slot_id = 7;
  owner_instance_id = some "a";
  epoch = 2;
  state = SlotState.owned;
  updated_at = 900;
}

abbrev taken_over : OwnershipRow
taken_over = record row_of_seven { owner_instance_id = some "b"; epoch = 3; updated_at = 1800 }

abbrev stored : Database
stored = record {
  instances = ("a", lease_of_a) ∷ ("b", lease_of_b) ∷ [];
  slots = (7, row_of_seven) ∷ [];
  handoffs = [];
  ranges = [];
}

abbrev takeover : ClaimRequest
takeover = record {
  slots = 7 ∷ [];
  node_id = "n2";
  instance_id = "b";
  revision = 5;
  lease = 300;
  quiet_window = 700;
}

slot_taken :
    lookup ℕ_discrete 7 (claim_slots committed 1800 takeover stored stored).0.slots
    ≡ some taken_over
unfolding claim_slots String_discrete sindri.Prelude.Bool-cases lookup sindri.Store.transaction
    sindri.Ownership.Claim.claim_body sindri.Ownership.Claim.load_slots sindri.Store.lock_instances
    sindri.Store.time_add sindri.Ownership.Claim.claim_loop sindri.Ownership.Claim.owner_ids
    sindri.Ownership.Claim.write_claims sindri.Ownership.Claim.claim_row
    sindri.Ownership.Claim.write_granted sindri.Store.bump_revisions ℕ_discrete
    sindri.Ownership.Claim.claim_slot_row
slot_taken = refl

lease_holds : check_local_lease 200 (renewed settings turn synced) ≡ ok tt
unfolding check_local_lease renewed sindri.Config.lease_deadline
lease_holds = refl

a_registered : lookup String_discrete "a" stored.instances ≡ some lease_of_a
unfolding lookup String_discrete sindri.Prelude.Bool-cases
a_registered = refl

seven_held : lookup ℕ_discrete 7 stored.slots ≡ some row_of_seven
unfolding lookup ℕ_discrete
seven_held = refl

settings-Margins : Margins settings 100
settings-Margins = record {
  quiet = omega arith;
  measured = (refl, refl);
  inside = (omega arith, omega arith);
  renews = omega arith;
}

claim_slots-after_local_lease_example : 200 + settings.max_pause + settings.safety_margin < 780
claim_slots-after_local_lease_example =
    claim_slots-after_local_lease settings 100 turn lease_of_a synced (renewed settings turn synced)
      200 committed 1800 780 takeover stored stored 7 row_of_seven taken_over settings-Margins
      (omega arith, omega arith) (renewed-Accepted settings turn lease_of_a synced fits)
      (omega arith) lease_holds (refl, tt, tt) seven_held refl refl a_registered refl slot_taken
      (λ e. ground (arith, ap (λ (o : OwnershipRow). o.epoch) e)) (omega arith)
