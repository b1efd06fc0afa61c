-- ===== src/Planner/Examples.antt =====
-- Two nodes, one of which has the whole slot space, and a third that joins.
use sindri.Prelude.{
  str_eq_refl, sym, ◌∙◌, ◌≢◌, ap, ℕ, ◌≡◌, ◌≢◌, ◌<◌, String, true, false, none, some, List, [], ◌∷◌,
  ok, str_eq, length, All, Any, refl, arith, ap, subst,
}
use sindri.Store.{SlotState, Kind, Phase}
use sindri.Keys.{slot_count}
use sindri.Directory.{OwnershipSegment}
use sindri.Handoffs.{Handoff}
use sindri.Planner.{NodeInfo, SlotTarget, slot_quotas, sort_nodes, plan_migrations}
use sindri.Planner.Quotas.{DistinctIds, total, Even, slot_quotas-total}
use sindri.Planner.Targets.{plan_targets, assign_sorted, survey, refresh_slots}
use sindri.Planner.Placed.{
  Placed, Numbered, plan_targets-Placed, Claimable, refresh_slots-Claimable,
}
use sindri.Planner.Plans.{Known}
use sindri.Planner.Migrations.{Migrations, plan_migrations-Migrations}

abbrev node : String → String → NodeInfo
node id instance_id = record { id = id; instance_id = instance_id; stable_for = 600 }

abbrev fleet : List NodeInfo
fleet = node "n1" "a" ∷ node "n2" "b" ∷ node "n3" "c" ∷ []

abbrev segment : ℕ → ℕ → String → String → OwnershipSegment
segment first last node_id instance_id = record {
  start_slot = first;
  end_slot = last;
  owner_node_id = node_id;
  owner_instance_id = instance_id;
  epoch = 2;
  state = SlotState.owned;
  grant_age_known = true;
  quiet_window_overdue = false;
  release_ready = false;
}

abbrev layout : List OwnershipSegment
layout = segment 0 9999 "n1" "a" ∷ segment 10000 16383 "n2" "b" ∷ []

abbrev layout_targets : List SlotTarget
layout_targets = assign_sorted (sort_nodes fleet) (survey (sort_nodes fleet) layout)

layout_planned : plan_targets layout fleet ≡ ok layout_targets
unfolding plan_targets sindri.Directory.validate_segments_from sindri.Prelude.String_discrete
    sindri.Prelude.Bool-cases
layout_planned = refl

apart : (a b : String) → str_eq a b ≡ false → a ≢ b
apart a b h e = let same : str_eq a b ≡ true = ap (λ x. str_eq a x) (sym e) ∙ str_eq_refl a in cc

fleet_distinct : DistinctIds fleet
unfolding sindri.Prelude.String_discrete sindri.Prelude.Bool-cases
fleet_distinct =
    ((apart "n1" "n2" refl, (apart "n1" "n3" refl, tt)), ((apart "n2" "n3" refl, tt), (tt, tt)))

fleet-Known : All (Known fleet) fleet
unfolding sindri.Planner.by_instance sindri.Prelude.String_discrete sindri.Prelude.Bool-cases
fleet-Known = (refl, (refl, (refl, tt)))

slot_quotas-total_example :
    (total (slot_quotas fleet) ≡ slot_count) × All (Even (length fleet)) (slot_quotas fleet)
slot_quotas-total_example = slot_quotas-total fleet (omega arith) fleet_distinct

plan_targets-Placed_example :
    All (λ t. Any (Placed (sort_nodes fleet) t) layout) layout_targets × Numbered 0 layout_targets
plan_targets-Placed_example = plan_targets-Placed layout fleet layout_targets layout_planned

-- Three slots whose owner is gone, and one that is being drained.
abbrev orphaned : List OwnershipSegment
orphaned =
    segment 0 9999 "n1" "a"
    ∷ segment 10000 16379 "n2" "b"
    ∷ (record (segment 16380 16380 "n3" "c") { state = SlotState.draining })
    ∷ segment 16381 16383 "n4" "d"
    ∷ []

abbrev orphaned_targets : List SlotTarget
orphaned_targets = assign_sorted (sort_nodes fleet) (survey (sort_nodes fleet) orphaned)

orphaned_planned : plan_targets orphaned fleet ≡ ok orphaned_targets
unfolding plan_targets sindri.Directory.validate_segments_from sindri.Prelude.String_discrete
    sindri.Prelude.Bool-cases
orphaned_planned = refl

orphaned_claimed : refresh_slots "n3" orphaned orphaned_targets ≡ 16381 ∷ 16382 ∷ 16383 ∷ []
unfolding refresh_slots assign_sorted sort_nodes sindri.Planner.insert_node
    sindri.Planner.Targets.assign survey sindri.Planner.Targets.survey_slots
    sindri.Planner.Targets.stays sindri.Planner.Targets.instance_of sindri.Prelude.String_discrete
    sindri.Prelude.Bool-cases sindri.Planner.Targets.is_blocked sindri.Planner.Targets.choose
    sindri.Planner.Targets.count_kept sindri.Prelude.lookup slot_quotas
    sindri.Planner.Targets.assign_none sindri.Planner.quotas_from sindri.Prelude.upsert
orphaned_claimed = refl

refresh_slots-Claimable_example :
    All
      (λ k. Any (Claimable (sort_nodes fleet) "n3" k) orphaned)
      (refresh_slots "n3" orphaned orphaned_targets)
refresh_slots-Claimable_example =
    refresh_slots-Claimable orphaned fleet orphaned_targets "n3" orphaned_planned

abbrev in_flight : Handoff
in_flight = record {
  slot_id = 3;
  id = "h1";
  kind = Kind.transfer;
  source_instance_id = "a";
  source_epoch = 2;
  target_instance_id = "c";
  phase = Phase.draining;
  drained = false;
  target_ready = false;
  not_before = 0;
}

abbrev fresh_id : ℕ → String
fresh_id k = "h2"

fresh_named : (k : ℕ) → str_eq (fresh_id k) "" ≡ false
unfolding sindri.Prelude.String_discrete sindri.Prelude.Bool-cases
fresh_named k = refl

plan_migrations-Migrations_example :
    Migrations fresh_id layout fleet
      (in_flight ∷ [])
      2
      (plan_migrations fresh_id layout fleet (in_flight ∷ []) 300 2)
plan_migrations-Migrations_example =
    plan_migrations-Migrations fresh_id layout fleet (in_flight ∷ []) 300 2 fresh_named fleet-Known
