-- ===== src/Coordinator/Examples.antt =====
-- A tenure that passes to another publisher, and a layout that is published and read.
use sindri.Prelude.{
  ℕ, String, Bool, true, false, Option, none, some, List, [], ◌∷◌, Result, ok, err, str_eq,
  str_eq_refl, ◌≡◌, ◌≢◌, refl, sym, ◌∙◌, ap, arith, ◌<◌,
}
use sindri.Store.{SlotState, committed, Error, invalid}
use sindri.Directory.{OwnershipSegment, RoutePayload, Route}
use sindri.Directory.Stored.{Faithful}
use sindri.Handoffs.Planning.{CoordinatorLease, CoordinatorRow, guard_coordinator}
use sindri.Coordinator.{RouteModel, is_fresh, materialise_route, get_newer_route}
use sindri.Coordinator.Tenure.{Acquiring, after_acquire, after_all, acquire_coordinator-supersedes}
use sindri.Coordinator.Published.{materialise_route-read}

abbrev tenure_of_a : CoordinatorRow
tenure_of_a = record { owner_instance_id = some "a"; epoch = 4; expires_at = some 500 }

abbrev lease_of_a : CoordinatorLease
lease_of_a = record { held = true; instance_id = "a"; epoch = 4 }

abbrev by_b : Acquiring
by_b = record { commit = committed; now = 600; instance_id = "b"; duration = 300 }

abbrev by_a_again : Acquiring
by_a_again = record { commit = committed; now = 1000; instance_id = "a"; duration = 300 }

a_accepted : guard_coordinator lease_of_a tenure_of_a 400 ≡ ok tt
unfolding guard_coordinator sindri.Prelude.String_discrete sindri.Prelude.Bool-cases
a_accepted = refl

b_took : (after_acquire by_b tenure_of_a).owner_instance_id ≡ some "b"
unfolding sindri.Coordinator.acquire_coordinator sindri.Prelude.String_discrete
    sindri.Prelude.Bool-cases sindri.Coordinator.transaction_on sindri.Coordinator.acquire_body
b_took = refl

b_is_other : by_b.instance_id ≢ lease_of_a.instance_id
unfolding sindri.Prelude.String_discrete sindri.Prelude.Bool-cases
b_is_other e =
    let different : str_eq "b" "a" ≡ false = refl in
    let same : str_eq "b" "a" ≡ true = ap (λ x. str_eq "b" x) (sym e) ∙ str_eq_refl "b" in cc

acquire_coordinator-supersedes_example :
    (is_fresh 600 tenure_of_a ≡ false)
    × (guard_coordinator lease_of_a
          (after_all (by_a_again ∷ []) (after_acquire by_b tenure_of_a))
          1100
        ≡ err (invalid "sequence: coordinator tenure lost"))
acquire_coordinator-supersedes_example =
    acquire_coordinator-supersedes lease_of_a tenure_of_a 400 by_b (by_a_again ∷ []) 1100 a_accepted
      b_is_other b_took (omega arith)

abbrev whole : OwnershipSegment
whole = record {
  start_slot = 0;
  end_slot = 16383;
  owner_node_id = "n1";
  owner_instance_id = "a";
  epoch = 2;
  state = SlotState.owned;
  grant_age_known = true;
  quiet_window_overdue = false;
  release_ready = false;
}

abbrev keep : RoutePayload → RoutePayload
keep p = p

abbrev read : RoutePayload → Result Error RoutePayload
read p = ok p

-- No two payloads are taken for equal, so that each publication moves the version.
abbrev never : RoutePayload → RoutePayload → Bool
never p q = false

never-exact : (p q : RoutePayload) → never p q ≡ true → p ≡ q
never-exact p q h = absurd (cc)

read-keep : (p : RoutePayload) → read (keep p) ≡ ok p
read-keep p = refl

abbrev before : Option (RouteModel RoutePayload)
before = some (record { version = 6; payload = record { layout_version = 1; segments = [] } })

abbrev after : Option (RouteModel RoutePayload)
after =
    (materialise_route read never keep committed 400 lease_of_a tenure_of_a (whole ∷ []) 1 before).0

published :
    materialise_route read never keep committed 400 lease_of_a tenure_of_a (whole ∷ []) 1 before
    ≡ (after, ok 7)
unfolding materialise_route sindri.Directory.encode_ownership_segments
    sindri.Directory.validate_segments_from sindri.Prelude.String_discrete sindri.Prelude.Bool-cases
    sindri.Coordinator.transaction_on guard_coordinator sindri.Coordinator.publish_route
    sindri.Coordinator.same_route_payload
published = refl

materialise_route-read_example :
    (guard_coordinator lease_of_a tenure_of_a 400 ≡ ok tt)
    × ((route : Route) × (get_newer_route read never 6 after ≡ ok (some route))
        × (route.version ≡ 7)
        × Faithful (whole ∷ []) route)
materialise_route-read_example =
    materialise_route-read read never keep committed 400 lease_of_a tenure_of_a (whole ∷ []) 1 7 6
      before after read-keep never-exact (omega arith, omega arith) published refl
