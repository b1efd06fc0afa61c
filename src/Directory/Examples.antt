-- ===== src/Directory/Examples.antt =====
-- A layout of three segments, encoded and read back; the codec keeps the payload as it is.
use sindri.Prelude.{
  ℕ, true, false, some, List, [], ◌∷◌, Result, ok, ◌≡◌, refl, String_discrete, Bool-cases, All, ◌⊎◌,
  get_elem?, arith,
}
use sindri.Prelude.Int64.{le64}
use sindri.Store.{SlotState, Error}
use sindri.Directory.{
  OwnershipSegment, RouteSegment, RoutePayload, Route, encode_ownership_segments, decode_route,
  owner_of,
}
use sindri.Directory.Stored.{
  Located, Faithful, decode_route-Located, decode_route-encode, updates, updates-newest,
}

abbrev owned_by_a : OwnershipSegment
owned_by_a = record {
  start_slot = 0;
  end_slot = 99;
  owner_node_id = "node-a";
  owner_instance_id = "a";
  epoch = 2;
  state = SlotState.owned;
  grant_age_known = true;
  quiet_window_overdue = false;
  release_ready = false;
}

abbrev also_by_a : OwnershipSegment
also_by_a = record owned_by_a { start_slot = 100; end_slot = 199; state = SlotState.draining }

abbrev vacant : OwnershipSegment
vacant = record owned_by_a {
  start_slot = 200;
  end_slot = 16383;
  owner_node_id = "";
  owner_instance_id = "";
  epoch = 0;
  state = SlotState.unowned;
}

abbrev layout : List OwnershipSegment
layout = owned_by_a ∷ also_by_a ∷ vacant ∷ []

abbrev keep : RoutePayload → RoutePayload
keep p = p

abbrev read : RoutePayload → Result Error RoutePayload
read p = ok p

abbrev joined : RoutePayload
joined = record {
  layout_version = 3;
  segments =
      record {
        start_slot = 0;
        end_slot = 199;
        owner_node_id = "node-a";
        owner_instance_id = "a";
        epoch = 2;
      }
      ∷ record {
        start_slot = 200;
        end_slot = 16383;
        owner_node_id = "";
        owner_instance_id = "";
        epoch = 0;
      }
      ∷ [];
}

abbrev route_five : Route
route_five = record { version = 5; layout_version = 3; segments = joined.segments }

-- The two runs of a are one segment of the route.
layout_encoded : encode_ownership_segments keep layout 3 ≡ ok joined
unfolding encode_ownership_segments String_discrete Bool-cases
    sindri.Directory.validate_segments_from sindri.Directory.check_owner sindri.Directory.compact
    sindri.Directory.compact_from
layout_encoded = refl

route_decoded : decode_route read 5 joined ≡ ok route_five
unfolding decode_route String_discrete Bool-cases sindri.Directory.check_route_from
route_decoded = refl

decode_route-encode_example :
    (route : Route) × (decode_route read 5 joined ≡ ok route)
    × (route.version ≡ 5)
    × (route.layout_version ≡ 3)
    × Faithful layout route
decode_route-encode_example =
    decode_route-encode keep read layout 3 5 joined (λ p. refl) layout_encoded refl

decode_route-Located_example : Located route_five 150
decode_route-Located_example =
    decode_route-Located read 5 joined route_five 150 route_decoded (omega arith)

abbrev route_four : Route
route_four = record route_five { version = 4 }

updates-newest_example :
    (le64 4 (updates route_four (route_five ∷ route_four ∷ [])).version ≡ true)
    × All
        (λ r. le64 r.version (updates route_four (route_five ∷ route_four ∷ [])).version ≡ true)
        (route_five ∷ route_four ∷ [])
    × ((updates route_four (route_five ∷ route_four ∷ []) ≡ route_four)
        ⊎ ((k : ℕ) × (get_elem? (route_five ∷ route_four ∷ []) k
              ≡ some (updates route_four (route_five ∷ route_four ∷ [])))))
updates-newest_example = updates-newest route_four (route_five ∷ route_four ∷ [])
