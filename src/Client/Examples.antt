-- ===== src/Client/Examples.antt =====
-- A route and two batches, as the client takes them.
use sindri.Prelude.{
  leb, if◌then◌else◌, ℕ, String, Bool, true, false, Option, none, some, List, [], ◌∷◌, Result, ok,
  err, ◌≡◌, refl, arith,
}
use sindri.Store.{Error}
use sindri.Directory.{RouteSegment, RoutePayload, Route, owner_of, epoch_of, decode_route}
use sindri.Client.{CompiledRoute, RouteError, within, compile_route}
use sindri.Client.Requests.{
  KeyRequest, RequestError, duplicate_key, normalize_key_requests, Normalised,
  normalize_key_requests-Normalised,
}
use sindri.Client.Groups.{OwnerGroup, group_key_requests}
use sindri.Client.Partition.{Partition, group_key_requests-Partition}
use sindri.Client.Tables.{compile_route-lookup, decode_route-compile_route}

abbrev halves : List RouteSegment
halves =
    record {
      start_slot = 0;
      end_slot = 8191;
      owner_node_id = "n1";
      owner_instance_id = "a";
      epoch = 2;
    }
    ∷ record {
      start_slot = 8192;
      end_slot = 16383;
      owner_node_id = "";
      owner_instance_id = "";
      epoch = 0;
    }
    ∷ []

abbrev layout : Route
layout = record { version = 7; layout_version = 1; segments = halves }

abbrev compiled : CompiledRoute
compiled = record {
  snapshot = layout;
  owners = λ slot. if within 8192 16383 slot then "" else if within 0 8191 slot then "n1" else "";
  epochs = λ slot. if within 8192 16383 slot then 0 else if within 0 8191 slot then 2 else 0;
}

route_taken : compile_route (some layout) ≡ ok compiled
unfolding compile_route sindri.Client.compile_segments sindri.Client.compile_from
    sindri.Client.check_segment sindri.Prelude.String_discrete sindri.Prelude.Bool-cases
route_taken = refl

compile_route-lookup_example :
    (compiled.owners 5000 ≡ owner_of layout 5000)
    × (epoch_of layout 5000 ≡ some (compiled.epochs 5000))
compile_route-lookup_example = compile_route-lookup layout compiled 5000 route_taken (omega arith)

abbrev unmarshal : RoutePayload → Result Error RoutePayload
unmarshal p = ok p

abbrev stored : RoutePayload
stored = record { layout_version = 1; segments = halves }

layout_read : decode_route unmarshal 7 stored ≡ ok layout
unfolding decode_route sindri.Directory.check_route_from sindri.Prelude.String_discrete
    sindri.Prelude.Bool-cases
layout_read = refl

decode_route-compile_route_example :
    (c : CompiledRoute) × (compile_route (some layout) ≡ ok c) × (c.snapshot ≡ layout)
decode_route-compile_route_example =
    decode_route-compile_route unmarshal 7 stored layout layout_read

abbrev two_keys : List KeyRequest
two_keys = record { key = "orders"; count = 0 } ∷ record { key = "users"; count = 500 } ∷ []

abbrev two_keys_sized : List KeyRequest
two_keys_sized = record { key = "orders"; count = 1 } ∷ record { key = "users"; count = 500 } ∷ []

two_keys_taken : normalize_key_requests two_keys ≡ ok two_keys_sized
unfolding normalize_key_requests sindri.Client.Requests.normalize_from sindri.Keys.bytes
    sindri.Prelude.String_discrete sindri.Prelude.Bool-cases
two_keys_taken = refl

normalize_key_requests-Normalised_example : Normalised two_keys two_keys_sized
normalize_key_requests-Normalised_example =
    normalize_key_requests-Normalised two_keys two_keys_sized two_keys_taken

-- A key that comes twice is refused.
twice_refused :
    normalize_key_requests
      (record { key = "orders"; count = 1 } ∷ record { key = "orders"; count = 2 } ∷ [])
    ≡ err duplicate_key
unfolding normalize_key_requests sindri.Client.Requests.normalize_from sindri.Keys.bytes
    sindri.Prelude.String_discrete sindri.Prelude.Bool-cases
twice_refused = refl

abbrev by_slot : ℕ → String
by_slot slot = if leb 15800 slot then "n2" else "n1"

abbrev grouped : List OwnerGroup
grouped =
    record { node_id = "n1"; anchor_slot = 9705; indexes = 1 ∷ [] }
    ∷ record { node_id = "n2"; anchor_slot = 15854; indexes = 0 ∷ [] }
    ∷ []

two_keys_grouped : group_key_requests by_slot two_keys_sized ≡ ok grouped
unfolding group_key_requests sindri.Client.Groups.group_from sindri.Client.Groups.sort_groups
    sindri.Client.Groups.insert_group sindri.Client.Groups.join_group sindri.Keys.slot_for_key
    sindri.Keys.bytes sindri.Prelude.String_discrete sindri.Prelude.Bool-cases
two_keys_grouped = refl

group_key_requests-Partition_example : Partition by_slot two_keys_sized grouped
group_key_requests-Partition_example =
    group_key_requests-Partition by_slot two_keys_sized grouped two_keys_grouped
