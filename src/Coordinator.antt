-- ===== src/Coordinator.antt =====
-- The control plane's rows of internal/sequence/data/placement_data.go: the coordinator's tenure, the
-- published route, and the liveness of the nodes.
--
-- The JSON codec is a parameter, as in Directory, with reflect.DeepEqual of two payloads.
pub mod Tenure
pub mod Published
pub mod Examples
use sindri.Prelude.{
  ℕ, String, Bool, true, false, not, ◌&&◌, ◌||◌, Option, none, some, List, [], ◌∷◌, Result, ok, err,
  ◌>>=◌, ◌>>◌, check, Table, lookup, upsert, String_discrete, ltb, ◌==◌, str_eq, if◌then◌else◌,
}
use sindri.Prelude.Int64.{Int64, two63, two64, add64, lt64, le64}
use sindri.Store.{
  Time, Duration, time_add, before, next64, Error, invalid, storage, Commit, committed, refused,
  lost,
}
use sindri.Directory.{
  OwnershipSegment, RoutePayload, Route, encode_ownership_segments, decode_route,
}
use sindri.Handoffs.Planning.{CoordinatorLease, CoordinatorRow, guard_coordinator}

-- db.Transaction over one part `S` of the database: the body's error rolls it back.
settle_part : {S A : Type 0} → Commit → S → A × S → S × Result Error A
settle_part committed s (a, s') = (s', ok a)
settle_part (refused f) s (a, s') = (s, err (storage f))
settle_part (lost f) s (a, s') = (s', err (storage f))

unfoldable pub transaction_on :
    {S A : Type 0} → Commit → Result Error (A × S) → S → S × Result Error A
unfolding settle_part
transaction_on c (err e) s = (s, err e)
transaction_on c (ok r) s = settle_part c s r

-- The tenure has not passed at `now`.
abbrev pub is_fresh : Time → CoordinatorRow → Bool
is_fresh now row = elim row.expires_at [ none ↦ false | some t ↦ before now t ]

abbrev pub is_holder : String → CoordinatorRow → Bool
is_holder id row = elim row.owner_instance_id [ none ↦ false | some owner ↦ str_eq owner id ]

-- The body of `AcquireCoordinator`: the answer, and the row.
unfoldable pub acquire_body :
    Time → String → Duration → CoordinatorRow → CoordinatorLease × CoordinatorRow
acquire_body now id duration row =
    let same = is_holder id row && is_fresh now row in
    let epoch = if same then row.epoch else next64 row.epoch in
    if is_fresh now row && not (is_holder id row)
    then (record { held = false; instance_id = id; epoch = 0 }, row)
    else (
      record { held = true; instance_id = id; epoch = epoch },
      record {
        owner_instance_id = some id;
        epoch = epoch;
        expires_at = some (time_add now duration);
      },
    )

-- `AcquireCoordinator`.
unfoldable pub acquire_coordinator :
    Commit
    → Time
    → String
    → Duration
    → CoordinatorRow
    → CoordinatorRow × Result Error CoordinatorLease
acquire_coordinator c now id duration row =
    if str_eq id "" || le64 duration 0
    then (row, err (invalid "sequence: invalid coordinator lease"))
    else transaction_on c (ok (acquire_body now id duration row)) row

pub record LivenessRow : Type 0 where
  pub instance_id : String
  pub last_seen_at : Time
  pub eligible_since : Time

-- ON CONFLICT DO UPDATE: another instance, or one that was away for the TTL, starts its wait anew.
unfoldable pub seen_row : Time → Duration → String → Option LivenessRow → LivenessRow
seen_row now ttl id none = record { instance_id = id; last_seen_at = now; eligible_since = now }
seen_row now ttl id (some r) = record {
  instance_id = id;
  last_seen_at = now;
  eligible_since =
      if not (str_eq r.instance_id id) || not (before now (time_add r.last_seen_at ttl))
      then now
      else r.eligible_since;
}

-- `RenewLiveness`.
unfoldable pub renew_liveness :
    Time
    → Duration
    → String
    → String
    → Table String LivenessRow
    → Table String LivenessRow × Result Error (Unit {0})
renew_liveness now ttl node id t =
    if str_eq node "" || str_eq id ""
    then (t, err (invalid "sequence: node identity is required"))
    else (
      upsert String_discrete node (seen_row now ttl id (lookup String_discrete node t)) t,
      ok tt,
    )

-- `DropLiveness`.
unfoldable pub drop_liveness : String → String → Table String LivenessRow → Table String LivenessRow
drop_liveness node id [] = []
drop_liveness node id ((k, r) ∷ t) =
    let rest = drop_liveness node id t in
    if str_eq k node && str_eq r.instance_id id then rest else (k, r) ∷ rest

-- The row of sequence_route_snapshot.
pub record RouteModel (Bytes : Type 0) : Type 0 where
  pub version : Int64
  pub payload : Bytes

module _ {Bytes : Type 0} (unmarshal : Bytes → Result Error RoutePayload)
    (equal : RoutePayload → RoutePayload → Bool) where
  -- `SameRoutePayload`.
  unfoldable pub same_route_payload : Bytes → Bytes → Bool
  same_route_payload left right = elim (unmarshal left) [
    | err e ↦ false
    | ok a ↦ elim (unmarshal right) [ err e ↦ false | ok b ↦ equal a b ]
  ]

  -- The body of `MaterialiseRoute` after the guard, on the row if there is one.
  unfoldable pub publish_route :
      Bytes → Option (RouteModel Bytes) → Int64 × Option (RouteModel Bytes)
  publish_route payload none = (1, some (record { version = 1; payload = payload }))
  publish_route payload (some current) =
      if same_route_payload current.payload payload then (current.version, some current) else (
        add64 current.version 1,
        some (record { version = add64 current.version 1; payload = payload }),
      )

  -- `MaterialiseRoute`, with the revision it answers.
  unfoldable pub materialise_route :
      (RoutePayload → Bytes)
      → Commit
      → Time
      → CoordinatorLease
      → CoordinatorRow
      → List OwnershipSegment
      → Int64
      → Option (RouteModel Bytes)
      → Option (RouteModel Bytes) × Result Error Int64
  materialise_route marshal c now lease row segments layout stored =
      elim (encode_ownership_segments marshal segments layout) [
        | err e ↦ (stored, err e)
        | ok payload ↦
            transaction_on c
              (guard_coordinator lease row now >>= λ u. ok (publish_route payload stored)) stored
      ]

  -- `GetNewerRoute`.
  unfoldable pub get_newer_route : Int64 → Option (RouteModel Bytes) → Result Error (Option Route)
  get_newer_route version none = ok none
  get_newer_route version (some row) =
      if lt64 version row.version
      then (decode_route unmarshal row.version row.payload >>= λ route. ok (some route))
      else ok none
