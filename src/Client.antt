-- ===== src/Client.antt =====
-- The client's router, pkg/sequence/router.go: the tables it compiles a route snapshot into, the
-- snapshots it takes over, its batches (client.go) and its retries.
--
-- A snapshot message has the fields of Directory's Route; its list has no missing segments, as
-- protobuf decodes none. A table over the slots is a function.
pub mod Tables
pub mod Requests
pub mod Retries
pub mod Attempts
pub mod Invocations
pub mod Recovered
pub mod Groups
pub mod Joined
pub mod Partition
pub mod Examples
use sindri.Prelude.{
  ℕ, zero, suc, ◌+◌, String, Bool, true, false, not, ◌&&◌, ◌||◌, Option, none, some, List, [], ◌∷◌,
  length, Result, ok, err, ◌>>=◌, ◌>>◌, check, ltb, leb, ◌==◌, str_eq, if◌then◌else◌,
}
use sindri.Prelude.Int64.{Int64, lt64, le64}
use sindri.Keys.{slot_count}
use sindri.Directory.{RouteSegment, Route, is_empty}

pub data RouteError : Type 0 where
  invalid_route route_unavailable version_regression version_conflict : RouteError

-- compiledRoute.
pub record CompiledRoute : Type 0 where
  pub snapshot : Route
  pub owners : ℕ → String
  pub epochs : ℕ → ℕ

-- `for slot := start; slot <= end; slot++`.
abbrev pub within : ℕ → ℕ → ℕ → Bool
within first last slot = leb first slot && leb slot last

abbrev pub fill : {A : Type 0} → ℕ → ℕ → A → (ℕ → A) → ℕ → A
fill first last x table slot = if within first last slot then x else table slot

-- The checks on one segment, in their order.
unfoldable pub check_segment : ℕ → RouteSegment → Result RouteError (Unit {0})
check_segment next s = do
  check (not (leb slot_count s.end_slot || ltb s.end_slot s.start_slot)) invalid_route
  check (s.start_slot == next) invalid_route
  check (not (is_empty s.owner_node_id && not (is_empty s.owner_instance_id))) invalid_route
  check (not (not (is_empty s.owner_node_id) && is_empty s.owner_instance_id)) invalid_route
  check (not (not (is_empty s.owner_node_id) && s.epoch == 0)) invalid_route

-- The loop of compileSegments.
unfoldable pub compile_from :
    ℕ → List RouteSegment → (ℕ → String) × (ℕ → ℕ) → Result RouteError ((ℕ → String) × (ℕ → ℕ))
compile_from next [] tables = do check (next == slot_count) invalid_route; ok tables
compile_from next (s ∷ ss) (owners, epochs) = do
  check_segment next s
  compile_from (s.end_slot + 1) ss (
    fill s.start_slot s.end_slot s.owner_node_id owners,
    fill s.start_slot s.end_slot s.epoch epochs,
  )

-- `compileSegments`, on tables of Go's zero values.
unfoldable pub compile_segments : List RouteSegment → Result RouteError ((ℕ → String) × (ℕ → ℕ))
compile_segments ss = do
  check (not (length ss == 0)) invalid_route
  compile_from 0 ss ((λ slot. ""), (λ slot. 0))

-- `compileRoute`.
unfoldable pub compile_route : Option Route → Result RouteError CompiledRoute
compile_route none = err invalid_route
compile_route (some snapshot) = do
  check (not (le64 snapshot.version 0 || le64 snapshot.layout_version 0)) invalid_route
  tables ← compile_segments snapshot.segments
  ok (record { snapshot = snapshot; owners = tables.0; epochs = tables.1 })

-- `Version`.
unfoldable pub version_of : Option CompiledRoute → Int64
version_of none = 0
version_of (some c) = c.snapshot.version

-- `EpochOf`; an epoch of 0 is none.
unfoldable pub client_epoch_of : ℕ → Option CompiledRoute → Option ℕ
client_epoch_of slot none = none
client_epoch_of slot (some c) =
    if leb slot_count slot || c.epochs slot == 0 then none else some (c.epochs slot)

module _ (equal : Route → Route → Bool) where
  unfoldable pub take_over :
      CompiledRoute → Option CompiledRoute → Result RouteError (Option CompiledRoute)
  take_over c none = ok (some c)
  take_over c (some current) =
      if lt64 c.snapshot.version current.snapshot.version
      then err version_regression
      else (if c.snapshot.version == current.snapshot.version
          then (if equal current.snapshot c.snapshot
              then ok (some current)
              else err version_conflict)
          else ok (some c))

  -- `Update`: the route that the router has next; on an error it keeps its own.
  unfoldable pub update_snapshot :
      Option Route → Option CompiledRoute → Result RouteError (Option CompiledRoute)
  update_snapshot snapshot current = compile_route snapshot >>= λ c. take_over c current

  -- GetRouteResponse, by its fields.
  unfoldable pub apply_refresh_response :
      Option (Bool × Option Route) → Option CompiledRoute → Result RouteError (Option CompiledRoute)
  apply_refresh_response none current = err invalid_route
  apply_refresh_response (some (true, some route)) current = err invalid_route
  apply_refresh_response (some (true, none)) current =
      if version_of current == 0 then err route_unavailable else ok current
  apply_refresh_response (some (false, none)) current = err invalid_route
  apply_refresh_response (some (false, some route)) current = update_snapshot (some route) current
