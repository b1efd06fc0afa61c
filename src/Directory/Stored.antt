-- ===== src/Directory/Stored.antt =====
-- The route that is stored and read back, and the cache's order of versions.
use mathlib.Core.Option
use sindri.Prelude.{
  ℕ, suc, ◌≤◌, ◌<◌, true, ◌&&◌, some, List, [], ◌∷◌, Result, ok, check, >>=-eq-ok, get_elem?, ◌≡◌,
  refl, sym, ◌∙◌, ap, arith, All, Bool-cases, inl, inr, ◌⊎◌,
}
use sindri.Prelude.Int64.{Int64, lt64, le64}
use sindri.Store.{Error}
use sindri.Keys.{slot_count}
use sindri.Directory.{
  OwnershipSegment, RouteSegment, RoutePayload, Route, encode_ownership_segments, decode_route,
  segment_for, update_route, to_route_segment, validate_ownership_segments, compact,
  check_route_from,
}
use sindri.Directory.Coverage.{
  Covers, Contiguous-Found, check_route_from-Contiguous, segment_for-Found,
}
use sindri.Directory.Compaction.{story, check_route_from-compact, first_ending-compact}

-- The segment that the route answers for a slot covers the slot.
abbrev pub Located : Route → ℕ → Type 0
Located route slot = (s : RouteSegment) × (segment_for (some route) slot ≡ some s) × Covers slot s

checked-Located :
    (route : Route) (slot : ℕ)
    → check_route_from 0 route.segments ≡ ok tt
    → slot < slot_count
    → Located route slot
checked-Located route slot h b =
    let f =
      Contiguous-Found slot 0 route.segments (check_route_from-Contiguous 0 route.segments h)
        (omega arith) b in
    (f.segment, segment_for-Found route slot f b, f.covers)

-- Whatever bytes were stored: if they decode, every slot of the slot space has a segment in the
-- route, and the binary search finds one that covers it.
pub decode_route-Located :
    {Bytes : Type 0} (unmarshal : Bytes → Result Error RoutePayload) (version : Int64)
    (payload : Bytes) (route : Route) (slot : ℕ)
    → decode_route unmarshal version payload ≡ ok route
    → slot < slot_count
    → Located route slot
unfolding decode_route
decode_route-Located unmarshal version payload route slot h b =
    let (stored, read, h1) = >>=-eq-ok (unmarshal payload) _ h in
    let (u, positive, h2) =
      >>=-eq-ok (check (lt64 0 version && lt64 0 stored.layout_version) _) _ h1 in
    let (v, checked, h3) = >>=-eq-ok (check_route_from 0 stored.segments) _ h2 in
    checked-Located route slot (ground arith) b

-- In the route, the slots of each segment have the segment's owner and epoch.
abbrev pub Faithful : List OwnershipSegment → Route → Type 0
Faithful segments route =
    (k slot : ℕ) (s : OwnershipSegment)
    → get_elem? segments k ≡ some s
    → s.start_slot ≤ slot
    → slot ≤ s.end_slot
    → slot < slot_count
    → Option.map story (segment_for (some route) slot) ≡ some (story (to_route_segment s))

compacted-Faithful :
    (segments : List OwnershipSegment) (route : Route)
    → validate_ownership_segments segments ≡ ok tt
    → route.segments ≡ compact segments
    → Faithful segments route
compacted-Faithful segments route valid e k slot s there a b c =
    let checked : check_route_from 0 route.segments ≡ ok tt =
      ap (check_route_from 0) e ∙ check_route_from-compact segments valid in
    let f =
      Contiguous-Found slot 0 route.segments (check_route_from-Contiguous 0 route.segments checked)
        (omega arith) c in
    let found = segment_for-Found route slot f c in
    let first = f.first in
    let same = first_ending-compact slot k segments s valid there a b in ground arith

ok_injective : {A : Type 0} (a b : A) → (r : Result Error A) → r ≡ ok a → r ≡ ok b → a ≡ b
ok_injective a b r g h = cc

-- A layout that encodes also decodes, at every positive version, if the codec reads back what it
-- wrote: to a route with that version and layout version, in which the slots of each segment have
-- that segment's owner and epoch.
pub decode_route-encode :
    {Bytes : Type 0} (marshal : RoutePayload → Bytes)
    (unmarshal : Bytes → Result Error RoutePayload) (segments : List OwnershipSegment)
    (layout_version version : Int64) (payload : Bytes)
    → ((p : RoutePayload) → unmarshal (marshal p) ≡ ok p)
    → encode_ownership_segments marshal segments layout_version ≡ ok payload
    → lt64 0 version ≡ true
    → (route : Route) × (decode_route unmarshal version payload ≡ ok route)
      × (route.version ≡ version)
      × (route.layout_version ≡ layout_version)
      × Faithful segments route
unfolding encode_ownership_segments decode_route
decode_route-encode marshal unmarshal segments layout_version version payload reads h positive =
    let (u, layout, h1) = >>=-eq-ok (check (lt64 0 layout_version) _) _ h in
    let (v, valid, written) = >>=-eq-ok (validate_ownership_segments segments) _ h1 in
    let stored : RoutePayload = record {
      layout_version = layout_version;
      segments = compact segments;
    } in
    let e : unmarshal payload ≡ ok stored =
      ap unmarshal (sym (ok_injective _ payload _ refl written)) ∙ reads stored in
    let checked = check_route_from-compact segments valid in
    let l : lt64 0 layout_version ≡ true = ground arith in
    (
      record { version = version; layout_version = layout_version; segments = compact segments },
      rw (e, positive, l, checked) refl,
      refl,
      refl,
      compacted-Faithful segments _ valid refl,
    )

abbrev pub updates : Route → List Route → Route
updates cached [] = cached
updates cached (route ∷ routes) = updates (update_route cached route) routes

-- Whatever routes reach the cache, in whatever order: it ends with one at least as new as the one
-- it had and as each of them, and that is one of them or the one it had.
pub updates-newest :
    (cached : Route) (routes : List Route)
    → (le64 cached.version (updates cached routes).version ≡ true)
      × All (λ r. le64 r.version (updates cached routes).version ≡ true) routes
      × ((updates cached routes ≡ cached)
          ⊎ ((k : ℕ) × (get_elem? routes k ≡ some (updates cached routes))))
unfolding update_route
updates-newest cached [] = (ground arith, tt, inl refl)
updates-newest cached (route ∷ routes) =
    let (older, each, one) = updates-newest (update_route cached route) routes in
    (ground arith, (ground arith, each), source one)
  where
    source :
        (updates (update_route cached route) routes ≡ update_route cached route)
          ⊎ ((k : ℕ) × (get_elem? routes k ≡ some (updates (update_route cached route) routes)))
        → (updates cached (route ∷ routes) ≡ cached)
          ⊎ ((k : ℕ) × (get_elem? (route ∷ routes) k ≡ some (updates cached (route ∷ routes))))
    source (inr (k, e)) = inr (suc k, e)
    source (inl same) = elim (Bool-cases (le64 route.version cached.version)) [
      | inl stale ↦ inl (same ∙ rw stale refl)
      | inr newer ↦ inr (0, sym (ap (λ (r : Route). some r) (same ∙ rw newer refl)))
    ]
