-- ===== src/Client/Tables.antt =====
-- The client's tables against the server's lookup of the same route.
use sindri.Prelude.{
  ℕ, ◌+◌, ◌≤◌, ◌<◌, String, true, false, not, ◌&&◌, ◌||◌, some, List, [], ◌∷◌, length, Result, ok,
  check, >>=-eq-ok, ok_injective, some_injective, leb, ◌==◌, ◌≡◌, refl, sym, ◌∙◌, ap, subst, inl,
  inr, Bool-cases, arith,
}
use sindri.Prelude.Int64.{Int64, lt64, le64}
use sindri.Store.{Error}
use sindri.Keys.{slot_count}
use sindri.Directory.{
  RouteSegment, Route, segment_for, owner_of, epoch_of, check_route_from, follows, complete,
  RoutePayload, decode_route,
}
use sindri.Directory.Coverage.{Contiguous, Contiguous-Found, segment_for-Found, first_ending}
use sindri.Client.{
  invalid_route, CompiledRoute, within, fill, check_segment, compile_from, compile_segments,
  compile_route,
}

check_segment-at :
    (next : ℕ) (s : RouteSegment)
    → check_segment next s ≡ ok tt
    → (s.start_slot ≡ next) × (s.start_slot ≤ s.end_slot) × (s.end_slot < slot_count)
unfolding check_segment
check_segment-at next s h = (ground arith, ground arith, ground arith)

-- The tables have the segment's data at the slot.
Tells : ℕ → RouteSegment → (ℕ → String) × (ℕ → ℕ) → Type 0
Tells slot s tables = (tables.0 slot ≡ s.owner_node_id) × (tables.1 slot ≡ s.epoch)

-- The loop leaves the slots before it as they are, and fills in each of the others from the first
-- segment that reaches it.
record Filled (next : ℕ) (ss : List RouteSegment) (before after : (ℕ → String) × (ℕ → ℕ))
    : Type 0 where
  covered : Contiguous next ss
  earlier :
      (slot : ℕ) → slot < next → (after.0 slot ≡ before.0 slot) × (after.1 slot ≡ before.1 slot)
  filled :
      (slot : ℕ)
      → next ≤ slot
      → slot < slot_count
      → (s : RouteSegment) × (first_ending slot ss ≡ some s) × Tells slot s after

compile_from-Filled :
    (next : ℕ) (ss : List RouteSegment) (before after : (ℕ → String) × (ℕ → ℕ))
    → compile_from next ss before ≡ ok after
    → Filled next ss before after
unfolding compile_from first_ending Tells
compile_from-Filled next [] before after h =
    let (u, whole, done) = >>=-eq-ok (check (next == slot_count) invalid_route) _ h in
    let end : next ≡ slot_count = ground arith in
    record {
      covered = end;
      earlier = λ slot l. (
        ap (λ (t : (ℕ → String) × (ℕ → ℕ)). t.0 slot) (sym (ok_injective done)),
        ap (λ (t : (ℕ → String) × (ℕ → ℕ)). t.1 slot) (sym (ok_injective done)),
      );
      filled = λ slot l m. absurd (omega (arith, l, m, end));
    }
compile_from-Filled next (s ∷ ss) before after h =
    let (u, checked, h1) = >>=-eq-ok (check_segment next s) _ h in
    let (at, order, inside) = check_segment-at next s checked in
    let rest = compile_from-Filled (s.end_slot + 1) ss _ after h1 in
    record {
      covered = (at, order, inside, rest.covered);
      earlier = λ slot l.
          let out : within s.start_slot s.end_slot slot ≡ false = ground arith in
          let e = rest.earlier slot (omega (arith, l, at, order)) in (rw out at e.0, rw out at e.1);
      filled = λ slot l m. elim (Bool-cases (leb slot s.end_slot)) [
        | inl here ↦
            let inn : within s.start_slot s.end_slot slot ≡ true = ground arith in
            let e = rest.earlier slot (ground arith) in
            (s, rw here refl, (rw inn at e.0, rw inn at e.1))
        | inr later ↦
            let (r, first, tells) = rest.filled slot (ground arith) m in (r, rw later first, tells)
      ];
    }

compile_segments-Filled :
    (ss : List RouteSegment) (after : (ℕ → String) × (ℕ → ℕ))
    → compile_segments ss ≡ ok after
    → Filled 0 ss ((λ slot. ""), (λ slot. 0)) after
unfolding compile_segments
compile_segments-Filled ss after h =
    let (u, some_segment, h1) = >>=-eq-ok (check (not (length ss == 0)) invalid_route) _ h in
    compile_from-Filled 0 ss _ after h1

-- The tables that the client compiles a snapshot into agree, slot by slot, with the server's binary
-- search in the same route: for the owner and for the epoch.
pub compile_route-lookup :
    (snapshot : Route) (compiled : CompiledRoute) (slot : ℕ)
    → compile_route (some snapshot) ≡ ok compiled
    → slot < slot_count
    → (compiled.owners slot ≡ owner_of snapshot slot)
      × (epoch_of snapshot slot ≡ some (compiled.epochs slot))
unfolding compile_route owner_of epoch_of Tells
compile_route-lookup snapshot compiled slot h inside =
    let (u, valid, h1) =
      >>=-eq-ok
        (check (not (le64 snapshot.version 0 || le64 snapshot.layout_version 0)) invalid_route) _
        h in
    let (tables, segments, done) = >>=-eq-ok (compile_segments snapshot.segments) _ h1 in
    let filled = compile_segments-Filled snapshot.segments tables segments in
    let f = Contiguous-Found slot 0 snapshot.segments filled.covered (omega arith) inside in
    let (s, first, (owner, epoch)) = filled.filled slot (omega arith) inside in
    let same : f.segment ≡ s = some_injective (sym f.first ∙ first) in
    let found : segment_for (some snapshot) slot ≡ some s =
      segment_for-Found snapshot slot f inside ∙ ap (λ x. some x) same in
    let result = ok_injective done in
    (
      rw (found, owner_of) (ap (λ (c : CompiledRoute). c.owners slot) (sym result) ∙ owner),
      rw (found, epoch_of)
          (sym (
            ap (λ (c : CompiledRoute). some (c.epochs slot)) (sym result)
            ∙ ap (λ x. some x) epoch)),
    )

check_segment-accepts :
    (next : ℕ) (s : RouteSegment)
    → (follows next s.start_slot s.end_slot ≡ true)
    → complete s ≡ true
    → check_segment next s ≡ ok tt
unfolding check_segment
check_segment-accepts next s f c = ground arith

compile_from-accepts :
    (next : ℕ) (ss : List RouteSegment) (before : (ℕ → String) × (ℕ → ℕ))
    → check_route_from next ss ≡ ok tt
    → (after : (ℕ → String) × (ℕ → ℕ)) × (compile_from next ss before ≡ ok after)
unfolding check_route_from compile_from
compile_from-accepts next [] before h = (before, ground arith)
compile_from-accepts next (s ∷ ss) before h =
    let (u, at, h1) = >>=-eq-ok (check (follows next s.start_slot s.end_slot) _) _ h in
    let (v, whole, h2) = >>=-eq-ok (check (complete s) _) _ h1 in
    let (after, done) =
      compile_from-accepts (s.end_slot + 1) ss
        (
          fill s.start_slot s.end_slot s.owner_node_id before.0,
          fill s.start_slot s.end_slot s.epoch before.1,
        )
        h2 in
    (after, rw (check_segment-accepts next s (ground arith) (ground arith)) done)

some_coverage :
    (ss : List RouteSegment) → check_route_from 0 ss ≡ ok tt → not (length ss == 0) ≡ true
unfolding check_route_from
some_coverage [] h = absurd (ground arith)
some_coverage (s ∷ ss) h = ground arith

compile_route-accepts :
    (r : Route)
    → not (le64 r.version 0 || le64 r.layout_version 0) ≡ true
    → check_route_from 0 r.segments ≡ ok tt
    → (compiled : CompiledRoute) × (compile_route (some r) ≡ ok compiled) × (compiled.snapshot ≡ r)
unfolding compile_route compile_segments
compile_route-accepts r versions covered =
    let (after, filled) = compile_from-accepts 0 r.segments ((λ slot. ""), (λ slot. 0)) covered in
    (
      record { snapshot = r; owners = after.0; epochs = after.1 },
      rw (versions, some_coverage r.segments covered, filled) refl,
      refl,
    )

-- The client takes every route that the server's DecodeRoute accepts.
pub decode_route-compile_route :
    {Bytes : Type 0} (unmarshal : Bytes → Result Error RoutePayload) (version : Int64)
    (payload : Bytes) (route : Route)
    → decode_route unmarshal version payload ≡ ok route
    → (compiled : CompiledRoute) × (compile_route (some route) ≡ ok compiled)
      × (compiled.snapshot ≡ route)
unfolding decode_route
decode_route-compile_route unmarshal version payload route h =
    let (stored, read, h1) = >>=-eq-ok (unmarshal payload) _ h in
    let (u, positive, h2) =
      >>=-eq-ok (check (lt64 0 version && lt64 0 stored.layout_version) _) _ h1 in
    let (v, covered, done) = >>=-eq-ok (check_route_from 0 stored.segments) _ h2 in
    let same = ok_injective done in
    subst
      (λ (r : Route).
        (compiled : CompiledRoute) × (compile_route (some r) ≡ ok compiled)
        × (compiled.snapshot ≡ r))
      (ok_injective done)
      (compile_route-accepts
        (record {
          version = version;
          layout_version = stored.layout_version;
          segments = stored.segments;
        })
        (ground arith) covered)
