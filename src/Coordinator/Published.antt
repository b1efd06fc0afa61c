-- ===== src/Coordinator/Published.antt =====
-- `MaterialiseRoute` and `GetNewerRoute`: what a reader gets of a published layout.
use sindri.Prelude.{
  ◌+◌, ◌<◌, Bool, true, false, Option, none, some, List, Result, ok, err, if-either, ok_injective,
  some_injective, ◌≡◌, refl, sym, ◌∙◌, ap, subst, subst₂, ◌⊎◌, inl, inr, arith,
}
use sindri.Prelude.Int64.{Int64, two63, add64, lt64}
use sindri.Store.{Time, Error, Commit, committed, refused, lost}
use sindri.Store.Transactions.{Result-cases}
use sindri.Directory.{
  OwnershipSegment, RoutePayload, Route, encode_ownership_segments, decode_route,
}
use sindri.Directory.Stored.{Faithful, decode_route-encode}
use sindri.Handoffs.Planning.{CoordinatorLease, CoordinatorRow, guard_coordinator}
use sindri.Coordinator.{
  RouteModel, transaction_on, same_route_payload, publish_route, materialise_route, get_newer_route,
}

positive : (k : Int64) → 0 < k → k < two63 → lt64 0 k ≡ true
positive k some_version small = ground arith

module _ {Bytes : Type 0} (unmarshal : Bytes → Result Error RoutePayload)
    (equal : RoutePayload → RoutePayload → Bool) where
  -- A stored version is positive and is not the last.
  abbrev pub Versioned : Option (RouteModel Bytes) → Type 0
  Versioned none = Unit
  Versioned (some row) = (0 < row.version) × (row.version + 1 < two63)

  -- The route row after a publication of `payload`: it tells the same story under a positive version,
  -- which is the revision answered, and which moves exactly when the story does.
  record Published (payload : Bytes) (revision : Int64) (stored stored' : Option (RouteModel Bytes))
      : Type 0 where
    row : RouteModel Bytes
    there : stored' ≡ some row
    version : (row.version ≡ revision) × (0 < revision) × (revision < two63)
    story :
        (row.payload ≡ payload) ⊎ (same_route_payload unmarshal equal row.payload payload ≡ true)
    moves :
        (old : RouteModel Bytes)
        → stored ≡ some old
        → (row ≡ old)
          ⊎ ((same_route_payload unmarshal equal old.payload payload ≡ false)
              × (row.version ≡ old.version + 1))

  publish_route-Published :
      (payload : Bytes) (stored : Option (RouteModel Bytes))
      → Versioned stored
      → let r = publish_route unmarshal equal payload stored in Published payload r.0 stored r.1
  unfolding publish_route
  publish_route-Published payload none v = record {
    row = record { version = 1; payload = payload };
    there = refl;
    version = (refl, omega arith, omega arith);
    story = inl refl;
    moves = λ old e. absurd (cc);
  }
  publish_route-Published payload (some current) v =
      if-either
        (λ (r : Int64 × Option (RouteModel Bytes)). Published payload r.0 (some current) r.1)
        (same_route_payload unmarshal equal current.payload payload)
        (λ same. record {
          row = current;
          there = refl;
          version = (refl, v.0, omega (arith, v.1));
          story = inr same;
          moves = λ old e. inl (some_injective e);
        })
        (λ other. record {
          row = record { version = add64 current.version 1; payload = payload };
          there = refl;
          version = (refl, omega (arith, v.1), omega (arith, v.1));
          story = inl refl;
          moves = λ old e.
              let same_row = some_injective e in
              inr (
                subst
                    (λ (x : RouteModel Bytes).
                      same_route_payload unmarshal equal x.payload payload ≡ false)
                    same_row other,
                omega (arith, v.1, ap (λ (x : RouteModel Bytes). x.version) same_row),
              );
        })

  same_route_payload-decodes :
      (left right : Bytes)
      → ((p q : RoutePayload) → equal p q ≡ true → p ≡ q)
      → same_route_payload unmarshal equal left right ≡ true
      → unmarshal left ≡ unmarshal right
  unfolding same_route_payload
  same_route_payload-decodes left right exact h = elim (Result-cases (unmarshal left)) [
    | inl (e, bad) ↦ absurd (let g : false ≡ true = rw (bad, same_route_payload) at h in cc)
    | inr (p, read) ↦ elim (Result-cases (unmarshal right)) [
      | inl (e, bad) ↦ absurd (let g : false ≡ true = rw (read, bad, same_route_payload) at h in cc)
      | inr (q, read') ↦
          read ∙ ap (λ x. ok x) (exact p q (rw (read, read', same_route_payload) at h)) ∙ sym read'
    ]
  ]

  decode_route-unmarshal :
      (left right : Bytes) (version : Int64)
      → unmarshal left ≡ unmarshal right
      → decode_route unmarshal version left ≡ decode_route unmarshal version right
  unfolding decode_route
  decode_route-unmarshal left right version same = rw same refl

  settled :
      (c : Commit) (stored stored' : Option (RouteModel Bytes))
      (r : Int64 × Option (RouteModel Bytes)) (revision : Int64)
      → transaction_on c (ok r) stored ≡ (stored', ok revision)
      → (r.0 ≡ revision) × (r.1 ≡ stored')
  unfolding transaction_on
  settled committed stored stored' r revision h = (ok_injective (ap (λ x. x.1) h), ap (λ x. x.0) h)
  settled (refused f) stored stored' r revision h = absurd (cc)
  settled (lost f) stored stored' r revision h = absurd (cc)

  materialise_route-Published :
      (marshal : RoutePayload → Bytes) (c : Commit) (now : Time) (lease : CoordinatorLease)
      (row : CoordinatorRow) (segments : List OwnershipSegment) (layout revision : Int64)
      (stored stored' : Option (RouteModel Bytes))
      → Versioned stored
      → materialise_route unmarshal equal marshal c now lease row segments layout stored
        ≡ (stored', ok revision)
      → (guard_coordinator lease row now ≡ ok tt)
        × ((payload : Bytes) × (encode_ownership_segments marshal segments layout ≡ ok payload)
            × Published payload revision stored stored')
  unfolding materialise_route transaction_on
  materialise_route-Published marshal c now lease row segments layout revision stored stored' v h =
      elim (Result-cases (encode_ownership_segments marshal segments layout)) [
        | inl (e, bad) ↦ absurd (
            let g : (stored, err e) ≡ (stored', ok revision) = rw (bad, materialise_route) at h in
            cc)
        | inr (payload, written) ↦ elim (Result-cases (guard_coordinator lease row now)) [
          | inl (e, bad) ↦ absurd (
              let g : (stored, err e) ≡ (stored', ok revision) =
                rw (written, bad, materialise_route) at h in
              cc)
          | inr (u, guarded) ↦
              let done =
                settled c stored stored' (publish_route unmarshal equal payload stored) revision
                  (rw (written, guarded, materialise_route) at h) in
              (
                guarded,
                (
                  payload,
                  written,
                  subst₂ (λ k x. Published payload k stored x) done.0 done.1
                      (publish_route-Published payload stored v),
                ),
              )
        ]
      ]

-- When the publisher's guarded transaction answers a revision, then a reader with an older version
-- gets a route with that revision, in which every slot has the owner and the epoch it had in the
-- layout that was published, if the codec reads back what it wrote and equal payloads are the same.
pub materialise_route-read :
    {Bytes : Type 0} (unmarshal : Bytes → Result Error RoutePayload)
    (equal : RoutePayload → RoutePayload → Bool) (marshal : RoutePayload → Bytes) (c : Commit)
    (now : Time) (lease : CoordinatorLease) (row : CoordinatorRow)
    (segments : List OwnershipSegment) (layout revision known : Int64)
    (stored stored' : Option (RouteModel Bytes))
    → ((p : RoutePayload) → unmarshal (marshal p) ≡ ok p)
    → ((p q : RoutePayload) → equal p q ≡ true → p ≡ q)
    → Versioned unmarshal equal stored
    → materialise_route unmarshal equal marshal c now lease row segments layout stored
      ≡ (stored', ok revision)
    → lt64 known revision ≡ true
    → (guard_coordinator lease row now ≡ ok tt)
      × ((route : Route) × (get_newer_route unmarshal equal known stored' ≡ ok (some route))
          × (route.version ≡ revision)
          × Faithful segments route)
unfolding get_newer_route
materialise_route-read unmarshal equal marshal c now lease row segments layout revision known stored
      stored' reads exact v h newer =
    let (guarded, (payload, written, p)) =
      materialise_route-Published unmarshal equal marshal c now lease row segments layout revision
        stored stored' v h in
    let (route, decoded, version, layout_kept, faithful) =
      decode_route-encode marshal unmarshal segments layout revision payload reads written
        (positive revision p.version.1 p.version.2) in
    let same_bytes : unmarshal p.row.payload ≡ unmarshal payload = elim p.story [
      | inl e ↦ ap unmarshal e
      | inr same ↦ same_route_payload-decodes unmarshal equal p.row.payload payload exact same
    ] in
    let read : decode_route unmarshal p.row.version p.row.payload ≡ ok route =
      ap (λ k. decode_route unmarshal k p.row.payload) p.version.0
      ∙ decode_route-unmarshal unmarshal equal p.row.payload payload revision same_bytes
      ∙ decoded in
    let later : lt64 known p.row.version ≡ true =
      subst (λ k. lt64 known k ≡ true) (sym p.version.0) newer in
    (guarded, (route, rw (p.there, later, read, get_newer_route) refl, version, faithful))
