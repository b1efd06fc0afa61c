-- ===== src/Ranges/Adjacent.antt =====
-- What `ReserveRanges` hands out: for each request, the numbers right after the key's watermark.
use sindri.Prelude.{
  ℕ, ◌+◌, ◌≤◌, String, true, false, Option, none, some, List, [], ◌∷◌, Result, ok, err, Table,
  lookup, String_discrete, ◌≢◌, All, ◌≡◌, refl, sym, ◌∙◌, subst, subst₂, >>=-eq-ok, arith,
  Bool-cases, ◌⊎◌, inl, inr,
}
use sindri.Prelude.Int64.{Int64, max_int64, lt64}
use sindri.Store.{
  Database, Time, Commit, Fault, Error, mem_text, transaction, classify_reservation_error,
}
use sindri.Store.Transactions.{Result-cases, transaction-Settled}
use sindri.Ranges.{
  ReservationRequest, SequenceRange, Authority, targets_of, sort_targets, validate_from,
  validate_reservation_requests, check_authority,
}
use sindri.Ranges.Reserve.{
  advance, select_keys, target_keys, range_of, build_reserved_ranges, reserve_body, classified,
  has_authority, reserve_ranges,
}
use sindri.Ranges.Watermarks.{
  watermark, Fits, total, total-sort_targets, advance-watermark, advance-Fits, lookup-select_keys,
}

-- A request whose key occurs once among `whole`, with a positive step.
abbrev Single : List ReservationRequest → ReservationRequest → Type 0
Single whole r = (total r.key (targets_of whole) ≡ r.step) × (lt64 0 r.step ≡ true)

validate_from-cons :
    (seen : List String) (r : ReservationRequest) (rs : List ReservationRequest)
    → validate_from seen (r ∷ rs) ≡ ok tt
    → (mem_text r.key seen ≡ false)
      × (lt64 0 r.step ≡ true)
      × (validate_from (r.key ∷ seen) rs ≡ ok tt)
unfolding validate_from
validate_from-cons seen r rs h = ground arith

validate_from-unseen :
    (seen : List String) (rs : List ReservationRequest) (k : String)
    → validate_from seen rs ≡ ok tt
    → mem_text k seen ≡ true
    → total k (targets_of rs) ≡ 0
unfolding total targets_of
validate_from-unseen seen [] k h m = refl
validate_from-unseen seen (r ∷ rs) k h m =
    let (fresh, pos, rest) = validate_from-cons seen r rs h in
    let other : r.key ≢ k = λ e. cc (subst (λ (x : String). mem_text x seen ≡ false) e fresh) in
    ground (arith, validate_from-unseen (r.key ∷ seen) rs k rest)

-- Validation leaves every key once.
validate_from-Single :
    (seen : List String) (rs whole : List ReservationRequest)
    → validate_from seen rs ≡ ok tt
    → ((k : String)
        → mem_text k seen ≡ false
        → total k (targets_of whole) ≡ total k (targets_of rs))
    → All (Single whole) rs
unfolding total targets_of
validate_from-Single seen [] whole h same = tt
validate_from-Single seen (r ∷ rs) whole h same =
    let (fresh, pos, rest) = validate_from-cons seen r rs h in
    (
      (
        ground
            (arith, same r.key, validate_from-unseen (r.key ∷ seen) rs r.key rest (ground arith)),
        pos,
      ),
      validate_from-Single (r.key ∷ seen) rs whole rest (λ k m. ground (arith, same k)),
    )

validate_from-apart :
    (seen : List String) (rs : List ReservationRequest) (k : String)
    → validate_from seen rs ≡ ok tt
    → mem_text k seen ≡ true
    → All (λ r. k ≢ r.key) rs
validate_from-apart seen [] k h m = tt
validate_from-apart seen (r ∷ rs) k h m =
    let (fresh, pos, rest) = validate_from-cons seen r rs h in
    (
      λ e. cc (subst (λ (x : String). mem_text x seen ≡ true) e m),
      validate_from-apart (r.key ∷ seen) rs k rest (ground arith),
    )

abbrev pub Distinct : List ReservationRequest → Type 0
Distinct [] = Unit
Distinct (r ∷ rs) = All (λ x. r.key ≢ x.key) rs × Distinct rs

validate_from-Distinct :
    (seen : List String) (rs : List ReservationRequest)
    → validate_from seen rs ≡ ok tt
    → Distinct rs
validate_from-Distinct seen [] h = tt
validate_from-Distinct seen (r ∷ rs) h =
    let (fresh, pos, rest) = validate_from-cons seen r rs h in
    (
      validate_from-apart (r.key ∷ seen) rs r.key rest (ground arith),
      validate_from-Distinct (r.key ∷ seen) rs rest,
    )

-- One range for each request, right after the watermark that `t` has and up to that of `t'`.
abbrev pub Adjacent :
    Table String Int64 → Table String Int64 → List ReservationRequest → List SequenceRange → Type 0
Adjacent t t' [] [] = Unit
Adjacent t t' (r ∷ rs) (g ∷ gs) =
    (g.start ≡ watermark r.key t + 1)
    × (g.last ≡ watermark r.key t + r.step)
    × (watermark r.key t' ≡ g.last)
    × (g.start ≤ g.last)
    × Adjacent t t' rs gs
Adjacent t t' _ _ = ⊥

range_of_lem :
    (step : Int64) (o : Option Int64) (old : ℕ) {g : SequenceRange}
    → lt64 0 step ≡ true
    → ((v : Int64) → o ≡ some v → (v ≡ old + step) × (v ≤ max_int64))
    → range_of step o ≡ ok g
    → (g.start ≡ old + 1) × (g.last ≡ old + step) × (g.start ≤ g.last)
unfolding range_of
range_of_lem step none old pos row h = ground arith
range_of_lem step (some v) old pos row h = ground (arith, row v refl)

build-Adjacent :
    (rs : List ReservationRequest) (rows t t' : Table String Int64) {gs : List SequenceRange}
    → All (λ r. (lt64 0 r.step ≡ true) × (watermark r.key t' ≡ watermark r.key t + r.step)) rs
    → ((k : String) (v : Int64)
        → lookup String_discrete k rows ≡ some v
        → (v ≡ watermark k t') × (v ≤ max_int64))
    → build_reserved_ranges rs rows ≡ ok gs
    → Adjacent t t' rs gs
unfolding build_reserved_ranges
build-Adjacent [] rows t t' {gs} each row h =
    let e : [] ≡ gs = ground arith in subst (Adjacent t t' []) e tt
build-Adjacent (r ∷ rs) rows t t' {gs} ((pos, moved), each) row h =
    let (g, one, more) = >>=-eq-ok (range_of r.step (lookup String_discrete r.key rows)) _ h in
    let (gs', rest, done) =
      >>=-eq-ok (build_reserved_ranges rs rows) (λ ranges. ok (g ∷ ranges)) more in
    let e : (g ∷ gs') ≡ gs = ground arith in
    let lem =
      range_of_lem r.step (lookup String_discrete r.key rows) (watermark r.key t) pos
        (λ v found. let (same, fits) = row r.key v found in (same ∙ moved, fits)) one in
    subst (Adjacent t t' (r ∷ rs)) e
      (lem.0, lem.1, moved ∙ sym lem.1, lem.2, build-Adjacent rs rows t t' each row rest)

selected_row :
    (keys : List String) (t : Table String Int64)
    → Fits t
    → (k : String) (v : Int64) → lookup String_discrete k (select_keys keys t) ≡ some v
    → (v ≡ watermark k t) × (v ≤ max_int64)
selected_row keys t fits k v h = ground (arith, lookup-select_keys keys t k, fits k)

All-Single-moved :
    (rs whole : List ReservationRequest) (t t' : Table String Int64)
    → ((k : String) → watermark k t' ≡ watermark k t + total k (targets_of whole))
    → All (Single whole) rs
    → All (λ r. (lt64 0 r.step ≡ true) × (watermark r.key t' ≡ watermark r.key t + r.step)) rs
All-Single-moved [] whole t t' moved singles = tt
All-Single-moved (r ∷ rs) whole t t' moved ((once, pos), singles) =
    ((pos, omega (arith, moved r.key)), All-Single-moved rs whole t t' moved singles)

-- What a committed reservation did to the database.
pub record Reserved (rs : List ReservationRequest) (gs : List SequenceRange) (db db' : Database)
    : Type 0 where
  pub distinct : Distinct rs
  pub adjacent : Adjacent db.ranges db'.ranges rs gs
  pub grows : (k : String) → watermark k db.ranges ≤ watermark k db'.ranges
  pub fits : Fits db'.ranges
  pub only_ranges : db' ≡ record db { ranges = db'.ranges }

validated-Single :
    (rs : List ReservationRequest) → validate_reservation_requests rs ≡ ok tt → All (Single rs) rs
unfolding validate_reservation_requests
validated-Single [] h = tt
validated-Single (r ∷ rs) h = validate_from-Single [] (r ∷ rs) (r ∷ rs) h (λ k m. refl)

validated-Distinct :
    (rs : List ReservationRequest) → validate_reservation_requests rs ≡ ok tt → Distinct rs
unfolding validate_reservation_requests
validated-Distinct [] h = tt
validated-Distinct (r ∷ rs) h = validate_from-Distinct [] (r ∷ rs) h

advanced-Reserved :
    (overflow : Fault) (rs : List ReservationRequest) (db : Database) {gs : List SequenceRange}
    {t' : Table String Int64}
    → Fits db.ranges
    → validate_reservation_requests rs ≡ ok tt
    → advance overflow (sort_targets (targets_of rs)) db.ranges ≡ ok t'
    → build_reserved_ranges rs (select_keys (target_keys (sort_targets (targets_of rs))) t') ≡ ok gs
    → Reserved rs gs db (record db { ranges = t' })
advanced-Reserved overflow rs db {gs} {t'} fits valid advanced built =
    let fits' : Fits t' =
      advance-Fits overflow (sort_targets (targets_of rs)) db.ranges advanced fits in
    let moved : (k : String) → watermark k t' ≡ watermark k db.ranges + total k (targets_of rs) =
      λ k. omega (
        arith,
        advance-watermark overflow (sort_targets (targets_of rs)) db.ranges k advanced,
        total-sort_targets k (targets_of rs),
      ) in
    record {
      distinct = validated-Distinct rs valid;
      adjacent =
          build-Adjacent rs (select_keys (target_keys (sort_targets (targets_of rs))) t') db.ranges
            t' (All-Single-moved rs rs db.ranges t' moved (validated-Single rs valid))
            (selected_row (target_keys (sort_targets (targets_of rs))) t' fits') built;
      grows = λ k. omega (arith, moved k);
      fits = fits';
      only_ranges = refl;
    }

reserve_body-Reserved :
    (overflow : Fault) (now : Time) (a : Authority) (rs : List ReservationRequest) (db : Database)
    {gs : List SequenceRange} {db' : Database}
    → Fits db.ranges
    → validate_reservation_requests rs ≡ ok tt
    → reserve_body overflow now a rs db ≡ ok (gs, db')
    → Reserved rs gs db db'
unfolding reserve_body
reserve_body-Reserved overflow now a rs db {gs} {db'} fits valid h =
    let targets = sort_targets (targets_of rs) in
    let (u, authorised, h1) = >>=-eq-ok (check_authority a _ _ _ now) _ h in
    let (t', advanced, h2) = >>=-eq-ok (advance overflow targets db.ranges) _ h1 in
    let (gs', built, done) =
      >>=-eq-ok (build_reserved_ranges rs (select_keys (target_keys targets) t')) _ h2 in
    let same_gs : gs' ≡ gs = ground arith in
    let same_db : record db { ranges = t' } ≡ db' = ground arith in
    subst₂ (λ (x : List SequenceRange) (y : Database). Reserved rs x db y) same_gs same_db
      (advanced-Reserved overflow rs db {gs = gs'} {t' = t'} fits valid advanced built)

-- What `ReserveRanges` did: nothing, with an error; or it reserved ranges, and the caller has them
-- or an error.
abbrev pub Outcome :
    List ReservationRequest → Database → Database × Result Error (List SequenceRange) → Type 0
Outcome rs db r =
    ((e : Error) × (r.1 ≡ err e) × (r.0 ≡ db))
    ⊎ ((gs : List SequenceRange) × ((r.1 ≡ ok gs) ⊎ ((e : Error) × (r.1 ≡ err e)))
        × Reserved rs gs db r.0)

classified-Outcome :
    (rs : List ReservationRequest) (db : Database)
    (r : Database × Result Error (List SequenceRange))
    → Outcome rs db r
    → Outcome rs db (classified r)
classified-Outcome rs db (db', ok gs) o = o
classified-Outcome rs db (db', err e) (inl (x, failed, same)) =
    inl (classify_reservation_error e, refl, same)
classified-Outcome rs db (db', err e) (inr (gs, result, did)) =
    inr (gs, inr (classify_reservation_error e, refl), did)

module _ (overflow : Fault) (c : Commit) (now : Time) (a : Authority) (rs : List ReservationRequest)
    (db : Database) (fits : Fits db.ranges) where
  transaction-Outcome :
      validate_reservation_requests rs ≡ ok tt
      → Outcome rs db (transaction c (reserve_body overflow now a rs) db)
  transaction-Outcome valid = elim (transaction-Settled c (reserve_body overflow now a rs) db) [
    | inl failed ↦ inl failed
    | inr (gs, done, result) ↦
        inr (gs, result, reserve_body-Reserved overflow now a rs db fits valid done)
  ]

  -- Whatever the commit does, a reservation leaves the database as it was and fails, or reserves
  -- for each request the numbers right after its key's watermark and moves the watermark past them.
  pub reserve_ranges-Outcome : Outcome rs db (reserve_ranges overflow c now a rs db)
  unfolding reserve_ranges
  reserve_ranges-Outcome = elim (Bool-cases (has_authority a)) [
    | inl e ↦ elim (Result-cases (validate_reservation_requests rs)) [
      | inl (x, failed) ↦ rw (e, failed, reserve_ranges) (inl (x, refl, refl))
      | inr (u, valid) ↦
          rw (e, valid, reserve_ranges) (classified-Outcome rs db _ (transaction-Outcome valid))
    ]
    | inr e ↦ rw e (inl (_, refl, refl))
  ]
