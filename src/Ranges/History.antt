-- ===== src/Ranges/History.antt =====
-- Any number of reservations, by any instances, between other work on the database.
use sindri.Prelude.{
  ℕ, ◌≤◌, ◌<◌, String, List, [], ◌∷◌, ◌++◌, Result, ok, err, Table, All, ◌≡◌, subst, arith, ◌≢◌,
  inl, inr,
}
use sindri.Store.{Database, Time, Commit, Fault, Error}
use sindri.Ranges.{ReservationRequest, SequenceRange, Authority}
use sindri.Ranges.Reserve.{reserve_ranges}
use sindri.Ranges.Watermarks.{watermark, Fits}
use sindri.Ranges.Adjacent.{Adjacent, Distinct, Outcome, reserve_ranges-Outcome}

-- What the callers were told: the keys with their ranges, oldest first.
abbrev pub granted :
    List ReservationRequest → Result Error (List SequenceRange) → List (String × SequenceRange)
granted rs (err e) = []
granted [] (ok gs) = []
granted (r ∷ rs) (ok []) = []
granted (r ∷ rs) (ok (g ∷ gs)) = (r.key, g) ∷ granted rs (ok gs)

-- A history of the database from `db` on. Other transactions leave the table of ranges alone.
pub data History (overflow : Fault)
    : Database → List (String × SequenceRange) → Database → Type 0 where
  done : (db : Database) → History overflow db [] db
  reserve :
      (c : Commit) (now : Time) (a : Authority) (rs : List ReservationRequest) (db : Database)
      {log : List (String × SequenceRange)} {last : Database}
      → History overflow (reserve_ranges overflow c now a rs db).0 log last
      → History overflow db (granted rs (reserve_ranges overflow c now a rs db).1 ++ log) last
  elsewhere :
      {db db' last : Database} {log : List (String × SequenceRange)}
      → db'.ranges ≡ db.ranges
      → History overflow db' log last
      → History overflow db log last

-- Above the key's watermark in `t`.
abbrev Above : Table String ℕ → String × SequenceRange → Type 0
Above t (k, g) = (watermark k t < g.start) × (g.start ≤ g.last)

-- `later` lies above `g`, if it is for the same key.
abbrev pub Before : String × SequenceRange → String × SequenceRange → Type 0
Before (k, g) (j, later) = k ≡ j → g.last < later.start

-- In order, every range lies above all earlier ones of its key.
abbrev pub Increasing : List (String × SequenceRange) → Type 0
Increasing [] = Unit
Increasing (e ∷ log) = All (Before e) log × Increasing log

Above-grow :
    (t t' : Table String ℕ) (log : List (String × SequenceRange))
    → ((k : String) → watermark k t ≤ watermark k t')
    → All (Above t') log
    → All (Above t) log
Above-grow t t' [] grows a = tt
Above-grow t t' ((k, g) ∷ log) grows (a, rest) =
    (omega (arith, grows k), Above-grow t t' log grows rest)

-- A range that ends at its key's watermark comes before all that lie above the watermarks.
Above-Before :
    (t : Table String ℕ) (k : String) (g : SequenceRange) (log : List (String × SequenceRange))
    → watermark k t ≡ g.last
    → All (Above t) log
    → All (Before (k, g)) log
Above-Before t k g [] e a = tt
Above-Before t k g ((j, later) ∷ log) e (a, rest) = (
  λ same. ground (arith, subst (λ (x : String). watermark x t ≡ g.last) same e),
  Above-Before t k g log e rest,
)

apart-Before :
    (k : String) (g : SequenceRange) (rs : List ReservationRequest) (gs : List SequenceRange)
    (log : List (String × SequenceRange))
    → All (λ r. k ≢ r.key) rs
    → All (Before (k, g)) log
    → All (Before (k, g)) (granted rs (ok gs) ++ log)
apart-Before k g [] gs log apart a = a
apart-Before k g (r ∷ rs) [] log apart a = a
apart-Before k g (r ∷ rs) (x ∷ gs) log (other, apart) a =
    (λ same. absurd (other same), apart-Before k g rs gs log apart a)

-- The ranges of one call, before a history that starts from the watermarks it left.
granted-Increasing :
    (t t' : Table String ℕ) (rs : List ReservationRequest) (gs : List SequenceRange)
    (log : List (String × SequenceRange))
    → Distinct rs
    → Adjacent t t' rs gs
    → ((k : String) → watermark k t ≤ watermark k t')
    → All (Above t') log
    → Increasing log
    → Increasing (granted rs (ok gs) ++ log) × All (Above t) (granted rs (ok gs) ++ log)
granted-Increasing t t' [] [] log d adj grows a inc = (inc, Above-grow t t' log grows a)
granted-Increasing t t' [] (g ∷ gs) log d adj grows a inc = absurd adj
granted-Increasing t t' (r ∷ rs) [] log d adj grows a inc = absurd adj
granted-Increasing t t' (r ∷ rs) (g ∷ gs) log (apart, d) (start, last, moved, order, adj) grows a
      inc =
    let (inc', a') = granted-Increasing t t' rs gs log d adj grows a inc in
    (
      (apart-Before r.key g rs gs log apart (Above-Before t' r.key g log moved a), inc'),
      ((omega arith, order), a'),
    )

reserve-Increasing :
    (rs : List ReservationRequest) (db : Database)
    (r : Database × Result Error (List SequenceRange)) (log : List (String × SequenceRange))
    → Outcome rs db r
    → (Fits r.0.ranges → Increasing log × All (Above r.0.ranges) log)
    → Fits db.ranges
    → Increasing (granted rs r.1 ++ log) × All (Above db.ranges) (granted rs r.1 ++ log)
reserve-Increasing rs db (db', err e) log (inl (x, failed, same)) ih fits =
    subst (λ (d : Database). Fits d.ranges → Increasing log × All (Above d.ranges) log) same ih fits
reserve-Increasing rs db (db', err e) log (inr (gs, result, did)) ih fits =
    let (inc, a) = ih did.fits in (inc, Above-grow db.ranges db'.ranges log did.grows a)
reserve-Increasing rs db (db', ok g) log (inl (x, failed, same)) ih fits = absurd (ground arith)
reserve-Increasing rs db (db', ok g) log (inr (gs, inl result, did)) ih fits =
    let (inc, a) = ih did.fits in
    let e : gs ≡ g = ground arith in
    granted-Increasing db.ranges db'.ranges rs g log did.distinct
      (subst (Adjacent db.ranges db'.ranges rs) e did.adjacent) did.grows a inc
reserve-Increasing rs db (db', ok g) log (inr (gs, inr failed, did)) ih fits = absurd (ground arith)

History-Above :
    {overflow : Fault} {db last : Database} {log : List (String × SequenceRange)}
    → History overflow db log last
    → Fits db.ranges
    → Increasing log × All (Above db.ranges) log
History-Above (done db) fits = (tt, tt)
History-Above {overflow} (reserve c now a rs db {log} h) fits =
    reserve-Increasing rs db (reserve_ranges overflow c now a rs db) log
      (reserve_ranges-Outcome overflow c now a rs db fits) (History-Above h) fits
History-Above (elsewhere {db} {db'} {last} {log} same h) fits =
    subst (λ (t : Table String ℕ). Fits t → Increasing log × All (Above t) log) same
      (History-Above h) fits

-- In every history of the database, whoever reserves and whether or not the answers arrive, the
-- ranges that callers are told of for one key never overlap and only rise.
pub History-Increasing :
    {overflow : Fault} {db last : Database} {log : List (String × SequenceRange)}
    → Fits db.ranges
    → History overflow db log last
    → Increasing log
History-Increasing fits h = (History-Above h fits).0
