-- ===== src/Ranges/Reserve.antt =====
-- `ReserveRanges`: the upsert of the watermarks, the ranges that are read off it, the transaction.
use sindri.Prelude.{
  ◌+◌, String, Bool, true, false, not, ◌||◌, Option, none, some, List, [], ◌∷◌, Result, ok, err,
  ◌>>=◌, ◌>>◌, check, Table, lookup, upsert, ℕ_discrete, String_discrete, ltb, str_eq,
  if◌then◌else◌,
}
use sindri.Prelude.Int64.{Int64, lt64, le64, add64, sub64, max_int64}
use sindri.Store.{
  Time, Database, Fault, Error, storage, invalid, Commit, transaction, classify_reservation_error,
  lock_instances, mem_text,
}
use sindri.Ranges.{
  ReservationRequest, SequenceRange, Authority, Target, validate_reservation_requests, targets_of,
  sort_targets, slots_of, check_authority,
}

-- INSERT … ON CONFLICT DO UPDATE SET reserved_end = reserved_end + step, row by row. The database
-- refuses a sum beyond its bigint with the error `overflow`.
module _ (overflow : Fault) where
  upsert_sum : String → Int64 → Table String Int64 → Result Error (Table String Int64)
  upsert_sum key total t =
      if ltb max_int64 total
      then err (storage overflow)
      else ok (upsert String_discrete key total t)

  unfoldable pub advance_one :
      String → Int64 → Option Int64 → Table String Int64 → Result Error (Table String Int64)
  unfolding upsert_sum
  advance_one key step none t = upsert_sum key step t
  advance_one key step (some last) t = upsert_sum key (last + step) t

  unfoldable pub advance : List Target → Table String Int64 → Result Error (Table String Int64)
  advance [] t = ok t
  advance (x ∷ xs) t = do
    t' ← advance_one x.key x.step (lookup String_discrete x.key t) t
    advance xs t'

-- The rows that come back: RETURNING gives those of the statement, and the other dialects select
-- the rows of the keys afterwards.
abbrev pub target_keys : List Target → List String
target_keys [] = []
target_keys (x ∷ xs) = x.key ∷ target_keys xs

unfoldable pub select_keys : List String → Table String Int64 → Table String Int64
select_keys keys [] = []
select_keys keys ((k, v) ∷ t) =
    let rest = select_keys keys t in if mem_text k keys then (k, v) ∷ rest else rest

unfoldable pub range_of : Int64 → Option Int64 → Result Error SequenceRange
range_of step none = err (invalid "database did not return a value")
range_of step (some last) = do
  check (not (lt64 last step)) (invalid "invalid maximum")
  let start = add64 (sub64 last step) 1
  check (lt64 0 start) (invalid "maximum overflow")
  ok (record { start = start; last = last })

unfoldable pub build_reserved_ranges :
    List ReservationRequest → Table String Int64 → Result Error (List SequenceRange)
build_reserved_ranges [] rows = ok []
build_reserved_ranges (r ∷ rs) rows = do
  range ← range_of r.step (lookup String_discrete r.key rows)
  ranges ← build_reserved_ranges rs rows
  ok (range ∷ ranges)

abbrev pub classified :
    Database × Result Error (List SequenceRange) → Database × Result Error (List SequenceRange)
classified (db, ok ranges) = (db, ok ranges)
classified (db, err e) = (db, err (classify_reservation_error e))

abbrev pub has_authority : Authority → Bool
has_authority a =
    not (str_eq a.instance_id "" || le64 a.lease 0 || elim a.epochs [ [] ↦ true | _ ∷ _ ↦ false ])

module _ (overflow : Fault) where
  -- The body of both transactions: lock, check, advance, read back.
  unfoldable pub reserve_body :
      Time
      → Authority
      → List ReservationRequest
      → Database
      → Result Error (List SequenceRange × Database)
  reserve_body now a requests db = do
    let targets = sort_targets (targets_of requests)
    check_authority a (lock_instances db (a.instance_id ∷ []) a.instance_id) (slots_of targets)
        (λ slot. lookup ℕ_discrete slot db.slots) now
    watermarks ← advance overflow targets db.ranges
    ranges ← build_reserved_ranges requests (select_keys (target_keys targets) watermarks)
    ok (ranges, record db { ranges = watermarks })

  reserve_valid :
      Result Error (Unit {0})
      → Commit
      → Time
      → Authority
      → List ReservationRequest
      → Database
      → Database × Result Error (List SequenceRange)
  reserve_valid (err e) c now a requests db = (db, err e)
  reserve_valid (ok _) c now a requests db =
      classified (transaction c (reserve_body now a requests) db)

  unfoldable pub reserve_ranges :
      Commit
      → Time
      → Authority
      → List ReservationRequest
      → Database
      → Database × Result Error (List SequenceRange)
  unfolding reserve_valid
  reserve_ranges c now a requests db =
      if has_authority a
      then reserve_valid (validate_reservation_requests requests) c now a requests db
      else (db, err (invalid "sequence gorm store: reservation authority is required"))
