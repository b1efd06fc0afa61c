-- ===== src/Store.antt =====
-- The sequence database as internal/sequence/data reads and writes it: the rows of its tables, the
-- storage clock, and what a transaction leaves behind.
--
-- A text column that the source compares with fixed words is a data type of those words. A time is
-- a number of nanoseconds, with 0 for Go's zero time.
pub mod Revisions
pub mod Slots
pub mod Transactions
use sindri.Prelude.{
  ℕ, ◌+◌, ◌-◌, ◌%◌, String, Bool, true, false, not, ◌&&◌, ◌||◌, Option, none, some, List, [], ◌∷◌,
  Result, ok, err, Table, lookup, String_discrete, ltb, ◌==◌, str_eq, if◌then◌else◌,
}
use sindri.Prelude.Int64.{Int64, two64, lt64}
use text.Mathlib.Text.{find?}

pub data SlotState : Type 0 where
  unowned owned draining other : SlotState

pub data InstanceState : Type 0 where
  active retired : InstanceState

pub data Kind : Type 0 where
  transfer release : Kind

pub data Phase : Type 0 where
  planned ready draining transferred completed cancelled : Phase

abbrev pub Time : Type 0
Time = ℕ

abbrev pub Duration : Type 0
Duration = Int64

-- t.Add(d), for a signed d.
unfoldable pub time_add : Time → Duration → Time
time_add t d = if lt64 d 0 then t - (two64 - d) else t + d

-- t.Before(u).
abbrev pub before : Time → Time → Bool
before t u = ltb t u

-- An unsigned 64-bit counter plus one.
abbrev pub next64 : ℕ → ℕ
next64 n = (n + 1) % two64

pub record InstanceRow : Type 0 where
  pub instance_id : String
  pub node_id : String
  pub revision : ℕ  -- uint64
  pub granted_at : Time
  pub state : InstanceState

pub record OwnershipRow : Type 0 where
  pub slot_id : ℕ  -- uint32
  pub owner_instance_id : Option String
  pub epoch : ℕ  -- uint64
  pub state : SlotState
  pub updated_at : Time

pub record HandoffRow : Type 0 where
  pub slot_id : ℕ  -- uint32
  pub id : String
  pub kind : Kind
  pub source_instance_id : String
  pub source_epoch : ℕ  -- uint64
  pub target_instance_id : Option String
  pub phase : Phase
  pub drained : Bool
  pub target_ready : Bool
  pub not_before : Option Time
  pub created_at : Time
  pub updated_at : Time

pub record Database : Type 0 where
  pub instances : Table String InstanceRow
  pub slots : Table ℕ OwnershipRow
  pub handoffs : Table ℕ HandoffRow
  pub ranges : Table String Int64  -- sequence_ranges: the reserved end of each key

-- What a failed statement reports: which sentinels errors.Is finds in it, and its text.
pub record Fault : Type 0 where
  pub bad_conn : Bool
  pub deadline_exceeded : Bool
  pub canceled : Bool
  pub net_error : Bool
  pub message : String

pub data Error : Type 0 where
  authority_changed slot_not_owned lease_expired : Error
  commit_uncertain : Fault → Error
  storage : Fault → Error
  invalid : String → Error

-- strings.Contains.
contains_text : String → String → Bool
contains_text s word = elim (find? s word) [ none ↦ false | some _ ↦ true ]

unfoldable pub is_uncertain_commit : Fault → Bool
unfolding contains_text
is_uncertain_commit f =
    f.bad_conn
    || f.deadline_exceeded
    || f.canceled
    || f.net_error
    || contains_text f.message "invalid connection"
    || contains_text f.message "server has gone away"
    || contains_text f.message "connection refused"

unfoldable pub classify_reservation_error : Error → Error
classify_reservation_error (storage f) =
    if is_uncertain_commit f then commit_uncertain f else storage f
classify_reservation_error authority_changed = authority_changed
classify_reservation_error slot_not_owned = slot_not_owned
classify_reservation_error lease_expired = lease_expired
classify_reservation_error (commit_uncertain f) = commit_uncertain f
classify_reservation_error (invalid m) = invalid m

-- How the database answers a transaction whose body succeeds: it commits; it fails and nothing is
-- written; or the answer is lost after the commit.
pub data Commit : Type 0 where
  committed : Commit
  refused : Fault → Commit
  lost : Fault → Commit

settle : {A : Type 0} → Commit → Database → A × Database → Database × Result Error A
settle committed db (a, db') = (db', ok a)
settle (refused f) db (a, db') = (db, err (storage f))
settle (lost f) db (a, db') = (db', err (storage f))

-- db.Transaction: an error in the body rolls everything back.
unfoldable pub transaction :
    {A : Type 0}
    → Commit
    → (Database → Result Error (A × Database))
    → Database
    → Database × Result Error A
unfolding settle
transaction c body db = elim (body db) [ ok r ↦ settle c db r | err e ↦ (db, err e) ]

abbrev pub mem_text : String → List String → Bool
mem_text x [] = false
mem_text x (y ∷ ys) = str_eq x y || mem_text x ys

abbrev pub mem_nat : ℕ → List ℕ → Bool
mem_nat x [] = false
mem_nat x (y ∷ ys) = x == y || mem_nat x ys

-- The rows under the listed identities, by identity; an empty one is not looked for.
unfoldable pub lock_instances : Database → List String → String → Option InstanceRow
lock_instances db ids id =
    if mem_text id ids && not (str_eq id "") then lookup String_discrete id db.instances else none

abbrev pub map_values : {K V : Type 0} → (K → V → V) → Table K V → Table K V
map_values f [] = []
map_values f ((k, v) ∷ t) = (k, f k v) ∷ map_values f t

-- UPDATE … SET ownership_revision = ownership_revision + 1 WHERE instance_id IN ids.
unfoldable pub bump_row : List String → String → InstanceRow → InstanceRow
bump_row ids id r = if mem_text id ids then record r { revision = next64 r.revision } else r

unfoldable pub bump_revisions : List String → Database → Database
unfolding bump_row
bump_revisions ids db = record db { instances = map_values (bump_row ids) db.instances }
