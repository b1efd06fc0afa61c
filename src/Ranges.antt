-- ===== src/Ranges.antt =====
-- internal/sequence/data/sequence_data.go: `ReserveRanges`, which moves the high watermark of every
-- requested key in one transaction, under the authority that the caller presents.
pub mod Watermarks
pub mod Reserve
pub mod Adjacent
pub mod History
use Prim.Native.Char.{code}
use Prim.Native.String
use Prim.Native.String.{compare as compare_text}
use text.Mathlib.Text.{is_lt}
use sindri.Prelude.{
  ℕ, ◌+◌, ◌-◌, ◌≤◌, String, Bool, true, false, not, ◌&&◌, ◌||◌, Option, none, some, List, [], ◌∷◌,
  ◌++◌, Result, ok, err, ◌>>=◌, ◌>>◌, check, Table, lookup, upsert, ℕ_discrete, String_discrete,
  leb, ltb, ◌==◌, str_eq, if◌then◌else◌, length,
}
use sindri.Prelude.Int64.{Int64, lt64, le64, add64, sub64, max_int64}
use sindri.Store.{
  SlotState, InstanceState, Time, Duration, time_add, before, InstanceRow, OwnershipRow, Database,
  Fault, Error, authority_changed, slot_not_owned, lease_expired, storage, invalid, Commit,
  transaction, classify_reservation_error, mem_text, mem_nat, lock_instances,
}
use sindri.Keys.{slot_for_key, bytes}

-- biz.ReservationRequest, biz.SequenceRange and biz.ReservationAuthority.
pub record ReservationRequest : Type 0 where
  pub key : String
  pub step : Int64

pub record SequenceRange : Type 0 where
  pub start : Int64
  pub last : Int64  -- `End`, inclusive

pub record Authority : Type 0 where
  pub instance_id : String
  pub revision : ℕ
  pub epochs : Table ℕ ℕ
  pub lease : Duration

pub record Target : Type 0 where
  pub key : String
  pub slot_id : ℕ
  pub step : Int64

-- unicode.IsSpace, for strings.TrimSpace(key) == "".
is_space : ℕ → Bool
is_space c =
    leb 9 c && leb c 13
    || c == 32
    || c == 0x85
    || c == 0xa0
    || c == 0x1680
    || leb 0x2000 c && leb c 0x200a
    || c == 0x2028
    || c == 0x2029
    || c == 0x202f
    || c == 0x205f
    || c == 0x3000

is_blank : String → Bool
is_blank String.[] = true
is_blank (String.◌∷◌ c s) = is_space (code c) && is_blank s

validate_from : List String → List ReservationRequest → Result Error (Unit {0})
unfolding is_blank is_space
validate_from seen [] = ok tt
validate_from seen (r ∷ rs) = do
  check (not (is_blank r.key || ltb 256 (length (bytes r.key))))
      (invalid "sequence gorm store: key must contain 1..256 bytes")
  check (lt64 0 r.step) (invalid "sequence gorm store: step must be positive")
  check (not (mem_text r.key seen)) (invalid "sequence gorm store: duplicate key")
  validate_from (r.key ∷ seen) rs

unfoldable pub validate_reservation_requests : List ReservationRequest → Result Error (Unit {0})
unfolding validate_from
validate_reservation_requests [] =
    err (invalid "sequence gorm store: at least one reservation is required")
validate_reservation_requests (r ∷ rs) = validate_from [] (r ∷ rs)

unfoldable pub targets_of : List ReservationRequest → List Target
targets_of [] = []
targets_of (r ∷ rs) =
    record { key = r.key; slot_id = slot_for_key r.key; step = r.step } ∷ targets_of rs

-- The order of the row locks: by slot, then by key.
abbrev pub less : Target → Target → Bool
less a b =
    if a.slot_id == b.slot_id then is_lt (compare_text a.key b.key) else ltb a.slot_id b.slot_id

unfoldable pub insert_target : Target → List Target → List Target
insert_target t [] = t ∷ []
insert_target t (x ∷ xs) = if less x t then x ∷ insert_target t xs else t ∷ x ∷ xs

unfoldable pub sort_targets : List Target → List Target
sort_targets [] = []
sort_targets (t ∷ ts) = insert_target t (sort_targets ts)

-- The slots of the sorted targets, each once.
slots_after : ℕ → List Target → List ℕ
slots_after last [] = []
slots_after last (t ∷ ts) =
    let rest = slots_after t.slot_id ts in if last == t.slot_id then rest else t.slot_id ∷ rest

unfoldable pub slots_of : List Target → List ℕ
unfolding slots_after
slots_of [] = []
slots_of (t ∷ ts) = t.slot_id ∷ slots_after t.slot_id ts

-- The check of one slot: it is held by the caller, at the epoch that the caller presents.
abbrev slot_held : Authority → ℕ → OwnershipRow → Bool
slot_held a slot row =
    elim row.state [ SlotState.owned ↦ true | _ ↦ false ]
    && elim row.owner_instance_id [ none ↦ false | some owner ↦ str_eq owner a.instance_id ]
    && elim (lookup ℕ_discrete slot a.epochs) [ none ↦ false | some e ↦ row.epoch == e ]

check_slot : Authority → ℕ → Option OwnershipRow → Result Error (Unit {0})
check_slot a slot none = err slot_not_owned
check_slot a slot (some row) = check (slot_held a slot row) slot_not_owned

unfoldable pub check_slots :
    Authority → (ℕ → Option OwnershipRow) → List ℕ → Result Error (Unit {0})
unfolding check_slot
check_slots a locked [] = ok tt
check_slots a locked (slot ∷ slots) = do check_slot a slot (locked slot); check_slots a locked slots

abbrev lease_ok : Authority → InstanceRow → Time → Bool
lease_ok a i now = lt64 0 a.lease && before now (time_add i.granted_at a.lease)

check_instance : Authority → Option InstanceRow → Time → Result Error (Unit {0})
check_instance a none now = err authority_changed
check_instance a (some i) now = do
  check
      (elim i.state [ InstanceState.active ↦ true | _ ↦ false ]
        && str_eq i.instance_id a.instance_id
        && i.revision == a.revision)
      authority_changed
  check (lease_ok a i now) lease_expired

-- `checkAuthority`, on the rows that the transaction locked.
unfoldable pub check_authority :
    Authority
    → Option InstanceRow
    → List ℕ
    → (ℕ → Option OwnershipRow)
    → Time
    → Result Error (Unit {0})
unfolding check_instance
check_authority a i slots locked now = do check_instance a i now; check_slots a locked slots
