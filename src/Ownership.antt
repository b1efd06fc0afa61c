-- ===== src/Ownership.antt =====
-- internal/sequence/data/ownership_data.go: the leases of the instances and the authority over slots.
pub mod Claim
pub mod Takeover
pub mod Effects
use sindri.Prelude.{
  ℕ, ◌+◌, ◌≤◌, String, Bool, true, false, not, ◌&&◌, ◌||◌, Option, none, some, List, [], ◌∷◌, ◌++◌,
  Result, ok, err, ◌>>=◌, ◌>>◌, check, Table, lookup, upsert, ℕ_discrete, String_discrete, leb, ltb,
  ◌==◌, str_eq, if◌then◌else◌, length,
}
use sindri.Store.{
  SlotState, InstanceState, Time, Duration, time_add, before, next64, InstanceRow, OwnershipRow,
  Database, Fault, Error, authority_changed, slot_not_owned, lease_expired, invalid, Commit,
  transaction, classify_reservation_error, mem_text, mem_nat, lock_instances, map_values,
}

abbrev pub is_live : InstanceRow → Bool
is_live i = elim i.state [ InstanceState.active ↦ true | InstanceState.retired ↦ false ]

-- INSERT … ON CONFLICT DO NOTHING.
insert_instance : InstanceRow → Option InstanceRow → Database → Database
insert_instance row (some _) db = db
insert_instance row none db = record db {
  instances = upsert String_discrete row.instance_id row db.instances;
}

check_registered : String → Option InstanceRow → Result Error (Unit {0})
check_registered node none = err (invalid "record not found")
check_registered node (some i) = check (str_eq i.node_id node && is_live i) authority_changed

-- `RegisterInstance`: a new instance starts at revision 0; one that is there must be the same.
unfoldable pub register_instance :
    Time → String → String → Database → Database × Result Error (Unit {0})
unfolding insert_instance check_registered
register_instance now node id db =
    if str_eq node "" || str_eq id ""
    then (db, err (invalid "sequence: instance identity is required"))
    else (let row : InstanceRow = record {
      instance_id = id;
      node_id = node;
      revision = 0;
      granted_at = now;
      state = InstanceState.active;
    } in
        let db' = insert_instance row (lookup String_discrete id db.instances) db in
        (db', check_registered node (lookup String_discrete id db'.instances)))

renew_row :
    Time → String → ℕ → Option InstanceRow → Database → Result Error (InstanceRow × Database)
renew_row now id revision none db = err authority_changed
renew_row now id revision (some i) db = do
  check (is_live i && i.revision == revision) authority_changed
  let renewed = record i { granted_at = now }
  ok (renewed, record db { instances = upsert String_discrete id renewed db.instances })

unfoldable pub renew_body : Time → String → ℕ → Database → Result Error (InstanceRow × Database)
unfolding renew_row
renew_body now id revision db = renew_row now id revision (lock_instances db (id ∷ []) id) db

abbrev pub classified_by : {A : Type 0} → Database × Result Error A → Database × Result Error A
classified_by (db, ok a) = (db, ok a)
classified_by (db, err e) = (db, err (classify_reservation_error e))

-- `RenewInstance`: the lease is granted anew at the storage time, to the current revision only.
unfoldable pub renew_instance :
    Commit → Time → String → ℕ → Database → Database × Result Error InstanceRow
renew_instance c now id revision db = classified_by (transaction c (renew_body now id revision) db)

-- biz.Ownership and biz.AuthoritySnapshot.
pub record Ownership : Type 0 where
  pub slot_id : ℕ
  pub owner_node_id : String
  pub owner_instance_id : String
  pub epoch : ℕ
  pub state : SlotState

pub record AuthoritySnapshot : Type 0 where
  pub lease : InstanceRow
  pub slots : List Ownership

abbrev node_of : Option InstanceRow → String
node_of none = ""
node_of (some i) = i.node_id

-- `ownershipRow.ownership`.
unfoldable pub ownership_of : OwnershipRow → (String → Option InstanceRow) → Ownership
ownership_of r leases = record {
  slot_id = r.slot_id;
  owner_node_id = elim r.owner_instance_id [ none ↦ "" | some id ↦ node_of (leases id) ];
  owner_instance_id = elim r.owner_instance_id [ none ↦ "" | some id ↦ id ];
  epoch = r.epoch;
  state = r.state;
}

abbrev pub owned_by : String → OwnershipRow → Bool
owned_by id r = elim r.owner_instance_id [ none ↦ false | some owner ↦ str_eq owner id ]

-- WHERE owner_instance_id = id; the table holds its rows in slot order.
unfoldable pub slots_owned_by :
    String → (String → Option InstanceRow) → Table ℕ OwnershipRow → List Ownership
slots_owned_by id leases [] = []
slots_owned_by id leases ((k, r) ∷ t) =
    let rest = slots_owned_by id leases t in
    if owned_by id r then ownership_of r leases ∷ rest else rest

authority_row :
    String
    → (String → Option InstanceRow)
    → Option InstanceRow
    → Database
    → Result Error AuthoritySnapshot
authority_row id leases none db = err authority_changed
authority_row id leases (some i) db = do
  check (is_live i) authority_changed
  ok (record { lease = i; slots = slots_owned_by id leases db.slots })

-- `InstanceAuthority`, a read under the instance's lock.
unfoldable pub instance_authority : String → Database → Result Error AuthoritySnapshot
unfolding authority_row
instance_authority id db =
    let leases = lock_instances db (id ∷ []) in authority_row id leases (leases id) db

retire_row : String → String → InstanceRow → InstanceRow
retire_row id k i =
    if str_eq k id && is_live i
    then record i { state = InstanceState.retired; revision = next64 i.revision }
    else i

-- `RetireInstance`.
unfoldable pub retire_instance : String → Database → Database
unfolding retire_row
retire_instance id db = record db { instances = map_values (retire_row id) db.instances }
