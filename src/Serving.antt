-- ===== src/Serving.antt =====
-- What an allocator knows of its authority, biz/authority.go and biz/allocator.go: the slots it
-- serves, the gates it has closed, the revision and the local deadline it works under.
--
-- An operation under the source's mutexes is one step. A pointer to a slot is its number: a slot
-- leaves `slots` and `pending_active` together, and under its number there is one gate in each map.
-- Retry timers, counters and logs are left out.
pub mod Installed
pub mod Operations
pub mod Applied
pub mod Renewal
pub mod Stopped
pub mod Pass
pub mod Leases
pub mod Examples
use sindri.Prelude.{
  ℕ, zero, suc, ◌+◌, String, Bool, true, false, not, ◌&&◌, ◌||◌, Option, none, some, List, [], ◌∷◌,
  ◌++◌, Result, ok, err, ◌>>=◌, ◌>>◌, check, Table, lookup, upsert, ℕ_discrete, ltb, leb, ◌==◌,
  str_eq, if◌then◌else◌,
}
use sindri.Prelude.Int64.{Int64, add64, sub64, lt64, le64}
use sindri.Store.{
  SlotState, InstanceRow, Error, authority_changed, lease_expired, mem_nat, map_values,
}
use sindri.Keys.{slot_count}
use sindri.Config.{HaConfig, lease_deadline}
use sindri.Ownership.{Ownership, AuthoritySnapshot, is_live}

-- allocationSlot as the authority sees it.
pub record LocalSlot : Type 0 where
  pub epoch : ℕ
  pub draining : Bool
  pub inflight : ℕ

pub record Allocator : Type 0 where
  pub instance_id : String
  pub node_id : String
  pub revision : ℕ
  pub local_deadline : Int64
  pub ready : Bool  -- StateReady, against StatePaused
  pub initialized : Bool
  pub route_applied : Bool
  pub stopping : Bool
  pub fenced : Option String
  pub slots : Table ℕ LocalSlot
  pub draining_slots : Table ℕ LocalSlot
  pub pending_active : List ℕ

-- `NewAllocator`, with the identity it draws.
unfoldable pub new_allocator : String → String → Allocator
new_allocator node id = record {
  instance_id = id;
  node_id = node;
  revision = 0;
  local_deadline = 0;
  ready = false;
  initialized = false;
  route_applied = false;
  stopping = false;
  fenced = none;
  slots = [];
  draining_slots = [];
  pending_active = [];
}

abbrev pub is_fenced : Allocator → Bool
is_fenced a = elim a.fenced [ none ↦ false | some _ ↦ true ]

-- a.stopping.Load() || a.fenced.Load() != nil.
abbrev pub halted : Allocator → Bool
halted a = a.stopping || is_fenced a

abbrev pub is_owned : SlotState → Bool
is_owned SlotState.owned = true
is_owned s = false

abbrev pub close : LocalSlot → LocalSlot
close s = record s { draining = true }

-- owned[id], for the map made of the snapshot's slots.
unfoldable pub find_owned : ℕ → List Ownership → Option Ownership
find_owned k [] = none
find_owned k (o ∷ os) = let rest = find_owned k os in if o.slot_id == k then some o else rest

unfoldable pub check_owned : String → List ℕ → List Ownership → Result Error (Unit {0})
check_owned id seen [] = ok tt
check_owned id seen (o ∷ os) = do
  check (not (leb slot_count o.slot_id || not (str_eq o.owner_instance_id id) || o.epoch == 0))
      authority_changed
  check (not (mem_nat o.slot_id seen)) authority_changed
  check_owned id (o.slot_id ∷ seen) os

unfoldable pub keeps : Option Ownership → LocalSlot → Bool
keeps none s = false
keeps (some o) s = is_owned o.state && o.epoch == s.epoch

unfoldable pub retain_slots : List Ownership → Table ℕ LocalSlot → Table ℕ LocalSlot
retain_slots os [] = []
retain_slots os ((k, s) ∷ t) =
    let rest = retain_slots os t in if keeps (find_owned k os) s then (k, s) ∷ rest else rest

unfoldable pub move_withdrawn :
    List Ownership → Table ℕ LocalSlot → Table ℕ LocalSlot → Table ℕ LocalSlot
move_withdrawn os [] moved = moved
move_withdrawn os ((k, s) ∷ t) moved =
    let rest = move_withdrawn os t moved in
    if keeps (find_owned k os) s then rest else upsert ℕ_discrete k (close s) rest

-- A new gate is closed, under the epoch of the snapshot.
abbrev pub new_gate : ℕ → LocalSlot
new_gate epoch = record { epoch = epoch; draining = true; inflight = 0 }

unfoldable pub install_slot :
    Ownership → Option LocalSlot → Table ℕ LocalSlot × List ℕ → Table ℕ LocalSlot × List ℕ
install_slot o none (t, pending) =
    (upsert ℕ_discrete o.slot_id (new_gate o.epoch) t, pending ++ (o.slot_id ∷ []))
install_slot o (some s) (t, pending) =
    (t, if s.draining then pending ++ (o.slot_id ∷ []) else pending)

unfoldable pub install_slots :
    List Ownership → Table ℕ LocalSlot × List ℕ → Table ℕ LocalSlot × List ℕ
unfolding install_slot
install_slots [] acc = acc
install_slots (o ∷ os) acc =
    install_slots os
      (if is_owned o.state then install_slot o (lookup ℕ_discrete o.slot_id acc.0) acc else acc)

unfoldable pub publish : AuthoritySnapshot → Allocator → Allocator
publish s a =
    let (slots, pending) = install_slots s.slots (retain_slots s.slots a.slots, []) in
    record a {
      slots = slots;
      pending_active = pending;
      draining_slots = move_withdrawn s.slots a.slots a.draining_slots;
      revision = s.lease.revision;
    }

-- `applyAuthorityLocked`. The flags are looked at once: the second look, under slotsMu, is the one
-- that counts.
unfoldable pub apply_authority : AuthoritySnapshot → Allocator → Result Error Allocator
unfolding publish
apply_authority s a = do
  check (not (halted a)) authority_changed
  check
      (str_eq s.lease.instance_id a.instance_id
        && str_eq s.lease.node_id a.node_id
        && is_live s.lease
        && leb a.revision s.lease.revision)
      authority_changed
  check_owned a.instance_id [] s.slots
  ok (publish s a)

-- One turn of renewLocked's loop: the monotonic clock before and after the statement, and what the
-- store answers to RenewInstance at a revision and to InstanceAuthority.
pub record Attempt : Type 0 where
  pub anchor : Int64
  pub answered : Int64
  pub lease : ℕ → Result Error InstanceRow
  pub authority : Result Error AuthoritySnapshot

unfoldable pub open_slot : List ℕ → ℕ → LocalSlot → LocalSlot
open_slot pending k s = if mem_nat k pending then record s { draining = false } else s

-- The answer does not renew this lease, or came too late to.
abbrev pub unusable : HaConfig → Attempt → InstanceRow → Allocator → Bool
unusable c x lease a =
    not (str_eq lease.instance_id a.instance_id)
    || not (lease.revision == a.revision)
    || not (is_live lease)
    || le64 (add64 x.anchor (lease_deadline c)) x.answered
    || halted a

unfoldable pub renewed : HaConfig → Attempt → Allocator → Allocator
unfolding open_slot
renewed c x a = record a {
  local_deadline = add64 x.anchor (lease_deadline c);
  slots = map_values (open_slot a.pending_active) a.slots;
  pending_active = [];
  ready = true;
}

unfoldable pub accept_lease :
    HaConfig → Attempt → InstanceRow → Allocator → Allocator × Result Error (Unit {0})
unfolding renewed
accept_lease c x lease a =
    if unusable c x lease a then (a, err lease_expired) else (renewed c x a, ok tt)

abbrev pub is_authority_changed : Error → Bool
is_authority_changed e = elim e [ authority_changed ↦ true | _ ↦ false ]

-- The second turn, and then the third that there is none of.
unfoldable pub renew_again :
    HaConfig → Attempt → Result Error Allocator → Allocator → Allocator × Result Error (Unit {0})
renew_again c second (err e) a = (a, err e)
renew_again c second (ok synced) a = elim (second.lease synced.revision) [
  | ok lease ↦ accept_lease c second lease synced
  | err e ↦ (synced, err e)
]

-- `renewLocked`.
unfoldable pub renew_locked :
    HaConfig → Attempt → Attempt → Allocator → Allocator × Result Error (Unit {0})
unfolding renew_again
renew_locked c first second a = elim (first.lease a.revision) [
  | ok lease ↦ accept_lease c first lease a
  | err e ↦
      if is_authority_changed e
      then renew_again c second (first.authority >>= λ s. apply_authority s a) a
      else (a, err e)
]
