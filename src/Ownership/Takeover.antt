-- ===== src/Ownership/Takeover.antt =====
-- When `ClaimSlots` takes a slot over, and what it leaves in the tables.
use sindri.Prelude.{
  ℕ, ◌≤◌, String, true, not, Option, none, some, List, [], ◌∷◌, ok, Table, lookup, ℕ_discrete,
  String_discrete, All, ◌≡◌, ◌≢◌, refl, ◌∙◌, subst, arith, ◌⊎◌, inl, inr, >>=-eq-ok, Bool-cases,
  Option-cases,
}
use sindri.Store.{
  SlotState, Kind, Phase, Time, time_add, before, InstanceRow, OwnershipRow, HandoffRow, Database,
  mem_text, mem_nat, lock_instances,
}
use sindri.Store.Slots.{SlotTable, All-map, All-zip}
use sindri.Ownership.Claim.{
  ClaimRequest, Claims, load_slots, claim_row, claim_loop, not_before_of, release_over, eligible,
  is_self, cons_owner, owner_row,
}

-- Why the slot row `o` may be taken at the storage time `now`: nobody has it; its owner's last grant
-- is a quiet window old; or its owner is releasing it and the drain is over.
pub data MayTake (q : ClaimRequest) (now : Time) (db : Database) (o : OwnershipRow) : Type 0 where
  vacant : o.state ≡ SlotState.unowned → MayTake q now db o
  ownerless : o.state ≡ SlotState.owned → o.owner_instance_id ≡ none → MayTake q now db o
  quiet :
      (id : String) (i : InstanceRow)
      → o.state ≡ SlotState.owned
      → o.owner_instance_id ≡ some id
      → lookup String_discrete id db.instances ≡ some i
      → time_add i.granted_at q.quiet_window ≤ now
      → MayTake q now db o
  released :
      (h : HandoffRow)
      → o.state ≡ SlotState.draining
      → lookup ℕ_discrete o.slot_id db.handoffs ≡ some h
      → h.kind ≡ Kind.release
      → h.phase ≡ Phase.draining
      → h.source_epoch ≡ o.epoch
      → o.owner_instance_id ≡ some h.source_instance_id
      → (h.drained ≡ true) ⊎ ((t : Time) × (h.not_before ≡ some t) × (t ≤ now))
      → MayTake q now db o

ruleset reasons = (vacant, ownerless, quiet, released)

pub lock_instances-lookup :
    (db : Database) (ids : List String) (id : String) {i : InstanceRow}
    → lock_instances db ids id ≡ some i
    → lookup String_discrete id db.instances ≡ some i
unfolding lock_instances
lock_instances-lookup db ids id h = ground arith

load_slots-apart :
    (slots : List ℕ) (t : Table ℕ OwnershipRow) (k : ℕ)
    → SlotTable t
    → All (λ e. k ≢ e.0) t
    → All (λ r. k ≢ r.slot_id) (load_slots slots t)
unfolding load_slots
load_slots-apart slots [] k s a = tt
load_slots-apart slots ((j, r) ∷ t) k (at, apart, s) (a, rest) =
    elim (Bool-cases (mem_nat j slots)) [
      | inl e ↦ rw e (λ same. a (same ∙ at), load_slots-apart slots t k s rest)
      | inr e ↦ rw e (load_slots-apart slots t k s rest)
    ]

lookup-skip :
    (k j : ℕ) (r : OwnershipRow) (t : Table ℕ OwnershipRow) {x : OwnershipRow}
    → k ≢ j
    → lookup ℕ_discrete j t ≡ some x
    → lookup ℕ_discrete j ((k, r) ∷ t) ≡ some x
unfolding lookup
lookup-skip k j r t n h = ground arith

lookup-here :
    (k : ℕ) (r : OwnershipRow) (t : Table ℕ OwnershipRow)
    → r.slot_id ≡ k
    → lookup ℕ_discrete r.slot_id ((k, r) ∷ t) ≡ some r
unfolding lookup
lookup-here k r t e = ground arith

-- The rows that are loaded are the table's.
pub load_slots-lookup :
    (slots : List ℕ) (t : Table ℕ OwnershipRow)
    → SlotTable t
    → All (λ r. lookup ℕ_discrete r.slot_id t ≡ some r) (load_slots slots t)
unfolding load_slots
load_slots-lookup slots [] s = tt
load_slots-lookup slots ((k, r) ∷ t) (at, apart, s) =
    let rest =
      All-zip (λ x. k ≢ x.slot_id) (λ x. lookup ℕ_discrete x.slot_id t ≡ some x)
        (λ x. lookup ℕ_discrete x.slot_id ((k, r) ∷ t) ≡ some x) (load_slots slots t)
        (λ x n h. lookup-skip k x.slot_id r t n h) (load_slots-apart slots t k s apart)
        (load_slots-lookup slots t s) in
    elim (Bool-cases (mem_nat k slots)) [
      | inl e ↦ rw e (lookup-here k r t at, rest)
      | inr e ↦ rw e rest
    ]

module _ (q : ClaimRequest) (now : Time) (db : Database) where
  -- A slot that the loop grants: the reason, and the owner whose revision is to move.
  abbrev pub Granted : List String → ℕ → Type 0
  Granted changed slot =
      (o : OwnershipRow) × (lookup ℕ_discrete slot db.slots ≡ some o)
      × MayTake q now db o
      × ((id : String) → o.owner_instance_id ≡ some id → mem_text id changed ≡ true)

  -- The row's owner as the loop knows it is the row of the table, and is there if it is named.
  abbrev Known : OwnershipRow → Option InstanceRow → Type 0
  Known r owner =
      (id : String)
      → r.owner_instance_id ≡ some id
      → (owner ≢ none) × (lookup String_discrete id db.instances ≡ owner)

  owned-MayTake :
      (r : OwnershipRow) (o : Option String) (owner : Option InstanceRow)
      → r.state ≡ SlotState.owned
      → r.owner_instance_id ≡ o
      → Known r owner
      → not (before now (not_before_of q now owner)) ≡ true
      → MayTake q now db r
  owned-MayTake r none owner st e known h = ownerless st e
  owned-MayTake r (some id) none st e known h = absurd ((known id e).0 refl)
  owned-MayTake r (some id) (some i) st e known h = quiet id i st e (known id e).1 (ground arith)

  draining-MayTake :
      (r : OwnershipRow) (intent : Option HandoffRow)
      → r.state ≡ SlotState.draining
      → lookup ℕ_discrete r.slot_id db.handoffs ≡ intent
      → release_over q now r intent ≡ true
      → MayTake q now db r
  draining-MayTake r none st e h = cc
  draining-MayTake r (some x) st e h =
      released x st e (ground arith) (ground arith) (ground arith) (ground arith) (ground arith)

  eligible-MayTake :
      (r : OwnershipRow) (owner : Option InstanceRow) (state : SlotState)
      → r.state ≡ state
      → Known r owner
      → eligible q now r owner (lookup ℕ_discrete r.slot_id db.handoffs) ≡ true
      → MayTake q now db r
  eligible-MayTake r owner SlotState.unowned st known h = vacant st
  eligible-MayTake r owner SlotState.owned st known h =
      owned-MayTake r r.owner_instance_id owner st refl known (ground arith)
  eligible-MayTake r owner SlotState.draining st known h =
      draining-MayTake r _ st refl (ground arith)
  eligible-MayTake r owner SlotState.other st known h = ground arith

  Granted-grow :
      (ids more : List String) (slots : List ℕ)
      → ((id : String) → mem_text id ids ≡ true → mem_text id more ≡ true)
      → All (Granted ids) slots
      → All (Granted more) slots
  Granted-grow ids more slots grows =
      All-map (Granted ids) (Granted more) slots
        (λ slot (o, held, may, moved). (o, held, may, λ id e. grows id (moved id e)))

  claim_row-Granted :
      (leases : String → Option InstanceRow) (r : OwnershipRow) (owner : Option InstanceRow)
      (acc : Claims)
      → lookup ℕ_discrete r.slot_id db.slots ≡ some r
      → Known r owner
      → All (Granted acc.changed) acc.granted
      → let acc' = claim_row q now leases (lookup ℕ_discrete r.slot_id db.handoffs) r owner acc in
        All (Granted acc'.changed) acc'.granted
  unfolding claim_row
  claim_row-Granted leases r owner acc held known a = elim (Bool-cases (is_self q now r)) [
    | inl self ↦ rw (self, claim_row) a
    | inr other ↦
        elim (Bool-cases (eligible q now r owner (lookup ℕ_discrete r.slot_id db.handoffs))) [
          | inl may ↦
              rw (other, may, claim_row)
                (
                  (r, held, eligible-MayTake r owner r.state refl known may, λ id e. ground arith),
                  Granted-grow acc.changed
                      (q.instance_id ∷ cons_owner r.owner_instance_id acc.changed) acc.granted
                      (λ id m. ground arith) a,
                )
          | inr not_yet ↦ rw (other, not_yet, claim_row) a
        ]
  ]

  owner_row-Known :
      (ids : List String) (r : OwnershipRow) (o : Option String) {owner : Option InstanceRow}
      → r.owner_instance_id ≡ o
      → owner_row q now (lock_instances db ids) o ≡ ok owner
      → Known r owner
  unfolding owner_row
  owner_row-Known ids r none e h id n = absurd (ground arith)
  owner_row-Known ids r (some x) {owner} e h id n = elim (Option-cases (lock_instances db ids x)) [
    | inl missing ↦ absurd (ground arith)
    | inr (i, found) ↦
        let same : x ≡ id = ground arith in
        let e' : some i ≡ owner = ground arith in
        (
          λ gone. cc,
          subst (λ (y : String). lookup String_discrete y db.instances ≡ owner) same
              (lock_instances-lookup db ids x found ∙ e'),
        )
  ]

  pub claim_loop-Granted :
      (ids : List String) (acc : Claims) (rows : List OwnershipRow) {out : Claims}
      → All (λ r. lookup ℕ_discrete r.slot_id db.slots ≡ some r) rows
      → All (Granted acc.changed) acc.granted
      → claim_loop q now
          (lock_instances db ids)
          (λ slot. lookup ℕ_discrete slot db.handoffs)
          acc
          rows
        ≡ ok out
      → All (Granted out.changed) out.granted
  unfolding claim_loop
  claim_loop-Granted ids acc [] {out} held a h =
      let e : acc ≡ out = ground arith in
      subst (λ (x : Claims). All (Granted x.changed) x.granted) e a
  claim_loop-Granted ids acc (r ∷ rows) (here, held) a h =
      let (owner, named, rest) =
        >>=-eq-ok (owner_row q now (lock_instances db ids) r.owner_instance_id) _ h in
      claim_loop-Granted ids
        (claim_row q now (lock_instances db ids) (lookup ℕ_discrete r.slot_id db.handoffs) r owner
          acc)
        rows held
        (claim_row-Granted (lock_instances db ids) r owner acc here
          (owner_row-Known ids r r.owner_instance_id refl named) a)
        rest
