-- ===== src/Ownership/Effects.antt =====
-- What a successful `ClaimSlots` leaves in the tables.
use mathlib.Core.Option
use sindri.Prelude.{
  ℕ, ◌<◌, String, true, ◌||◌, Option, none, some, List, [], ◌∷◌, Result, ok, err, check, lookup,
  ℕ_discrete, String_discrete, ltb, All, ◌==◌, str_eq, length, ◌≡◌, refl, sym, ◌∙◌, subst, arith,
  ◌⊎◌, inl, inr, >>=-eq-ok, Bool-cases,
}
use sindri.Store.{
  SlotState, Time, time_add, next64, InstanceRow, OwnershipRow, Database, Error, Commit,
  slot_not_owned, transaction, mem_nat, lock_instances, bump_revisions,
}
use sindri.Store.Revisions.{Revised, bump_revisions-Revised, lookup-map_values}
use sindri.Store.Slots.{SlotTable, mem_nat-All}
use sindri.Store.Transactions.{transaction-Settled}
use sindri.Prelude.Int64.{le64}
use sindri.Ownership.{is_live, classified_by}
use sindri.Ownership.Claim.{
  ClaimRequest, ClaimOutcome, Claims, load_slots, owner_ids, claim_loop, write_claims, claim_body,
  check_candidate, claim_slot_row, write_granted, claim_slots,
}
use sindri.Ownership.Takeover.{
  MayTake, Granted, load_slots-lookup, claim_loop-Granted, lock_instances-lookup,
}

-- Slot `k` was taken: for one of the reasons, under the next epoch, and its old owner is fenced.
pub record Taken (q : ClaimRequest) (now : Time) (db db' : Database) (k : ℕ) (o' : OwnershipRow)
    : Type 0 where
  pub old : OwnershipRow
  pub held : lookup ℕ_discrete k db.slots ≡ some old
  pub reason : MayTake q now db old
  pub owner : o'.owner_instance_id ≡ some q.instance_id
  pub epoch : o'.epoch ≡ next64 old.epoch
  pub state : o'.state ≡ SlotState.owned
  pub fenced : (id : String) → old.owner_instance_id ≡ some id → Revised id db db'

module _ (q : ClaimRequest) (now : Time) (db : Database) where
  granted-Taken :
      (acc : Claims) (k : ℕ) (o' : OwnershipRow)
      → Granted q now db acc.changed k
      → some o' ≡ Option.map (claim_slot_row q now acc.granted k) (lookup ℕ_discrete k db.slots)
      → mem_nat k acc.granted ≡ true
      → Taken q now db (write_granted q now acc db) k o'
  unfolding claim_slot_row write_granted bump_revisions
  granted-Taken acc k o' (o, held, may, moved) e m = record {
    old = o;
    held = held;
    reason = may;
    owner = ground arith;
    epoch = ground arith;
    state = ground arith;
    fenced = λ id named. bump_revisions-Revised acc.changed db id (moved id named);
  }

  write_granted-Taken :
      (acc : Claims) (k : ℕ) (o' : OwnershipRow)
      → All (Granted q now db acc.changed) acc.granted
      → lookup ℕ_discrete k (write_granted q now acc db).slots ≡ some o'
      → (lookup ℕ_discrete k db.slots ≡ some o') ⊎ Taken q now db (write_granted q now acc db) k o'
  unfolding write_granted bump_revisions
  write_granted-Taken acc k o' a h =
      let e = lookup-map_values ℕ_discrete (claim_slot_row q now acc.granted) k db.slots in
      elim (Bool-cases (mem_nat k acc.granted)) [
        | inl m ↦ inr (
            granted-Taken acc k o' (mem_nat-All (Granted q now db acc.changed) k acc.granted m a)
              (sym h ∙ e) m)
        | inr m ↦ inl (unfold claim_slot_row in ground arith)
      ]

  -- The claimer held a live lease, at the revision it presented.
  pub record Candidate : Type 0 where
    pub row : InstanceRow
    pub registered : lookup String_discrete q.instance_id db.instances ≡ some row
    pub live : is_live row ≡ true
    pub current : row.revision ≡ q.revision
    pub fresh : now < time_add row.granted_at q.lease

  check_candidate-Candidate :
      (o : Option InstanceRow)
      → ((i : InstanceRow)
          → o ≡ some i
          → lookup String_discrete q.instance_id db.instances ≡ some i)
      → check_candidate q now o ≡ ok tt
      → Candidate
  unfolding check_candidate
  check_candidate-Candidate none found h = cc
  check_candidate-Candidate (some i) found h = record {
    row = i;
    registered = found i refl;
    live = ground arith;
    current = ground arith;
    fresh = ground arith;
  }

  -- A slot row after a claim is as it was, or was taken by a live candidate.
  abbrev pub Claimed : Database → Type 0
  Claimed db' =
      (k : ℕ) (o' : OwnershipRow)
      → lookup ℕ_discrete k db'.slots ≡ some o'
      → (lookup ℕ_discrete k db.slots ≡ some o') ⊎ (Candidate × Taken q now db db' k o')

  write_claims-Claimed :
      (acc : Claims)
      → Candidate
      → All (Granted q now db acc.changed) acc.granted
      → Claimed (write_claims q now acc db)
  unfolding write_claims
  write_claims-Claimed acc cand a k o' h = elim (Bool-cases (length acc.granted == 0)) [
    | inl e ↦ inl (rw (e, write_claims) at h)
    | inr e ↦
        rw (e, write_claims)
          (elim (write_granted-Taken acc k o' a (rw (e, write_claims) at h)) [
            | inl same ↦ inl same
            | inr taken ↦ inr (cand, taken)
          ])
  ]

  claim_body-Claimed :
      (discovered : List OwnershipRow) {outcomes : List ClaimOutcome} {db' : Database}
      → SlotTable db.slots
      → claim_body q now discovered db ≡ ok (outcomes, db')
      → Claimed db'
  unfolding claim_body
  claim_body-Claimed discovered {outcomes} {db'} table h =
      let ids = q.instance_id ∷ owner_ids discovered in
      let rows = load_slots q.slots db.slots in
      let (u, counted, h1) = >>=-eq-ok (check (length rows == length q.slots) slot_not_owned) _ h in
      let (v, candidate, h2) =
        >>=-eq-ok (check_candidate q now (lock_instances db ids q.instance_id)) _ h1 in
      let (acc, looped, done) =
        >>=-eq-ok
          (claim_loop q now (lock_instances db ids) (λ slot. lookup ℕ_discrete slot db.handoffs)
            (record { outcomes = []; granted = []; changed = [] }) rows)
          _ h2 in
      let same_db : write_claims q now acc db ≡ db' = ground arith in
      subst (λ (x : Database). Claimed x) same_db
        (write_claims-Claimed acc
          (check_candidate-Candidate (lock_instances db ids q.instance_id)
            (λ i. lock_instances-lookup db ids q.instance_id) candidate)
          (claim_loop-Granted q now db ids (record { outcomes = []; granted = []; changed = [] })
            rows (load_slots-lookup q.slots db.slots table) tt looped))

classified_by-db : {A : Type 0} (r : Database × Result Error A) → (classified_by r).0 ≡ r.0
classified_by-db (db, ok a) = refl
classified_by-db (db, err e) = refl

-- Whatever the commit does, `ClaimSlots` leaves each slot row as it was, or takes it: then the
-- claimer's lease is live at the revision it presented, nobody had the slot, or its owner's last
-- grant is a quiet window old, or its owner's release has drained; the epoch moves by one and the
-- old owner's revision moves.
pub claim_slots-Claimed :
    (c : Commit) (now : Time) (q : ClaimRequest) (before_tx db : Database)
    → SlotTable db.slots
    → Claimed q now db (claim_slots c now q before_tx db).0
unfolding claim_slots
claim_slots-Claimed c now q before_tx db table =
    let body = claim_body q now (load_slots q.slots before_tx.slots) in
    let bad =
      str_eq q.instance_id ""
      || le64 q.lease 0
      || le64 q.quiet_window 0
      || ltb 1000 (length q.slots) in
    elim (Bool-cases bad) [
      | inl e ↦ rw (e, claim_slots) (λ k o' h. inl h)
      | inr e ↦ elim (Bool-cases (length q.slots == 0)) [
        | inl z ↦ rw (e, z, claim_slots) (λ k o' h. inl h)
        | inr z ↦
            rw (e, z, claim_slots, classified_by-db (transaction c body db))
              (elim (transaction-Settled c body db) [
                | inl (x, failed, same) ↦ rw same (λ k o' h. inl h)
                | inr (outcomes, done, result) ↦
                    claim_body-Claimed q now db (load_slots q.slots before_tx.slots) table done
              ])
      ]
    ]
