-- ===== src/Fencing.antt =====
-- The stores together: once authority over a slot moves, its old owner's revision is stale, and
-- with a stale revision an instance can neither renew its lease nor reserve another range.
use sindri.Prelude.{
  ℕ, ◌<◌, String, Option, some, List, Result, ok, err, lookup, ℕ_discrete, String_discrete, ◌≡◌,
  ◌≢◌, refl, sym, ◌∙◌, arith, inl, inr, Bool-cases, some_injective, Option-cases, [], ◌∷◌, ap,
  subst₂,
}
use sindri.Prelude.Int64.{two64}
use sindri.Store.{
  Time, next64, InstanceRow, OwnershipRow, Database, Fault, Error, authority_changed, Commit,
  transaction, lock_instances, classify_reservation_error,
}
use sindri.Store.Revisions.{Revised}
use sindri.Store.Slots.{SlotTable}
use sindri.Store.Transactions.{Result-cases}
use sindri.Ownership.{renew_body, renew_instance}
use sindri.Ownership.Claim.{ClaimRequest, claim_slots}
use sindri.Ownership.Takeover.{lock_instances-lookup}
use sindri.Ownership.Effects.{claim_slots-Claimed}
use sindri.Ranges.{
  Authority, ReservationRequest, SequenceRange, check_authority, validate_reservation_requests,
}
use sindri.Ranges.Reserve.{reserve_body, reserve_ranges, has_authority}

-- The instance is registered at another revision than `revision`.
abbrev Stale : String → ℕ → Database → Type 0
Stale id revision db =
    (i : InstanceRow) → lookup String_discrete id db.instances ≡ some i → i.revision ≢ revision

renew_body-Stale :
    (now : Time) (id : String) (revision : ℕ) (db : Database)
    → Stale id revision db
    → renew_body now id revision db ≡ err authority_changed
unfolding renew_body
renew_body-Stale now id revision db stale = elim (Option-cases (lock_instances db (id ∷ []) id)) [
  | inl e ↦ rw (e, renew_body)
  | inr (i, e) ↦
      let moved : i.revision ≢ revision = stale i (lock_instances-lookup db (id ∷ []) id e) in
      ground arith
]

renew_instance-Stale :
    (c : Commit) (now : Time) (id : String) (revision : ℕ) (db : Database)
    → Stale id revision db
    → renew_instance c now id revision db ≡ (db, err authority_changed)
unfolding renew_instance transaction classify_reservation_error
renew_instance-Stale c now id revision db stale =
    rw (renew_body-Stale now id revision db stale, transaction)

check_authority-Stale :
    (a : Authority) (db : Database) (ids : List String) (slots : List ℕ)
    (locked : ℕ → Option OwnershipRow) (now : Time)
    → Stale a.instance_id a.revision db
    → check_authority a (lock_instances db ids a.instance_id) slots locked now
      ≡ err authority_changed
unfolding check_authority
check_authority-Stale a db ids slots locked now stale =
    elim (Option-cases (lock_instances db ids a.instance_id)) [
      | inl e ↦ rw (e, check_authority)
      | inr (i, e) ↦
          let moved : i.revision ≢ a.revision =
            stale i (lock_instances-lookup db ids a.instance_id e) in
          ground arith
    ]

reserve_body-Stale :
    (overflow : Fault) (now : Time) (a : Authority) (rs : List ReservationRequest) (db : Database)
    → Stale a.instance_id a.revision db
    → reserve_body overflow now a rs db ≡ err authority_changed
unfolding reserve_body
reserve_body-Stale overflow now a rs db stale =
    rw (check_authority-Stale a db (a.instance_id ∷ []) _ _ now stale)

-- The reservation changes nothing and fails.
abbrev pub Refused : Database → Database × Result Error (List SequenceRange) → Type 0
Refused db r = (r.0 ≡ db) × ((gs : List SequenceRange) → r.1 ≢ ok gs)

reserve_transaction-Stale :
    (overflow : Fault) (c : Commit) (now : Time) (a : Authority) (rs : List ReservationRequest)
    (db : Database)
    → Stale a.instance_id a.revision db
    → transaction c (reserve_body overflow now a rs) db ≡ (db, err authority_changed)
unfolding transaction
reserve_transaction-Stale overflow c now a rs db stale =
    rw (reserve_body-Stale overflow now a rs db stale, transaction)

reserve_ranges-Stale :
    (overflow : Fault) (c : Commit) (now : Time) (a : Authority) (rs : List ReservationRequest)
    (db : Database)
    → Stale a.instance_id a.revision db
    → Refused db (reserve_ranges overflow c now a rs db)
unfolding reserve_ranges classify_reservation_error
reserve_ranges-Stale overflow c now a rs db stale = elim (Bool-cases (has_authority a)) [
  | inl e ↦ elim (Result-cases (validate_reservation_requests rs)) [
    | inl (x, failed) ↦ rw (e, failed, reserve_ranges) (refl, λ gs h. cc)
    | inr (u, valid) ↦
        rw (e, valid, reserve_transaction-Stale overflow c now a rs db stale, reserve_ranges)
          (refl, λ gs h. cc)
  ]
  | inr e ↦ rw e (refl, λ gs h. cc)
]

-- After a claim that took slot `k` from another instance, that instance can neither renew nor
-- reserve at the revision it had.
abbrev pub Fenced : InstanceRow → Database → Type 0
Fenced i db =
    ((c : Commit) (now : Time)
      → renew_instance c now i.instance_id i.revision db ≡ (db, err authority_changed))
    × ((overflow : Fault) (c : Commit) (now : Time) (a : Authority) (rs : List ReservationRequest)
        → a.instance_id ≡ i.instance_id
        → a.revision ≡ i.revision
        → Refused db (reserve_ranges overflow c now a rs db))

Stale-Fenced : (i : InstanceRow) (db : Database) → Stale i.instance_id i.revision db → Fenced i db
Stale-Fenced i db stale = (
  λ c now. renew_instance-Stale c now i.instance_id i.revision db stale,
  λ overflow c now a rs same_id same_rev.
      reserve_ranges-Stale overflow c now a rs db
        (subst₂ (λ (id : String) (rev : ℕ). Stale id rev db) (sym same_id) (sym same_rev) stale),
)

Revised-Stale :
    (i : InstanceRow) (db db' : Database)
    → i.revision < two64
    → lookup String_discrete i.instance_id db.instances ≡ some i
    → Revised i.instance_id db db'
    → Stale i.instance_id i.revision db'
Revised-Stale i db db' bound registered revised j h =
    let moved : j ≡ record i { revision = next64 i.revision } =
      some_injective (sym h ∙ revised i registered) in
    ground arith

-- A claim that changes the row of slot `k` fences the registered owner it took the slot from: at
-- the revision which that owner had before, it can neither renew its lease nor reserve a range,
-- whatever the commits do.
pub claim_slots-Fenced :
    (c : Commit) (now : Time) (q : ClaimRequest) (before_tx db : Database) (k : ℕ)
    (old new : OwnershipRow) (i : InstanceRow)
    → SlotTable db.slots
    → lookup ℕ_discrete k db.slots ≡ some old
    → lookup ℕ_discrete k (claim_slots c now q before_tx db).0.slots ≡ some new
    → old ≢ new
    → old.owner_instance_id ≡ some i.instance_id
    → lookup String_discrete i.instance_id db.instances ≡ some i
    → i.revision < two64
    → Fenced i (claim_slots c now q before_tx db).0
claim_slots-Fenced c now q before_tx db k old new i table held left moved owner registered bound =
    elim (claim_slots-Claimed c now q before_tx db table k new left) [
      | inl same ↦ absurd (moved (some_injective (sym held ∙ same)))
      | inr (cand, t) ↦
          let same_old : t.old ≡ old = some_injective (sym t.held ∙ held) in
          Stale-Fenced i (claim_slots c now q before_tx db).0 (
            Revised-Stale i db (claim_slots c now q before_tx db).0 bound registered (
              t.fenced i.instance_id
                (ap (λ (o : OwnershipRow). o.owner_instance_id) same_old ∙ owner)))
    ]
