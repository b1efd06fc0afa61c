-- ===== src/Handoffs/Released.antt =====
-- What `RecoverHandoffs` may do to the authority over a slot.
use mathlib.Core.Option
use sindri.Prelude.{
  ℕ, ◌≤◌, String, true, Option, none, some, List, [], ◌∷◌, Result, ok, >>=-eq-ok, Table, lookup,
  ℕ_discrete, All, ◌==◌, length, ◌≡◌, refl, sym, ◌∙◌, subst, arith, ◌⊎◌, inl, inr, Bool-cases,
  Option-cases,
}
use sindri.Store.{
  SlotState, Kind, Phase, Time, Duration, InstanceRow, OwnershipRow, HandoffRow, Database, Error,
  Commit, transaction, mem_text, mem_nat, lock_instances, bump_revisions,
}
use sindri.Store.Revisions.{Revised, bump_revisions-Revised, lookup-map_values}
use sindri.Store.Slots.{mem_nat-All, All-map}
use sindri.Store.Transactions.{Result-cases, transaction-Settled}
use sindri.Handoffs.{Handoff}
use sindri.Handoffs.Planning.{CoordinatorLease, CoordinatorRow, guard_coordinator, handoffs}
use sindri.Handoffs.Recovery.{
  Recovery, keep, rewrite, release, Recovered, note, recover_draining, recover_one, recover_loop,
  release_slot_row, write_released, write_recovered, candidates, candidate_ids, recover_body,
  recover_handoffs,
}

-- Slot `k` may be given up at `now`: its stored handoff is a release whose boundary has passed, of
-- the instance that drains the slot at its current epoch.
pub record Releasable (now : Time) (db : Database) (revised : List String) (k : ℕ) : Type 0 where
  pub owner : OwnershipRow
  pub handoff : HandoffRow
  pub held : lookup ℕ_discrete k db.slots ≡ some owner
  pub stored : lookup ℕ_discrete k db.handoffs ≡ some handoff
  pub kind : handoff.kind ≡ Kind.release
  pub phase : handoff.phase ≡ Phase.draining
  pub passed : (t : Time) × (handoff.not_before ≡ some t) × (t ≤ now)
  pub state : owner.state ≡ SlotState.draining
  pub source : owner.owner_instance_id ≡ some handoff.source_instance_id
  pub epoch : owner.epoch ≡ handoff.source_epoch
  pub moved : mem_text handoff.source_instance_id revised ≡ true

abbrev pub KeyedHandoffs : Table ℕ HandoffRow → Type 0
KeyedHandoffs t = (k : ℕ) (r : HandoffRow) → lookup ℕ_discrete k t ≡ some r → r.slot_id ≡ k

module _ (nodes : List String) (fresh_id : ℕ → String) (lease : Duration) (now : Time)
    (db : Database) (keyed : KeyedHandoffs db.handoffs) where
  Releasable-grow :
      (ids : List String) (id : String) (slots : List ℕ)
      → All (Releasable now db ids) slots
      → All (Releasable now db (id ∷ ids)) slots
  Releasable-grow ids id slots =
      All-map (Releasable now db ids) (Releasable now db (id ∷ ids)) slots (λ k m. record {
        owner = m.owner;
        handoff = m.handoff;
        held = m.held;
        stored = m.stored;
        kind = m.kind;
        phase = m.phase;
        passed = m.passed;
        state = m.state;
        source = m.source;
        epoch = m.epoch;
        moved = ground (arith, m.moved);
      })

  recover_one-Releasable :
      (leases : String → Option InstanceRow) (h : Handoff) (r : HandoffRow) (o : OwnershipRow)
      {r' : HandoffRow} (revised : List String)
      → lookup ℕ_discrete h.slot_id db.handoffs ≡ some r
      → lookup ℕ_discrete h.slot_id db.slots ≡ some o
      → recover_one leases nodes fresh_id lease now h (some r) (some o) ≡ release r'
      → Releasable now db (r'.source_instance_id ∷ revised) r'.slot_id
  unfolding recover_one recover_draining
  recover_one-Releasable leases h r o {r'} revised e f g =
      let at : r.slot_id ≡ h.slot_id = keyed h.slot_id r e in
      let same : r'.slot_id ≡ h.slot_id = ground arith in
      elim (Option-cases r.not_before) [
        | inl gone ↦ absurd (ground arith)
        | inr (t, bound) ↦ record {
          owner = o;
          handoff = r;
          held = subst (λ (k : ℕ). lookup ℕ_discrete k db.slots ≡ some o) (sym same) f;
          stored = subst (λ (k : ℕ). lookup ℕ_discrete k db.handoffs ≡ some r) (sym same) e;
          kind = ground arith;
          phase = ground arith;
          passed = (t, bound, ground arith);
          state = ground arith;
          source = ground arith;
          epoch = ground arith;
          moved = ground arith;
        }
      ]

  note-Releasable :
      (leases : String → Option InstanceRow) (h : Handoff) (r : Option HandoffRow)
      (o : Option OwnershipRow) (acc : Recovered)
      → lookup ℕ_discrete h.slot_id db.handoffs ≡ r
      → lookup ℕ_discrete h.slot_id db.slots ≡ o
      → (v : Recovery) → recover_one leases nodes fresh_id lease now h r o ≡ v
      → All (Releasable now db acc.revised) acc.released
      → All (Releasable now db (note v acc).revised) (note v acc).released
  unfolding note
  note-Releasable leases h r o acc e f keep g a = a
  note-Releasable leases h r o acc e f (rewrite x) g a = a
  note-Releasable leases h none o acc e f (release x) g a = absurd (unfold recover_one in cc)
  note-Releasable leases h (some r) none acc e f (release x) g a =
      absurd (unfold recover_one recover_draining in ground arith)
  note-Releasable leases h (some r) (some o) acc e f (release x) g a = (
    recover_one-Releasable leases h r o acc.revised e f g,
    Releasable-grow acc.revised x.source_instance_id acc.released a,
  )

  recover_loop-Releasable :
      (leases : String → Option InstanceRow) (hs : List Handoff) (acc : Recovered)
      → All (Releasable now db acc.revised) acc.released
      → let out = recover_loop nodes fresh_id lease now leases db hs acc in
        All (Releasable now db out.revised) out.released
  unfolding recover_loop
  recover_loop-Releasable leases [] acc a = a
  recover_loop-Releasable leases (h ∷ hs) acc a = recover_loop-Releasable leases hs _ (
      note-Releasable leases h (lookup ℕ_discrete h.slot_id db.handoffs)
        (lookup ℕ_discrete h.slot_id db.slots) acc refl refl _ refl a)

-- Slot `k` was given up by a recovery at `now`: its owner is gone, its epoch stays, and the revision
-- of the instance that had it moved.
pub record GivenUp (now : Time) (db db' : Database) (k : ℕ) (o' : OwnershipRow) : Type 0 where
  pub revised : List String
  pub may : Releasable now db revised k
  pub owner : o'.owner_instance_id ≡ none
  pub state : o'.state ≡ SlotState.unowned
  pub epoch : o'.epoch ≡ may.owner.epoch
  pub fenced : Revised may.handoff.source_instance_id db db'

-- A slot row is as it was, or was given up.
abbrev pub OnlyGivenUp : Time → Database → Database → Type 0
OnlyGivenUp now db db' =
    (k : ℕ) (o' : OwnershipRow)
    → lookup ℕ_discrete k db'.slots ≡ some o'
    → (lookup ℕ_discrete k db.slots ≡ some o') ⊎ GivenUp now db db' k o'

released-GivenUp :
    (now : Time) (db : Database) (acc : Recovered) (handoffs : Table ℕ HandoffRow) (k : ℕ)
    (o' : OwnershipRow)
    → Releasable now db acc.revised k
    → mem_nat k acc.released ≡ true
    → some o' ≡ Option.map (release_slot_row now acc.released k) (lookup ℕ_discrete k db.slots)
    → GivenUp now db (record (write_released now acc db) { handoffs = handoffs }) k o'
unfolding write_released bump_revisions release_slot_row
released-GivenUp now db acc handoffs k o' may m e =
    let held = may.held in
    record {
      revised = acc.revised;
      may = may;
      owner = ground arith;
      state = ground arith;
      epoch = ground arith;
      fenced = bump_revisions-Revised acc.revised db may.handoff.source_instance_id may.moved;
    }

write_released-OnlyGivenUp :
    (now : Time) (db : Database) (acc : Recovered) (handoffs : Table ℕ HandoffRow)
    → All (Releasable now db acc.revised) acc.released
    → OnlyGivenUp now db (record (write_released now acc db) { handoffs = handoffs })
unfolding write_released bump_revisions
write_released-OnlyGivenUp now db acc handoffs a k o' h =
    let e = lookup-map_values ℕ_discrete (release_slot_row now acc.released) k db.slots in
    elim (Bool-cases (mem_nat k acc.released)) [
      | inl m ↦ inr (
          released-GivenUp now db acc handoffs k o'
            (mem_nat-All (Releasable now db acc.revised) k acc.released m a) m (sym h ∙ e))
      | inr m ↦ inl (unfold release_slot_row in ground arith)
    ]

write_recovered-OnlyGivenUp :
    (now : Time) (db : Database) (acc : Recovered)
    → All (Releasable now db acc.revised) acc.released
    → OnlyGivenUp now db (write_recovered now acc db)
unfolding write_recovered
write_recovered-OnlyGivenUp now db acc a = elim (Bool-cases (length acc.released == 0)) [
  | inl e ↦ rw (e, write_recovered) (λ k o' h. inl h)
  | inr e ↦ rw (e, write_recovered) (write_released-OnlyGivenUp now db acc _ a)
]

recover_body-OnlyGivenUp :
    (nodes : List String) (fresh_id : ℕ → String) (lease : Duration) (now : Time)
    (guard : Result Error (Unit {0})) (cs : List Handoff) (db db' : Database) {u : Unit {0}}
    → KeyedHandoffs db.handoffs
    → recover_body nodes fresh_id lease now guard cs db ≡ ok (u, db')
    → OnlyGivenUp now db db'
unfolding recover_body
recover_body-OnlyGivenUp nodes fresh_id lease now guard cs db db' keyed h =
    let (g, guarded, rest) = >>=-eq-ok guard _ h in
    let start : Recovered = record { changed = []; released = []; revised = [] } in
    let leases = lock_instances db (candidate_ids cs nodes) in
    let same : write_recovered now (recover_loop nodes fresh_id lease now leases db cs start) db
        ≡ db' =
      ground arith in
    subst (λ (x : Database). OnlyGivenUp now db x) same
      (write_recovered-OnlyGivenUp now db (recover_loop nodes fresh_id lease now leases db cs start)
        (recover_loop-Releasable nodes fresh_id lease now db keyed leases cs start tt))

recover_transaction-OnlyGivenUp :
    (nodes : List String) (fresh_id : ℕ → String) (lease : Duration) (now : Time) (c : Commit)
    (guard : Result Error (Unit {0})) (cs : List Handoff) (db : Database)
    → KeyedHandoffs db.handoffs
    → OnlyGivenUp now db (transaction c (recover_body nodes fresh_id lease now guard cs) db).0
recover_transaction-OnlyGivenUp nodes fresh_id lease now c guard cs db keyed =
    let body = recover_body nodes fresh_id lease now guard cs in
    elim (transaction-Settled c body db) [
      | inl (x, failed, same) ↦ rw same (λ k o' h. inl h)
      | inr (u, over, answer) ↦
          recover_body-OnlyGivenUp nodes fresh_id lease now guard cs db (transaction c body db).0
            keyed over
    ]

-- Whatever the commit does and whatever was read before, a recovery leaves each slot row as it was,
-- or gives the slot up: then the stored handoff is a release by the instance that drains the slot
-- at its current epoch, its boundary has passed, and that instance's revision moves.
pub recover_handoffs-OnlyGivenUp :
    (nodes : List String) (fresh_id : ℕ → String) (lease : Duration) (now : Time) (c : Commit)
    (tenure : CoordinatorLease) (row : CoordinatorRow) (limit : ℕ) (before_tx db : Database)
    → KeyedHandoffs db.handoffs
    → OnlyGivenUp now db
        (recover_handoffs nodes fresh_id lease now c tenure row limit before_tx db).0
unfolding recover_handoffs
recover_handoffs-OnlyGivenUp nodes fresh_id lease now c tenure row limit before_tx db keyed =
    elim (Result-cases (handoffs "" 16384 before_tx)) [
      | inl (e, failed) ↦ rw (failed, recover_handoffs) (λ k o' h. inl h)
      | inr (pending, found) ↦ elim (Bool-cases (length (candidates nodes limit 0 pending) == 0)) [
        | inl none_left ↦ rw (found, none_left, recover_handoffs) (λ k o' h. inl h)
        | inr some_left ↦
            rw (found, some_left, recover_handoffs)
              (recover_transaction-OnlyGivenUp nodes fresh_id lease now c
                (guard_coordinator tenure row now) (candidates nodes limit 0 pending) db keyed)
      ]
    ]
