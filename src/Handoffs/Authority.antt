-- ===== src/Handoffs/Authority.antt =====
-- What a whole `ApplyHandoffs` transaction leaves in the ownership table.
use sindri.Prelude.{
  ℕ, String, String_discrete, not, ◌&&◌, ◌||◌, some, List, [], ◌∷◌, ◌≡◌, subst, ◌⊎◌, inl, inr,
  arith, Bool-cases, ok, Table, lookup, lookup-upsert, ℕ_discrete, All, >>=-eq-ok, length, ltb,
  ◌==◌, str_eq,
}
use sindri.Store.Revisions.{Revised, bump_revisions-Revised}
use sindri.Store.{
  Time, InstanceRow, lock_instances, mem_text, OwnershipRow, HandoffRow, Database, Commit,
  transaction, bump_revisions,
}
use sindri.Handoffs.{Request, budget_of}
use sindri.Store.Transactions.{Settled, transaction-Settled}
use sindri.Handoffs.Protocol.{Moves, Moves-lookup}
use sindri.Handoffs.Transaction.{Origin, Accepted, Keyed, apply_loop-Accepted}
use sindri.Handoffs.Batch.{
  Changes, no_changes, apply_loop, write_slots, snapshot_of, command_ids, write_changes, apply_body,
  apply_handoffs,
}

-- A row after the writes is one of those written, or was there before.
write_slots-origin :
    (P : OwnershipRow → Type 0) (os : List OwnershipRow) (t : Table ℕ OwnershipRow) (k : ℕ)
    {o' : OwnershipRow}
    → All P os
    → lookup ℕ_discrete k (write_slots os t) ≡ some o'
    → (lookup ℕ_discrete k t ≡ some o') ⊎ (P o' × (o'.slot_id ≡ k))
unfolding write_slots
write_slots-origin P [] t k a h = inl h
write_slots-origin P (o ∷ os) t k {o'} a h = elim (ℕ_discrete o.slot_id k) [
  | yes e ↦
      let same : o ≡ o' =
        ground (arith, lookup-upsert ℕ_discrete o.slot_id k o (write_slots os t)) in
      inr (subst P same a.0, subst (λ (x : OwnershipRow). x.slot_id ≡ k) same e)
  | no n ↦
      write_slots-origin P os t k a.1
        (ground (arith, lookup-upsert ℕ_discrete o.slot_id k o (write_slots os t)))
]

abbrev pub KeyedSlots : Table ℕ OwnershipRow → Type 0
KeyedSlots t = (k : ℕ) (o : OwnershipRow) → lookup ℕ_discrete k t ≡ some o → o.slot_id ≡ k

lock_instances-lookup :
    (db : Database) (ids : List String) (id : String) (i : InstanceRow)
    → lock_instances db ids id ≡ some i
    → lookup String_discrete id db.instances ≡ some i
unfolding lock_instances
lock_instances-lookup db ids id i h = elim (Bool-cases (mem_text id ids && not (str_eq id ""))) [
  | inl e ↦ rw e at h
  | inr e ↦ absurd (let none_held = rw e at h in cc)
]

-- A change of authority over slot `k` by a batch at the storage time `now`.
pub record AuthorityChange (q : Request) (now : Time) (db db' : Database) (k : ℕ)
    (o' : OwnershipRow) : Type 0 where
  pub old : OwnershipRow
  pub handoff : HandoffRow
  pub held : lookup ℕ_discrete k db.slots ≡ some old
  pub moves : Moves q (λ id. lookup String_discrete id db.instances) now handoff old o'
  pub origin : Origin q k (lookup ℕ_discrete k db.handoffs) old handoff
  pub source :
      (old.owner_instance_id ≡ some handoff.source_instance_id) × (old.epoch ≡ handoff.source_epoch)
  pub fenced : Revised handoff.source_instance_id db db'

write_changes-AuthorityChange :
    (q : Request) (now : Time) (db : Database) (acc : Changes) (k : ℕ) (o' : OwnershipRow)
    → All (Accepted q (snapshot_of q now db) acc.instances) acc.slots
    → lookup ℕ_discrete k (write_changes acc db).slots ≡ some o'
    → (lookup ℕ_discrete k db.slots ≡ some o')
      ⊎ AuthorityChange q now db (write_changes acc db) k o'
unfolding write_changes bump_revisions snapshot_of
write_changes-AuthorityChange q now db acc k o' accepted h =
    elim (write_slots-origin (Accepted q (snapshot_of q now db) acc.instances) acc.slots db.slots k
      accepted h) [
        | inl same ↦ inl same
        | inr ((o, r, held, moves, origin, source, fenced), at) ↦ inr (record {
          old = o;
          handoff = r;
          held = subst (λ (x : ℕ). lookup ℕ_discrete x db.slots ≡ some o) at held;
          moves =
              Moves-lookup q (lock_instances db (q.instance_id ∷ command_ids q.commands))
                (λ id. lookup String_discrete id db.instances) now r o o'
                (lock_instances-lookup db (q.instance_id ∷ command_ids q.commands)) moves;
          origin = subst (λ (x : ℕ). Origin q x (lookup ℕ_discrete x db.handoffs) o r) at origin;
          source = source;
          fenced = bump_revisions-Revised acc.instances db r.source_instance_id fenced;
        })
      ]

apply_body-AuthorityChange :
    (q : Request) (now : Time) (db db' : Database) (k : ℕ) (o' : OwnershipRow) {u : Unit {0}}
    → KeyedSlots db.slots
    → apply_body q now db ≡ ok (u, db')
    → lookup ℕ_discrete k db'.slots ≡ some o'
    → (lookup ℕ_discrete k db.slots ≡ some o') ⊎ AuthorityChange q now db db' k o'
unfolding apply_body
apply_body-AuthorityChange q now db db' k o' keyed h held =
    let s = snapshot_of q now db in
    let (acc, looped, done) =
      >>=-eq-ok (apply_loop q s (budget_of db.handoffs) no_changes [] q.commands) _ h in
    let e : write_changes acc db ≡ db' = ground arith in
    let keyed_s : Keyed s = unfold snapshot_of in keyed in
    subst
      (λ (x : Database).
        lookup ℕ_discrete k x.slots ≡ some o'
        → (lookup ℕ_discrete k db.slots ≡ some o') ⊎ AuthorityChange q now db x k o')
      e
      (write_changes-AuthorityChange q now db acc k o' (
        apply_loop-Accepted q s keyed_s (budget_of db.handoffs) no_changes [] q.commands (λ P m. m)
          looped tt))
      held

-- Whatever the commit does, a batch of handoff commands leaves each slot row as it was, or changes
-- it along `Moves`, by the stored handoff of the slot, which the batch names, or by a withdrawal that
-- its owner asks for, and in the same transaction moves the revision of the instance that had the slot.
pub apply_handoffs-AuthorityChange :
    (c : Commit) (now : Time) (q : Request) (db : Database) (k : ℕ) (o' : OwnershipRow)
    → KeyedSlots db.slots
    → lookup ℕ_discrete k (apply_handoffs c now q db).0.slots ≡ some o'
    → (lookup ℕ_discrete k db.slots ≡ some o')
      ⊎ AuthorityChange q now db (apply_handoffs c now q db).0 k o'
unfolding apply_handoffs
apply_handoffs-AuthorityChange c now q db k o' keyed h =
    elim (Bool-cases (length q.commands == 0)) [
      | inl e ↦ inl (rw (e, apply_handoffs) at h)
      | inr e ↦
          elim (Bool-cases
            (ltb q.limits.batch_slots (length q.commands) || str_eq q.instance_id "")) [
              | inl bad ↦ inl (rw (e, bad, apply_handoffs) at h)
              | inr fine ↦
                  rw (e, fine, apply_handoffs)
                    (settled (transaction-Settled c (apply_body q now) db)
                      (rw (e, fine, apply_handoffs) at h))
            ]
    ]
  where
    settled :
        Settled (apply_body q now) db (transaction c (apply_body q now) db)
        → lookup ℕ_discrete k (transaction c (apply_body q now) db).0.slots ≡ some o'
        → (lookup ℕ_discrete k db.slots ≡ some o')
          ⊎ AuthorityChange q now db (transaction c (apply_body q now) db).0 k o'
    settled (inl (x, failed, same)) left =
        inl (subst (λ (x : Database). lookup ℕ_discrete k x.slots ≡ some o') same left)
    settled (inr (u, done, answer)) left =
        apply_body-AuthorityChange q now db (transaction c (apply_body q now) db).0 k o' keyed done
          left
