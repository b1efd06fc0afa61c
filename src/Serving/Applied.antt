-- ===== src/Serving/Applied.antt =====
-- `applyAuthorityLocked`: the slots that an allocator serves after it has applied a snapshot.
use sindri.Prelude.{
  ℕ, ◌≤◌, String, true, false, not, Option, none, some, List, [], ◌∷◌, ok, check, Table, Unique,
  lookup, lookup-upsert, ℕ_discrete, ◌==◌, ◌||◌, ◌&&◌, leb, str_eq, ◌≡◌, ◌≢◌, refl, subst, inr, All,
  >>=-eq-ok, ok_injective, either_left, arith,
}
use sindri.Store.Slots.{All-map, All-zip}
use sindri.Store.{authority_changed, mem_nat}
use sindri.Keys.{slot_count}
use sindri.Ownership.{Ownership, AuthoritySnapshot, is_live}
use sindri.Serving.Installed.{
  Served, NoneOpened, Visits, Progress, retain_slots-lookup, install_slots-Progress,
}
use sindri.Serving.{
  LocalSlot, Allocator, halted, is_owned, close, find_owned, check_owned, publish, keeps,
  retain_slots, move_withdrawn, apply_authority,
}

-- A snapshot that passes the loop's checks lists no slot twice.
check_owned-fresh :
    (id : String) (seen : List ℕ) (os : List Ownership)
    → check_owned id seen os ≡ ok tt
    → All (λ o. mem_nat o.slot_id seen ≡ false) os
unfolding check_owned
check_owned-fresh id seen [] h = tt
check_owned-fresh id seen (o ∷ os) h =
    let (u, valid, h1) =
      >>=-eq-ok
        (check
          (not (leb slot_count o.slot_id || not (str_eq o.owner_instance_id id) || o.epoch == 0))
          authority_changed)
        _ h in
    let (v, fresh, h2) = >>=-eq-ok (check (not (mem_nat o.slot_id seen)) authority_changed) _ h1 in
    (
      ground arith,
      All-map (λ x. mem_nat x.slot_id (o.slot_id ∷ seen) ≡ false)
          (λ x. mem_nat x.slot_id seen ≡ false) os (λ x m. ground arith)
          (check_owned-fresh id (o.slot_id ∷ seen) os h2),
    )

check_owned-found :
    (id : String) (seen : List ℕ) (os : List Ownership)
    → check_owned id seen os ≡ ok tt
    → All (λ o. find_owned o.slot_id os ≡ some o) os
unfolding check_owned find_owned
check_owned-found id seen [] h = tt
check_owned-found id seen (o ∷ os) h =
    let (u, valid, h1) =
      >>=-eq-ok
        (check
          (not (leb slot_count o.slot_id || not (str_eq o.owner_instance_id id) || o.epoch == 0))
          authority_changed)
        _ h in
    let (v, fresh, h2) = >>=-eq-ok (check (not (mem_nat o.slot_id seen)) authority_changed) _ h1 in
    (
      ground arith,
      All-zip (λ x. mem_nat x.slot_id (o.slot_id ∷ seen) ≡ false)
          (λ x. find_owned x.slot_id os ≡ some x) (λ x. find_owned x.slot_id (o ∷ os) ≡ some x) os
          (λ x m f. ground arith) (check_owned-fresh id (o.slot_id ∷ seen) os h2)
          (check_owned-found id (o.slot_id ∷ seen) os h2),
    )

move_withdrawn-lookup :
    (os : List Ownership) (t moved : Table ℕ LocalSlot) (k : ℕ) (g : LocalSlot)
    → lookup ℕ_discrete k t ≡ some g
    → keeps (find_owned k os) g ≡ false
    → lookup ℕ_discrete k (move_withdrawn os t moved) ≡ some (close g)
unfolding lookup move_withdrawn
move_withdrawn-lookup os [] moved k g h other = absurd (cc)
move_withdrawn-lookup os ((j, s) ∷ t) moved k g h other = elim (ℕ_discrete j k) [
  | yes e ↦ ground (arith, lookup-upsert ℕ_discrete j k (close s) (move_withdrawn os t moved))
  | no n ↦ ground (
    arith,
    move_withdrawn-lookup os t moved k g,
    lookup-upsert ℕ_discrete j k (close s) (move_withdrawn os t moved),
  )
]

-- What applying the snapshot `s` made of the allocator `a`.
pub record Applied (s : AuthoritySnapshot) (a b : Allocator) : Type 0 where
  pub newer : (a.revision ≤ b.revision) × (b.revision ≡ s.lease.revision)
  pub served : Served s.slots b.slots
  pub complete :
      (k : ℕ) (o : Ownership)
      → find_owned k s.slots ≡ some o
      → is_owned o.state ≡ true
      → lookup ℕ_discrete k b.slots ≢ none
  pub none_opened : NoneOpened a.slots b.slots
  pub waiting :
      (k : ℕ) (g : LocalSlot)
      → lookup ℕ_discrete k b.slots ≡ some g
      → g.draining ≡ true
      → mem_nat k b.pending_active ≡ true
  pub withdrawn :
      (k : ℕ) (g : LocalSlot)
      → lookup ℕ_discrete k a.slots ≡ some g
      → keeps (find_owned k s.slots) g ≡ false
      → lookup ℕ_discrete k b.draining_slots ≡ some (close g)
  pub running : halted b ≡ false
  pub deadline : b.local_deadline ≡ a.local_deadline

keeps-Visits :
    (o : Option Ownership) (g : LocalSlot) (os : List Ownership) (k : ℕ)
    → find_owned k os ≡ o
    → keeps o g ≡ true
    → Visits k os
unfolding keeps
keeps-Visits none g os k e h = absurd (cc)
keeps-Visits (some o) g os k e h = (o, e, ground arith)

-- The loop starts from the slots that stay.
start-Progress :
    (os : List Ownership) (t : Table ℕ LocalSlot)
    → Unique ℕ_discrete t
    → Progress os t os (retain_slots os t) []
unfolding keeps
start-Progress os t u = record {
  served = λ k g h. (retain_slots-lookup os t k g u h).1;
  none_opened = λ k g h opened. (retain_slots-lookup os t k g u h).0;
  waiting = λ k g h closed.
      inr (keeps-Visits (find_owned k os) g os k refl (retain_slots-lookup os t k g u h).1);
  present = λ k v. inr v;
}

unvisited : (k : ℕ) → ¬ Visits k []
unfolding find_owned
unvisited k (o, found, owned) = cc

publish-Applied :
    (s : AuthoritySnapshot) (a : Allocator)
    → a.revision ≤ s.lease.revision
    → halted a ≡ false
    → Unique ℕ_discrete a.slots
    → All (λ o. find_owned o.slot_id s.slots ≡ some o) s.slots
    → Applied s a (publish s a)
unfolding publish
publish-Applied s a newer running u found =
    let p =
      install_slots-Progress s.slots a.slots s.slots (retain_slots s.slots a.slots) [] found
        (start-Progress s.slots a.slots u) in
    record {
      newer = (newer, refl);
      served = p.served;
      complete = λ k o f owned. either_left (p.present k (o, f, owned)) (unvisited k);
      none_opened = p.none_opened;
      waiting = λ k g h closed. either_left (p.waiting k g h closed) (unvisited k);
      withdrawn = λ k g h other. move_withdrawn-lookup s.slots a.slots a.draining_slots k g h other;
      running = running;
      deadline = refl;
    }

-- If `applyAuthorityLocked` accepts a snapshot, the allocator serves exactly the slots that the
-- snapshot says it owns, each under the snapshot's epoch; no gate is open that was not open before
-- under the same epoch; every closed gate waits for the next renewal; every other slot that was
-- served is closed and kept for its drain; and the revision does not go back.
pub apply_authority-Applied :
    (s : AuthoritySnapshot) (a b : Allocator)
    → Unique ℕ_discrete a.slots
    → apply_authority s a ≡ ok b
    → Applied s a b
unfolding apply_authority
apply_authority-Applied s a b u h =
    let (x, running, h1) = >>=-eq-ok (check (not (halted a)) authority_changed) _ h in
    let (y, same, h2) =
      >>=-eq-ok
        (check
          (str_eq s.lease.instance_id a.instance_id
            && str_eq s.lease.node_id a.node_id
            && is_live s.lease
            && leb a.revision s.lease.revision)
          authority_changed)
        _ h1 in
    let (z, valid, h3) = >>=-eq-ok (check_owned a.instance_id [] s.slots) _ h2 in
    subst (Applied s a) (ok_injective h3) (
      publish-Applied s a (ground arith) (ground arith) u
        (check_owned-found a.instance_id [] s.slots valid))
