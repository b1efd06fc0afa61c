-- ===== src/Serving/Renewal.antt =====
-- `renewLocked`: what a renewal makes of the gates and of the local deadline.
use sindri.Prelude.{
  ℕ, true, false, Option, none, some, List, Result, ok, err, ◌>>=◌, Unique, lookup, ℕ_discrete, ◌≡◌,
  refl, sym, ◌∙◌, ap, subst, ◌⊎◌, inl, inr, >>=-eq-ok, Bool-cases, Option-cases, some_injective,
  arith,
}
use sindri.Prelude.Int64.{add64, le64}
use sindri.Store.{InstanceRow, Error, authority_changed, lease_expired, mem_nat}
use sindri.Store.Revisions.{lookup-map_values}
use sindri.Store.Transactions.{Result-cases}
use sindri.Config.{HaConfig, lease_deadline}
use sindri.Ownership.{Ownership, AuthoritySnapshot, is_live}
use sindri.Serving.{
  LocalSlot, Allocator, Attempt, halted, is_owned, find_owned, keeps, apply_authority, open_slot,
  unusable, renewed, accept_lease, is_authority_changed, renew_again, renew_locked,
}
use sindri.Serving.Installed.{NoneOpened}
use sindri.Serving.Applied.{apply_authority-Applied}

-- What a renewal that the store granted made of the allocator `a`.
pub record Accepted (c : HaConfig) (x : Attempt) (lease : InstanceRow) (a b : Allocator)
    : Type 0 where
  pub revision : (lease.revision ≡ a.revision) × (b.revision ≡ a.revision)
  pub live : is_live lease ≡ true
  pub deadline : b.local_deadline ≡ add64 x.anchor (lease_deadline c)
  pub in_time : le64 b.local_deadline x.answered ≡ false
  pub running : (halted a ≡ false) × (halted b ≡ false) × (b.ready ≡ true)
  -- A gate keeps its epoch and its counter, and is open if it waited.
  pub gates :
      (k : ℕ) (g : LocalSlot)
      → lookup ℕ_discrete k a.slots ≡ some g
      → lookup ℕ_discrete k b.slots ≡ some (open_slot a.pending_active k g)

pub accept_lease-cases :
    (c : HaConfig) (x : Attempt) (lease : InstanceRow) (a : Allocator)
    → (accept_lease c x lease a ≡ (a, err lease_expired))
      ⊎ ((unusable c x lease a ≡ false) × (accept_lease c x lease a ≡ (renewed c x a, ok tt)))
unfolding accept_lease
accept_lease-cases c x lease a = elim (Bool-cases (unusable c x lease a)) [
  | inl e ↦ inl (rw (e, accept_lease) refl)
  | inr e ↦ inr (e, rw (e, accept_lease) refl)
]

pub renewed-Accepted :
    (c : HaConfig) (x : Attempt) (lease : InstanceRow) (a : Allocator)
    → unusable c x lease a ≡ false
    → Accepted c x lease a (renewed c x a)
unfolding renewed
renewed-Accepted c x lease a e = record {
  revision = (ground arith, refl);
  live = ground arith;
  deadline = refl;
  in_time = ground arith;
  running = (ground arith, ground arith, refl);
  gates = λ k g h. lookup-map_values ℕ_discrete (open_slot a.pending_active) k a.slots ∙ rw h refl;
}

-- How a renewal may end: the store grants the first turn at the allocator's revision; or it answers
-- there that the authority has changed, its snapshot is applied, and it grants the second turn at the
-- revision that results; or there is an error.
pub data RenewOutcome (c : HaConfig) (first second : Attempt) (a : Allocator)
    : Allocator × Result Error (Unit {0}) → Type 0 where
  granted :
      (b : Allocator) (lease : InstanceRow)
      → first.lease a.revision ≡ ok lease
      → Accepted c first lease a b
      → RenewOutcome c first second a (b, ok tt)
  granted_again :
      (snapshot : AuthoritySnapshot) (s b : Allocator) (lease : InstanceRow)
      → first.lease a.revision ≡ err authority_changed
      → first.authority ≡ ok snapshot
      → apply_authority snapshot a ≡ ok s
      → second.lease s.revision ≡ ok lease
      → Accepted c second lease s b
      → RenewOutcome c first second a (b, ok tt)
  denied :
      (e : Error) (b : Allocator)
      → NoneOpened a.slots b.slots
      → b.local_deadline ≡ a.local_deadline
      → RenewOutcome c first second a (b, err e)

is_authority_changed-eq : (e : Error) → is_authority_changed e ≡ true → e ≡ authority_changed
is_authority_changed-eq authority_changed h = refl
is_authority_changed-eq e h = absurd (cc)

module _ (c : HaConfig) (first second : Attempt) (a : Allocator)
    (u : Unique ℕ_discrete a.slots) where
  unchanged-denied : (e : Error) → RenewOutcome c first second a (a, err e)
  unchanged-denied e = denied e a (λ k g h opened. h) refl

  synced-denied :
      (snapshot : AuthoritySnapshot) (s : Allocator) (e : Error)
      → apply_authority snapshot a ≡ ok s
      → RenewOutcome c first second a (s, err e)
  synced-denied snapshot s e applied =
      let done = apply_authority-Applied snapshot a s u applied in
      denied e s done.none_opened done.deadline

  first_lease-RenewOutcome :
      (lease : InstanceRow)
      → first.lease a.revision ≡ ok lease
      → RenewOutcome c first second a (accept_lease c first lease a)
  first_lease-RenewOutcome lease replied = elim (accept_lease-cases c first lease a) [
    | inl e ↦ subst (RenewOutcome c first second a) (sym e) (unchanged-denied lease_expired)
    | inr (fit, e) ↦
        subst (RenewOutcome c first second a) (sym e)
          (granted (renewed c first a) lease replied (renewed-Accepted c first lease a fit))
  ]

  second_lease-RenewOutcome :
      (snapshot : AuthoritySnapshot) (s : Allocator) (lease : InstanceRow)
      → first.lease a.revision ≡ err authority_changed
      → first.authority ≡ ok snapshot
      → apply_authority snapshot a ≡ ok s
      → second.lease s.revision ≡ ok lease
      → RenewOutcome c first second a (accept_lease c second lease s)
  second_lease-RenewOutcome snapshot s lease changed read applied replied =
      elim (accept_lease-cases c second lease s) [
        | inl e ↦
            subst (RenewOutcome c first second a) (sym e)
              (synced-denied snapshot s lease_expired applied)
        | inr (fit, e) ↦ subst (RenewOutcome c first second a) (sym e) (
            granted_again snapshot s (renewed c second s) lease changed read applied replied
              (renewed-Accepted c second lease s fit))
      ]

  renew_again-RenewOutcome :
      (r : Result Error Allocator)
      → first.lease a.revision ≡ err authority_changed
      → ((s : Allocator)
          → r ≡ ok s
          → (snapshot : AuthoritySnapshot) × (first.authority ≡ ok snapshot)
            × (apply_authority snapshot a ≡ ok s))
      → RenewOutcome c first second a (renew_again c second r a)
  unfolding renew_again
  renew_again-RenewOutcome (err e) changed synced = unchanged-denied e
  renew_again-RenewOutcome (ok s) changed synced =
      let (snapshot, read, applied) = synced s refl in
      elim (Result-cases (second.lease s.revision)) [
        | inl (e, failed) ↦ rw (failed, renew_again) (synced-denied snapshot s e applied)
        | inr (lease, replied) ↦
            rw (replied, renew_again)
              (second_lease-RenewOutcome snapshot s lease changed read applied replied)
      ]

  -- `renewLocked` succeeds only with the lease that the store grants at the allocator's revision in
  -- the first turn, or in the second, after the store refused the first for a change of authority
  -- and its snapshot was applied. The renewal is then usable and in time. Otherwise it fails, and
  -- then no gate is opened and the local deadline stays.
  pub renew_locked-RenewOutcome : RenewOutcome c first second a (renew_locked c first second a)
  unfolding renew_locked
  renew_locked-RenewOutcome = elim (Result-cases (first.lease a.revision)) [
    | inl (e, failed) ↦ elim (Bool-cases (is_authority_changed e)) [
      | inl again ↦
          rw (failed, again, renew_locked)
            (renew_again-RenewOutcome (first.authority >>= λ s. apply_authority s a)
              (failed ∙ ap (λ x. err x) (is_authority_changed-eq e again))
              (λ s h. >>=-eq-ok first.authority _ h))
      | inr final ↦ rw (failed, final, renew_locked) (unchanged-denied e)
    ]
    | inr (lease, replied) ↦ rw (replied, renew_locked) (first_lease-RenewOutcome lease replied)
  ]

-- Slot `k` is served through an open gate, under that epoch.
abbrev pub ServedOpen : Allocator → ℕ → ℕ → Type 0
ServedOpen a k epoch =
    (g : LocalSlot) × (lookup ℕ_discrete k a.slots ≡ some g)
    × (g.epoch ≡ epoch)
    × (g.draining ≡ false)

renew_locked-renewed :
    (c : HaConfig) (first second : Attempt) (lease : InstanceRow) (s : Allocator)
    → first.lease s.revision ≡ ok lease
    → unusable c first lease s ≡ false
    → (renew_locked c first second s).0 ≡ renewed c first s
unfolding renew_locked accept_lease
renew_locked-renewed c first second lease s replied fit = rw (replied, fit, renew_locked) refl

open_slot-epoch :
    (pending : List ℕ) (k : ℕ) (g : LocalSlot) → (open_slot pending k g).epoch ≡ g.epoch
unfolding open_slot
open_slot-epoch pending k g = ground arith

open_slot-open :
    (pending : List ℕ) (k : ℕ) (g : LocalSlot)
    → (g.draining ≡ true → mem_nat k pending ≡ true)
    → (open_slot pending k g).draining ≡ false
unfolding open_slot
open_slot-open pending k g waits = ground arith

keeps-epoch :
    (found : Option Ownership) (g : LocalSlot) (o : Ownership)
    → found ≡ some o
    → keeps found g ≡ true
    → g.epoch ≡ o.epoch
unfolding keeps
keeps-epoch none g o e h = absurd (cc)
keeps-epoch (some p) g o e h =
    let same : p.epoch ≡ o.epoch = ap (λ (x : Ownership). x.epoch) (some_injective e) in
    ground arith

-- Once a snapshot is applied and the store then grants the renewal in time, the allocator serves
-- every slot that the snapshot says it owns, through an open gate and under the snapshot's epoch.
pub renew_locked-ServedOpen :
    (c : HaConfig) (first second : Attempt) (snapshot : AuthoritySnapshot) (lease : InstanceRow)
    (a s : Allocator) (k : ℕ) (o : Ownership)
    → Unique ℕ_discrete a.slots
    → apply_authority snapshot a ≡ ok s
    → first.lease s.revision ≡ ok lease
    → unusable c first lease s ≡ false
    → find_owned k snapshot.slots ≡ some o
    → is_owned o.state ≡ true
    → ServedOpen (renew_locked c first second s).0 k o.epoch
renew_locked-ServedOpen c first second snapshot lease a s k o u applied replied fit found owned =
    let done = apply_authority-Applied snapshot a s u applied in
    elim (Option-cases (lookup ℕ_discrete k s.slots)) [
      | inl gone ↦ absurd (done.complete k o found owned gone)
      | inr (g, there) ↦
          subst (λ (b : Allocator). ServedOpen b k o.epoch)
            (sym (renew_locked-renewed c first second lease s replied fit))
            (
              open_slot s.pending_active k g,
              (renewed-Accepted c first lease s fit).gates k g there,
              open_slot-epoch s.pending_active k g
                  ∙ keeps-epoch (find_owned k snapshot.slots) g o found (done.served k g there),
              open_slot-open s.pending_active k g (done.waiting k g there),
            )
    ]
