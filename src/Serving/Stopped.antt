-- ===== src/Serving/Stopped.antt =====
-- An allocator that was fenced, or has begun to shut down, stays out of service.
use sindri.Prelude.{
  ℕ, String, true, Option, none, some, List, [], ◌∷◌, Result, ok, err, ◌>>=◌, ◌≡◌, ◌≢◌, refl, sym,
  ap, subst, inl, inr, Bool-cases, if-either, arith,
}
use sindri.Prelude.Int64.{Int64, sub64, le64}
use sindri.Store.{InstanceRow, Error, authority_changed}
use sindri.Store.Transactions.{Result-cases}
use sindri.Config.{HaConfig}
use sindri.Ownership.{AuthoritySnapshot}
use sindri.Serving.{
  LocalSlot, Allocator, Attempt, halted, apply_authority, accept_lease, is_authority_changed,
  renew_again, renew_locked,
}
use sindri.Serving.Renewal.{accept_lease-cases}
use sindri.Serving.Operations.{
  Registration, Claiming, serving, Reason, owner_recovering, allocator_paused, renew_leases,
  sync_authority, synced_or, claim_batch, enter_slot, paused, readiness, check_allocation_slot,
  fence, fence_slot, check_fast_path_bound, renew_claimed, begin_shutdown, detach_all, pause,
  mark_route_applied,
}

-- What may happen to an allocator, in any order.
pub data Operation : Type 0 where
  renewing : HaConfig → Registration → Attempt → Attempt → Operation
  syncing : Result Error AuthoritySnapshot → Operation
  claiming : HaConfig → Claiming → Attempt → Attempt → Operation
  entering : ℕ → Operation
  confirming : HaConfig → ℕ → Int64 → Int64 → Operation
  fencing : String → Operation
  fencing_slot : ℕ → Operation
  marking pausing stopping : Operation

unfoldable pub perform : Operation → Allocator → Allocator
perform (renewing c r x y) a = renew_leases c r x y a
perform (syncing s) a = sync_authority s a
perform (claiming c r x y) a = (claim_batch c r x y a).0
perform (entering k) a = (enter_slot k a).0
perform (confirming c k started now) a = (check_fast_path_bound c k started now a).0
perform (fencing reason) a = fence reason a
perform (fencing_slot k) a = fence_slot k a
perform marking a = mark_route_applied a
perform pausing a = pause a
perform stopping a = begin_shutdown a

unfoldable pub perform_all : List Operation → Allocator → Allocator
perform_all [] a = a
perform_all (o ∷ os) a = perform_all os (perform o a)

-- No allocation gets a number: no gate lets it in, a check of one that is in fails, and a probe does
-- not see the instance as serving.
pub record OutOfService (a : Allocator) : Type 0 where
  pub no_entry : (k : ℕ) → enter_slot k a ≡ (a, err allocator_paused)
  pub no_number :
      (now : Int64) (s : Option LocalSlot) → check_allocation_slot now s a ≡ err owner_recovering
  pub not_serving : readiness a ≢ serving

check_allocation_slot-halted :
    (now : Int64) (s : Option LocalSlot) (a : Allocator)
    → halted a ≡ true
    → check_allocation_slot now s a ≡ err owner_recovering
unfolding check_allocation_slot
check_allocation_slot-halted now none a h = refl
check_allocation_slot-halted now (some s) a h = ground arith

halted-OutOfService : (a : Allocator) → halted a ≡ true → OutOfService a
unfolding enter_slot paused check_allocation_slot readiness
halted-OutOfService a h = record {
  no_entry = λ k. ground arith;
  no_number = λ now s. check_allocation_slot-halted now s a h;
  not_serving = ground arith;
}

apply_authority-halted :
    (s : AuthoritySnapshot) (a : Allocator)
    → halted a ≡ true
    → apply_authority s a ≡ err authority_changed
unfolding apply_authority
apply_authority-halted s a h = rw h refl

accept_lease-halted :
    (c : HaConfig) (x : Attempt) (lease : InstanceRow) (a : Allocator)
    → halted a ≡ true
    → (accept_lease c x lease a).0 ≡ a
accept_lease-halted c x lease a h = elim (accept_lease-cases c x lease a) [
  | inl e ↦ ap (λ r. r.0) e
  | inr (fit, e) ↦ absurd (ground arith)
]

sync-halted :
    (r : Result Error AuthoritySnapshot) (a : Allocator)
    → halted a ≡ true
    → (e : Error) × ((r >>= λ s. apply_authority s a) ≡ err e)
sync-halted (err e) a h = (e, refl)
sync-halted (ok s) a h = (authority_changed, apply_authority-halted s a h)

renew_locked-halted :
    (c : HaConfig) (x y : Attempt) (a : Allocator) → halted a ≡ true → (renew_locked c x y a).0 ≡ a
unfolding renew_locked renew_again
renew_locked-halted c x y a h = elim (Result-cases (x.lease a.revision)) [
  | inl (e, failed) ↦ elim (Bool-cases (is_authority_changed e)) [
    | inl again ↦
        let (f, refused) = sync-halted x.authority a h in
        rw (failed, again, refused, renew_locked) refl
    | inr final ↦ rw (failed, final, renew_locked) refl
  ]
  | inr (lease, replied) ↦ rw (replied, renew_locked) (accept_lease-halted c x lease a h)
]

sync_authority-halted :
    (r : Result Error AuthoritySnapshot) (a : Allocator) → halted a ≡ true → sync_authority r a ≡ a
unfolding sync_authority synced_or
sync_authority-halted r a h =
    let (e, refused) = sync-halted r a h in
    if-either (λ b. b ≡ a) a.initialized (λ i. rw refused refl) (λ i. refl)

claim_batch-halted :
    (c : HaConfig) (r : Claiming) (x y : Attempt) (a : Allocator)
    → halted a ≡ true
    → (claim_batch c r x y a).0 ≡ a
unfolding claim_batch synced_or renew_claimed
claim_batch-halted c r x y a h =
    let (f, refused) = sync-halted r.authority a h in
    elim (Result-cases r.outcomes) [
      | inl (e, failed) ↦ elim (Bool-cases (is_authority_changed e)) [
        | inl again ↦ rw (failed, again, refused, claim_batch) refl
        | inr final ↦ rw (failed, final, claim_batch) refl
      ]
      | inr (outcomes, done) ↦ rw (done, refused, claim_batch) refl
    ]

-- What lasts: the allocator is halted, and the reason it was fenced for is the one on record.
Halted : Option String → Allocator → Type 0
Halted reason a = (halted a ≡ true) × ((r : String) → reason ≡ some r → a.fenced ≡ some r)

begin_shutdown-Halted :
    (f : Option String) (a : Allocator) → Halted f a → Halted f (begin_shutdown a)
unfolding begin_shutdown detach_all Halted
begin_shutdown-Halted f a h = if-either (Halted f) a.stopping (λ e. h) (λ e. (refl, h.1))

fence-Halted :
    (f : Option String) (reason : String) (a : Allocator) → Halted f a → Halted f (fence reason a)
unfolding fence Halted
fence-Halted f reason a (h, kept) = (ground arith, λ r e. let x = kept r e in ground arith)

perform-Halted :
    (f : Option String) (o : Operation) (a : Allocator) → Halted f a → Halted f (perform o a)
unfolding perform Halted renew_leases enter_slot paused check_fast_path_bound fence_slot pause
    mark_route_applied
perform-Halted f (renewing c r x y) a (h, kept) = rw h (h, kept)
perform-Halted f (syncing s) a (h, kept) = rw (sync_authority-halted s a h) (h, kept)
perform-Halted f (claiming c r x y) a (h, kept) = rw (claim_batch-halted c r x y a h) (h, kept)
perform-Halted f (entering k) a (h, kept) =
    subst (λ (r : Allocator × Result Reason LocalSlot). Halted f r.0)
      (sym ((halted-OutOfService a h).no_entry k)) (h, kept)
perform-Halted f (confirming c k started now) a (h, kept) =
    if-either (λ (r : Allocator × Result Reason (Unit {0})). Halted f r.0)
      (le64 (sub64 now started) c.max_pause) (λ e. (h, kept))
      (λ e. fence-Halted f "process pause exceeded its bound" (fence_slot k a) (h, kept))
perform-Halted f (fencing reason) a h = fence-Halted f reason a h
perform-Halted f (fencing_slot k) a h = h
perform-Halted f marking a h = h
perform-Halted f pausing a h = h
perform-Halted f stopping a h = begin_shutdown-Halted f a h

perform_all-Halted :
    (f : Option String) (os : List Operation) (a : Allocator)
    → Halted f a
    → Halted f (perform_all os a)
unfolding perform_all
perform_all-Halted f [] a h = h
perform_all-Halted f (o ∷ os) a h = perform_all-Halted f os (perform o a) (perform-Halted f o a h)

-- Once an allocator is fenced or has begun to shut down, then after any operations it is out of
-- service, whatever the store answers, and the reason of the first fence is still on record.
pub perform_all-OutOfService :
    (os : List Operation) (a : Allocator)
    → halted a ≡ true
    → OutOfService (perform_all os a)
      × ((reason : String) → a.fenced ≡ some reason → (perform_all os a).fenced ≡ some reason)
unfolding Halted
perform_all-OutOfService os a h =
    let (still, kept) = perform_all-Halted a.fenced os a (h, λ r e. e) in
    (halted-OutOfService (perform_all os a) still, kept)
