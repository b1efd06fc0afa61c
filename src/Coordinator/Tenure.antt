-- ===== src/Coordinator/Tenure.antt =====
-- `AcquireCoordinator` and the guard: one tenure at a time.
use sindri.Prelude.{
  ℕ, ◌+◌, ◌≤◌, ◌<◌, String, true, false, not, ◌&&◌, ◌||◌, some, List, [], ◌∷◌, length, Result, ok,
  err, str_eq, if◌then◌else◌, if-either, ◌≡◌, ◌≢◌, refl, sym, ◌∙◌, ap, subst, ◌⊎◌, inl, inr,
  Bool-cases, some_injective, arith,
}
use sindri.Prelude.Int64.{two64, le64}
use sindri.Store.{
  Time, Duration, time_add, next64, Error, invalid, Commit, committed, refused, lost,
}
use sindri.Handoffs.Planning.{CoordinatorLease, CoordinatorRow, guard_coordinator}
use sindri.Coordinator.{transaction_on, is_fresh, is_holder, acquire_body, acquire_coordinator}

-- One call of `AcquireCoordinator`.
pub record Acquiring : Type 0 where
  pub commit : Commit
  pub now : Time
  pub instance_id : String
  pub duration : Duration

abbrev pub after_acquire : Acquiring → CoordinatorRow → CoordinatorRow
after_acquire q row = (acquire_coordinator q.commit q.now q.instance_id q.duration row).0

unfoldable pub after_all : List Acquiring → CoordinatorRow → CoordinatorRow
after_all [] row = row
after_all (q ∷ qs) row = after_all qs (after_acquire q row)

-- What a call leaves: the row as it was, or the caller's tenure, renewed under its epoch while it is
-- fresh, and otherwise taken, under the next epoch, when nobody's is.
abbrev pub Acquired : Acquiring → CoordinatorRow → CoordinatorRow → Type 0
Acquired q row row' =
    (row' ≡ row)
    ⊎ ((row'.owner_instance_id ≡ some q.instance_id)
        × (row'.expires_at ≡ some (time_add q.now q.duration))
        × (((row.owner_instance_id ≡ some q.instance_id) × (row'.epoch ≡ row.epoch))
            ⊎ ((is_fresh q.now row ≡ false) × (row'.epoch ≡ next64 row.epoch))))

is_holder-owner :
    (id : String) (row : CoordinatorRow) → is_holder id row ≡ true → row.owner_instance_id ≡ some id
is_holder-owner id row h = ground arith

acquire_body-Acquired :
    (q : Acquiring) (row : CoordinatorRow)
    → Acquired q row (acquire_body q.now q.instance_id q.duration row).1
unfolding acquire_body
acquire_body-Acquired q row =
    if-either (λ (r : CoordinatorLease × CoordinatorRow). Acquired q row r.1)
      (is_fresh q.now row && not (is_holder q.instance_id row)) (λ e. inl refl)
      (λ e. inr (refl, refl, epochs q row e))
  where
    epochs :
        (q : Acquiring) (row : CoordinatorRow)
        → is_fresh q.now row && not (is_holder q.instance_id row) ≡ false
        → ((row.owner_instance_id ≡ some q.instance_id)
            × ((if is_holder q.instance_id row && is_fresh q.now row
                  then row.epoch
                  else next64 row.epoch)
                ≡ row.epoch))
          ⊎ ((is_fresh q.now row ≡ false)
              × ((if is_holder q.instance_id row && is_fresh q.now row
                    then row.epoch
                    else next64 row.epoch)
                  ≡ next64 row.epoch))
    epochs q row e = elim (Bool-cases (is_fresh q.now row)) [
      | inl fresh ↦ elim (Bool-cases (is_holder q.instance_id row)) [
        | inl holder ↦ inl (is_holder-owner q.instance_id row holder, ground arith)
        | inr other ↦ absurd (ground arith)
      ]
      | inr stale ↦ inr (stale, ground arith)
    ]

transaction_on-Acquired :
    (q : Acquiring) (row : CoordinatorRow) (c : Commit) (r : CoordinatorLease × CoordinatorRow)
    → Acquired q row r.1
    → Acquired q row (transaction_on c (ok r) row).0
unfolding transaction_on
transaction_on-Acquired q row committed r a = a
transaction_on-Acquired q row (refused f) r a = inl refl
transaction_on-Acquired q row (lost f) r a = a

after_acquire-Acquired :
    (q : Acquiring) (row : CoordinatorRow) → Acquired q row (after_acquire q row)
unfolding acquire_coordinator
after_acquire-Acquired q row =
    if-either (λ (r : CoordinatorRow × Result Error CoordinatorLease). Acquired q row r.0)
      (str_eq q.instance_id "" || le64 q.duration 0) (λ e. inl refl)
      (λ e.
        transaction_on-Acquired q row q.commit (acquire_body q.now q.instance_id q.duration row)
          (acquire_body-Acquired q row))

-- The row has moved on from the tenure of that lease.
Superseded : CoordinatorLease → CoordinatorRow → Type 0
Superseded l row =
    (l.epoch < row.epoch) ⊎ ((l.epoch ≡ row.epoch) × (row.owner_instance_id ≢ some l.instance_id))

next64-small : (e : ℕ) → e + 1 < two64 → next64 e ≡ e + 1
next64-small e small = ground arith

Superseded-epoch :
    (l : CoordinatorLease) (row : CoordinatorRow) → Superseded l row → l.epoch ≤ row.epoch
unfolding Superseded
Superseded-epoch l row (inl older) = omega (arith, older)
Superseded-epoch l row (inr (same, other)) = omega (arith, same)

after_acquire-Superseded :
    (l : CoordinatorLease) (q : Acquiring) (row : CoordinatorRow)
    → row.epoch + 1 < two64
    → Superseded l row
    → Superseded l (after_acquire q row) × ((after_acquire q row).epoch ≤ row.epoch + 1)
unfolding Superseded
after_acquire-Superseded l q row small past = elim (after_acquire-Acquired q row) [
  | inl same ↦ (
    subst (Superseded l) (sym same) past,
    omega (arith, ap (λ (r : CoordinatorRow). r.epoch) same),
  )
  | inr (owner, expires, inl (held, epoch)) ↦
      (renewed l q row (after_acquire q row) owner held epoch past, omega (arith, epoch))
  | inr (owner, expires, inr (stale, epoch)) ↦ (
    inl (omega (arith, Superseded-epoch l row past, epoch, next64-small row.epoch small)),
    omega (arith, epoch, next64-small row.epoch small),
  )
]
  where
    renewed :
        (l : CoordinatorLease) (q : Acquiring) (row row' : CoordinatorRow)
        → row'.owner_instance_id ≡ some q.instance_id
        → row.owner_instance_id ≡ some q.instance_id
        → row'.epoch ≡ row.epoch
        → Superseded l row
        → Superseded l row'
    renewed l q row row' owner held epoch (inl older) = inl (omega (arith, older, epoch))
    renewed l q row row' owner held epoch (inr (same, other)) =
        inr (same ∙ sym epoch, λ e. other (held ∙ sym owner ∙ e))

after_all-Superseded :
    (l : CoordinatorLease) (qs : List Acquiring) (row : CoordinatorRow)
    → row.epoch + length qs < two64
    → Superseded l row
    → Superseded l (after_all qs row)
unfolding after_all
after_all-Superseded l [] row small past = past
after_all-Superseded l (q ∷ qs) row small past =
    let (next, bound) = after_acquire-Superseded l q row (omega (arith, small)) past in
    after_all-Superseded l qs (after_acquire q row) (omega (arith, small, bound)) next

Superseded-lost :
    (l : CoordinatorLease) (row : CoordinatorRow) (now : Time)
    → Superseded l row
    → guard_coordinator l row now ≡ err (invalid "sequence: coordinator tenure lost")
unfolding guard_coordinator Superseded
Superseded-lost l row now (inl older) = ground arith
Superseded-lost l row now (inr (same, other)) =
    let not_holder : is_holder l.instance_id row ≡ false =
      elim (Bool-cases (is_holder l.instance_id row)) [
        | inl h ↦ absurd (other (is_holder-owner l.instance_id row h))
        | inr h ↦ h
      ] in
    ground arith

-- Once another instance has taken the tenure over from a lease that the guard accepted, that
-- lease's tenure had passed, and the guard refuses the lease at every time, after whatever further
-- acquisitions, as long as the epoch does not wrap around.
pub acquire_coordinator-supersedes :
    (l : CoordinatorLease) (row : CoordinatorRow) (held_at : Time) (q : Acquiring)
    (qs : List Acquiring) (now : Time)
    → guard_coordinator l row held_at ≡ ok tt
    → q.instance_id ≢ l.instance_id
    → (after_acquire q row).owner_instance_id ≡ some q.instance_id
    → row.epoch + 1 + length qs < two64
    → (is_fresh q.now row ≡ false)
      × (guard_coordinator l (after_all qs (after_acquire q row)) now
          ≡ err (invalid "sequence: coordinator tenure lost"))
unfolding guard_coordinator Superseded
acquire_coordinator-supersedes l row held_at q qs now accepted other taken small =
    let owner : row.owner_instance_id ≡ some l.instance_id =
      is_holder-owner l.instance_id row (ground arith) in
    let epoch : row.epoch ≡ l.epoch = ground arith in
    elim (after_acquire-Acquired q row) [
      | inl same ↦ absurd (
          other (
            some_injective
              (sym taken ∙ ap (λ (r : CoordinatorRow). r.owner_instance_id) same ∙ owner)))
      | inr (o, expires, inl (held, e)) ↦ absurd (other (some_injective (sym held ∙ owner)))
      | inr (o, expires, inr (stale, e)) ↦ (
        stale,
        Superseded-lost l (after_all qs (after_acquire q row)) now (
            after_all-Superseded l qs (after_acquire q row)
              (omega (arith, e, next64-small row.epoch (omega (arith, small)), small))
              (inl (omega (arith, e, epoch, next64-small row.epoch (omega (arith, small)))))),
      )
    ]
