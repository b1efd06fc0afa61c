-- ===== src/Handoffs/Protocol.antt =====
-- What a command of `ApplyHandoffs` may do to a handoff and to the authority over its slot.
use sindri.Prelude.{
  String, true, Option, none, some, List, ◌≡◌, refl, ◌⊎◌, inl, inr, ◌≤◌, ◌<◌, arith, Bool-cases,
  Option-cases,
}
use sindri.Store.{
  SlotState, Kind, Phase, Time, Duration, time_add, InstanceState, InstanceRow, next64, mem_text,
  OwnershipRow, HandoffRow,
}
use sindri.Handoffs.{Action, Request, Snapshot, Budget, or_empty, fresh_instance}
use sindri.Handoffs.Apply.{
  change, drain_over, act, act_prepare, act_begin, act_ack_drain, act_transfer, act_ack_active,
}

-- The edges of the handoff's state machine.
infix 40 ◌⟶◌
pub data ◌⟶◌ : Phase → Phase → Type 0 where
  prepared : Phase.planned ⟶ Phase.ready
  prepared_again : Phase.draining ⟶ Phase.draining
  began : Phase.ready ⟶ Phase.draining
  handed_over : Phase.draining ⟶ Phase.transferred
  given_back : Phase.draining ⟶ Phase.completed
  activated : Phase.transferred ⟶ Phase.completed

ruleset edges = (prepared, prepared_again, began, handed_over, given_back, activated)

-- An active instance whose lease is not over.
abbrev pub Fresh : Option InstanceRow → Time → Duration → Type 0
Fresh lease now duration =
    (i : InstanceRow) × (lease ≡ some i)
    × (i.state ≡ InstanceState.active)
    × (now < time_add i.granted_at duration)

-- The drain was acknowledged, or its boundary has passed.
abbrev pub DrainOver : Time → HandoffRow → Type 0
DrainOver now r = (r.drained ≡ true) ⊎ ((t : Time) × (r.not_before ≡ some t) × (t ≤ now))

abbrev pub target_id : HandoffRow → String
target_id r = or_empty r.target_instance_id

-- The target has said that it is ready, and is alive.
abbrev pub Prepared : Request → (String → Option InstanceRow) → Time → HandoffRow → Type 0
Prepared q leases now r =
    (r.target_ready ≡ true) × Fresh (leases (target_id r)) now q.lease_duration

-- What a change of authority over a slot may be, and who may ask for it: it starts to drain, for the
-- source or the target; after the drain it goes to the prepared target of a transfer, which asks for
-- it, under the next epoch; or after the drain the source of a release gives it up under the same
-- epoch.
pub data Moves (q : Request) (leases : String → Option InstanceRow) (now : Time) (r : HandoffRow)
    (o o' : OwnershipRow) : Type 0 where
  drains :
      o.state ≡ SlotState.owned
      → o'.state ≡ SlotState.draining
      → o'.owner_instance_id ≡ o.owner_instance_id
      → o'.epoch ≡ o.epoch
      → r.phase ≡ Phase.ready
      → (q.instance_id ≡ r.source_instance_id) ⊎ (q.instance_id ≡ target_id r)
      → (r.kind ≡ Kind.transfer → Prepared q leases now r)
      → Moves q leases now r o o'
  hands_over :
      o.state ≡ SlotState.draining
      → o'.state ≡ SlotState.owned
      → o'.owner_instance_id ≡ r.target_instance_id
      → o'.epoch ≡ next64 o.epoch
      → r.phase ≡ Phase.draining
      → r.kind ≡ Kind.transfer
      → q.instance_id ≡ target_id r
      → Prepared q leases now r
      → DrainOver now r
      → Moves q leases now r o o'
  gives_up :
      o.state ≡ SlotState.draining
      → o'.state ≡ SlotState.unowned
      → o'.owner_instance_id ≡ none
      → o'.epoch ≡ o.epoch
      → r.phase ≡ Phase.draining
      → r.kind ≡ Kind.release
      → q.instance_id ≡ r.source_instance_id
      → DrainOver now r
      → Moves q leases now r o o'

Prepared-lookup :
    (q : Request) (leases leases' : String → Option InstanceRow) (now : Time) (r : HandoffRow)
    → ((id : String) (i : InstanceRow) → leases id ≡ some i → leases' id ≡ some i)
    → Prepared q leases now r
    → Prepared q leases' now r
Prepared-lookup q leases leases' now r more (ready, (i, held, active, alive)) =
    (ready, (i, more _ i held, active, alive))

-- What holds under the leases that a transaction locked holds under all of them.
pub Moves-lookup :
    (q : Request) (leases leases' : String → Option InstanceRow) (now : Time) (r : HandoffRow)
    (o o' : OwnershipRow)
    → ((id : String) (i : InstanceRow) → leases id ≡ some i → leases' id ≡ some i)
    → Moves q leases now r o o'
    → Moves q leases' now r o o'
Moves-lookup q l l' now r o o' more (drains a b c d e f p) =
    drains a b c d e f (λ k. Prepared-lookup q l l' now r more (p k))
Moves-lookup q l l' now r o o' more (hands_over a b c d e f g p u) =
    hands_over a b c d e f g (Prepared-lookup q l l' now r more p) u
Moves-lookup q l l' now r o o' more (gives_up a b c d e f g u) = gives_up a b c d e f g u

fresh_instance-Fresh :
    (lease : Option InstanceRow) (now : Time) (duration : Duration)
    → fresh_instance lease now duration ≡ true
    → Fresh lease now duration
unfolding fresh_instance
fresh_instance-Fresh none now duration h = absurd (ground arith)
fresh_instance-Fresh (some i) now duration h = (i, refl, ground arith, ground arith)

Kind-cases : (k : Kind) → (k ≡ Kind.transfer) ⊎ (k ≡ Kind.release)
Kind-cases Kind.transfer = inl refl
Kind-cases Kind.release = inr refl

module _ (q : Request) (s : Snapshot) (b : Budget) (o : OwnershipRow) (r : HandoffRow) where
  pub act-⟶ :
      (a : Action) {r' : HandoffRow} {so : Option OwnershipRow} {ids : List String} {b' : Budget}
      → act q s b a o r ≡ change r' so ids b'
      → r.phase ⟶ r'.phase
  unfolding act act_prepare act_begin act_ack_drain act_transfer act_ack_active
  act-⟶ Action.prepare h = grind (arith, edges)
  act-⟶ Action.begin h = grind (arith, edges)
  act-⟶ Action.withdraw h = grind (arith, edges)
  act-⟶ Action.ack_drain h = grind (arith, edges)
  act-⟶ Action.transfer h = grind (arith, edges)
  act-⟶ Action.ack_active h = grind (arith, edges)
  act-⟶ Action.other h = cc

  drain_over-DrainOver : drain_over q s b r ≡ true → DrainOver s.now r
  drain_over-DrainOver h = elim (Option-cases r.not_before) [
    | inl e ↦ absurd (ground arith)
    | inr (t, e) ↦ elim (Bool-cases r.drained) [ inl d ↦ inl d | inr d ↦ inr (t, e, ground arith) ]
  ]

  act_begin-Moves :
      {r' : HandoffRow} {o' : OwnershipRow} {ids : List String} {b' : Budget}
      → act_begin q s b o r ≡ change r' (some o') ids b'
      → Moves q s.leases s.now r o o'
  unfolding act_begin
  act_begin-Moves h =
      drains (ground arith) (ground arith) (ground arith) (ground arith) (ground arith)
        (ground arith)
        (λ k. (ground arith, fresh_instance-Fresh (s.leases (target_id r)) s.now _ (ground arith)))

  act_transfer-Moves :
      {r' : HandoffRow} {o' : OwnershipRow} {ids : List String} {b' : Budget}
      → act_transfer q s b o r ≡ change r' (some o') ids b'
      → Moves q s.leases s.now r o o'
  unfolding act_transfer
  act_transfer-Moves h =
      let over = drain_over-DrainOver (ground arith) in
      elim (Kind-cases r.kind) [
        | inl k ↦
            hands_over (ground arith) (ground arith) (ground arith) (ground arith) (ground arith) k
              (ground arith)
              (
                ground arith,
                fresh_instance-Fresh (s.leases (target_id r)) s.now q.lease_duration (ground arith),
              )
              over
        | inr k ↦
            gives_up (ground arith) (ground arith) (ground arith) (ground arith) (ground arith) k
              (ground arith) over
      ]

  pub act-Moves :
      (a : Action) {r' : HandoffRow} {o' : OwnershipRow} {ids : List String} {b' : Budget}
      → act q s b a o r ≡ change r' (some o') ids b'
      → Moves q s.leases s.now r o o'
  unfolding act act_prepare act_ack_drain act_ack_active
  act-Moves Action.prepare h = ground arith
  act-Moves Action.begin h = act_begin-Moves h
  act-Moves Action.withdraw h = act_begin-Moves h
  act-Moves Action.ack_drain h = ground arith
  act-Moves Action.transfer h = act_transfer-Moves h
  act-Moves Action.ack_active h = ground arith
  act-Moves Action.other h = cc

  -- The owner that loses authority is the handoff's source, at its epoch, and its revision moves.
  pub act-source :
      (a : Action) {r' : HandoffRow} {o' : OwnershipRow} {ids : List String} {b' : Budget}
      → act q s b a o r ≡ change r' (some o') ids b'
      → (o.owner_instance_id ≡ some r.source_instance_id)
        × (o.epoch ≡ r.source_epoch)
        × (mem_text r.source_instance_id ids ≡ true)
        × (o'.slot_id ≡ o.slot_id)
  unfolding act act_prepare act_begin act_ack_drain act_transfer act_ack_active
  act-source Action.prepare h = ground arith
  act-source Action.begin h = ground arith
  act-source Action.withdraw h = ground arith
  act-source Action.ack_drain h = ground arith
  act-source Action.transfer h = ground arith
  act-source Action.ack_active h = ground arith
  act-source Action.other h = cc
