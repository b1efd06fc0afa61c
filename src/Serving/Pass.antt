-- ===== src/Serving/Pass.antt =====
-- `HandoffPass`, biz/authority.go: what an instance asks of the handoffs that concern it.
use sindri.Prelude.{
  ◌++◌, ℕ, suc, ◌+◌, ◌≤◌, ◌<◌, String, Bool, true, false, not, ◌&&◌, Option, none, some, List, [],
  ◌∷◌, length, Table, lookup, ℕ_discrete, ◌==◌, str_eq, if◌then◌else◌, ◌≡◌, refl, All, arith, ◌⊎◌,
  inl, inr, Bool-cases, if-either, if_pos, some_injective, sym, ◌∙◌, ap, Unique, Option-cases,
}
use sindri.Prelude.Int64.{Int64, lt64}
use sindri.Store.{Kind, Phase, next64}
use sindri.Handoffs.{Handoff, Action, Command, prepare, begin, ack_drain, transfer, ack_active}
use sindri.Serving.{LocalSlot, Allocator}

-- `handoffPriority`.
unfoldable pub handoff_priority : Handoff → ℕ
handoff_priority h = elim h.phase [
  | Phase.transferred ↦ 0
  | Phase.draining ↦ 1
  | Phase.ready ↦ 2
  | _ ↦ 3
]

-- sort.SliceStable by priority: the handoffs of each priority in turn, in their order.
unfoldable pub with_priority : ℕ → List Handoff → List Handoff
with_priority p [] = []
with_priority p (h ∷ hs) =
    let rest = with_priority p hs in if handoff_priority h == p then h ∷ rest else rest

-- The slot is served under the epoch after the source's, through an open gate.
unfoldable pub serves_next : Handoff → Option LocalSlot → Bool
serves_next h none = false
serves_next h (some s) = not s.draining && s.epoch == next64 h.source_epoch

-- The withdrawn gate is closed, under the source's epoch, with no allocation inside.
unfoldable pub is_drained : Handoff → Option LocalSlot → Bool
is_drained h none = false
is_drained h (some s) = s.epoch == h.source_epoch && s.draining && s.inflight == 0

unfoldable pub target_action : Allocator → Handoff → Option Action
target_action a h = elim h.phase [
  | Phase.planned ↦ some prepare
  | Phase.ready ↦ some begin
  | Phase.draining ↦ if h.target_ready then some transfer else some prepare
  | Phase.transferred ↦
      if serves_next h (lookup ℕ_discrete h.slot_id a.slots) then some ack_active else none
  | _ ↦ none
]

abbrev is_release : Kind → Bool
is_release Kind.release = true
is_release Kind.transfer = false

abbrev is_draining : Phase → Bool
is_draining Phase.draining = true
is_draining _ = false

unfoldable pub source_action : Allocator → Handoff → Option Action
source_action a h =
    if is_drained h (lookup ℕ_discrete h.slot_id a.draining_slots) && not h.drained
    then some ack_drain
    else (if is_release h.kind then some transfer else none)

-- The action for one handoff, at the monotonic time `now`.
unfoldable pub pass_action : Int64 → Allocator → Handoff → Option Action
unfolding target_action source_action
pass_action now a h =
    if str_eq h.target_instance_id a.instance_id && lt64 now a.local_deadline
    then target_action a h
    else (if str_eq h.source_instance_id a.instance_id && is_draining h.phase
        then source_action a h
        else none)

-- The loop over the handoffs, with `n` commands so far: it ends when a batch is full.
unfoldable pub pass_commands : Int64 → Allocator → ℕ → ℕ → List Handoff → List Command
pass_commands now a batch n [] = []
pass_commands now a batch n (h ∷ hs) =
    let more = pass_commands now a batch (suc n) hs in
    let same = pass_commands now a batch n hs in
    elim (pass_action now a h) [
      | none ↦ same
      | some act ↦ record { handoff = h; action = act } ∷ (if suc n == batch then [] else more)
    ]

-- The commands of a pass.
unfoldable pub handoff_pass : Int64 → Allocator → ℕ → List Handoff → List Command
handoff_pass now a batch hs =
    pass_commands now a batch 0
      (with_priority 0 hs ++ with_priority 1 hs ++ with_priority 2 hs ++ with_priority 3 hs)

-- needsDrain: the source epoch of a drain that this instance has still to acknowledge.
unfoldable pub needs_drain : String → ℕ → List Handoff → Option ℕ
needs_drain id k [] = none
needs_drain id k (h ∷ hs) = elim (needs_drain id k hs) [
  | some epoch ↦ some epoch
  | none ↦
      if h.slot_id == k && str_eq h.source_instance_id id && is_draining h.phase && not h.drained
      then some h.source_epoch
      else none
]

abbrev epoch_or_zero : Option ℕ → ℕ
epoch_or_zero none = 0
epoch_or_zero (some epoch) = epoch

-- The withdrawn gates that a pass forgets: drained, with no drain to acknowledge.
unfoldable pub forget_drained : String → List Handoff → Table ℕ LocalSlot → Table ℕ LocalSlot
forget_drained id hs [] = []
forget_drained id hs ((k, s) ∷ t) =
    let rest = forget_drained id hs t in
    if not (epoch_or_zero (needs_drain id k hs) == s.epoch) && s.inflight == 0
    then rest
    else (k, s) ∷ rest

-- What stands behind a command of the pass.
pub record Justified (now : Int64) (a : Allocator) (c : Command) : Type 0 where
  -- A drain is acknowledged only with the gate closed, nothing inside, at the source's epoch.
  pub drained :
      c.action ≡ ack_drain
      → (s : LocalSlot) × (lookup ℕ_discrete c.handoff.slot_id a.draining_slots ≡ some s)
        × (s.epoch ≡ c.handoff.source_epoch)
        × (s.draining ≡ true)
        × (s.inflight ≡ 0)
  -- A slot is acknowledged as active only while it is served.
  pub served :
      c.action ≡ ack_active
      → (s : LocalSlot) × (lookup ℕ_discrete c.handoff.slot_id a.slots ≡ some s)
        × (s.epoch ≡ next64 c.handoff.source_epoch)
        × (s.draining ≡ false)
  -- A target acts only under its lease; what is left to a source without one is to acknowledge its
  -- drain and to end its release.
  pub leased :
      (lt64 now a.local_deadline ≡ true)
      ⊎ (c.action ≡ ack_drain)
      ⊎ ((c.action ≡ transfer) × (c.handoff.kind ≡ Kind.release))

module _ (now : Int64) (a : Allocator) (h : Handoff) where
  abbrev command : Action → Command
  command act = record { handoff = h; action = act }

  serves_next-served :
      (o : Option LocalSlot)
      → lookup ℕ_discrete h.slot_id a.slots ≡ o
      → serves_next h o ≡ true
      → (s : LocalSlot) × (lookup ℕ_discrete h.slot_id a.slots ≡ some s)
        × (s.epoch ≡ next64 h.source_epoch)
        × (s.draining ≡ false)
  unfolding serves_next
  serves_next-served none e t = absurd (cc)
  serves_next-served (some s) e t = (s, e, ground arith, ground arith)

  is_drained-drained :
      (o : Option LocalSlot)
      → lookup ℕ_discrete h.slot_id a.draining_slots ≡ o
      → is_drained h o ≡ true
      → (s : LocalSlot) × (lookup ℕ_discrete h.slot_id a.draining_slots ≡ some s)
        × (s.epoch ≡ h.source_epoch)
        × (s.draining ≡ true)
        × (s.inflight ≡ 0)
  unfolding is_drained
  is_drained-drained none e t = absurd (cc)
  is_drained-drained (some s) e t = (s, e, ground arith, ground arith, ground arith)

  target_action-Justified :
      (act : Action)
      → lt64 now a.local_deadline ≡ true
      → target_action a h ≡ some act
      → Justified now a (command act)
  unfolding target_action
  target_action-Justified act live e = record {
    drained = λ q. absurd (ground arith);
    served = λ q. serves_next-served _ refl (ground arith);
    leased = inl live;
  }

  source_action-Justified :
      (act : Action) → source_action a h ≡ some act → Justified now a (command act)
  unfolding source_action
  source_action-Justified act e = record {
    drained = λ q. is_drained-drained _ refl (ground arith);
    served = λ q. absurd (ground arith);
    leased = (ground arith);
  }

  pass_action-Justified :
      (act : Action) → pass_action now a h ≡ some act → Justified now a (command act)
  unfolding pass_action
  pass_action-Justified act e =
      let mine = str_eq h.target_instance_id a.instance_id && lt64 now a.local_deadline in
      let source = str_eq h.source_instance_id a.instance_id && is_draining h.phase in
      elim (Bool-cases mine) [
        | inl t ↦ target_action-Justified act (ground arith) (rw (t, pass_action) at e)
        | inr t ↦ elim (Bool-cases source) [
          | inl u ↦ source_action-Justified act (rw (t, u, pass_action) at e)
          | inr u ↦ absurd (ground arith)
        ]
      ]

Full : ℕ → ℕ → List Command → Type 0
Full batch n cs = (n < batch) → n + length cs ≤ batch

pass_commands-Justified :
    (now : Int64) (a : Allocator) (batch n : ℕ) (hs : List Handoff)
    → All (Justified now a) (pass_commands now a batch n hs)
      × Full batch n (pass_commands now a batch n hs)
unfolding pass_commands Full
pass_commands-Justified now a batch n [] = (tt, λ l. omega (arith, l))
pass_commands-Justified now a batch n (h ∷ hs) =
    let (more, long) = pass_commands-Justified now a batch (suc n) hs in
    let (same, fits) = pass_commands-Justified now a batch n hs in
    elim (Option-cases (pass_action now a h)) [
      | inl e ↦ rw (e, pass_commands) (same, fits)
      | inr (act, e) ↦
          rw (e, pass_commands)
            (if-either
              (λ (cs : List Command).
                All (Justified now a) (record { handoff = h; action = act } ∷ cs)
                × Full batch n (record { handoff = h; action = act } ∷ cs))
              (suc n == batch)
              (λ full. ((pass_action-Justified now a h act e, tt), λ l. omega (arith, l)))
              (λ room. ((pass_action-Justified now a h act e, more), λ l. ground (arith, long))))
    ]

-- Every command of a pass is justified by the allocator's gates and its lease, and a batch that
-- may hold a command holds no more than it may.
pub handoff_pass-Justified :
    (now : Int64) (a : Allocator) (batch : ℕ) (hs : List Handoff)
    → 0 < batch
    → All (Justified now a) (handoff_pass now a batch hs)
      × (length (handoff_pass now a batch hs) ≤ batch)
unfolding handoff_pass Full
handoff_pass-Justified now a batch hs room =
    let sorted =
      with_priority 0 hs ++ with_priority 1 hs ++ with_priority 2 hs ++ with_priority 3 hs in
    let (justified, fits) = pass_commands-Justified now a batch 0 sorted in
    (justified, omega (arith, fits room))

-- A pass keeps every withdrawn gate whose drain it has still to acknowledge.
pub forget_drained-keeps :
    (id : String) (hs : List Handoff) (t : Table ℕ LocalSlot) (k : ℕ) (s : LocalSlot)
    → Unique ℕ_discrete t
    → lookup ℕ_discrete k t ≡ some s
    → needs_drain id k hs ≡ some s.epoch
    → lookup ℕ_discrete k (forget_drained id hs t) ≡ some s
unfolding lookup forget_drained
forget_drained-keeps id hs [] k s u e n = absurd (cc)
forget_drained-keeps id hs ((j, r) ∷ t) k s (fresh, u) e n = elim (ℕ_discrete j k) [
  | yes same ↦
      let here : r ≡ s = some_injective (sym (if_pos (ℕ_discrete j k) same _ _) ∙ e) in
      let wanted : needs_drain id j hs ≡ some r.epoch =
        ap (λ i. needs_drain id i hs) same ∙ n ∙ ap (λ (x : LocalSlot). some x.epoch) (sym here) in
      rw wanted (ground (arith, here))
  | no other ↦ ground (arith, forget_drained-keeps id hs t k s u, n)
]
